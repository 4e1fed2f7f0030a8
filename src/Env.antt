-- ===== src/Env.antt =====
-- What phat.c calls and this library does not model: the red-black tree (rbtree.h), zlib's crc32,
-- the memory that talloc hands out, and the result that a compiler gives to a shift which C leaves undefined.
pub mod Ordered
use phat.Types.{Ptr, Finfo, Cinfo, Hobject, Arc}
use phat.Base.{ℕ, ◌^◌, ◌<◌, ◌%◌, ◌≡◌, ◌==◌, if◌then◌else◌, Option, none, some, List, arith, eq_refl}

-- The nodes of a tree, as phat.c walks them through `tree->root`, `left`, `right` and `data`.
pub data Node (A : Type 0) : Type 0 where
  leaf : Node A
  node : Node A → ℕ → A → Node A → Node A

-- rbtree.h: a map from `uint32_t` keys, with the laws that phat.c relies on: a lookup finds what was
-- last inserted under the key, and nothing else.
pub record Env : Type 1 where
  pub Tree : Type 0 → Type 0
  pub trbt_create : (A : Type 0) → Tree A
  pub trbt_insert32 : {A : Type 0} → Tree A → ℕ → A → Tree A
  pub trbt_lookup32 : {A : Type 0} → Tree A → ℕ → Option A
  pub root : {A : Type 0} → Tree A → Node A
  pub lookup-create : (A : Type 0) (k : ℕ) → trbt_lookup32 (trbt_create A) k ≡ none
  pub lookup-insert :
      {A : Type 0} (t : Tree A) (k j : ℕ) (v : A)
      → k < 2 ^ 32
      → j < 2 ^ 32
      → trbt_lookup32 (trbt_insert32 t k v) j ≡ (if k == j then some v else trbt_lookup32 t j)
  -- zlib: crc32(0, Z_NULL, 0) and crc32(crc, buf, len)
  pub crc32_init : ℕ
  pub crc32 : ℕ → List ℕ → ℕ
  -- talloc.h: what the p-th block, or an element of an array, holds before the code writes to it
  pub talloc_cinfo : Ptr → Cinfo
  pub talloc_hobject : Ptr → Hobject
  pub talloc_arc : Ptr → Arc
  pub talloc_static : ℕ → Hobject
  pub talloc_finfo : Finfo

module _ ⦃env : Env⦄ where
  -- A key is an argument of type `uint32_t`: a wider value is converted at the call.
  unfoldable pub lookup32 : {A : Type 0} → env.Tree A → ℕ → Option A
  lookup32 t k = env.trbt_lookup32 t (k % 2 ^ 32)

  unfoldable pub insert32 : {A : Type 0} → env.Tree A → ℕ → A → env.Tree A
  insert32 t k v = env.trbt_insert32 t (k % 2 ^ 32) v

  -- Two keys that agree in their low 32 bits are one key.
  pub lookup32-insert32 :
      {A : Type 0} (t : env.Tree A) (k j : ℕ) (v : A)
      → lookup32 (insert32 t k v) j ≡ (if k % 2 ^ 32 == j % 2 ^ 32 then some v else lookup32 t j)
  unfolding lookup32 insert32
  lookup32-insert32 t k j v =
      env.lookup-insert t (k % 2 ^ 32) (j % 2 ^ 32) v (omega arith) (omega arith)

  pub lookup32-insert32_self :
      {A : Type 0} (t : env.Tree A) (k : ℕ) (v : A) → lookup32 (insert32 t k v) k ≡ some v
  lookup32-insert32_self t k v = rw (lookup32-insert32, eq_refl)

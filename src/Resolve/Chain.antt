-- ===== src/Resolve/Chain.antt =====
-- `resolveSClassSize` along a chain of superclasses.
use phat.Base.{
  ℕ, zero, suc, ◌+◌, ◌<◌, ◌≡◌, ◌≢◌, refl, some, List, [], ◌∷◌, length, get_elem?, arith,
  ne→eq_false,
}
use phat.Env.{Env, lookup32}
use phat.Types.{Ptr, Cinfo}
use phat.Dump.{Jdump, ok, steps}
use phat.Resolve.Layout.{resolve_sclass_size}

abbrev pub sum : List ℕ → ℕ
sum [] = 0
sum (n ∷ ns) = n + sum ns

module _ ⦃env : Env⦄ where
  -- The numbers of fields of a class and of its superclasses, up to the first without a superclass,
  -- which does not count.
  pub data Supers (d : Jdump) : Ptr → List ℕ → Type 0 where
    top : (p : Ptr) (ci : Cinfo) → get_elem? d.classes p ≡ some ci → ci.super_id ≡ 0 → Supers d p []
    below :
        (p q : Ptr) (ci : Cinfo) (ns : List ℕ)
        → get_elem? d.classes p ≡ some ci
        → ci.super_id ≢ 0
        → lookup32 d.c_table ci.super_id ≡ some q
        → Supers d q ns
        → Supers d p (ci.cfields ∷ ns)

  -- Where a chain of superclasses ends, and the fuel is more than the classes in it, the size is the
  -- sum of their numbers of fields, and nothing changes.
  pub resolve_sclass_size-sum :
      (fuel : ℕ) (d : Jdump) (p : Ptr) (ns : List ℕ)
      → Supers d p ns
      → length ns < fuel
      → resolve_sclass_size fuel p d ≡ ok (sum ns) d
  unfolding resolve_sclass_size steps
  resolve_sclass_size-sum zero d p ns s lt = absurd (omega (arith, lt))
  resolve_sclass_size-sum (suc k) d p ns (top p' ci e root) lt = rw (e, root) refl
  resolve_sclass_size-sum (suc k) d p ns (below p' q ci ms e has found s) lt =
      rw
        (
          e,
          ne→eq_false ci.super_id 0 has,
          found,
          resolve_sclass_size-sum k d q ms s (omega (arith, lt)),
        )
        refl

-- ===== src/Env/Ordered.antt =====
-- Trees whose keys are in order, as those of rbtree.c are: what is on the left of a node has lower
-- keys, and what is on its right higher ones.
use phat.Base.{ℕ, ◌<◌, ◌≡◌, refl, ap, List, [], ◌∷◌, ◌++◌, All, arith}
use phat.Env.{Node, leaf, node}

module _ {A : Type 0} where
  -- The keys with their data, from left to right.
  abbrev pub entries : Node A → List (ℕ × A)
  entries leaf = []
  entries (node l key a r) = entries l ++ ((key, a) ∷ entries r)

  abbrev pub data_of : List (ℕ × A) → List A
  data_of [] = []
  data_of ((key, a) ∷ es) = a ∷ data_of es

  abbrev pub Below : ℕ → List (ℕ × A) → Type 0
  Below key es = All (λ e. e.0 < key) es

  abbrev pub Above : ℕ → List (ℕ × A) → Type 0
  Above key es = All (λ e. key < e.0) es

  abbrev pub SearchTree : Node A → Type 0
  SearchTree leaf = Unit {0}
  SearchTree (node l key a r) =
      Below key (entries l) × Above key (entries r) × SearchTree l × SearchTree r

  abbrev pub Ascending : List (ℕ × A) → Type 0
  Ascending [] = Unit {0}
  Ascending (e ∷ es) = Above e.0 es × Ascending es

  pub data_of-append : (xs ys : List (ℕ × A)) → data_of (xs ++ ys) ≡ data_of xs ++ data_of ys
  data_of-append [] ys = refl
  data_of-append ((key, a) ∷ xs) ys = ap (λ l. a ∷ l) (data_of-append xs ys)

  Above-lower : (low key : ℕ) (es : List (ℕ × A)) → low < key → Above key es → Above low es
  Above-lower low key [] lt h = tt
  Above-lower low key (e ∷ es) lt (h, hs) = (omega (arith, lt, h), Above-lower low key es lt hs)

  Above-join :
      (low key : ℕ) (a : A) (xs ys : List (ℕ × A))
      → Above low xs
      → low < key
      → Above low ys
      → Above low (xs ++ ((key, a) ∷ ys))
  Above-join low key a [] ys h lt h' = (lt, h')
  Above-join low key a (x ∷ xs) ys (h, hs) lt h' = (h, Above-join low key a xs ys hs lt h')

  Ascending-join :
      (key : ℕ) (a : A) (xs ys : List (ℕ × A))
      → Below key xs
      → Ascending xs
      → Above key ys
      → Ascending ys
      → Ascending (xs ++ ((key, a) ∷ ys))
  Ascending-join key a [] ys below up above up' = (above, up')
  Ascending-join key a (x ∷ xs) ys (lt, below) (over, up) above up' = (
    Above-join x.0 key a xs ys over lt (Above-lower x.0 key ys lt above),
    Ascending-join key a xs ys below up above up',
  )

  -- The entries of a search tree have their keys in order.
  pub entries-Ascending : (t : Node A) → SearchTree t → Ascending (entries t)
  entries-Ascending leaf h = tt
  entries-Ascending (node l key a r) (below, above, hl, hr) =
      Ascending-join key a (entries l) (entries r) below (entries-Ascending l hl) above
        (entries-Ascending r hr)

-- ===== src/Graph/Insertion.antt =====
-- The sorts of a list of arcs are the insertion sort of the list of pointers.
use mathlib.Core.Path.{◌≡◌, refl, ap}
use phat.Base.{
  Bool-cases, if◌then◌else◌, ℕ, zero, suc, ◌≤◌, inl, inr, Bool, true, false, Option, some, List, [],
  ◌∷◌, ◌++◌, length, length-append, arith,
}
use phat.Env.{Env}
use phat.Types.{Ptr}
use phat.Dump.{Jdump, ok, steps}
use phat.Graph.Sort.{Link, cmp_arc, compare_arcs, find_place}
use phat.Graph.Chains.{head_of, last_of, Lawful, Ends, Entry, Linked}

-- The two parts of a list, before and behind the place of a new element.
module _ (test : Ptr → Ptr → Bool) where
  abbrev pub before : Ptr → List Ptr → List Ptr
  before a [] = []
  before a (b ∷ xs) = let rest = before a xs in if test a b then [] else (b ∷ rest)

  abbrev pub behind : Ptr → List Ptr → List Ptr
  behind a [] = []
  behind a (b ∷ xs) = let rest = behind a xs in if test a b then (b ∷ xs) else rest

  -- The new element stands before the first one at which the test holds.
  abbrev pub insert : Ptr → List Ptr → List Ptr
  insert a xs = before a xs ++ (a ∷ behind a xs)

  -- Insertion sort.
  abbrev pub insertion_sort : List Ptr → List Ptr → List Ptr
  insertion_sort [] sorted = sorted
  insertion_sort (a ∷ xs) sorted = insertion_sort xs (insert a sorted)

  module _ {a b : Ptr} (xs : List Ptr) where
    pub before-stops : test a b ≡ true → before a (b ∷ xs) ≡ []
    before-stops e = ap (λ t. if t then [] else (b ∷ before a xs)) e

    pub before-goes : test a b ≡ false → before a (b ∷ xs) ≡ b ∷ before a xs
    before-goes e = ap (λ t. if t then [] else (b ∷ before a xs)) e

    pub behind-stops : test a b ≡ true → behind a (b ∷ xs) ≡ b ∷ xs
    behind-stops e = ap (λ t. if t then (b ∷ xs) else behind a xs) e

    pub behind-goes : test a b ≡ false → behind a (b ∷ xs) ≡ behind a xs
    behind-goes e = ap (λ t. if t then (b ∷ xs) else behind a xs) e

  pub before-behind : (a : Ptr) (xs : List Ptr) → before a xs ++ behind a xs ≡ xs
  before-behind a [] = refl
  before-behind a (b ∷ xs) = elim (Bool-cases (test a b)) [
    | inl e ↦ rw (before-stops xs e, behind-stops xs e) refl
    | inr e ↦ rw (before-goes xs e, behind-goes xs e) (ap (λ r. b ∷ r) (before-behind a xs))
  ]

  pub length-insert : (a : Ptr) (xs : List Ptr) → length (insert a xs) ≡ suc (length xs)
  length-insert a xs = omega (
    arith,
    length-append (before a xs) (a ∷ behind a xs),
    length-append (before a xs) (behind a xs),
    ap length (before-behind a xs),
  )

module _ ⦃env : Env⦄ where
  -- The pointer to the last of the arcs before the place, or none at the dummy.
  abbrev pub from : Option Ptr → List Ptr → Option Ptr
  from prev [] = prev
  from prev (b ∷ bs) = some (last_of b bs)

  abbrev pub test_of : Link → Ends → Ptr → Ptr → Bool
  test_of l k a b =
      l.stops (compare_arcs (k.arc a) (k.parent a) (k.child a) (k.arc b) (k.parent b) (k.child b))

  module _ (l : Link) (laws : Lawful l) (k : Ends) (d : Jdump) where
    from-next :
        (prev : Option Ptr) (b : Ptr) (bs : List Ptr) → from (some b) bs ≡ from prev (b ∷ bs)
    from-next prev b [] = refl
    from-next prev b (c ∷ bs) = refl

    cmp_arc-entry :
        (a b : Ptr) (n m : Option Ptr)
        → Entry l k d.classes d.arcs a n
        → Entry l k d.classes d.arcs b m
        → cmp_arc a b d
          ≡ ok
              (compare_arcs (k.arc a) (k.parent a) (k.child a) (k.arc b) (k.parent b) (k.child b))
              d
    unfolding cmp_arc steps
    cmp_arc-entry a b n m ea eb =
        let pa = laws.parent-with n (k.arc a) in
        let ca = laws.child-with n (k.arc a) in
        let pb = laws.parent-with m (k.arc b) in
        let cb = laws.child-with m (k.arc b) in
        rw
          (
            ea.stored,
            eb.stored,
            pa,
            ea.parent,
            ca,
            ea.child,
            pb,
            eb.parent,
            cb,
            eb.child,
            laws.count-with n (k.arc a),
            laws.count-with m (k.arc b),
            laws.size-with n (k.arc a),
            laws.size-with m (k.arc b),
          )
          refl

    pub find_place-lem :
        (fuel : ℕ) (a : Ptr) (n prev : Option Ptr) (xs : List Ptr)
        → Entry l k d.classes d.arcs a n
        → Linked l k d.classes d.arcs xs
        → length xs ≤ fuel
        → find_place l fuel a prev (head_of xs) d
          ≡ ok (from prev (before (test_of l k) a xs), head_of (behind (test_of l k) a xs)) d
    unfolding find_place steps
    find_place-lem fuel a n prev [] ea h le = refl
    find_place-lem zero a n prev (b ∷ xs) ea h le = absurd (omega (arith, le))
    find_place-lem (suc f) a n prev (b ∷ xs) ea (eb, h) le =
        let c =
          compare_arcs (k.arc a) (k.parent a) (k.child a) (k.arc b) (k.parent b) (k.child b) in
        let found = cmp_arc-entry a b n (head_of xs) ea eb in
        let rest = find_place-lem f a n (some b) xs ea h (omega (arith, le)) in
        elim (Bool-cases (l.stops c)) [
          | inl e ↦ rw (found, e, eb.stored) refl
          | inr e ↦
              rw (found, e, eb.stored, laws.next-with (head_of xs) (k.arc b), rest)
                (ap (λ q. ok (q, head_of (behind (test_of l k) a xs)) d)
                  (from-next prev b (before (test_of l k) a xs)))
        ]

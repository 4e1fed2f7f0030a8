-- ===== src/Graph/Sorted.antt =====
-- `sort_parents` sorts: the arcs stay the same up to their order, and are in the order of `cmp_arc`.
use mathlib.Core.Path.{◌≡◌, refl}
use mathlib.Core.List.{Perm, perm_middle, append-nil}
use mathlib.Core.List.Perm as Perms
use mathlib.Core.Bool.{true≢false}
use phat.Base.{
  ℕ, ◌-◌, ◌^◌, ◌≤◌, ◌==◌, if◌then◌else◌, inl, inr, Bool, Bool-cases, true, false, some, List, [],
  ◌∷◌, ◌++◌, length, get_elem?, set, arith, subst,
}
use phat.Env.{Env}
use phat.Types.{Ptr, Arc, Cinfo}
use phat.Dump.{Jdump, ok, steps}
use phat.Graph.Sort.{parent_link, compare_arcs, in_cycle, int_sub, is_low, sort_parents}
use phat.Graph.Chains.{Distinct, head_of, Lawful, Ends, Linked}
use phat.Graph.Insertion.{
  before, behind, insert, insertion_sort, before-behind, before-stops, before-goes, behind-stops,
  behind-goes, test_of,
}
use phat.Graph.Rounds.{Ready-start, sorted_arcs, sorted-Linked, sort_loop-lem}

module _ (test : Ptr → Ptr → Bool) where
  -- Each element may stand before the next one.
  abbrev pub Ordered : List Ptr → Type 0
  Ordered [] = Unit {0}
  Ordered (a ∷ []) = Unit {0}
  Ordered (a ∷ b ∷ xs) = (test a b ≡ true) × Ordered (b ∷ xs)

  pub insertion_sort-Perm :
      (xs sorted : List Ptr) → Perm (insertion_sort test xs sorted) (xs ++ sorted)
  insertion_sort-Perm [] sorted = Perms.refl sorted
  insertion_sort-Perm (a ∷ xs) sorted =
      let placed : Perm (insert test a sorted) (a ∷ sorted) =
        subst (λ s. Perm (insert test a sorted) (a ∷ s)) (before-behind test a sorted)
          (perm_middle (before test a sorted) (behind test a sorted)) in
      Perms.trans (insertion_sort-Perm xs (insert test a sorted))
        (Perms.trans (Perms.append_left xs placed) (perm_middle xs sorted))

  module _ (total : (a b : Ptr) → test a b ≡ false → test b a ≡ true) where
    insert-behind :
        (a b : Ptr) (xs : List Ptr)
        → test b a ≡ true
        → Ordered (b ∷ xs)
        → Ordered (b ∷ insert test a xs)
    insert-behind a b [] e h = (e, tt)
    insert-behind a b (c ∷ xs) e (first, h) = elim (Bool-cases (test a c)) [
      | inl t ↦
          rw (before-stops test {a = a} {b = c} xs t, behind-stops test {a = a} {b = c} xs t)
            (e, (t, h))
      | inr t ↦
          rw (before-goes test {a = a} {b = c} xs t, behind-goes test {a = a} {b = c} xs t)
            (first, insert-behind a c xs (total a c t) h)
    ]

    insert-Ordered : (a : Ptr) (xs : List Ptr) → Ordered xs → Ordered (insert test a xs)
    insert-Ordered a [] h = tt
    insert-Ordered a (b ∷ xs) h = elim (Bool-cases (test a b)) [
      | inl t ↦
          rw (before-stops test {a = a} {b = b} xs t, behind-stops test {a = a} {b = b} xs t) (t, h)
      | inr t ↦
          rw (before-goes test {a = a} {b = b} xs t, behind-goes test {a = a} {b = b} xs t)
            (insert-behind a b xs (total a b t) h)
    ]

    pub insertion_sort-Ordered :
        (xs sorted : List Ptr) → Ordered sorted → Ordered (insertion_sort test xs sorted)
    insertion_sort-Ordered [] sorted h = h
    insertion_sort-Ordered (a ∷ xs) sorted h =
        insertion_sort-Ordered xs (insert test a sorted) (insert-Ordered a sorted h)

-- The choices of cmp_arc, on the answers of its tests.
abbrev pub choose : Bool → Bool → Bool → Bool → ℕ → ℕ → ℕ
choose s t u v count size =
    if s
    then 2 ^ 32 - 1
    else if t
    then 1
    else if u
    then (if v then count else 2 ^ 32 - 1)
    else if v
    then 1
    else if size == 0
    then count
    else size

int_sub-low : (a b : ℕ) → is_low (int_sub a b) ≡ false → is_low (int_sub b a) ≡ true
int_sub-low a b h = ground arith

pub int_sub-zero : (a b : ℕ) → (int_sub a b == 0) ≡ (int_sub b a == 0)
int_sub-zero a b = ground arith

pub choose_size :
    (test : ℕ → Bool) (z : Bool) (c c' s s' : ℕ)
    → (test c ≡ false → test c' ≡ true)
    → (test s ≡ false → test s' ≡ true)
    → test (if z then c else s) ≡ false
    → test (if z then c' else s') ≡ true
choose_size test true c c' s s' f g h = f h
choose_size test false c c' s s' f g h = g h

choose-low :
    (s t u v : Bool) (a b x y : ℕ)
    → is_low (choose s t u v (int_sub a b) (int_sub x y)) ≡ false
    → is_low (choose t s v u (int_sub b a) (int_sub y x)) ≡ true
choose-low true t u v a b x y h = absurd (true≢false h)
choose-low false true u v a b x y h = refl
choose-low false false true true a b x y h = int_sub-low a b h
choose-low false false true false a b x y h = absurd (true≢false h)
choose-low false false false true a b x y h = refl
choose-low false false false false a b x y h =
    subst (λ z. is_low (if z then int_sub b a else int_sub y x) ≡ true) (int_sub-zero x y)
      (choose_size is_low (int_sub x y == 0) (int_sub a b) (int_sub b a) (int_sub x y) (int_sub y x)
        (int_sub-low a b) (int_sub-low x y) h)

module _ ⦃env : Env⦄ where
  test_of-total :
      (k : Ends) (a b : Ptr) → test_of parent_link k a b ≡ false → test_of parent_link k b a ≡ true
  unfolding compare_arcs
  test_of-total k a b h =
      choose-low ((k.arc a).parent == (k.arc a).child) ((k.arc b).parent == (k.arc b).child)
        (in_cycle (k.parent a) (k.child a)) (in_cycle (k.parent b) (k.child b)) (k.arc a).count
        (k.arc b).count (k.arc a).size (k.arc b).size h

  parent_link-Lawful : Lawful parent_link
  parent_link-Lawful = record {
    next-with = λ n a. refl;
    with-with = λ n m a. refl;
    parent-with = λ n a. refl;
    child-with = λ n a. refl;
    count-with = λ n a. refl;
    size-with = λ n a. refl;
  }

  -- On a class whose arcs from its parents are linked as the list `xs`, with no arc twice, and on
  -- fuel of at least its length, sort_parents returns. The arcs are then linked as a list `ys` that
  -- the class points to: `ys` has the arcs of `xs`, only their order may be another, and cmp_arc of
  -- an arc of `ys` and the next one is zero or less.
  pub sort_parents-sorts :
      (fuel : ℕ) (d : Jdump) (p : Ptr) (ci : Cinfo) (k : Ends) (xs : List Ptr)
      → get_elem? d.classes p ≡ some ci
      → ci.parents ≡ head_of xs
      → Linked parent_link k d.classes d.arcs xs
      → Distinct xs
      → length xs ≤ fuel
      → (arcs : List Arc) × (ys : List Ptr) × (sort_parents fuel p d
          ≡ ok tt (record d {
            arcs = arcs;
            classes = set d.classes p (record ci { parents = head_of ys });
          }))
        × Linked parent_link k d.classes arcs ys
        × Perm ys xs
        × Ordered (test_of parent_link k) ys
  unfolding sort_parents steps
  sort_parents-sorts fuel d p ci k xs e first linked distinct le =
      let ready = Ready-start parent_link k d.classes d.arcs xs linked distinct in
      let test = test_of parent_link k in
      let ran =
        sort_loop-lem parent_link k parent_link-Lawful fuel fuel d xs [] ready le
          (omega (arith, le)) in
      (
        sorted_arcs parent_link k d.arcs xs [],
        insertion_sort test xs [],
        rw (e, first, ran, e) refl,
        sorted-Linked parent_link k d.classes d.arcs xs [] ready,
        subst (Perm (insertion_sort test xs [])) (append-nil xs) (insertion_sort-Perm test xs []),
        insertion_sort-Ordered test (test_of-total k) xs [] tt,
      )

-- ===== src/Graph/Children.antt =====
-- `sort_children` sorts where no class refers to itself and the numbers of the arcs are small.
use mathlib.Core.Path.{◌≡◌, refl}
use mathlib.Core.List.{Perm, append-nil}
use mathlib.Core.Bool.{true≢false}
use phat.Base.{
  ℕ, ◌^◌, ◌≤◌, ◌<◌, ◌≢◌, ◌==◌, if◌then◌else◌, Bool, true, false, some, List, [], length, get_elem?,
  set, arith, subst, ne→eq_false,
}
use phat.Env.{Env}
use phat.Types.{Ptr, Arc, Cinfo}
use phat.Dump.{Jdump, ok, steps}
use phat.Graph.Sort.{child_link, compare_arcs, in_cycle, int_sub, is_high, sort_children}
use phat.Graph.Chains.{Distinct, head_of, Lawful, Ends, Linked}
use phat.Graph.Insertion.{insertion_sort, test_of}
use phat.Graph.Rounds.{Ready-start, sorted_arcs, sorted-Linked, sort_loop-lem}
use phat.Graph.Sorted.{
  Ordered, choose, choose_size, int_sub-zero, insertion_sort-Perm, insertion_sort-Ordered,
}

int_sub-high :
    (a b : ℕ)
    → a < 2 ^ 31
    → b < 2 ^ 31
    → is_high (int_sub a b) ≡ false
    → is_high (int_sub b a) ≡ true
int_sub-high a b la lb h = ground arith

choose-high :
    (s t u v : Bool) (a b x y : ℕ)
    → s ≡ false
    → t ≡ false
    → a < 2 ^ 31
    → b < 2 ^ 31
    → x < 2 ^ 31
    → y < 2 ^ 31
    → is_high (choose s t u v (int_sub a b) (int_sub x y)) ≡ false
    → is_high (choose t s v u (int_sub b a) (int_sub y x)) ≡ true
choose-high true t u v a b x y self self' la lb lx ly h = absurd (true≢false self)
choose-high false true u v a b x y self self' la lb lx ly h = absurd (true≢false self')
choose-high false false true true a b x y self self' la lb lx ly h = int_sub-high a b la lb h
choose-high false false true false a b x y self self' la lb lx ly h = refl
choose-high false false false true a b x y self self' la lb lx ly h = absurd (true≢false h)
choose-high false false false false a b x y self self' la lb lx ly h =
    subst (λ z. is_high (if z then int_sub b a else int_sub y x) ≡ true) (int_sub-zero x y)
      (choose_size is_high (int_sub x y == 0) (int_sub a b) (int_sub b a) (int_sub x y)
        (int_sub y x) (int_sub-high a b la lb) (int_sub-high x y lx ly) h)

module _ ⦃env : Env⦄ where
  -- An arc between two classes, whose numbers are below 2^31.
  pub record Small (a : Arc) : Type 0 where
    pub apart : a.parent ≢ a.child
    pub count : a.count < 2 ^ 31
    pub size : a.size < 2 ^ 31

  test_of-total :
      (k : Ends) (small : (a : Ptr) → Small (k.arc a)) (a b : Ptr)
      → test_of child_link k a b ≡ false
      → test_of child_link k b a ≡ true
  unfolding compare_arcs
  test_of-total k small a b h =
      let apart_a = ne→eq_false (k.arc a).parent (k.arc a).child (small a).apart in
      let apart_b = ne→eq_false (k.arc b).parent (k.arc b).child (small b).apart in
      choose-high ((k.arc a).parent == (k.arc a).child) ((k.arc b).parent == (k.arc b).child)
        (in_cycle (k.parent a) (k.child a)) (in_cycle (k.parent b) (k.child b)) (k.arc a).count
        (k.arc b).count (k.arc a).size (k.arc b).size apart_a apart_b (small a).count
        (small b).count (small a).size (small b).size h

  child_link-Lawful : Lawful child_link
  child_link-Lawful = record {
    next-with = λ n a. refl;
    with-with = λ n m a. refl;
    parent-with = λ n a. refl;
    child-with = λ n a. refl;
    count-with = λ n a. refl;
    size-with = λ n a. refl;
  }

  -- On a class whose arcs to its children are linked as the list `xs`, with no arc twice and none to
  -- the class itself, where all counts and sizes are below 2^31, and on fuel of at least its length,
  -- sort_children returns. The arcs are then linked as a list `ys` that the class points to: `ys` has
  -- the arcs of `xs`, only their order may be another, and cmp_arc of an arc of `ys` and the next one
  -- is zero or more.
  pub sort_children-sorts :
      (fuel : ℕ) (d : Jdump) (p : Ptr) (ci : Cinfo) (k : Ends) (xs : List Ptr)
      → get_elem? d.classes p ≡ some ci
      → ci.children ≡ head_of xs
      → Linked child_link k d.classes d.arcs xs
      → Distinct xs
      → ((a : Ptr) → Small (k.arc a))
      → length xs ≤ fuel
      → (arcs : List Arc) × (ys : List Ptr) × (sort_children fuel p d
          ≡ ok tt (record d {
            arcs = arcs;
            classes = set d.classes p (record ci { children = head_of ys });
          }))
        × Linked child_link k d.classes arcs ys
        × Perm ys xs
        × Ordered (test_of child_link k) ys
  unfolding sort_children steps
  sort_children-sorts fuel d p ci k xs e first linked distinct small le =
      let ready = Ready-start child_link k d.classes d.arcs xs linked distinct in
      let test = test_of child_link k in
      let ran =
        sort_loop-lem child_link k child_link-Lawful fuel fuel d xs [] ready le
          (omega (arith, le)) in
      (
        sorted_arcs child_link k d.arcs xs [],
        insertion_sort test xs [],
        rw (e, first, ran, e) refl,
        sorted-Linked child_link k d.classes d.arcs xs [] ready,
        subst (Perm (insertion_sort test xs [])) (append-nil xs) (insertion_sort-Perm test xs []),
        insertion_sort-Ordered test (test_of-total k small) xs [] tt,
      )

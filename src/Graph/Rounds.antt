-- ===== src/Graph/Rounds.antt =====
-- The rounds of `sort_parents` and `sort_children`: what they leave in the store of arcs.
use mathlib.Core.Path.{◌≡◌, refl, ap, sym}
use phat.Base.{
  ℕ, zero, suc, ◌+◌, ◌≤◌, Option, none, some, List, [], ◌∷◌, ◌++◌, length, set, arith, subst,
}
use phat.Env.{Env}
use phat.Types.{Ptr, Arc, Cinfo}
use phat.Dump.{Jdump, ok, steps}
use phat.Graph.Sort.{Link, find_place, insert_arc, sort_loop}
use phat.Graph.Chains.{
  Disjoint-nil, Apart, Distinct, Disjoint, head_of, last_of, Lawful, Ends, Entry, Linked,
  Linked-frame, Entry-set, last-Entry, Linked-insert, Distinct-insert, Disjoint-insert, last-Apart,
}
use phat.Graph.Insertion.{
  before, behind, insert, insertion_sort, before-behind, length-insert, from, test_of,
  find_place-lem,
}

module _ ⦃env : Env⦄ (l : Link) (k : Ends) where
  -- The arcs after a round of the outer loop, by the parts before and behind the place.
  abbrev pub inserted_arcs : List Arc → Ptr → List Ptr → List Ptr → List Arc
  inserted_arcs arcs a [] cs = set arcs a (l.with_next (head_of cs) (k.arc a))
  inserted_arcs arcs a (b ∷ bs) cs =
      let p = last_of b bs in
      set (set arcs a (l.with_next (head_of cs) (k.arc a))) p (l.with_next (some a) (k.arc p))

  -- What holds between two rounds: the arcs that are left and those that are sorted are linked, and
  -- no arc is twice among them.
  pub record Ready (classes : List Cinfo) (arcs : List Arc) (xs sorted : List Ptr) : Type 0 where
    pub rest : Linked l k classes arcs xs
    pub done : Linked l k classes arcs sorted
    pub rest_distinct : Distinct xs
    pub done_distinct : Distinct sorted
    pub disjoint : Disjoint xs sorted

  pub Ready-start :
      (classes : List Cinfo) (arcs : List Arc) (xs : List Ptr)
      → Linked l k classes arcs xs
      → Distinct xs
      → Ready classes arcs xs []
  Ready-start classes arcs xs linked distinct = record {
    rest = linked;
    done = tt;
    rest_distinct = distinct;
    done_distinct = tt;
    disjoint = Disjoint-nil xs;
  }

  module _ (classes : List Cinfo) (arcs : List Arc) (a : Ptr) (n : Option Ptr)
      (new : Entry l k classes arcs a n) where
    inserted-Linked :
        (bs cs : List Ptr)
        → Apart a (bs ++ cs)
        → Distinct (bs ++ cs)
        → Linked l k classes arcs (bs ++ cs)
        → Linked l k classes (inserted_arcs arcs a bs cs) (bs ++ (a ∷ cs))
    inserted-Linked [] cs away dist h =
        let v = l.with_next (head_of cs) (k.arc a) in
        (
          Entry-set l k classes arcs a n (head_of cs) new,
          Linked-frame l k classes arcs a v cs away h,
        )
    inserted-Linked (b ∷ bs) cs away dist h =
        let v = l.with_next (head_of cs) (k.arc a) in
        Linked-insert l k classes (set arcs a v) a b bs cs (Distinct-insert a (b ∷ bs) cs away dist)
          (Linked-frame l k classes arcs a v (b ∷ (bs ++ cs)) away h)
          (Entry-set l k classes arcs a n (head_of cs) new)

    inserted-frame :
        (bs cs ys : List Ptr)
        → Apart a ys
        → Disjoint ys (bs ++ cs)
        → Linked l k classes arcs ys
        → Linked l k classes (inserted_arcs arcs a bs cs) ys
    inserted-frame [] cs ys away disj h =
        Linked-frame l k classes arcs a (l.with_next (head_of cs) (k.arc a)) ys away h
    inserted-frame (b ∷ bs) cs ys away disj h =
        let v = l.with_next (head_of cs) (k.arc a) in
        let p = last_of b bs in
        Linked-frame l k classes (set arcs a v) p (l.with_next (some a) (k.arc p)) ys
          (last-Apart b bs cs ys disj) (Linked-frame l k classes arcs a v ys away h)

  module _ (classes : List Cinfo) where
    Ready-next :
        (arcs : List Arc) (a : Ptr) (xs sorted : List Ptr)
        → Ready classes arcs (a ∷ xs) sorted
        → let test = test_of l k in
          Ready classes
            (inserted_arcs arcs a (before test a sorted) (behind test a sorted))
            xs
            (insert test a sorted)
    Ready-next arcs a xs sorted r =
        let test = test_of l k in
        let bs = before test a sorted in
        let cs = behind test a sorted in
        let e = sym (before-behind test a sorted) in
        let away : Apart a (bs ++ cs) = subst (Apart a) e r.disjoint.0 in
        let disj : Disjoint xs (bs ++ cs) = subst (Disjoint xs) e r.disjoint.1 in
        let dist : Distinct (bs ++ cs) = subst Distinct e r.done_distinct in
        record {
          rest =
              inserted-frame classes arcs a (head_of xs) r.rest.0 bs cs xs r.rest_distinct.0 disj
                r.rest.1;
          done =
              inserted-Linked classes arcs a (head_of xs) r.rest.0 bs cs away dist
                (subst (Linked l k classes arcs) e r.done);
          rest_distinct = r.rest_distinct.1;
          done_distinct = Distinct-insert a bs cs away dist;
          disjoint = Disjoint-insert a bs cs xs r.rest_distinct.0 disj;
        }

  -- The arcs after the whole loop.
  abbrev pub sorted_arcs : List Arc → List Ptr → List Ptr → List Arc
  sorted_arcs arcs [] sorted = arcs
  sorted_arcs arcs (a ∷ xs) sorted =
      let test = test_of l k in
      sorted_arcs (inserted_arcs arcs a (before test a sorted) (behind test a sorted)) xs
        (insert test a sorted)

  pub sorted-Linked :
      (classes : List Cinfo) (arcs : List Arc) (xs sorted : List Ptr)
      → Ready classes arcs xs sorted
      → Linked l k classes (sorted_arcs arcs xs sorted) (insertion_sort (test_of l k) xs sorted)
  sorted-Linked classes arcs [] sorted r = r.done
  sorted-Linked classes arcs (a ∷ xs) sorted r =
      let test = test_of l k in
      sorted-Linked classes (inserted_arcs arcs a (before test a sorted) (behind test a sorted)) xs
        (insert test a sorted) (Ready-next classes arcs a xs sorted r)

  module _ (laws : Lawful l) where
    insert_arc-place :
        (fuel : ℕ) (d : Jdump) (a : Ptr) (n head : Option Ptr) (bs cs : List Ptr)
        → Entry l k d.classes d.arcs a n
        → Apart a (bs ++ cs)
        → Linked l k d.classes d.arcs (bs ++ cs)
        → find_place l fuel a none head d ≡ ok (from none bs, head_of cs) d
        → head ≡ head_of (bs ++ cs)
        → insert_arc l fuel a head d
          ≡ ok (head_of (bs ++ (a ∷ cs))) (record d { arcs = inserted_arcs d.arcs a bs cs })
    unfolding insert_arc steps
    insert_arc-place fuel d a n head [] cs new away h found first =
        rw (found, new.stored, laws.with-with (head_of cs) n (k.arc a)) refl
    insert_arc-place fuel d a n head (b ∷ bs) cs new away h found first =
        let v = l.with_next (head_of cs) (k.arc a) in
        let p = last_of b bs in
        let h1 = Linked-frame l k d.classes d.arcs a v (b ∷ (bs ++ cs)) away h in
        let at = (last-Entry l k d.classes (set d.arcs a v) b bs cs h1).stored in
        rw
          (
            found,
            new.stored,
            laws.with-with (head_of cs) n (k.arc a),
            at,
            laws.with-with (some a) (head_of cs) (k.arc p),
            first,
          )
          refl

    pub sort_loop-lem :
        (inner fuel : ℕ) (d : Jdump) (xs sorted : List Ptr)
        → Ready d.classes d.arcs xs sorted
        → length xs ≤ fuel
        → length sorted + length xs ≤ inner
        → sort_loop l inner fuel (head_of xs) (head_of sorted) d
          ≡ ok
              (head_of (insertion_sort (test_of l k) xs sorted))
              (record d { arcs = sorted_arcs d.arcs xs sorted })
    unfolding sort_loop steps
    sort_loop-lem inner fuel d [] sorted r le room = refl
    sort_loop-lem inner zero d (a ∷ xs) sorted r le room = absurd (omega (arith, le))
    sort_loop-lem inner (suc f) d (a ∷ xs) sorted r le room =
        let test = test_of l k in
        let bs = before test a sorted in
        let cs = behind test a sorted in
        let e = sym (before-behind test a sorted) in
        let new = r.rest.0 in
        let found =
          find_place-lem l laws k d inner a (head_of xs) none sorted new r.done
            (omega (arith, room)) in
        let round =
          insert_arc-place inner d a (head_of xs) (head_of sorted) bs cs new
            (subst (Apart a) e r.disjoint.0) (subst (Linked l k d.classes d.arcs) e r.done) found
            (ap head_of e) in
        let d1 = record d { arcs = inserted_arcs d.arcs a bs cs } in
        let room1 : length (insert test a sorted) + length xs ≤ inner =
          omega (arith, room, length-insert test a sorted) in
        rw (new.stored, round, laws.next-with (head_of xs) (k.arc a))
          (sort_loop-lem inner f d1 xs (insert test a sorted)
            (Ready-next d.classes d.arcs a xs sorted r) (omega (arith, le)) room1)

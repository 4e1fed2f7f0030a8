-- ===== src/Graph/Prints.antt =====
-- The loops that print the arcs of a class: they stay at their first arc.
use phat.Base.{
  ℕ, zero, suc, ◌≡◌, refl, some, none, [], ◌∷◌, ◌++◌, get_elem?, set, get_elem?-set_same,
}
use phat.Env.{Env}
use phat.Types.{Ptr, Arc, Cinfo, Line}
use phat.Dump.{Jdump, out_of_fuel, steps}
use phat.Graph.Assemble.{print_arcs, print_parents}

module _ ⦃env : Env⦄ where
  print_arcs-endless :
      (fuel : ℕ) (d : Jdump) (p a : Ptr) (ci : Cinfo) (arc : Arc)
      → get_elem? d.classes p ≡ some ci
      → get_elem? d.arcs a ≡ some arc
      → print_arcs fuel p (some a) d ≡ out_of_fuel
  unfolding print_arcs steps
  print_arcs-endless zero d p a ci arc e at = refl
  print_arcs-endless (suc k) d p a ci arc e at =
      let line = Line.arc_line arc.size arc.child_size arc.count in
      let printed = record d { out = (d.out ++ (line ∷ [])) ++ (Line.name_line ci.name ∷ []) } in
      rw (at, e) (print_arcs-endless k printed p a ci arc e at)

  -- print_parents of a class with one arc from a parent never ends: it prints the arc for ever.
  pub print_parents-endless :
      (fuel : ℕ) (d : Jdump) (p a : Ptr) (ci : Cinfo) (arc : Arc)
      → get_elem? d.classes p ≡ some ci
      → ci.parents ≡ some a
      → get_elem? d.arcs a ≡ some arc
      → arc.next_parent ≡ none
      → print_parents fuel p d ≡ out_of_fuel
  unfolding print_parents steps
  print_parents-endless zero d p a ci arc e first at only = rw (e, first, e, first) refl
  print_parents-endless (suc k) d p a ci arc e first at only =
      let arc1 = record arc { next_parent = none } in
      let ci1 = record ci { parents = some a } in
      let d1 = record d { arcs = set d.arcs a arc1; classes = set d.classes p ci1 } in
      let e1 = get_elem?-set_same d.classes p ci1 e in
      let at1 = get_elem?-set_same d.arcs a arc1 at in
      rw (e, first, e, first, at, at, only, e, e1)
        (print_arcs-endless (suc k) d1 p a ci1 arc1 e1 at1)

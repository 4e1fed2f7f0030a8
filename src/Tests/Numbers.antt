-- ===== src/Tests/Numbers.antt =====
-- The numbers of three classes: the first refers to the two others, and the second to the third.
use phat.Base.{
  ℕ, zero, suc, ◌+◌, ◌≤◌, ◌<◌, ◌≡◌, ◌≢◌, refl, Option, none, some, List, [], ◌∷◌, All, length,
  arith,
}
use phat.Env.{Node, leaf, node, lookup32}
use phat.Types.{Ptr, Arc, Cinfo, Root, RootType, Line}
use phat.Dump.{Jdump, ok}
use phat.Graph.{mg_dfn_busy, mg_dfn_lup}
use phat.Graph.Assemble.{arc_iter, root_ident}
use phat.Graph.Numbering.{order_at, pending, last, more, fresh, Vertex, Numbering, Extends}
use phat.Graph.Topological.{with_numbers}
use phat.Graph.Roots.{no_root, a_root, no_object, warned, mg_dfn_lup-Numbering}
use phat.Main.{new_dump}
use phat.Tests.{test_env, blank_class, blank_object}

abbrev kids : Ptr → List Ptr
kids zero = 1 ∷ 2 ∷ []
kids (suc zero) = 2 ∷ []
kids (suc (suc p)) = []

abbrev rank : Ptr → ℕ
rank zero = 2
rank (suc zero) = 1
rank (suc (suc p)) = 0

abbrev arc : Ptr → Ptr → Option Ptr → Arc
arc parent child next = record {
  parent = parent;
  child = child;
  next_parent = none;
  next_child = next;
  count = 1;
  size = 0;
  child_size = 0;
}

abbrev vertex : Ptr → Option Ptr → Cinfo
vertex p children = record blank_class { cyc_head = p; children = children }

abbrev graph : Jdump
graph = record (new_dump none 0 []) {
  h_table = (70, 0) ∷ (71, 1) ∷ [];
  c_table = (20, 0) ∷ (21, 1) ∷ [];
  objects = record blank_object { class_id = 21 } ∷ record blank_object { class_id = 20 } ∷ [];
  classes = vertex 0 (some 0) ∷ vertex 1 (some 2) ∷ vertex 2 none ∷ [];
  arcs = arc 0 1 (some 1) ∷ arc 0 2 none ∷ arc 1 2 none ∷ [];
}

abbrev root : ℕ → Root
root ident = Root.info (record { ident = ident; ref = 0; rtype = RootType.java_local })

abbrev roots : Node Root
roots = node (node leaf 70 (root 70) leaf) 71 (root 71) (node leaf 72 (root 72) leaf)

graph-Vertex : (q : Ptr) → q < length graph.classes → Vertex kids graph.arcs graph.classes q
graph-Vertex zero lt = record {
  class = vertex 0 (some 0);
  here = refl;
  head = refl;
  alone = refl;
  linked = more 0 (arc 0 1 (some 1)) (2 ∷ []) refl (more 1 (arc 0 2 none) [] refl last);
}
graph-Vertex (suc zero) lt = record {
  class = vertex 1 (some 2);
  here = refl;
  head = refl;
  alone = refl;
  linked = more 2 (arc 1 2 none) [] refl last;
}
graph-Vertex (suc (suc zero)) lt = record {
  class = vertex 2 none;
  here = refl;
  head = refl;
  alone = refl;
  linked = last;
}
graph-Vertex (suc (suc (suc q))) lt = absurd (omega (arith, lt))

graph-below : (q : Ptr) → All (λ c. (c < length graph.classes) × (rank c < rank q)) (kids q)
graph-below zero = omega arith
graph-below (suc zero) = omega arith
graph-below (suc (suc q)) = tt

order_at-graph : (q : Ptr) → order_at graph.classes q ≡ 0
unfolding order_at
order_at-graph zero = refl
order_at-graph (suc zero) = refl
order_at-graph (suc (suc zero)) = refl
order_at-graph (suc (suc (suc q))) = refl

graph-Numbering : Numbering kids rank graph.arcs graph.classes 0
unfolding pending
graph-Numbering = record {
  vertex = graph-Vertex;
  below = graph-below;
  kind = λ q. fresh (order_at-graph q);
  room = omega arith;
}

few : (q : Ptr) → length (kids q) ≤ 2
few zero = omega arith
few (suc zero) = omega arith
few (suc (suc q)) = omega arith

fuel : (q : Ptr) → rank q + 2 < 5
fuel zero = omega arith
fuel (suc zero) = omega arith
fuel (suc (suc q)) = omega arith

mg_dfn_lup-Numbering_example :
    (classes : List Cinfo) × (n : ℕ) × (arc_iter (λ r. mg_dfn_lup 5 (root_ident r)) roots graph
      ≡ ok tt (with_numbers (warned graph (Line.invalid_root 72 ∷ [])) classes n))
    × Numbering kids rank graph.arcs classes n
    × Extends kids rank graph.classes classes
    × All (λ p. (1 ≤ order_at classes p) × (order_at classes p ≤ n)) (1 ∷ 0 ∷ [])
    × ((q : Ptr) → order_at classes q ≢ mg_dfn_busy)
unfolding lookup32
mg_dfn_lup-Numbering_example =
    mg_dfn_lup-Numbering kids rank 5 2 graph roots (1 ∷ 0 ∷ []) (Line.invalid_root 72 ∷ []) few fuel
      (a_root (root 70) 0 (record blank_object { class_id = 21 }) 1 (root 71 ∷ root 72 ∷ [])
        (0 ∷ []) (Line.invalid_root 72 ∷ []) refl refl refl (omega arith)
        (a_root (root 71) 1 (record blank_object { class_id = 20 }) 0 (root 72 ∷ []) []
          (Line.invalid_root 72 ∷ []) refl refl refl (omega arith)
          (no_object (root 72) [] [] [] refl no_root)))
      graph-Numbering (λ q e. absurd (omega (arith, e, order_at-graph q)))

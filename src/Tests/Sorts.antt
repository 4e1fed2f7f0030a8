-- ===== src/Tests/Sorts.antt =====
-- The sort of two arcs of a class, the print of one, and the walks over a tree of three.
use phat.Base.{ℕ, zero, suc, ◌≡◌, refl, Option, none, some, List, [], ◌∷◌, set, arith}
use mathlib.Core.List.{Perm}
use phat.Env.{Node, leaf, node}
use phat.Types.{Ptr, Arc, Cinfo}
use phat.Dump.{Jdump, ok, out_of_fuel}
use phat.Graph.Sort.{parent_link, child_link, sort_parents, sort_children}
use phat.Graph.Chains.{Ends, Linked, head_of}
use phat.Graph.Insertion.{test_of}
use phat.Graph.Sorted.{Ordered, sort_parents-sorts}
use phat.Graph.Assemble.{print_name, print_parents, arc_iter, arc_rev_iter}
use phat.Graph.Prints.{print_parents-endless}
use phat.Env.Ordered.{entries, Above, Below, Ascending}
use phat.Graph.Walks.{calls, arc_iter-inorder, arc_rev_iter-SearchTree}
use phat.Graph.{mg_postvisit}
use phat.Graph.Flow.{cycle_size}
use phat.Graph.Children.{Small, sort_children-sorts}
use phat.Graph.Members.{mg_postvisit-Members}
use phat.Graph.Cycles.{last, member, cycle_size-sum}
use phat.Main.{new_dump}
use phat.Tests.{test_env, blank_class}

-- An arc from a class to the class 0, and the two that it has.
abbrev arc_from : Ptr → Option Ptr → ℕ → Arc
arc_from parent next size = record {
  parent = parent;
  child = 0;
  next_parent = next;
  next_child = none;
  count = 1;
  size = size;
  child_size = 0;
}

abbrev child : Cinfo
child = record blank_class { parents = some 0 }

abbrev two_arcs : Jdump
two_arcs = record (new_dump none 0 []) {
  classes = child ∷ blank_class ∷ blank_class ∷ [];
  arcs = arc_from 1 (some 1) 9 ∷ arc_from 2 none 4 ∷ [];
}

abbrev ends : Ends
ends = record {
  arc = λ a. elim a [ zero ↦ arc_from 1 none 9 | suc b ↦ arc_from 2 none 4 ];
  parent = λ a. blank_class;
  child = λ a. child;
}

sort_parents-sorts_example :
    (arcs : List Arc) × (ys : List Ptr) × (sort_parents 2 0 two_arcs
      ≡ ok tt (record two_arcs {
        arcs = arcs;
        classes = set two_arcs.classes 0 (record child { parents = head_of ys });
      }))
    × Linked parent_link ends two_arcs.classes arcs ys
    × Perm ys (0 ∷ 1 ∷ [])
    × Ordered (test_of parent_link ends) ys
sort_parents-sorts_example =
    sort_parents-sorts 2 two_arcs 0 child ends (0 ∷ 1 ∷ []) refl refl
      (
        record { stored = refl; parent = refl; child = refl },
        (record { stored = refl; parent = refl; child = refl }, tt),
      )
      (((λ e. absurd (omega (arith, e))), tt), (tt, tt)) (omega arith)

abbrev one_arc : Jdump
one_arc = record (new_dump none 0 []) {
  classes = child ∷ blank_class ∷ [];
  arcs = arc_from 1 none 9 ∷ [];
}

print_parents-endless_example : print_parents 8 0 one_arc ≡ out_of_fuel
print_parents-endless_example =
    print_parents-endless 8 one_arc 0 0 child (arc_from 1 none 9) refl refl refl refl

abbrev three : Node Ptr
three = node (node leaf 3 0 leaf) 5 1 (node leaf 8 2 leaf)

arc_iter-inorder_example : arc_iter print_name three ≡ calls print_name (0 ∷ 1 ∷ 2 ∷ [])
arc_iter-inorder_example = arc_iter-inorder print_name three

abbrev four : Node Ptr
four = node (node leaf 3 0 leaf) 5 1 (node (node leaf 6 2 leaf) 8 3 leaf)

abbrev before : Node Ptr
before = node leaf 3 0 leaf

abbrev behind : Node Ptr
behind = node (node leaf 6 2 leaf) 8 3 leaf

arc_rev_iter-SearchTree_example :
    (arc_rev_iter print_name four ≡ calls print_name (2 ∷ 3 ∷ 1 ∷ 0 ∷ []))
    × (Above 5 (entries behind) × Ascending (entries behind))
    × (Below 5 (entries before) × Ascending (entries before))
arc_rev_iter-SearchTree_example = arc_rev_iter-SearchTree print_name before behind 5 1 (
  (omega arith, tt),
  (omega arith, (omega arith, tt)),
  (tt, tt, tt, tt),
  ((omega arith, tt), tt, (tt, tt, tt, tt), tt),
)

-- The head of a cycle of three, with sizes of 5, 7 and 9.
abbrev head : Cinfo
head = record blank_class { size = 5; cyc_next = some 1 }

abbrev second : Cinfo
second = record blank_class { size = 7; cyc_next = some 2 }

abbrev third : Cinfo
third = record blank_class { size = 9 }

abbrev cycle : Jdump
cycle = record (new_dump none 0 []) { classes = head ∷ second ∷ third ∷ [] }

cycle_size-sum_example :
    cycle_size 2 0 cycle
    ≡ ok tt (record cycle { classes = (record head { size = 21 }) ∷ second ∷ third ∷ [] })
cycle_size-sum_example =
    cycle_size-sum 2 cycle 0 head (7 ∷ 9 ∷ []) refl (omega arith)
      (member 1 second (9 ∷ []) refl (λ e. absurd (omega (arith, e)))
        (member 2 third [] refl (λ e. absurd (omega (arith, e))) last))
      (omega arith)

mg_postvisit-Members_example :
    mg_postvisit 3 0 (record cycle { dfn_counter = 4; dfn_stack = 0 ∷ 8 ∷ [] })
    ≡ ok tt (record cycle {
      classes = (record head { top_order = 5 }) ∷ second ∷ third ∷ [];
      dfn_counter = 5;
      dfn_stack = 8 ∷ [];
    })
mg_postvisit-Members_example =
    mg_postvisit-Members 2 (record cycle { dfn_counter = 4; dfn_stack = 0 ∷ 8 ∷ [] }) 0 head
      (7 ∷ 9 ∷ []) refl refl
      (member 1 second (9 ∷ []) refl (λ e. absurd (omega (arith, e)))
        (member 2 third [] refl (λ e. absurd (omega (arith, e))) last))
      (omega arith)

-- Two arcs from the class 0, to the classes 1 and 2.
abbrev arc_to : Ptr → Option Ptr → ℕ → Arc
arc_to child next size = record {
  parent = 0;
  child = child;
  next_parent = none;
  next_child = next;
  count = 1;
  size = size;
  child_size = 0;
}

abbrev parent : Cinfo
parent = record blank_class { children = some 0 }

abbrev two_children : Jdump
two_children = record (new_dump none 0 []) {
  classes = parent ∷ blank_class ∷ blank_class ∷ [];
  arcs = arc_to 1 (some 1) 4 ∷ arc_to 2 none 9 ∷ [];
}

abbrev child_ends : Ends
child_ends = record {
  arc = λ a. elim a [ zero ↦ arc_to 1 none 4 | suc b ↦ arc_to 2 none 9 ];
  parent = λ a. parent;
  child = λ a. blank_class;
}

child_ends-Small : (a : Ptr) → Small (child_ends.arc a)
child_ends-Small zero = record {
  apart = λ e. absurd (omega (arith, e));
  count = omega arith;
  size = omega arith;
}
child_ends-Small (suc a) = record {
  apart = λ e. absurd (omega (arith, e));
  count = omega arith;
  size = omega arith;
}

sort_children-sorts_example :
    (arcs : List Arc) × (ys : List Ptr) × (sort_children 2 0 two_children
      ≡ ok tt (record two_children {
        arcs = arcs;
        classes = set two_children.classes 0 (record parent { children = head_of ys });
      }))
    × Linked child_link child_ends two_children.classes arcs ys
    × Perm ys (0 ∷ 1 ∷ [])
    × Ordered (test_of child_link child_ends) ys
sort_children-sorts_example =
    sort_children-sorts 2 two_children 0 parent child_ends (0 ∷ 1 ∷ []) refl refl
      (
        record { stored = refl; parent = refl; child = refl },
        (record { stored = refl; parent = refl; child = refl }, tt),
      )
      (((λ e. absurd (omega (arith, e))), tt), (tt, tt)) child_ends-Small (omega arith)

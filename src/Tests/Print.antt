-- ===== src/Tests/Print.antt =====
-- The traversals of a tree with three classes.
use phat.Base.{arith, ◌≡◌, none, [], ◌∷◌}
use phat.Env.Ordered.{entries, Ascending}
use phat.Env.{Node, leaf, node}
use phat.Types.{Ptr}
use phat.Dump.{Jdump}
use phat.Print.Classes.{print_class_r, print_class}
use phat.Print.Orders.{
  preorder, class_line, instance_line, print_all, print_class_r-SearchTree, print_class-preorder,
}
use phat.Main.{new_dump}
use phat.Tests.{test_env, blank_class}

abbrev three : Node Ptr
three = node (node leaf 1 0 leaf) 2 1 (node leaf 3 2 leaf)

abbrev with_three : Jdump
with_three = record (new_dump none 0 []) { classes = blank_class ∷ blank_class ∷ blank_class ∷ [] }

print_class_r-SearchTree_example :
    (print_class_r three with_three ≡ print_all class_line (0 ∷ 1 ∷ 2 ∷ []) with_three)
    × Ascending (entries three)
print_class_r-SearchTree_example =
    print_class_r-SearchTree three with_three
      ((omega arith, tt), (omega arith, tt), (tt, tt, tt, tt), (tt, tt, tt, tt))

print_class-preorder_example :
    print_class three with_three ≡ print_all instance_line (preorder three) with_three
print_class-preorder_example = print_class-preorder three with_three

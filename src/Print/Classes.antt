-- ===== src/Print/Classes.antt =====
-- `printClass_r` and `printClass`: the class of each node of a tree, by recursion and with a stack.
use phat.Base.{ℕ, zero, suc, ◌+◌, List, [], ◌∷◌}
use phat.Env.{Env, Node, leaf, node}
use phat.Types.{Ptr, Line}
use phat.Dump.{M, pure, out_of_fuel, ◌>>=◌, ◌>>◌, print, load_class}

module _ ⦃env : Env⦄ where
  -- printClass_r
  unfoldable pub print_class_r : Node Ptr → M (Unit {0})
  print_class_r leaf = pure tt
  print_class_r (node l key p r) = do
    print_class_r l
    ci ← load_class p
    print (Line.class_line ci.ident ci.nident ci.count ci.name)
    print_class_r r

  -- `if (node->right) stack[curr++] = node->right`: a stack that is full grows first.
  abbrev pub push : Node Ptr → List (Node Ptr) → List (Node Ptr)
  push leaf stack = stack
  push (node l key p r) stack = node l key p r ∷ stack

  -- The node of the next round: the left child, or the top of the stack, or NULL.
  abbrev pub next_node : Node Ptr → List (Node Ptr) → Node Ptr × List (Node Ptr)
  next_node leaf [] = (leaf, [])
  next_node leaf (n ∷ stack) = (n, stack)
  next_node (node l key p r) stack = (node l key p r, stack)

  -- while (node)
  unfoldable pub print_class_loop : ℕ → Node Ptr → List (Node Ptr) → M (Unit {0})
  print_class_loop fuel leaf stack = pure tt
  print_class_loop zero (node l key p r) stack = λ _. out_of_fuel
  print_class_loop (suc k) (node l key p r) stack = do
    ci ← load_class p
    print (Line.instance_line ci.ident ci.nident ci.count ci.name)
    let (n, stack') = next_node l (push r stack)
    print_class_loop k n stack'

  abbrev pub nodes : {A : Type 0} → Node A → ℕ
  nodes leaf = 0
  nodes (node l key a r) = suc (nodes l + nodes r)

  -- printClass: each node takes one round.
  unfoldable pub print_class : Node Ptr → M (Unit {0})
  unfolding print_class_loop
  print_class n = print_class_loop (nodes n) n []

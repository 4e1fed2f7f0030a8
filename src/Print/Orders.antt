-- ===== src/Print/Orders.antt =====
-- The orders in which `printClass_r` and `printClass` visit the nodes of a tree.
use mathlib.Core.List.{append_assoc, append-nil}
use phat.Base.{
  ℕ, zero, suc, ◌+◌, ◌≤◌, ◌≡◌, refl, ap, sym, ◌∙◌, some, none, Option, List, [], ◌∷◌, ◌++◌, arith,
  get_elem?, All,
}
use phat.Env.{Env, Node, leaf, node}
use phat.Env.Ordered.{entries, data_of, data_of-append, SearchTree, Ascending, entries-Ascending}
use phat.Types.{Ptr, Cinfo, Line}
use phat.Dump.{
  M, Jdump, ok, undef, pure, Outcome, and_then, exits, out_of_fuel, ◌>>=◌, ◌>>◌, print, load_class,
  given, state,
}
use phat.Print.Classes.{print_class_r, push, next_node, print_class_loop, nodes, print_class}

abbrev pub inorder : {A : Type 0} → Node A → List A
inorder leaf = []
inorder (node l key a r) = inorder l ++ (a ∷ inorder r)

pub data_of-inorder : {A : Type 0} → (t : Node A) → data_of (entries t) ≡ inorder t
data_of-inorder leaf = refl
data_of-inorder (node l key a r) =
    data_of-append (entries l) ((key, a) ∷ entries r)
    ∙ (λ i. data_of-inorder l i ++ (a ∷ data_of-inorder r i))

abbrev pub preorder : {A : Type 0} → Node A → List A
preorder leaf = []
preorder (node l key a r) = a ∷ (preorder l ++ preorder r)

abbrev preorders : {A : Type 0} → List (Node A) → List A
preorders [] = []
preorders (n ∷ ns) = preorder n ++ preorders ns

abbrev NonLeaf : {A : Type 0} → Node A → Type 0
NonLeaf leaf = ⊥
NonLeaf (node l key a r) = Unit

-- The loop of `printClass` stops at NULL, so then nothing is left on the stack.
abbrev Ready : {A : Type 0} → Node A → List (Node A) → Type 0
Ready leaf [] = Unit
Ready leaf (n ∷ ns) = ⊥
Ready (node l key a r) ns = All NonLeaf ns

module _ ⦃env : Env⦄ where
  abbrev pub class_line : Cinfo → Line
  class_line ci = Line.class_line ci.ident ci.nident ci.count ci.name

  abbrev pub instance_line : Cinfo → Line
  instance_line ci = Line.instance_line ci.ident ci.nident ci.count ci.name

  -- A line for each class of a list. A pointer to no class is undefined.
  unfoldable pub print_all : (Cinfo → Line) → List Ptr → M (Unit {0})
  print_all line [] = pure tt
  print_all line (p ∷ ps) = do ci ← load_class p; print (line ci); print_all line ps

  after-load :
      (o : Option Cinfo) (line : Cinfo → Line) (d : Jdump) (m m' : M (Unit {0})) (k : M (Unit {0}))
      → ((d' : Jdump) → m d' ≡ and_then (m' d') (λ _. k))
      → and_then (given o d) (λ ci. print (line ci) >> m)
        ≡ and_then (and_then (given o d) (λ ci. print (line ci) >> m')) (λ _. k)
  unfolding given
  after-load none line d m m' k same = refl
  after-load (some ci) line d m m' k same = same (record d { out = d.out ++ (line ci ∷ []) })

  print_all-append :
      (line : Cinfo → Line) (ps qs : List Ptr) (d : Jdump)
      → print_all line (ps ++ qs) d ≡ (print_all line ps >> print_all line qs) d
  unfolding print_all state
  print_all-append line [] qs d = refl
  print_all-append line (p ∷ ps) qs d =
      after-load (get_elem? d.classes p) line d (print_all line (ps ++ qs)) (print_all line ps)
        (print_all line qs) (print_all-append line ps qs)

  and_then-same :
      {A B : Type 0} (o : Outcome A) (k k' : A → M B)
      → ((a : A) (d : Jdump) → k a d ≡ k' a d)
      → and_then o k ≡ and_then o k'
  and_then-same (ok a d) k k' same = same a d
  and_then-same (exits n l) k k' same = refl
  and_then-same undef k k' same = refl
  and_then-same out_of_fuel k k' same = refl

  -- `printClass_r` prints a line for each class of a tree, from left to right.
  pub print_class_r-inorder :
      (n : Node Ptr) (d : Jdump) → print_class_r n d ≡ print_all class_line (inorder n) d
  unfolding print_class_r print_all
  print_class_r-inorder leaf d = refl
  print_class_r-inorder (node l key p r) d = rw (print_class_r-inorder l d) (
      and_then-same (print_all class_line (inorder l) d) _
        (λ _. print_all class_line (p ∷ inorder r))
        (λ _ d1.
          and_then-same (load_class p d1) _ _
            (λ ci d2. print_class_r-inorder r (record d2 { out = d2.out ++ (class_line ci ∷ []) })))
      ∙ sym (print_all-append class_line (inorder l) (p ∷ inorder r) d))

  -- `printClass_r` prints a line for each class of a search tree, in ascending order of their keys.
  pub print_class_r-SearchTree :
      (n : Node Ptr) (d : Jdump)
      → SearchTree n
      → (print_class_r n d ≡ print_all class_line (data_of (entries n)) d) × Ascending (entries n)
  print_class_r-SearchTree n d h = (
    print_class_r-inorder n d ∙ ap (λ ps. print_all class_line ps d) (sym (data_of-inorder n)),
    entries-Ascending n h,
  )

  next-Ready :
      (l r : Node Ptr) (stack : List (Node Ptr))
      → All NonLeaf stack
      → Ready (next_node l (push r stack)).0 (next_node l (push r stack)).1
  next-Ready leaf leaf [] all = tt
  next-Ready leaf leaf (leaf ∷ ns) all = absurd all.0
  next-Ready leaf leaf (node l k a r ∷ ns) all = all.1
  next-Ready leaf (node l k a r) stack all = all
  next-Ready (node l k a r) leaf stack all = all
  next-Ready (node l k a r) (node l' k' a' r') stack all = (tt, all)

  abbrev sizes : List (Node Ptr) → ℕ
  sizes [] = 0
  sizes (n ∷ ns) = nodes n + sizes ns

  -- What is still to be visited: the classes, and how many they are.
  next-order :
      (l r : Node Ptr) (stack : List (Node Ptr))
      → preorder (next_node l (push r stack)).0 ++ preorders (next_node l (push r stack)).1
        ≡ (preorder l ++ preorder r) ++ preorders stack
  next-order leaf leaf [] = refl
  next-order leaf leaf (n ∷ ns) = refl
  next-order leaf (node l k a r) stack = refl
  next-order (node l k a r) leaf stack =
      ap (λ x. x ++ preorders stack) (sym (append-nil (preorder (node l k a r))))
  next-order (node l k a r) (node l' k' a' r') stack =
      sym (append_assoc (preorder (node l k a r)) (preorder (node l' k' a' r')) (preorders stack))

  next-size :
      (l r : Node Ptr) (stack : List (Node Ptr))
      → nodes (next_node l (push r stack)).0 + sizes (next_node l (push r stack)).1
        ≡ nodes l + nodes r + sizes stack
  next-size leaf leaf [] = omega arith
  next-size leaf leaf (n ∷ ns) = omega arith
  next-size leaf (node l k a r) stack = omega arith
  next-size (node l k a r) leaf stack = omega arith
  next-size (node l k a r) (node l' k' a' r') stack = omega arith

  print_class_loop-preorder :
      (fuel : ℕ) (n : Node Ptr) (stack : List (Node Ptr)) (d : Jdump)
      → Ready n stack
      → nodes n + sizes stack ≤ fuel
      → print_class_loop fuel n stack d ≡ print_all instance_line (preorder n ++ preorders stack) d
  unfolding print_class_loop print_all
  print_class_loop-preorder fuel leaf [] d ready le = refl
  print_class_loop-preorder fuel leaf (n ∷ ns) d ready le = absurd ready
  print_class_loop-preorder zero (node l key p r) stack d ready le = absurd (omega (arith, le))
  print_class_loop-preorder (suc k) (node l key p r) stack d ready le =
      and_then-same (load_class p d) _ _ (λ ci d1.
        print_class_loop-preorder k (next_node l (push r stack)).0 (next_node l (push r stack)).1
          (record d1 { out = d1.out ++ (instance_line ci ∷ []) }) (next-Ready l r stack ready)
          (omega (arith, next-size l r stack, le))
        ∙ ap
            (λ ps.
              print_all instance_line ps (record d1 { out = d1.out ++ (instance_line ci ∷ []) }))
            (next-order l r stack))

  -- `printClass`, which goes through the tree with a stack of its own in place of recursion, prints a
  -- line for each class, a node before what is below it on the left, and that before what is below it
  -- on the right. It ends after as many rounds as the tree has nodes.
  pub print_class-preorder :
      (n : Node Ptr) (d : Jdump) → print_class n d ≡ print_all instance_line (preorder n) d
  unfolding print_class
  print_class-preorder leaf d = print_class_loop-preorder 0 leaf [] d tt (omega arith)
  print_class-preorder (node l key p r) d =
      print_class_loop-preorder (nodes (node l key p r)) (node l key p r) [] d tt (omega arith)
      ∙ ap (λ ps. print_all instance_line ps d) (append-nil (preorder (node l key p r)))

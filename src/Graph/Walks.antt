-- ===== src/Graph/Walks.antt =====
-- The order in which `arc_iter` and `arc_rev_iter` visit the entries of a tree.
use phat.Base.{ℕ, sym, ◌≡◌, refl, ap, ◌∙◌, List, [], ◌∷◌, ◌++◌}
use phat.Env.{Env, Node, leaf, node}
use mathlib.Core.Path.{fun_ext}
use phat.Dump.{M, Outcome, ok, exits, undef, out_of_fuel, and_then, pure, ◌>>◌}
use phat.Print.Orders.{inorder, data_of-inorder}
use phat.Env.Ordered.{
  entries, data_of, data_of-append, SearchTree, Above, Below, Ascending, entries-Ascending,
}
use phat.Graph.Assemble.{arc_iter, arc_rev_iter}

-- The order that arc_rev_iter has: only the two sides of the root change places.
abbrev pub right_first : {A : Type 0} → Node A → List A
right_first leaf = []
right_first (node l key a r) = inorder r ++ (a ∷ inorder l)

module _ ⦃env : Env⦄ {A : Type 0} (func : A → M (Unit {0})) where
  -- One call after the other.
  abbrev pub calls : List A → M (Unit {0})
  calls [] = pure tt
  calls (a ∷ xs) = func a >> calls xs

  and_then_assoc :
      (o : Outcome (Unit {0})) (m n : M (Unit {0}))
      → and_then o (λ b. m >> n) ≡ and_then (and_then o (λ b. m)) (λ b. n)
  and_then_assoc (ok b d) m n = refl
  and_then_assoc (exits c l) m n = refl
  and_then_assoc undef m n = refl
  and_then_assoc out_of_fuel m n = refl

  calls-append : (xs ys : List A) → calls (xs ++ ys) ≡ (calls xs >> calls ys)
  calls-append [] ys = refl
  calls-append (a ∷ xs) ys =
      ap (λ m. func a >> m) (calls-append xs ys)
      ∙ fun_ext (λ d. and_then_assoc (func a d) (calls xs) (calls ys))

  -- A walk over a tree calls the function on each of its data, from left to right.
  pub arc_iter-inorder : (t : Node A) → arc_iter func t ≡ calls (inorder t)
  unfolding arc_iter
  arc_iter-inorder leaf = refl
  arc_iter-inorder (node l key a r) =
      rw (arc_iter-inorder l, arc_iter-inorder r, calls-append (inorder l) (a ∷ inorder r)) refl

  arc_rev_iter-order : (t : Node A) → arc_rev_iter func t ≡ calls (right_first t)
  unfolding arc_rev_iter
  arc_rev_iter-order leaf = refl
  arc_rev_iter-order (node l key a r) =
      rw (arc_iter-inorder l, arc_iter-inorder r, calls-append (inorder r) (a ∷ inorder l)) refl

  -- On a search tree `arc_rev_iter` calls the function on the data with higher keys than the root, then
  -- on that of the root, then on that with lower keys: each of the two parts in ascending order of its
  -- keys, although the walk is named after the reverse one.
  pub arc_rev_iter-SearchTree :
      (l r : Node A) (key : ℕ) (a : A)
      → SearchTree (node l key a r)
      → (arc_rev_iter func (node l key a r) ≡ calls (data_of (entries r ++ ((key, a) ∷ entries l))))
        × (Above key (entries r) × Ascending (entries r))
        × (Below key (entries l) × Ascending (entries l))
  arc_rev_iter-SearchTree l r key a (below, above, hl, hr) = (
    arc_rev_iter-order (node l key a r)
        ∙ ap calls (
            sym (
              data_of-append (entries r) ((key, a) ∷ entries l) ∙ λ i.
              data_of-inorder r i ++ (a ∷ data_of-inorder l i))),
    (above, entries-Ascending r hr),
    (below, entries-Ascending l hl),
  )

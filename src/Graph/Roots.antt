-- ===== src/Graph/Roots.antt =====
-- The first part of `mg_assemble` behind `arc_init`: `mg_dfn_lup` at each root, on a graph without
-- cycles.
use mathlib.Core.List.{append_assoc, append-nil}
use phat.Base.{
  none, ◌++◌, sym, subst, ℕ, ◌+◌, ◌≤◌, ◌<◌, ◌≡◌, ◌≢◌, refl, ap, ◌∙◌, some, List, [], ◌∷◌, All,
  length, get_elem?, arith,
}
use phat.Env.{Env, Node, lookup32}
use phat.Types.{Ptr, Root, Cinfo, Hobject, Line}
use phat.Dump.{Jdump, Outcome, ok, steps}
use phat.Graph.{mg_dfn, mg_dfn_busy, mg_dfn_lup}
use phat.Graph.Assemble.{arc_iter, root_ident}
use phat.Graph.Walks.{calls, arc_iter-inorder}
use phat.Print.Orders.{inorder}
use phat.Graph.Numbering.{order_at, Numbering, Extends, Extends-refl, Extends-trans}
use phat.Graph.Topological.{with_numbers, Visits, numbered-Extends, mg_dfn-Visits}

module _ ⦃env : Env⦄ where
  -- What is found of roots in tables of objects and of classes: the classes of the objects that they
  -- refer to, and a warning for each root whose object or whose class is not there.
  pub data Roots (h_table c_table : env.Tree Ptr) (objects : List Hobject) (size : ℕ)
      : List Root → List Ptr → List Line → Type 0 where
    no_root : Roots h_table c_table objects size [] [] []
    a_root :
        (r : Root) (q : Ptr) (ho : Hobject) (p : Ptr) (rs : List Root) (ps : List Ptr)
        (ws : List Line)
        → lookup32 h_table (root_ident r) ≡ some q
        → get_elem? objects q ≡ some ho
        → lookup32 c_table ho.class_id ≡ some p
        → p < size
        → Roots h_table c_table objects size rs ps ws
        → Roots h_table c_table objects size (r ∷ rs) (p ∷ ps) ws
    no_object :
        (r : Root) (rs : List Root) (ps : List Ptr) (ws : List Line)
        → lookup32 h_table (root_ident r) ≡ none
        → Roots h_table c_table objects size rs ps ws
        → Roots h_table c_table objects size (r ∷ rs) ps (Line.invalid_root (root_ident r) ∷ ws)
    no_class :
        (r : Root) (q : Ptr) (ho : Hobject) (rs : List Root) (ps : List Ptr) (ws : List Line)
        → lookup32 h_table (root_ident r) ≡ some q
        → get_elem? objects q ≡ some ho
        → lookup32 c_table ho.class_id ≡ none
        → Roots h_table c_table objects size rs ps ws
        → Roots h_table c_table objects size (r ∷ rs) ps (Line.invalid_class (root_ident r) ∷ ws)

  abbrev pub warned : Jdump → List Line → Jdump
  warned d ws = record d { out = d.out ++ ws }

  mg_dfn_lup-found :
      (k : ℕ) (d : Jdump) (id : ℕ) (q : Ptr) (ho : Hobject) (p : Ptr)
      → lookup32 d.h_table id ≡ some q
      → get_elem? d.objects q ≡ some ho
      → lookup32 d.c_table ho.class_id ≡ some p
      → mg_dfn_lup k id d ≡ mg_dfn k p d
  unfolding mg_dfn_lup steps
  mg_dfn_lup-found k d id q ho p e e' e'' = rw (e, e', e'') refl

  mg_dfn_lup-no_object :
      (k : ℕ) (d : Jdump) (id : ℕ)
      → lookup32 d.h_table id ≡ none
      → mg_dfn_lup k id d ≡ ok tt (warned d (Line.invalid_root id ∷ []))
  unfolding mg_dfn_lup steps
  mg_dfn_lup-no_object k d id e = rw e refl

  mg_dfn_lup-no_class :
      (k : ℕ) (d : Jdump) (id : ℕ) (q : Ptr) (ho : Hobject)
      → lookup32 d.h_table id ≡ some q
      → get_elem? d.objects q ≡ some ho
      → lookup32 d.c_table ho.class_id ≡ none
      → mg_dfn_lup k id d ≡ ok tt (warned d (Line.invalid_class id ∷ []))
  unfolding mg_dfn_lup steps
  mg_dfn_lup-no_class k d id q ho e e' e'' = rw (e, e', e'') refl

  module _ (kids : Ptr → List Ptr) (rank : Ptr → ℕ) (k m : ℕ)
      (few : (q : Ptr) → length (kids q) ≤ m) (fuel : (q : Ptr) → rank q + m < k) where
    -- A warning comes first.
    warned-Visits :
        (d : Jdump) (classes : List Cinfo) (n : ℕ) (w : Line) (ls ws : List Line) (ps : List Ptr)
        (run run' : Outcome (Unit {0}))
        → run' ≡ run
        → Visits kids rank (with_numbers (warned d ((ls ++ (w ∷ [])) ++ ws)) classes n) run' ps
        → Visits kids rank (with_numbers (warned d (ls ++ (w ∷ ws))) classes n) run ps
    warned-Visits d classes n w ls ws ps run run' e v =
        subst (λ l. Visits kids rank (with_numbers (warned d l) classes n) run ps)
          (append_assoc ls (w ∷ []) ws)
          (subst
            (λ o.
              Visits kids rank (with_numbers (warned d ((ls ++ (w ∷ [])) ++ ws)) classes n) o ps)
            e v)

    calls-Visits :
        (d : Jdump) (classes : List Cinfo) (n : ℕ) (rs : List Root) (ps : List Ptr)
        (ws ls : List Line)
        → Roots d.h_table d.c_table d.objects (length d.classes) rs ps ws
        → length classes ≡ length d.classes
        → Numbering kids rank d.arcs classes n
        → ((q : Ptr) → order_at classes q ≢ mg_dfn_busy)
        → Visits kids rank
            (with_numbers (warned d (ls ++ ws)) classes n)
            (calls (λ r. mg_dfn_lup k (root_ident r)) rs (with_numbers (warned d ls) classes n))
            ps
    calls-Visits d classes n rs ps ws ls no_root same h idle = record {
      classes = classes;
      counter = n;
      ran = ap (λ l. ok tt (with_numbers (warned d l) classes n)) (sym (append-nil ls));
      numbering = h;
      extends = Extends-refl kids rank classes;
      rises = omega arith;
      numbered = tt;
      quiet = λ q e. e;
    }
    calls-Visits d classes n rs ps ws ls (a_root r q ho p rs' ps' ws' e e' e'' lt roots) same h
          idle =
        let first =
          mg_dfn-Visits kids rank k m (with_numbers (warned d ls) classes n) p few h
            (omega (arith, lt, same)) (fuel p) (λ q b. absurd (idle q b)) in
        let others =
          calls-Visits d first.classes first.counter rs' ps' ws' ls roots
            (first.extends.size ∙ same) first.numbering (λ q b. idle q (first.quiet q b)) in
        record {
          classes = others.classes;
          counter = others.counter;
          ran =
              rw
                (
                  mg_dfn_lup-found k (with_numbers (warned d ls) classes n) (root_ident r) q ho p e
                      e' e'',
                  first.ran,
                )
                others.ran;
          numbering = others.numbering;
          extends =
              Extends-trans kids rank classes first.classes others.classes first.extends
                others.extends;
          rises = omega (arith, first.rises, others.rises);
          numbered = (
            (numbered-Extends kids rank first.classes others.classes first.counter others.counter
                (p ∷ []) others.extends others.rises first.numbered).0,
            others.numbered,
          );
          quiet = λ q b. first.quiet q (others.quiet q b);
        }
    calls-Visits d classes n rs ps ws ls (no_object r rs' ps' ws' e roots) same h idle =
        let w = Line.invalid_root (root_ident r) in
        let step = mg_dfn_lup-no_object k (with_numbers (warned d ls) classes n) (root_ident r) e in
        warned-Visits d classes n w ls ws' ps _ _ (rw (step, append_assoc d.out ls (w ∷ [])) refl)
          (calls-Visits d classes n rs' ps' ws' (ls ++ (w ∷ [])) roots same h idle)
    calls-Visits d classes n rs ps ws ls (no_class r q ho rs' ps' ws' e e' e'' roots) same h idle =
        let w = Line.invalid_class (root_ident r) in
        let step =
          mg_dfn_lup-no_class k (with_numbers (warned d ls) classes n) (root_ident r) q ho e e'
            e'' in
        warned-Visits d classes n w ls ws' ps _ _ (rw (step, append_assoc d.out ls (w ∷ [])) refl)
          (calls-Visits d classes n rs' ps' ws' (ls ++ (w ∷ [])) roots same h idle)

  -- On a graph whose arcs go down in rank, with at most `m` arcs from a class, whose classes are in no
  -- cycle and where no class is on the stack, while each class that has a number has it above those of
  -- its children, which have one too: mg_dfn_lup at each root of a tree returns on fuel above any rank
  -- plus `m`. It prints a warning for each root whose object or whose class is not there, from left to
  -- right, and otherwise changes only numbers: the classes of the other roots have one; every class
  -- that has one has it above those of all its children, which have one too; a class that had one
  -- keeps it; and none is left on the stack.
  pub mg_dfn_lup-Numbering :
      (kids : Ptr → List Ptr) (rank : Ptr → ℕ) (k m : ℕ) (d : Jdump) (t : Node Root) (ps : List Ptr)
      (ws : List Line)
      → ((q : Ptr) → length (kids q) ≤ m)
      → ((q : Ptr) → rank q + m < k)
      → Roots d.h_table d.c_table d.objects (length d.classes) (inorder t) ps ws
      → Numbering kids rank d.arcs d.classes d.dfn_counter
      → ((q : Ptr) → order_at d.classes q ≢ mg_dfn_busy)
      → (classes : List Cinfo) × (n : ℕ) × (arc_iter (λ r. mg_dfn_lup k (root_ident r)) t d
          ≡ ok tt (with_numbers (warned d ws) classes n))
        × Numbering kids rank d.arcs classes n
        × Extends kids rank d.classes classes
        × All (λ p. (1 ≤ order_at classes p) × (order_at classes p ≤ n)) ps
        × ((q : Ptr) → order_at classes q ≢ mg_dfn_busy)
  mg_dfn_lup-Numbering kids rank k m d t ps ws few fuel roots h idle =
      let v =
        calls-Visits kids rank k m few fuel d d.classes d.dfn_counter (inorder t) ps ws [] roots
          refl h idle in
      (
        v.classes,
        v.counter,
        ap (λ f. f d) (arc_iter-inorder (λ r. mg_dfn_lup k (root_ident r)) t)
            ∙ ap (λ o. calls (λ r. mg_dfn_lup k (root_ident r)) (inorder t) (record d { out = o }))
                (sym (append-nil d.out))
            ∙ v.ran,
        v.numbering,
        v.extends,
        v.numbered,
        λ q b. idle q (v.quiet q b),
      )

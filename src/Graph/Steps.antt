-- ===== src/Graph/Steps.antt =====
-- The two moments of a visit of `mg_dfn`: a class goes on the stack, and it gets its number.
use phat.Base.{
  ℕ, suc, ◌+◌, ◌≤◌, ◌<◌, ◌≡◌, ◌⊎◌, inl, inr, refl, ap, sym, ◌∙◌, subst, some, List, [], ◌∷◌, All,
  length-set, get_elem?, get_elem?-set_same, get_elem?-set_ne, arith,
}
use phat.Types.{Ptr, Arc, Cinfo}
use phat.Graph.{mg_dfn_nan, mg_dfn_busy}
use phat.Graph.Numbering.{
  eq_cases, order_at, order_at-class, renumber, order_at-renumber_self, order_at-renumber_ne,
  is_pending, pending, pending_le, Kids, pending-set, Kind, fresh, busy, done, Vertex, Numbering,
  Extends,
}

pub All-map {ℓ} :
    {A : Type ℓ} (P Q : A → Type 0) (xs : List A) → ((a : A) → P a → Q a) → All P xs → All Q xs
All-map P Q [] f h = tt
All-map P Q (x ∷ xs) f h = (f x h.0, All-map P Q xs f h.1)

some_eq : {a b : Cinfo} → some a ≡ some b → a ≡ b
some_eq e = cc

is_pending_open : (n : ℕ) → (n ≡ mg_dfn_nan) ⊎ (n ≡ mg_dfn_busy) → is_pending n ≡ 1
is_pending_open n (inl e) = ground arith
is_pending_open n (inr e) = ground arith

is_pending_number : (n : ℕ) → suc n < mg_dfn_busy → is_pending (suc n) ≡ 0
is_pending_number n h = ground arith

module _ (kids : Ptr → List Ptr) (rank : Ptr → ℕ) (arcs : List Arc) (cs : List Cinfo) (p : Ptr)
    (ci : Cinfo) (here : get_elem? cs p ≡ some ci) where
  Vertex-renumber :
      (n : ℕ) (q : Ptr) → Vertex kids arcs cs q → Vertex kids arcs (renumber cs p ci n) q
  Vertex-renumber n q v = elim (eq_cases p q) [
    | inl e ↦
        let same : v.class ≡ ci = some_eq (sym v.here ∙ ap (get_elem? cs) (sym e) ∙ here) in
        record {
          class = record ci { top_order = n };
          here =
              ap (get_elem? (renumber cs p ci n)) (sym e)
              ∙ get_elem?-set_same cs p (record ci { top_order = n }) here;
          head = ap (λ (c : Cinfo). c.cyc_head) (sym same) ∙ v.head;
          alone = ap (λ (c : Cinfo). c.cyc_next) (sym same) ∙ v.alone;
          linked = subst (λ c. Kids arcs c.children (kids q)) same v.linked;
        }
    | inr ne ↦ record {
      class = v.class;
      here = get_elem?-set_ne cs p q (record ci { top_order = n }) ne ∙ v.here;
      head = v.head;
      alone = v.alone;
      linked = v.linked;
    }
  ]

  -- A numbered class is one still, where the numbered classes keep their numbers.
  done-keeps :
      (cs' : List Cinfo) (n n' : ℕ) (q : Ptr)
      → ((r : Ptr) → 1 ≤ order_at cs r → order_at cs r ≤ n → order_at cs' r ≡ order_at cs r)
      → n ≤ n'
      → 1 ≤ order_at cs q
      → order_at cs q ≤ n
      → All (λ c. (1 ≤ order_at cs c) × (order_at cs c < order_at cs q)) (kids q)
      → Kind kids cs' n' q
  done-keeps cs' n n' q keeps le low high all =
      let e = keeps q low high in
      done (omega (arith, e, low)) (omega (arith, e, high, le)) (
        All-map (λ c. (1 ≤ order_at cs c) × (order_at cs c < order_at cs q))
          (λ c. (1 ≤ order_at cs' c) × (order_at cs' c < order_at cs' q)) (kids q)
          (λ c h.
            let e' = keeps c h.0 (omega (arith, h.1, high)) in
            (omega (arith, e', h.0), omega (arith, e', e, h.1)))
          all)

  module _ (n : ℕ) (h : Numbering kids rank arcs cs n) where
    module _ (new : order_at cs p ≡ mg_dfn_nan) where
      pub start-Extends : Extends kids rank cs (renumber cs p ci mg_dfn_busy)
      start-Extends = record {
        size = length-set cs p (record ci { top_order = mg_dfn_busy });
        keeps = λ q some_number.
            order_at-renumber_ne cs p q ci mg_dfn_busy
              (λ e. some_number (ap (order_at cs) (sym e) ∙ new));
      }

      start-Kind : (q : Ptr) → Kind kids (renumber cs p ci mg_dfn_busy) n q
      start-Kind q = elim (eq_cases p q) [
        | inl e ↦ busy (
            ap (order_at (renumber cs p ci mg_dfn_busy)) (sym e)
            ∙ order_at-renumber_self cs p ci mg_dfn_busy here)
        | inr ne ↦
            let same = order_at-renumber_ne cs p q ci mg_dfn_busy ne in
            elim (h.kind q) [
              | fresh e ↦ fresh (same ∙ e)
              | busy e ↦ busy (same ∙ e)
              | done low high all ↦
                  done-keeps (renumber cs p ci mg_dfn_busy) n n q
                    (λ r l u. start-Extends.keeps r (λ z. absurd (omega (arith, z, l))))
                    (omega arith) low high all
            ]
      ]

      pub start-Numbering : Numbering kids rank arcs (renumber cs p ci mg_dfn_busy) n
      start-Numbering = record {
        vertex = λ q lt.
            Vertex-renumber mg_dfn_busy q (h.vertex q (omega (arith, lt, start-Extends.size)));
        below = λ q.
            subst (λ l. All (λ c. (c < l) × (rank c < rank q)) (kids q)) (sym start-Extends.size)
              (h.below q);
        kind = start-Kind;
        room =
            let zero_order : ci.top_order ≡ mg_dfn_nan = sym (order_at-class cs p ci here) ∙ new in
            let moved = pending-set cs p ci (record ci { top_order = mg_dfn_busy }) here in
            let before = is_pending_open ci.top_order (inl zero_order) in
            let after = is_pending_open mg_dfn_busy (inr refl) in
            omega (arith, moved, before, after, h.room);
      }

    module _ (on_stack : order_at cs p ≡ mg_dfn_busy)
        (kids_done : All (λ c. (1 ≤ order_at cs c) × (order_at cs c ≤ n)) (kids p)) where
      finish-room : suc n + pending (renumber cs p ci (suc n)) ≡ n + pending cs
      finish-room =
          let is_busy : ci.top_order ≡ mg_dfn_busy = sym (order_at-class cs p ci here) ∙ on_stack in
          let one = is_pending_open ci.top_order (inr is_busy) in
          let moved = pending-set cs p ci (record ci { top_order = suc n }) here in
          let some_left = pending_le cs p ci here in
          let zero_left = is_pending_number n (omega (arith, one, some_left, h.room)) in
          omega (arith, moved, one, zero_left)

      pub finish-keeps :
          (r : Ptr)
          → 1 ≤ order_at cs r
          → order_at cs r ≤ n
          → order_at (renumber cs p ci (suc n)) r ≡ order_at cs r
      finish-keeps r low high =
          order_at-renumber_ne cs p r ci (suc n)
            (λ e. absurd (omega (arith, ap (order_at cs) e, on_stack, high, h.room)))

      finish-Kind : (q : Ptr) → Kind kids (renumber cs p ci (suc n)) (suc n) q
      finish-Kind q = elim (eq_cases p q) [
        | inl e ↦
            let cs' = renumber cs p ci (suc n) in
            let at_p : order_at cs' p ≡ suc n = order_at-renumber_self cs p ci (suc n) here in
            subst (Kind kids cs' (suc n)) e (
              done (omega (arith, at_p)) (omega (arith, at_p)) (
                All-map (λ c. (1 ≤ order_at cs c) × (order_at cs c ≤ n))
                  (λ c. (1 ≤ order_at cs' c) × (order_at cs' c < order_at cs' p)) (kids p)
                  (λ c k.
                    let same = finish-keeps c k.0 k.1 in
                    (omega (arith, same, k.0), omega (arith, same, at_p, k.1)))
                  kids_done))
        | inr ne ↦
            let same = order_at-renumber_ne cs p q ci (suc n) ne in
            elim (h.kind q) [
              | fresh e ↦ fresh (same ∙ e)
              | busy e ↦ busy (same ∙ e)
              | done low high all ↦
                  done-keeps (renumber cs p ci (suc n)) n (suc n) q finish-keeps (omega arith) low
                    high all
            ]
      ]

      pub finish-Numbering : Numbering kids rank arcs (renumber cs p ci (suc n)) (suc n)
      finish-Numbering = record {
        vertex = λ q lt.
            Vertex-renumber (suc n) q
              (h.vertex q (omega (arith, lt, length-set cs p (record ci { top_order = suc n }))));
        below = λ q.
            subst (λ l. All (λ c. (c < l) × (rank c < rank q)) (kids q))
              (sym (length-set cs p (record ci { top_order = suc n }))) (h.below q);
        kind = finish-Kind;
        room = omega (arith, finish-room, h.room);
      }

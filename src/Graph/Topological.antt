-- ===== src/Graph/Topological.antt =====
-- `mg_dfn` on a graph without cycles: every class gets a number above those of its children.
use phat.Base.{
  ℕ, zero, suc, ◌+◌, ◌%◌, ◌^◌, ◌≤◌, ◌<◌, ◌≡◌, inl, inr, refl, ap, sym, ◌∙◌, subst, true, Option,
  some, none, List, [], ◌∷◌, All, length, length-set, get_elem?, get_elem?-set_same, arith, ◌==◌,
  eq_refl, ne→eq_false,
}
use phat.Env.{Env}
use phat.Types.{Ptr, Cinfo}
use phat.Dump.{Jdump, M, Outcome, ok, steps}
use phat.Graph.{mg_dfn_nan, mg_dfn_busy, mg_dfn, arcs_loop, mg_previsit, mg_postvisit, number_loop}
use phat.Graph.Numbering.{
  eq_cases, order_at, order_at-class, renumber, order_at-renumber_self, order_at-renumber_ne, Kids,
  last, more, fresh, busy, done, Numbering, Extends, Extends-refl, Extends-trans,
}
use phat.Graph.Steps.{All-map, start-Extends, start-Numbering, finish-Numbering}

module _ ⦃env : Env⦄ where
  abbrev pub with_numbers : Jdump → List Cinfo → ℕ → Jdump
  with_numbers d classes n = record d { classes = classes; dfn_counter = n }

  mg_dfn-numbered :
      (k : ℕ) (d : Jdump) (p : Ptr) (ci : Cinfo)
      → get_elem? d.classes p ≡ some ci
      → 1 ≤ ci.top_order
      → ci.top_order < mg_dfn_busy
      → mg_dfn (suc k) p d ≡ ok tt d
  unfolding mg_dfn steps
  mg_dfn-numbered k d p ci here low high =
      rw
        (
          here,
          ne→eq_false ci.top_order mg_dfn_nan (λ z. absurd (omega (arith, z, low))),
          ne→eq_false ci.top_order mg_dfn_busy (λ z. absurd (omega (arith, z, high))),
        )
        refl

  -- The state in which the children are visited.
  on_stack : Jdump → Ptr → Cinfo → Jdump
  on_stack d p ci = record d {
    dfn_stack = p ∷ d.dfn_stack;
    classes = renumber d.classes p ci mg_dfn_busy;
  }

  mg_dfn-fresh :
      (k : ℕ) (d : Jdump) (p : Ptr) (ci ci2 : Cinfo) (cs : List Cinfo) (n : ℕ)
      → get_elem? d.classes p ≡ some ci
      → ci.top_order ≡ mg_dfn_nan
      → arcs_loop (suc k) (mg_dfn k) ci.children (on_stack d p ci)
        ≡ ok tt (with_numbers (on_stack d p ci) cs n)
      → get_elem? cs p ≡ some ci2
      → ci2.cyc_head ≡ p
      → ci2.cyc_next ≡ none
      → suc n < 2 ^ 32
      → mg_dfn (suc k) p d ≡ ok tt (with_numbers d (renumber cs p ci2 (suc n)) (suc n))
  unfolding mg_dfn mg_previsit mg_postvisit number_loop steps on_stack
  mg_dfn-fresh k d p ci ci2 cs n here new loop here2 head alone short =
      let busy_here = get_elem?-set_same d.classes p (record ci { top_order = mg_dfn_busy }) here in
      let next : (n + 1) % 2 ^ 32 ≡ suc n = omega (arith, short) in
      let here3 = get_elem?-set_same cs p (record ci2 { top_order = suc n }) here2 in
      let is_head : (ci2.cyc_head == p) ≡ true = rw head (eq_refl p) in
      rw (here, new, here, busy_here, loop, here2, is_head, here2, next, here3, alone) refl

  module _ (kids : Ptr → List Ptr) (rank : Ptr → ℕ) where
    -- A run that returns and numbers the classes `ps`, and perhaps others.
    pub record Visits (d : Jdump) (run : Outcome (Unit {0})) (ps : List Ptr) : Type 0 where
      pub classes : List Cinfo
      pub counter : ℕ
      pub ran : run ≡ ok tt (with_numbers d classes counter)
      pub numbering : Numbering kids rank d.arcs classes counter
      pub extends : Extends kids rank d.classes classes
      pub rises : d.dfn_counter ≤ counter
      pub numbered : All (λ p. (1 ≤ order_at classes p) × (order_at classes p ≤ counter)) ps
      pub quiet : (q : Ptr) → order_at classes q ≡ mg_dfn_busy → order_at d.classes q ≡ mg_dfn_busy

    -- Numbered classes stay so in what follows.
    pub numbered-Extends :
        (cs cs' : List Cinfo) (n n' : ℕ) (ps : List Ptr)
        → Extends kids rank cs cs'
        → n ≤ n'
        → All (λ p. (1 ≤ order_at cs p) × (order_at cs p ≤ n)) ps
        → All (λ p. (1 ≤ order_at cs' p) × (order_at cs' p ≤ n')) ps
    numbered-Extends cs cs' n n' ps e le =
        All-map (λ p. (1 ≤ order_at cs p) × (order_at cs p ≤ n))
          (λ p. (1 ≤ order_at cs' p) × (order_at cs' p ≤ n')) ps
          (λ p h.
            let same = e.keeps p (λ z. absurd (omega (arith, z, h.0))) in
            (omega (arith, same, h.0), omega (arith, same, h.1, le)))

    -- No class on the stack has a rank below `r`.
    abbrev pub Above : ℕ → List Cinfo → Type 0
    Above r classes = (q : Ptr) → order_at classes q ≡ mg_dfn_busy → r ≤ rank q

    arcs_loop-Visits :
        (visit : Ptr → M (Unit {0})) (r : ℕ)
        → ((d : Jdump) (c : Ptr)
            → Numbering kids rank d.arcs d.classes d.dfn_counter
            → c < length d.classes
            → rank c < r
            → Above r d.classes
            → Visits d (visit c d) (c ∷ []))
        → (d : Jdump) (fuel : ℕ) (classes : List Cinfo) (n : ℕ) (o : Option Ptr) (cs : List Ptr)
        → Kids d.arcs o cs
        → length cs ≤ fuel
        → All (λ c. (c < length classes) × (rank c < r)) cs
        → Numbering kids rank d.arcs classes n
        → Above r classes
        → Visits (with_numbers d classes n) (arcs_loop fuel visit o (with_numbers d classes n)) cs
    unfolding arcs_loop steps
    arcs_loop-Visits visit r step d fuel classes n o cs last le low h above = record {
      classes = classes;
      counter = n;
      ran = refl;
      numbering = h;
      extends = Extends-refl kids rank classes;
      rises = omega arith;
      numbered = tt;
      quiet = λ q e. e;
    }
    arcs_loop-Visits visit r step d zero classes n o cs (more a arc cs' at next) le low h above =
        absurd (omega (arith, le))
    arcs_loop-Visits visit r step d (suc k) classes n o cs (more a arc cs' at next) le low h above =
        let first = step (with_numbers d classes n) arc.child h low.0.0 low.0.1 above in
        let others =
          arcs_loop-Visits visit r step d k first.classes first.counter arc.next_child cs' next
            (omega (arith, le))
            (subst (λ l. All (λ c. (c < l) × (rank c < r)) cs') (sym first.extends.size) low.1)
            first.numbering (λ q e. above q (first.quiet q e)) in
        record {
          classes = others.classes;
          counter = others.counter;
          ran = rw (at, first.ran, at, others.ran) refl;
          numbering = others.numbering;
          extends =
              Extends-trans kids rank classes first.classes others.classes first.extends
                others.extends;
          rises = omega (arith, first.rises, others.rises);
          numbered = (
            (numbered-Extends first.classes others.classes first.counter others.counter
                (arc.child ∷ []) others.extends others.rises first.numbered).0,
            others.numbered,
          );
          quiet = λ q e. first.quiet q (others.quiet q e);
        }

    fresh-Visits :
        (k : ℕ) (d : Jdump) (p : Ptr) (h : Numbering kids rank d.arcs d.classes d.dfn_counter)
        (lt : p < length d.classes)
        → order_at d.classes p ≡ mg_dfn_nan
        → (let ci = (h.vertex p lt).class in
            Visits
              (on_stack d p ci)
              (arcs_loop (suc k) (mg_dfn k) ci.children (on_stack d p ci))
              (kids p))
        → Visits d (mg_dfn (suc k) p d) (p ∷ [])
    unfolding on_stack
    fresh-Visits k d p h lt new w =
        let v = h.vertex p lt in
        let ci = v.class in
        let at_p = order_at-class d.classes p ci v.here in
        let start = start-Extends kids rank d.arcs d.classes p ci v.here d.dfn_counter h new in
        let v2 = w.numbering.vertex p (omega (arith, lt, start.size, w.extends.size)) in
        let busy1 = order_at-renumber_self d.classes p ci mg_dfn_busy v.here in
        let busy2 : order_at w.classes p ≡ mg_dfn_busy =
          w.extends.keeps p (λ z. absurd (omega (arith, z, busy1))) ∙ busy1 in
        let n = w.counter in
        let final =
          finish-Numbering kids rank d.arcs w.classes p v2.class v2.here n w.numbering busy2
            w.numbered in
        let at_end = order_at-renumber_self w.classes p v2.class (suc n) v2.here in
        record {
          classes = renumber w.classes p v2.class (suc n);
          counter = suc n;
          ran =
              mg_dfn-fresh k d p ci v2.class w.classes n v.here (sym at_p ∙ new) w.ran v2.here
                v2.head v2.alone (omega (arith, final.room));
          numbering = final;
          extends = record {
            size =
                length-set w.classes p (record v2.class { top_order = suc n })
                ∙ w.extends.size
                ∙ start.size;
            keeps = λ q some_number.
                order_at-renumber_ne w.classes p q v2.class (suc n)
                  (λ e. some_number (ap (order_at d.classes) (sym e) ∙ new))
                ∙ w.extends.keeps q (λ z. some_number (sym (start.keeps q some_number) ∙ z))
                ∙ start.keeps q some_number;
          };
          rises = omega (arith, w.rises);
          numbered = ((omega (arith, at_end), omega (arith, at_end)), tt);
          quiet = λ q e. elim (eq_cases p q) [
            | inl same ↦ absurd (
                omega (
                  arith,
                  e,
                  ap (order_at (renumber w.classes p v2.class (suc n))) same,
                  at_end,
                  final.room,
                ))
            | inr ne ↦
                sym (order_at-renumber_ne d.classes p q ci mg_dfn_busy ne)
                ∙ w.quiet q (sym (order_at-renumber_ne w.classes p q v2.class (suc n) ne) ∙ e)
          ];
        }

    pub mg_dfn-Visits :
        (k m : ℕ) (d : Jdump) (p : Ptr)
        → ((q : Ptr) → length (kids q) ≤ m)
        → Numbering kids rank d.arcs d.classes d.dfn_counter
        → p < length d.classes
        → rank p + m < k
        → Above (suc (rank p)) d.classes
        → Visits d (mg_dfn k p d) (p ∷ [])
    unfolding on_stack
    mg_dfn-Visits zero m d p few h lt fuel above = absurd (omega (arith, fuel))
    mg_dfn-Visits (suc k) m d p few h lt fuel above =
        let v = h.vertex p lt in
        let at_p = order_at-class d.classes p v.class v.here in
        elim (h.kind p) [
          | busy e ↦ absurd (omega (arith, above p e))
          | done low high all ↦ record {
            classes = d.classes;
            counter = d.dfn_counter;
            ran =
                mg_dfn-numbered k d p v.class v.here (omega (arith, at_p, low))
                  (omega (arith, at_p, high, h.room));
            numbering = h;
            extends = Extends-refl kids rank d.classes;
            rises = omega arith;
            numbered = ((low, high), tt);
            quiet = λ q e. e;
          }
          | fresh e ↦ fresh-Visits k d p h lt e (
              arcs_loop-Visits (mg_dfn k) (rank p)
                (λ d' c h' lt' down above'.
                  mg_dfn-Visits k m d' c few h' lt' (omega (arith, down, fuel))
                    (λ q b. omega (arith, above' q b, down)))
                (on_stack d p v.class) (suc k) (renumber d.classes p v.class mg_dfn_busy)
                d.dfn_counter v.class.children (kids p) v.linked (omega (arith, few p, fuel))
                (subst (λ l. All (λ c. (c < l) × (rank c < rank p)) (kids p))
                  (sym (length-set d.classes p (record v.class { top_order = mg_dfn_busy })))
                  (h.below p))
                (start-Numbering kids rank d.arcs d.classes p v.class v.here d.dfn_counter h e)
                (λ q b. elim (eq_cases p q) [
                  | inl same ↦ omega (arith, ap rank same)
                  | inr ne ↦ omega (
                    arith,
                    above q (sym (order_at-renumber_ne d.classes p q v.class mg_dfn_busy ne) ∙ b),
                  )
                ]))
        ]

-- ===== src/Graph/Members.antt =====
-- `mg_postvisit` at the head of a cycle.
use phat.Base.{
  ℕ, zero, suc, ◌+◌, ◌%◌, ◌^◌, ◌≤◌, ◌≡◌, ◌==◌, ap, ◌∙◌, refl, true, Option, some, List, length,
  get_elem?, set, arith, set-same, get_elem?-set_same, eq_refl,
}
use phat.Env.{Env}
use phat.Types.{Ptr, Cinfo}
use phat.Dump.{Jdump, ok, steps}
use phat.Graph.{pop, number_loop, mg_postvisit}
use phat.Graph.Cycles.{Members, last, member, Members-frame}

module _ ⦃env : Env⦄ where
  module _ (d : Jdump) (p : Ptr) (ci : Cinfo) where
    -- A class that has the number already gets it again for each member of its cycle.
    number_loop_again :
        (fuel : ℕ) (o : Option Ptr) (ns : List ℕ)
        → get_elem? d.classes p ≡ some ci
        → ci.top_order ≡ d.dfn_counter
        → Members d.classes p o ns
        → length ns ≤ fuel
        → number_loop fuel p o d ≡ ok tt d
    unfolding number_loop steps
    number_loop_again fuel o ns e same last le = refl
    number_loop_again zero o ns e same (member m mi ms e' ne h) le = absurd (omega (arith, le))
    number_loop_again (suc k) o ns e same (member m mi ms e' ne h) le =
        let again : get_elem? d.classes p ≡ some (record ci { top_order = d.dfn_counter }) =
          e ∙ ap (λ n. some (record ci { top_order = n })) same in
        let more = number_loop_again k mi.cyc_next ms e same h (omega (arith, le)) in
        rw (e, set-same d.classes p (record ci { top_order = d.dfn_counter }) again, e', more) refl

  -- At the head of a cycle, whose other members `cyc_next` leads to, mg_postvisit returns, on fuel above
  -- their number: the head gets the next number, the counter moves on to it, and the stack loses its
  -- top. Nothing else changes: the other members do not get the number.
  pub mg_postvisit-Members :
      (k : ℕ) (d : Jdump) (p : Ptr) (ci : Cinfo) (ns : List ℕ)
      → get_elem? d.classes p ≡ some ci
      → ci.cyc_head ≡ p
      → Members d.classes p ci.cyc_next ns
      → length ns ≤ k
      → mg_postvisit (suc k) p d
        ≡ ok tt (record d {
          classes = set d.classes p (record ci { top_order = (d.dfn_counter + 1) % 2 ^ 32 });
          dfn_counter = (d.dfn_counter + 1) % 2 ^ 32;
          dfn_stack = pop d.dfn_stack;
        })
  unfolding mg_postvisit number_loop steps
  mg_postvisit-Members k d p ci ns e head h le =
      let n = (d.dfn_counter + 1) % 2 ^ 32 in
      let ci1 = record ci { top_order = n } in
      let d1 = record d { classes = set d.classes p ci1; dfn_counter = n } in
      let e1 = get_elem?-set_same d.classes p ci1 e in
      let is_head : (ci.cyc_head == p) ≡ true = ap (λ q. q == p) head ∙ eq_refl p in
      let others =
        number_loop_again d1 p ci1 k ci.cyc_next ns e1 refl
          (Members-frame d.classes p ci1 ci.cyc_next ns h) le in
      rw (e, is_head, e, e1, others) refl

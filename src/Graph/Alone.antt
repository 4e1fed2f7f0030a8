-- ===== src/Graph/Alone.antt =====
-- The depth-first search at a class without arcs.
use phat.Base.{
  ℕ, suc, ◌+◌, ◌%◌, ◌^◌, ◌≡◌, refl, ap, ◌∙◌, false, none, some, get_elem?, set, get_elem?-set_same,
  set-set, eq_refl,
}
use phat.Env.{Env}
use phat.Types.{Ptr, Cinfo}
use phat.Dump.{Jdump, ok, steps, ◌>>◌}
use phat.Graph.{
  arc_init, mg_dfn, mg_dfn_nan, mg_dfn_busy, mg_previsit, mg_postvisit, number_loop, arcs_loop,
}

module _ ⦃env : Env⦄ where
  -- A class as `arc_init` leaves it, with a number.
  abbrev pub numbered : Cinfo → Ptr → ℕ → Cinfo
  numbered ci p n = record ci {
    child_size = 0;
    print_flag = false;
    top_order = n;
    cyc_num = 0;
    cyc_head = p;
    cyc_next = none;
    parents = none;
    children = none;
  }

  arc_init-lem :
      (d : Jdump) (p : Ptr) (ci : Cinfo)
      → get_elem? d.classes p ≡ some ci
      → arc_init p d ≡ ok tt (record d { classes = set d.classes p (numbered ci p mg_dfn_nan) })
  unfolding arc_init steps
  arc_init-lem d p ci e = rw e refl

  mg_dfn-alone :
      (d : Jdump) (p k : ℕ) (ci : Cinfo)
      → get_elem? d.classes p ≡ some (numbered ci p mg_dfn_nan)
      → mg_dfn (suc k) p d
        ≡ ok tt (record d {
          classes = set d.classes p (numbered ci p ((d.dfn_counter + 1) % 2 ^ 32));
          dfn_counter = (d.dfn_counter + 1) % 2 ^ 32;
        })
  unfolding mg_dfn mg_previsit mg_postvisit number_loop arcs_loop steps
  mg_dfn-alone d p k ci e =
      let busy = get_elem?-set_same d.classes p (numbered ci p mg_dfn_busy) e in
      let done = get_elem?-set_same d.classes p (numbered ci p ((d.dfn_counter + 1) % 2 ^ 32)) e in
      rw (e, e, busy, busy, eq_refl, busy, set-set, done) refl

  -- The search at a class that `arc_init` has just set up, from any fuel but none: the class gets the
  -- next number, the counter goes up, and the stack and all other classes are as they were.
  pub arc_init-mg_dfn :
      (d : Jdump) (p k : ℕ) (ci : Cinfo)
      → get_elem? d.classes p ≡ some ci
      → (arc_init p >> mg_dfn (suc k) p) d
        ≡ ok tt (record d {
          classes = set d.classes p (numbered ci p ((d.dfn_counter + 1) % 2 ^ 32));
          dfn_counter = (d.dfn_counter + 1) % 2 ^ 32;
        })
  arc_init-mg_dfn d p k ci e = rw (arc_init-lem d p ci e) (
      mg_dfn-alone _ p k (numbered ci p mg_dfn_nan) (get_elem?-set_same d.classes p _ e)
      ∙ ap (λ cs. ok tt (record d { classes = cs; dfn_counter = (d.dfn_counter + 1) % 2 ^ 32 }))
          (set-set d.classes p _ _))

-- ===== src/Resolve/Own.antt =====
-- The layout that `resolveClassNode` gives to a class: its own fields, and those of its superclasses.
pub mod Block
pub mod Above
pub mod Inherited
use phat.Base.{
  ℕ, zero, suc, ◌+◌, ◌-◌, ◌<◌, ◌≤◌, ◌≡◌, ◌≢◌, refl, ap, sym, ◌∙◌, subst, Option, some, none, true,
  false, List, [], ◌∷◌, ◌++◌, map, length, get_elem?, set, arith, lt→ltb, ne→eq_false,
  get_elem?-set_same, set-set, get_elem?-set_ne,
}
use mathlib.Core.List.{append-nil}
use phat.Env.{Env, lookup32}
use phat.Types.{CString, Ptr, Hobject, Cinfo, Finfo}
use phat.Dump.{Jdump, ok, steps}
use phat.Resolve.Chain.{sum, Supers, top, below, resolve_sclass_size-sum}
use phat.Resolve.Layout.{replicate, resolve_statics, fill_loop, resolve_class_node, fill_values}
use phat.Resolve.Own.Block.{layout, layout_size, filled, at_field, own_block, loop_cong}
use phat.Resolve.Own.Above.{total, laid, sizes_all, Bases, Inner, Top, Bases-frame}
use phat.Resolve.Own.Inherited.{replicate-add, length-replicate, fill_loop-Bases}

module _ ⦃env : Env⦄ where
  -- All statics of a class are there, and are marked as resolved.
  abbrev pub marked : List Hobject → List Hobject
  marked [] = []
  marked (s ∷ ss) = record s { resolved = true } ∷ marked ss

  resolve_statics-length : (ss : List Hobject) → resolve_statics (length ss) ss ≡ some (marked ss)
  unfolding resolve_statics
  resolve_statics-length [] = refl
  resolve_statics-length (s ∷ ss) = rw (resolve_statics-length ss) refl

  abbrev owning : Cinfo → List Finfo → List (List Finfo) → Cinfo
  owning ci fs fss = record ci { fields = fs; cfields = length fs; tfields = length fs + total fss }

  abbrev laid_out : Jdump → Cinfo → List Finfo → List (List Finfo) → Cinfo
  laid_out d ci fs fss =
      let own = layout d.sb_table d.identsz 0 fs in
      let size = layout_size d.sb_table d.identsz fs in
      record (owning ci fs fss) {
        fields = own;
        values = laid d.identsz size fss ++ map some own;
        size = size + sizes_all d.identsz fss;
      }

  -- What `fill_values` does, by what its loop returns.
  fill_values-loop :
      (fuel : ℕ) (d d2 : Jdump) (p : Ptr) (ci ci2 : Cinfo) (target index : ℕ)
      → get_elem? d.classes p ≡ some ci
      → 0 < ci.tfields
      → ci.tfields - ci.cfields ≡ target
      → fill_loop fuel ci.tfields p
          (at_field p target 0 0)
          (record d { classes = set d.classes p (record ci { values = replicate ci.tfields }) })
        ≡ ok index d2
      → get_elem? d2.classes p ≡ some ci2
      → fill_values fuel p d
        ≡ ok tt (record d2 { classes = set d2.classes p (record ci2 { size = index }) })
  unfolding fill_values steps
  fill_values-loop fuel d d2 p ci ci2 target index e lt at loop e2 =
      rw (e, lt→ltb 0 ci.tfields lt, at, loop, e2) refl

  fill_values-layout :
      (k : ℕ) (d : Jdump) (p : Ptr) (ci : Cinfo) (fs : List Finfo) (fss : List (List Finfo))
      → 0 < length fs + total fss
      → get_elem? d.classes p ≡ some (owning ci fs fss)
      → Bases d.classes d.c_table p ci.super_id fss
      → length fss ≤ k
      → fill_values (suc k) p d
        ≡ ok tt (record d { classes = set d.classes p (laid_out d ci fs fss) })
  fill_values-layout k d p ci fs fss lt e bases enough =
      let own = layout d.sb_table d.identsz 0 fs in
      let size = layout_size d.sb_table d.identsz fs in
      let nones = replicate (total fss) in
      let all = owning ci fs fss in
      let ci1 = filled all fs (replicate (length fs + total fss)) in
      let d1 = record d { classes = set d.classes p ci1 } in
      let e1 =
        get_elem?-set_same d.classes p ci1 e
        ∙ ap (λ l. some (filled all fs l))
            (sym (append-nil (replicate (length fs + total fss)))
              ∙ replicate-add (length fs) (total fss) []) in
      let ci2 = filled all own (nones ++ (map some own ++ [])) in
      let d2 = record d { classes = set d1.classes p ci2 } in
      let e2 = get_elem?-set_same d1.classes p ci2 e1 in
      let ci3 = filled all own (laid d.identsz size fss ++ (map some own ++ [])) in
      let ci4 = record ci3 { size = size + sizes_all d.identsz fss } in
      let framed =
        Bases-frame d1.classes d.c_table p ci2 fss ci.super_id
          (Bases-frame d.classes d.c_table p ci1 fss ci.super_id bases) in
      let loop =
        own_block fs d1 p k (total fss) (total fss) 0 all [] nones [] e1 (omega arith)
          (omega (arith, length-replicate (total fss)))
        ∙ loop_cong d p p k (total fss) (total fss) (total fss) (0 + length fs) (0 + length fs)
            (0 + size) size d2.classes d2.classes refl refl (omega arith) refl
        ∙ fill_loop-Bases fss d2 p k p (0 + length fs) size ci2 ci2 (map some own ++ []) e2
            (omega arith) framed e2 enough in
      let d3 = record d2 { classes = set d2.classes p ci3 } in
      fill_values-loop (suc k) d d3 p all ci3 (total fss) (size + sizes_all d.identsz fss) e lt
        (omega arith) loop (get_elem?-set_same d2.classes p ci3 e2)
      ∙ ap (λ l. ok tt (record d { classes = l }))
          (set-set d2.classes p ci3 ci4
            ∙ set-set d1.classes p ci2 ci4
            ∙ set-set d.classes p ci1 ci4
            ∙ ap (λ l. set d.classes p (record ci4 { values = laid d.identsz size fss ++ l }))
                (append-nil (map some own)))

  -- A class that is resolved is left alone.
  resolve_class_node-resolved :
      (k : ℕ) (d : Jdump) (q : Ptr) (sc : Cinfo)
      → 0 < k
      → get_elem? d.classes q ≡ some sc
      → sc.resolved ≡ true
      → resolve_class_node k q d ≡ ok tt d
  unfolding resolve_class_node steps
  resolve_class_node-resolved zero d q sc lt e done = absurd (omega (arith, lt))
  resolve_class_node-resolved (suc k) d q sc lt e done = rw (e, done) refl

  -- The superclasses as `resolveSClassSize` counts their fields.
  record Counted (d : Jdump) (p : Ptr) (id : ℕ) (fss : List (List Finfo)) : Type 0 where
    at : Ptr
    counts : List ℕ
    known : lookup32 d.c_table id ≡ some at
    chain : Supers d at counts
    sums : sum counts ≡ total fss
    same_length : length counts ≡ length fss

  Bases-Counted :
      (d : Jdump) (p : Ptr) (fss : List (List Finfo)) (id : ℕ)
      → Bases d.classes d.c_table p id fss
      → Counted d p id fss
  Bases-Counted d p [] id t = record {
    at = t.at;
    counts = [];
    known = t.known;
    chain = top t.at t.class t.here t.no_super;
    sums = refl;
    same_length = refl;
  }
  Bases-Counted d p (fs ∷ fss) id (b, more) =
      let above = Bases-Counted d p fss b.class.super_id more in
      record {
        at = b.at;
        counts = b.class.cfields ∷ above.counts;
        known = b.known;
        chain = below b.at above.at b.class above.counts b.here b.has_super above.known above.chain;
        sums = omega (arith, b.count, above.sums);
        same_length = omega (arith, above.same_length);
      }

  -- The class as `resolveClassNode` leaves it.
  abbrev pub resolved_class : Jdump → Cinfo → List (List Finfo) → Cinfo
  resolved_class d ci fss =
      let own = layout d.sb_table d.identsz 0 ci.fields in
      let size = layout_size d.sb_table d.identsz ci.fields in
      record ci {
        tfields = length ci.fields + total fss;
        statics = marked ci.statics;
        fields = own;
        values = laid d.identsz size fss ++ map some own;
        size = size + sizes_all d.identsz fss;
        resolved = true;
      }

  -- A class that has a field or inherits one, with as many fields and statics as it says, and whose
  -- superclass is another class that is resolved, is resolved by any fuel above the number of the
  -- superclasses that have a superclass, where these are other classes, with as many fields as they
  -- say, and the chain ends in a class without a superclass, whose fields do not count. From offset 0
  -- on, each of the fields of the class, then of its superclass and so on, begins where the one before
  -- it ends; the class's own fields have their names; `values` are the fields of the highest of these
  -- classes first, and the class's own last; the size is the sum of the sizes of all these fields;
  -- the statics of the class are marked; and nothing else changes.
  pub resolve_class_node-layout :
      (k : ℕ) (d : Jdump) (p q : Ptr) (ci sc : Cinfo) (fss : List (List Finfo))
      → get_elem? d.classes p ≡ some ci
      → ci.resolved ≡ false
      → ci.cfields ≡ length ci.fields
      → 0 < length ci.fields + total fss
      → ci.cstats ≡ length ci.statics
      → ci.super_id ≢ 0
      → lookup32 d.c_table ci.super_id ≡ some q
      → get_elem? d.classes q ≡ some sc
      → p ≢ q
      → sc.resolved ≡ true
      → Bases d.classes d.c_table p ci.super_id fss
      → length fss < k
      → resolve_class_node (suc k) p d
        ≡ ok tt (record d { classes = set d.classes p (resolved_class d ci fss) })
  unfolding resolve_class_node steps
  resolve_class_node-layout k d p q ci sc fss e fresh count some_field stats has found at_q apart
        done bases lt =
      let kept : resolve_statics ci.cstats ci.statics ≡ some (marked ci.statics) =
        rw stats (resolve_statics-length ci.statics) in
      let counted = Bases-Counted d p fss ci.super_id bases in
      let all : ci.cfields + sum counted.counts ≡ length ci.fields + total fss =
        omega (arith, count, counted.sums) in
      let begun = record ci { resolved = false; statics = marked ci.statics } in
      let ci1 = owning begun ci.fields fss in
      let d1 = record d { classes = set d.classes p ci1 } in
      let e1 = get_elem?-set_same d.classes p ci1 e in
      let at_q1 : get_elem? d1.classes q ≡ some sc =
        get_elem?-set_ne d.classes p q ci1 apart ∙ at_q in
      let super_done = resolve_class_node-resolved k d1 q sc (omega arith) at_q1 done in
      let values =
        fill_values-layout k d1 p begun ci.fields fss some_field e1
          (Bases-frame d.classes d.c_table p ci1 fss ci.super_id bases) (omega (arith, lt)) in
      let ci2 = laid_out d1 begun ci.fields fss in
      let e2 = get_elem?-set_same d1.classes p ci2 e1 in
      rw
        (
          e,
          fresh,
          e,
          ne→eq_false ci.super_id 0 has,
          counted.known,
          resolve_sclass_size-sum k d counted.at counted.counts counted.chain
              (omega (arith, lt, counted.same_length)),
          kept,
          found,
          all,
          count,
          super_done,
          values,
          e2,
          set-set d.classes p ci1 ci2,
          set-set d.classes p ci2 (record ci2 { resolved = true }),
        )
        refl

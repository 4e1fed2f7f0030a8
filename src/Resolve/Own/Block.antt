-- ===== src/Resolve/Own/Block.antt =====
-- The loop that fills `values`, on the fields of one class: the class itself, whose fields get their
-- offsets and names, or a superclass, whose fields are copied.
use mathlib.Core.List.{append_assoc}
use phat.Base.{
  suc_plus, ℕ, suc, ◌+◌, ◌<◌, ◌≡◌, ◌≢◌, refl, ap, sym, ◌∙◌, Option, some, none, List, [], ◌∷◌, ◌++◌,
  map, length, get_elem?, set, arith, lt→ltb, ne→eq_false, eq_refl, get_elem?-set_same, set-set,
  length-append, get_elem?-behind, set-behind, set-same, get_elem?-set_ne,
}
use phat.Env.{Env, lookup32}
use phat.Types.{CString, Cinfo, Finfo}
use phat.Dump.{Jdump, steps}
use phat.Resolve.Layout.{replicate, field_size, Fill, next_class, fill_field, fill_loop}

module _ ⦃env : Env⦄ where
  module _ (names : env.Tree CString) (identsz : ℕ) where
    -- A field at an offset, with its name.
    abbrev pub placed : ℕ → Finfo → Finfo
    placed index f = record f { offset = index; name = lookup32 names f.ident }

    -- Each field begins where the one before it ends.
    abbrev pub layout : ℕ → List Finfo → List Finfo
    layout index [] = []
    layout index (f ∷ fs) = placed index f ∷ layout (index + field_size identsz f.ftype) fs

    abbrev pub layout_size : List Finfo → ℕ
    layout_size [] = 0
    layout_size (f ∷ fs) = field_size identsz f.ftype + layout_size fs

  abbrev pub filled : Cinfo → List Finfo → List (Option Finfo) → Cinfo
  filled ci fs vs = record ci { fields = fs; values = vs }

  abbrev pub at_field : ℕ → ℕ → ℕ → ℕ → Fill
  at_field p target i index = record { cc = p; target = target; field_no = i; index = index }

  module _ (d : Jdump) (p k n target index : ℕ) (ci : Cinfo) (f : Finfo) where
    -- A round of the loop at a field of the class itself.
    own_step :
        (xs ys : List Finfo) (us vs : List (Option Finfo))
        → get_elem? d.classes p ≡ some (filled ci (xs ++ (f ∷ ys)) (us ++ (none ∷ vs)))
        → length xs < ci.cfields
        → length us ≡ target + length xs
        → fill_loop (suc k) (suc n) p (at_field p target (length xs) index) d
          ≡ fill_loop
              (suc k)
              n
              p
              (at_field p target (length xs + 1) (index + field_size d.identsz f.ftype))
              (record d {
                classes = set d.classes p (
                    filled ci
                      (xs ++ (placed d.sb_table d.identsz index f ∷ ys))
                      (us ++ (some (placed d.sb_table d.identsz index f) ∷ vs)));
              })
    unfolding fill_loop next_class fill_field steps
    own_step xs ys us vs e lt at =
        let own = placed d.sb_table d.identsz index f in
        let stored =
          get_elem?-set_same d.classes p (filled ci (xs ++ (own ∷ ys)) (us ++ (some own ∷ vs))) e in
        rw
          (
            e,
            lt→ltb (length xs) ci.cfields lt,
            e,
            get_elem?-behind xs f ys,
            e,
            sym at,
            get_elem?-behind us none vs,
            eq_refl,
            set-behind xs f own ys,
            set-behind us none (some own) vs,
            stored,
            get_elem?-behind xs own ys,
          )
          refl

  -- The fields of a superclass, of which a copy begins where the one before it ends.
  abbrev pub copies : ℕ → ℕ → List Finfo → List Finfo
  copies identsz index [] = []
  copies identsz index (f ∷ fs) =
      record f { offset = index } ∷ copies identsz (index + field_size identsz f.ftype) fs

  abbrev pub sizes : ℕ → List Finfo → ℕ
  sizes identsz [] = 0
  sizes identsz (f ∷ fs) = field_size identsz f.ftype + sizes identsz fs

  module _ (d : Jdump) (p q k n target index : ℕ) (ci sc : Cinfo) (f : Finfo) where
    -- A round of the loop at a field of a superclass.
    copy_step :
        (xs ys : List Finfo) (us vs : List (Option Finfo))
        → q ≢ p
        → get_elem? d.classes q ≡ some sc
        → sc.fields ≡ xs ++ (f ∷ ys)
        → length xs < sc.cfields
        → get_elem? d.classes p ≡ some (record ci { values = us ++ (none ∷ vs) })
        → length us ≡ target + length xs
        → fill_loop (suc k) (suc n) p (at_field q target (length xs) index) d
          ≡ fill_loop
              (suc k)
              n
              p
              (at_field q target (length xs + 1) (index + field_size d.identsz f.ftype))
              (record d {
                classes =
                    set d.classes p
                      (record ci { values = us ++ (some (record f { offset = index }) ∷ vs) });
              })
    unfolding fill_loop next_class fill_field steps
    copy_step xs ys us vs apart at_q fields lt e at =
        let copy = record f { offset = index } in
        let ci2 = record ci { values = us ++ (some copy ∷ vs) } in
        let here : get_elem? sc.fields (length xs) ≡ some f =
          rw fields (get_elem?-behind xs f ys) in
        let still = get_elem?-set_ne d.classes p q ci2 (λ z. apart (sym z)) ∙ at_q in
        rw
          (
            at_q,
            lt→ltb (length xs) sc.cfields lt,
            at_q,
            here,
            e,
            sym at,
            get_elem?-behind us none vs,
            ne→eq_false q p apart,
            set-behind us none (some copy) vs,
            still,
            here,
          )
          refl

  -- The loop at equal numbers and classes.
  pub loop_cong :
      (d : Jdump) (p q k target n n' j j' index index' : ℕ) (cs cs' : List Cinfo)
      → n ≡ n'
      → j ≡ j'
      → index ≡ index'
      → cs ≡ cs'
      → fill_loop (suc k) n p (at_field q target j index) (record d { classes = cs })
        ≡ fill_loop (suc k) n' p (at_field q target j' index') (record d { classes = cs' })
  loop_cong d p q k target n n' j j' index index' cs cs' e1 e2 e3 e4 = λ i.
      fill_loop (suc k) (e1 i) p (at_field q target (e2 i) (e3 i)) (record d { classes = e4 i })

  -- The rounds at all fields of the class itself that are left, when `r` more follow.
  pub own_block :
      (fs : List Finfo) (d : Jdump) (p k r target index : ℕ) (ci : Cinfo) (xs : List Finfo)
      (us vs : List (Option Finfo))
      → get_elem? d.classes p ≡ some (filled ci (xs ++ fs) (us ++ (replicate (length fs) ++ vs)))
      → ci.cfields ≡ length xs + length fs
      → length us ≡ target + length xs
      → fill_loop (suc k) (length fs + r) p (at_field p target (length xs) index) d
        ≡ fill_loop
            (suc k)
            r
            p
            (at_field p target
              (length xs + length fs)
              (index + layout_size d.sb_table d.identsz fs))
            (record d {
              classes = set d.classes p (
                  filled ci
                    (xs ++ layout d.sb_table d.identsz index fs)
                    (us ++ (map some (layout d.sb_table d.identsz index fs) ++ vs)));
            })
  own_block [] d p k r target index ci xs us vs e all at =
      loop_cong d p p k target (0 + r) r (length xs) (length xs + 0) index (index + 0) d.classes
        (set d.classes p (filled ci (xs ++ []) (us ++ vs))) (omega arith) (omega arith)
        (omega arith) (sym (set-same d.classes p (filled ci (xs ++ []) (us ++ vs)) e))
  own_block (f ∷ fs) d p k r target index ci xs us vs e all at =
      let own = placed d.sb_table d.identsz index f in
      let next = index + field_size d.identsz f.ftype in
      let after = layout d.sb_table d.identsz next fs in
      let ci2 = filled ci (xs ++ (own ∷ fs)) (us ++ (some own ∷ (replicate (length fs) ++ vs))) in
      let d2 = record d { classes = set d.classes p ci2 } in
      let longer = length-append xs (own ∷ []) in
      let longer' = length-append us (some own ∷ []) in
      let us2 = append_assoc us (some own ∷ []) in
      ap (λ n. fill_loop (suc k) n p (at_field p target (length xs) index) d)
        (suc_plus (length fs) r)
      ∙ own_step d p k (length fs + r) target index ci f xs fs us (replicate (length fs) ++ vs) e
          (omega (arith, all)) at
      ∙ ap (λ j. fill_loop (suc k) (length fs + r) p (at_field p target j next) d2)
          (omega (arith, longer))
      ∙ own_block fs d2 p k r target next ci (xs ++ (own ∷ [])) (us ++ (some own ∷ [])) vs
          (rw (append_assoc xs (own ∷ []) fs, us2 (replicate (length fs) ++ vs))
            (get_elem?-set_same d.classes p ci2 e))
          (omega (arith, all, longer)) (omega (arith, at, longer, longer'))
      ∙ loop_cong d p p k target r r (length (xs ++ (own ∷ [])) + length fs)
          (length xs + length (f ∷ fs)) (next + layout_size d.sb_table d.identsz fs)
          (index + layout_size d.sb_table d.identsz (f ∷ fs))
          (set (set d.classes p ci2) p (
            filled ci ((xs ++ (own ∷ [])) ++ after)
              ((us ++ (some own ∷ [])) ++ (map some after ++ vs))))
          (set d.classes p
            (filled ci (xs ++ (own ∷ after)) (us ++ (some own ∷ (map some after ++ vs)))))
          refl (omega (arith, longer)) (omega arith)
          (set-set d.classes p ci2 (
              filled ci ((xs ++ (own ∷ [])) ++ after)
                ((us ++ (some own ∷ [])) ++ (map some after ++ vs)))
            ∙ ap (set d.classes p) (λ i.
              filled ci (append_assoc xs (own ∷ []) after i) (us2 (map some after ++ vs) i)))

  -- The rounds at all fields of a superclass that are left.
  pub copy_block :
      (fs : List Finfo) (d : Jdump) (p q k r target index : ℕ) (ci sc : Cinfo) (xs : List Finfo)
      (us vs : List (Option Finfo))
      → q ≢ p
      → get_elem? d.classes q ≡ some sc
      → sc.fields ≡ xs ++ fs
      → sc.cfields ≡ length xs + length fs
      → get_elem? d.classes p ≡ some (record ci { values = us ++ (replicate (length fs) ++ vs) })
      → length us ≡ target + length xs
      → fill_loop (suc k) (length fs + r) p (at_field q target (length xs) index) d
        ≡ fill_loop
            (suc k)
            r
            p
            (at_field q target (length xs + length fs) (index + sizes d.identsz fs))
            (record d {
              classes =
                  set d.classes p
                    (record ci { values = us ++ (map some (copies d.identsz index fs) ++ vs) });
            })
  copy_block [] d p q k r target index ci sc xs us vs apart at_q fields all e at =
      loop_cong d p q k target (0 + r) r (length xs) (length xs + 0) index (index + 0) d.classes
        (set d.classes p (record ci { values = us ++ vs })) (omega arith) (omega arith)
        (omega arith) (sym (set-same d.classes p (record ci { values = us ++ vs }) e))
  copy_block (f ∷ fs) d p q k r target index ci sc xs us vs apart at_q fields all e at =
      let copy = record f { offset = index } in
      let next = index + field_size d.identsz f.ftype in
      let after = copies d.identsz next fs in
      let ci2 = record ci { values = us ++ (some copy ∷ (replicate (length fs) ++ vs)) } in
      let d2 = record d { classes = set d.classes p ci2 } in
      let longer = length-append xs (f ∷ []) in
      let longer' = length-append us (some copy ∷ []) in
      let us2 = append_assoc us (some copy ∷ []) in
      ap (λ n. fill_loop (suc k) n p (at_field q target (length xs) index) d)
        (suc_plus (length fs) r)
      ∙ copy_step d p q k (length fs + r) target index ci sc f xs fs us
          (replicate (length fs) ++ vs) apart at_q fields (omega (arith, all)) e at
      ∙ ap (λ j. fill_loop (suc k) (length fs + r) p (at_field q target j next) d2)
          (omega (arith, longer))
      ∙ copy_block fs d2 p q k r target next ci sc (xs ++ (f ∷ [])) (us ++ (some copy ∷ [])) vs
          apart (get_elem?-set_ne d.classes p q ci2 (λ z. apart (sym z)) ∙ at_q)
          (fields ∙ sym (append_assoc xs (f ∷ []) fs)) (omega (arith, all, longer))
          (rw (us2 (replicate (length fs) ++ vs)) (get_elem?-set_same d.classes p ci2 e))
          (omega (arith, at, longer, longer'))
      ∙ loop_cong d p q k target r r (length (xs ++ (f ∷ [])) + length fs)
          (length xs + length (f ∷ fs)) (next + sizes d.identsz fs)
          (index + sizes d.identsz (f ∷ fs))
          (set (set d.classes p ci2) p
            (record ci { values = (us ++ (some copy ∷ [])) ++ (map some after ++ vs) }))
          (set d.classes p (record ci { values = us ++ (some copy ∷ (map some after ++ vs)) })) refl
          (omega (arith, longer)) (omega arith)
          (set-set d.classes p ci2
              (record ci { values = (us ++ (some copy ∷ [])) ++ (map some after ++ vs) })
            ∙ ap (set d.classes p) (λ i. record ci { values = us2 (map some after ++ vs) i }))

-- ===== src/Resolve/Placed.antt =====
-- Values that stand in the file as the layout of their class says.
use mathlib.Core.List.{append_assoc}
use phat.Base.{
  ℕ, ◌+◌, ◌≡◌, refl, ap, sym, ◌∙◌, subst, some, List, [], ◌∷◌, ◌++◌, map, length, arith,
  length-append,
}
use phat.Env.{Env, lookup32}
use phat.Types.{CString, Ptr, Cinfo, Finfo}
use phat.Stdio.{Rest, Rest-advance, seek_to}
use phat.Dump.{Jdump}
use phat.Reader.Words.{be2, be4, be8}
use phat.Text.{sig_from_type}
use phat.Value.Encode.{
  Basic, object, boolean, char, float, double, byte, short, int, long, basic_type, basic_payload,
  InRange,
}
use phat.Resolve.Layout.{field_size}
use phat.Resolve.Fields.{IsNoObject, Fields, no_field, a_field, Fields-append}
use phat.Resolve.Own.{resolved_class}
use phat.Resolve.Own.Block.{layout, layout_size, copies, sizes}
use phat.Resolve.Own.Above.{total, laid}

-- The bytes of values, and of those of the superclasses.
abbrev pub payloads : List Basic → List ℕ
payloads [] = []
payloads (v ∷ vs) = basic_payload v ++ payloads vs

abbrev pub payloads_all : List (List Basic) → List ℕ
payloads_all [] = []
payloads_all (vs ∷ vss) = payloads vs ++ payloads_all vss

-- The values of the superclasses in the order of `values`.
abbrev pub upward : List (List Basic) → List Basic
upward [] = []
upward (vs ∷ vss) = upward vss ++ vs

module _ ⦃env : Env⦄ where
  module _ (table : env.Tree Ptr) where
    -- Values in range of the types of some fields, and among them no reference to an object.
    abbrev pub Typed : List Finfo → List Basic → Type 0
    Typed [] [] = Unit {0}
    Typed (f ∷ fs) (v ∷ vs) =
        (f.ftype ≡ sig_from_type (basic_type v)) × InRange v × IsNoObject table v × Typed fs vs
    Typed [] (v ∷ vs) = ⊥
    Typed (f ∷ fs) [] = ⊥

    abbrev pub TypedAll : List (List Finfo) → List (List Basic) → Type 0
    TypedAll [] [] = Unit {0}
    TypedAll (fs ∷ fss) (vs ∷ vss) = Typed fs vs × TypedAll fss vss
    TypedAll [] (vs ∷ vss) = ⊥
    TypedAll (fs ∷ fss) [] = ⊥

    pub length-Typed : (fs : List Finfo) (vs : List Basic) → Typed fs vs → length vs ≡ length fs
    length-Typed [] [] t = refl
    length-Typed (f ∷ fs) (v ∷ vs) (e, h, n, t) = omega (arith, length-Typed fs vs t)
    length-Typed [] (v ∷ vs) t = elim t [ ]
    length-Typed (f ∷ fs) [] t = elim t [ ]

    pub length-TypedAll :
        (fss : List (List Finfo)) (vss : List (List Basic))
        → TypedAll fss vss
        → length (upward vss) ≡ total fss
    length-TypedAll [] [] t = refl
    length-TypedAll (fs ∷ fss) (vs ∷ vss) (t, ts) =
        omega
          (arith, length-append (upward vss) vs, length-Typed fs vs t, length-TypedAll fss vss ts)
    length-TypedAll [] (vs ∷ vss) t = elim t [ ]
    length-TypedAll (fs ∷ fss) [] t = elim t [ ]

  -- A field takes as many bytes as the value has.
  field_size-basic :
      (v : Basic) → field_size 4 (sig_from_type (basic_type v)) ≡ length (basic_payload v)
  unfolding field_size sig_from_type be2 be4 be8
  field_size-basic (object n) = refl
  field_size-basic (boolean n) = refl
  field_size-basic (char n) = refl
  field_size-basic (float n) = refl
  field_size-basic (double n) = refl
  field_size-basic (byte n) = refl
  field_size-basic (short n) = refl
  field_size-basic (int n) = refl
  field_size-basic (long n) = refl

  module _ (d : Jdump) (fpos : ℕ) where
    -- Behind a value whose field begins at an offset.
    at_end : (index n m : ℕ) → m ≡ n → fpos + index + n ≡ fpos + (index + m)
    at_end index n m e = omega (arith, e)

    behind_value :
        (index : ℕ) (f : Finfo) (v : Basic) (bs : List ℕ)
        → f.ftype ≡ sig_from_type (basic_type v)
        → Rest (seek_to (fpos + index) d.fin) (basic_payload v ++ bs)
        → Rest (seek_to (fpos + (index + field_size 4 f.ftype)) d.fin) bs
    behind_value index f v bs e h =
        subst (λ n. Rest (seek_to n d.fin) bs)
          (at_end index (length (basic_payload v)) (field_size 4 f.ftype)
            (ap (λ t. field_size 4 t) e ∙ field_size-basic v))
          (Rest-advance (seek_to (fpos + index) d.fin) (basic_payload v) bs h)

    -- The class's own fields, from an offset on.
    layout-Fields :
        (names : env.Tree CString) (fs : List Finfo) (vs : List Basic) (index : ℕ) (bs : List ℕ)
        → Typed d.h_table fs vs
        → Rest (seek_to (fpos + index) d.fin) (payloads vs ++ bs)
        → Fields d fpos (map some (layout names 4 index fs)) vs
          × Rest (seek_to (fpos + (index + layout_size names 4 fs)) d.fin) bs
    layout-Fields names [] [] index bs t h =
        (no_field, subst (λ n. Rest (seek_to (fpos + n) d.fin) bs) (omega arith) h)
    layout-Fields names (f ∷ fs) (v ∷ vs) index bs (e, range, nowhere, t) h =
        let h' = h ∙ append_assoc (basic_payload v) (payloads vs) bs in
        let (more, end) =
          layout-Fields names fs vs (index + field_size 4 f.ftype) bs t
            (behind_value index f v (payloads vs ++ bs) e h') in
        (
          a_field (record f { offset = index; name = lookup32 names f.ident }) v _ vs
              (record {
                ftype = e;
                in_range = range;
                nowhere = nowhere;
                behind = payloads vs ++ bs;
                bytes = h';
              })
              more,
          subst (λ n. Rest (seek_to (fpos + n) d.fin) bs) (omega arith) end,
        )
    layout-Fields names [] (v ∷ vs) index bs t h = elim t [ ]
    layout-Fields names (f ∷ fs) [] index bs t h = elim t [ ]

    -- Those of a superclass.
    copies-Fields :
        (fs : List Finfo) (vs : List Basic) (index : ℕ) (bs : List ℕ)
        → Typed d.h_table fs vs
        → Rest (seek_to (fpos + index) d.fin) (payloads vs ++ bs)
        → Fields d fpos (map some (copies 4 index fs)) vs
          × Rest (seek_to (fpos + (index + sizes 4 fs)) d.fin) bs
    copies-Fields [] [] index bs t h =
        (no_field, subst (λ n. Rest (seek_to (fpos + n) d.fin) bs) (omega arith) h)
    copies-Fields (f ∷ fs) (v ∷ vs) index bs (e, range, nowhere, t) h =
        let h' = h ∙ append_assoc (basic_payload v) (payloads vs) bs in
        let (more, end) =
          copies-Fields fs vs (index + field_size 4 f.ftype) bs t
            (behind_value index f v (payloads vs ++ bs) e h') in
        (
          a_field (record f { offset = index }) v _ vs
              (record {
                ftype = e;
                in_range = range;
                nowhere = nowhere;
                behind = payloads vs ++ bs;
                bytes = h';
              })
              more,
          subst (λ n. Rest (seek_to (fpos + n) d.fin) bs) (omega arith) end,
        )
    copies-Fields [] (v ∷ vs) index bs t h = elim t [ ]
    copies-Fields (f ∷ fs) [] index bs t h = elim t [ ]

    -- Those of all superclasses.
    laid-Fields :
        (fss : List (List Finfo)) (vss : List (List Basic)) (index : ℕ) (bs : List ℕ)
        → TypedAll d.h_table fss vss
        → Rest (seek_to (fpos + index) d.fin) (payloads_all vss ++ bs)
        → Fields d fpos (laid 4 index fss) (upward vss)
    laid-Fields [] [] index bs t h = no_field
    laid-Fields (fs ∷ fss) (vs ∷ vss) index bs (t, ts) h =
        let (here, behind) =
          copies-Fields fs vs index (payloads_all vss ++ bs) t
            (h ∙ append_assoc (payloads vs) (payloads_all vss) bs) in
        Fields-append d fpos (laid 4 (index + sizes 4 fs) fss) (map some (copies 4 index fs))
          (upward vss) vs (laid-Fields fss vss (index + sizes 4 fs) bs ts behind) here
    laid-Fields [] (vs ∷ vss) index bs t h = elim t [ ]
    laid-Fields (fs ∷ fss) [] index bs t h = elim t [ ]

  -- The fields of an object where a class that has been laid out lists them.
  pub class_fields :
      (d : Jdump) (_ : d.identsz ≡ 4) (fpos : ℕ) (ci : Cinfo) (fss : List (List Finfo))
      (vs : List Basic) (vss : List (List Basic)) (r : List ℕ)
      → Typed d.h_table ci.fields vs
      → TypedAll d.h_table fss vss
      → Rest (seek_to fpos d.fin) (payloads vs ++ (payloads_all vss ++ r))
      → Fields d fpos (resolved_class d ci fss).values (upward vss ++ vs)
  class_fields d narrow fpos ci fss vs vss r t ts rest =
      let names = d.sb_table in
      let (own, behind) = layout-Fields d fpos names ci.fields vs 0 (payloads_all vss ++ r) t (
        subst (λ m. Rest (seek_to m d.fin) (payloads vs ++ (payloads_all vss ++ r))) (omega arith)
          rest) in
      let above = laid-Fields d fpos fss vss (layout_size names 4 ci.fields) r ts (
        subst (λ m. Rest (seek_to (fpos + m) d.fin) (payloads_all vss ++ r)) (omega arith)
          behind) in
      subst
        (λ z.
          Fields d fpos
            (laid z (layout_size names z ci.fields) fss ++ map some (layout names z 0 ci.fields))
            (upward vss ++ vs))
        (sym narrow)
        (Fields-append d fpos (laid 4 (layout_size names 4 ci.fields) fss)
          (map some (layout names 4 0 ci.fields)) (upward vss) vs above own)

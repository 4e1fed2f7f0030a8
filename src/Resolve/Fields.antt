-- ===== src/Resolve/Fields.antt =====
-- The fields of an instance, which `resolveInstance` reads at the offsets that the class gives.
pub mod Loop
use mathlib.Core.List.{append_assoc}
use phat.Base.{
  right_zero, ℕ, suc, ◌+◌, ◌%◌, ◌^◌, ◌<◌, ◌≡◌, refl, ap, sym, ◌∙◌, Option, some, none, List, [],
  ◌∷◌, ◌++◌, map, length, get_elem?, set, arith, get_elem?-set_same, set-set, length-append,
  get_elem?-behind, set-behind, set-same, ne→eq_false,
}
use phat.Env.{Env, lookup32}
use phat.Types.{Ptr, Hvalue, Hobject, Cinfo, Finfo}
use phat.Stdio.{File, Rest, seek_to, getc-Rest}
use phat.Dump.{Jdump, Outcome, M, ok, steps}
use phat.Reader.Words.{be2, be4, be8, read_ushort-be2, read_uint-be4, read_ulong-be8}
use phat.Reader.Reads.{Narrow, read_ident-Narrow}
use phat.Text.{sig_from_type}
use phat.Value.Encode.{
  Basic, object, boolean, char, float, double, byte, short, int, long, basic_type, basic_payload,
  basic_size, basic_hvalue, InRange,
}
use phat.Resolve.{fresh_values, resolve_field, resolve_fields, resolve_plain, follow}

-- What a field adds to the size of an instance: that of a float or a double is left out.
abbrev pub counted_size : Basic → ℕ
counted_size (float n) = 0
counted_size (double n) = 0
counted_size v = basic_size v

abbrev pub counted : List Basic → ℕ
counted [] = 0
counted (v ∷ vs) = counted_size v + counted vs

-- How far the file is read: not at all for a float or a double.
abbrev pub moved : ℕ → File → File
moved n fin = record fin { pos = fin.pos + n }

module _ ⦃env : Env⦄ where
  -- What the union of a field holds, where that of a float or a double has not been written.
  abbrev pub field_hvalue : Basic → Hvalue
  field_hvalue (double n) = Hvalue.f
  field_hvalue v = basic_hvalue v

  -- A reference to no object of the heap.
  abbrev pub IsNoObject : env.Tree Ptr → Basic → Type 0
  IsNoObject table (object n) = lookup32 table n ≡ none
  IsNoObject table v = Unit {0}

  -- The state with an object's fields.
  abbrev pub with_values : Jdump → Ptr → Hobject → List Hvalue → Jdump
  with_values d q ho hs = record d { objects = set d.objects q (record ho { hvalues = hs }) }

  -- A reference to no object is left alone.
  follow-none :
      (resolve : Ptr → M ℕ) (d : Jdump) (q n : ℕ)
      → lookup32 d.h_table n ≡ none
      → follow resolve q n d ≡ ok tt d
  unfolding steps
  follow-none resolve d q n e = rw e refl

  module _ (resolve : Ptr → M ℕ) (d : Jdump) (q i : ℕ) (ho : Hobject) (r : List ℕ) where
    untouched :
        get_elem? d.objects q ≡ some ho
        → get_elem? ho.hvalues i ≡ some Hvalue.f
        → ◌≡◌ {A = Outcome ℕ}
            (ok 0 d)
            (ok 0 (with_values (record d { fin = moved 0 d.fin }) q ho (set ho.hvalues i Hvalue.f)))
    untouched e unset = λ j. ok 0 (record d {
      fin = record d.fin { pos = right_zero d.fin.pos j };
      objects =
          (sym (set-same d.objects q ho e)
              ∙ ap (λ hs. set d.objects q (record ho { hvalues = hs }))
                  (sym (set-same ho.hvalues i Hvalue.f unset)))
            j;
    })

    -- A field of each type, where the union of the field has not been written.
    pub resolve_field-lem :
        (v : Basic)
        → Narrow d
        → InRange v
        → IsNoObject d.h_table v
        → get_elem? d.objects q ≡ some ho
        → get_elem? ho.hvalues i ≡ some Hvalue.f
        → Rest d.fin (basic_payload v ++ r)
        → resolve_field resolve q i (sig_from_type (basic_type v)) d
          ≡ ok (counted_size v) (
              with_values
                (record d { fin = moved (counted_size v) d.fin })
                q
                ho
                (set ho.hvalues i (field_hvalue v)))
    unfolding resolve_field sig_from_type steps be4 be2 be8
    resolve_field-lem (object n) w h nowhere e unset rest =
        rw
          (
            read_ident-Narrow d w,
            read_uint-be4 d.fin n r h rest,
            e,
            follow-none resolve
                (with_values (record d { fin = moved 4 d.fin }) q ho
                  (set ho.hvalues i (Hvalue.ident n)))
                q n nowhere,
            w.narrow,
          )
          refl
    resolve_field-lem (boolean n) w h nowhere e unset rest = rw (getc-Rest d.fin n r rest, e) refl
    resolve_field-lem (char n) w h nowhere e unset rest =
        rw (read_ushort-be2 d.fin n r h rest, e) refl
    resolve_field-lem (float n) w h nowhere e unset rest = untouched e unset
    resolve_field-lem (double n) w h nowhere e unset rest = untouched e unset
    resolve_field-lem (byte n) w h nowhere e unset rest = rw (getc-Rest d.fin n r rest, e) refl
    resolve_field-lem (short n) w h nowhere e unset rest =
        rw (read_ushort-be2 d.fin n r h rest, e) refl
    resolve_field-lem (int n) w h nowhere e unset rest = rw (read_uint-be4 d.fin n r h rest, e) refl
    resolve_field-lem (long n) w h nowhere e unset rest =
        rw (read_ulong-be8 d.fin n r h rest, e) refl

  module _ (d : Jdump) (fpos : ℕ) where
    -- A field at the offset that its class gives, with its value in the file.
    pub record FieldAt (info : Finfo) (v : Basic) : Type 0 where
      pub ftype : info.ftype ≡ sig_from_type (basic_type v)
      pub in_range : InRange v
      pub nowhere : IsNoObject d.h_table v
      pub behind : List ℕ
      pub bytes : Rest (seek_to (fpos + info.offset) d.fin) (basic_payload v ++ behind)

    -- The fields that `values` lists.
    pub data Fields : List (Option Finfo) → List Basic → Type 0 where
      no_field : Fields [] []
      a_field :
          (info : Finfo) (v : Basic) (slots : List (Option Finfo)) (vs : List Basic)
          → FieldAt info v
          → Fields slots vs
          → Fields (some info ∷ slots) (v ∷ vs)

    pub Fields-append :
        (xs ys : List (Option Finfo)) (us vs : List Basic)
        → Fields xs us
        → Fields ys vs
        → Fields (xs ++ ys) (us ++ vs)
    Fields-append xs ys us vs no_field more = more
    Fields-append xs ys us vs (a_field info v slots ws here others) more =
        a_field info v (slots ++ ys) (ws ++ vs) here (Fields-append slots ys ws vs others more)

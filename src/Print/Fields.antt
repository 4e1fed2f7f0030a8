-- ===== src/Print/Fields.antt =====
-- What `printInstance` prints of the fields of an instance.
use mathlib.Core.List.{append_assoc}
use phat.Base.{
  ℕ, zero, suc, ◌+◌, ◌==◌, ◌≡◌, refl, ap, sym, subst, ◌∙◌, Bool, true, false, Option, some, none,
  List, [], ◌∷◌, ◌++◌, map, length, get_elem?, arith, length-append, get_elem?-behind,
  if◌then◌else◌, codes, lt→ltb,
}
use phat.Env.{Env}
use phat.Types.{Ptr, Hvalue, Hobject, Cinfo, Finfo, Line}
use phat.Dump.{Jdump, M, ok, steps}
use phat.Text.{sig_from_type}
use phat.Reader.Words.{mangled}
use phat.Value.Encode.{
  Basic, object, boolean, char, float, double, byte, short, int, long, basic_type,
}
use phat.Resolve.Fields.{IsNoObject, field_hvalue}
use phat.Print.{null_or_unknown, print_value, print_fields}
use phat.Print.Arrays.{printed, printed-printed, printed-nil}

abbrev tab_line : ℕ → List Line
tab_line zero = []
tab_line (suc indent) = Line.tabs 1 ∷ []

if_none : (b : Bool) → ◌≡◌ {A = Option Ptr} (if b then none else none) none
if_none true = refl
if_none false = refl

module _ ⦃env : Env⦄ where
  -- How a value is printed: a float or a double is always printed as zero.
  abbrev pub value_line : Basic → Line
  value_line (object n) = null_or_unknown n
  value_line (float n) = Line.text (codes " 0 0 ")
  value_line (double n) = Line.text (codes " 0 0 ")
  value_line (long n) = Line.number (mangled n)
  value_line (boolean n) = Line.number n
  value_line (char n) = Line.number n
  value_line (byte n) = Line.number n
  value_line (short n) = Line.number n
  value_line (int n) = Line.number n

  -- The lines of the fields from the i-th on.
  abbrev pub field_lines : ℕ → ℕ → List (Option Finfo) → List Basic → List Line
  field_lines indent i [] vs = []
  field_lines indent i (slot ∷ slots) [] = []
  field_lines indent i (none ∷ slots) (v ∷ vs) = []
  field_lines indent i (some info ∷ slots) (v ∷ vs) =
      tab_line indent
      ++ (Line.field_head i info.offset info.ftype info.name
          ∷ (value_line v ∷ field_lines indent (i + 1) slots vs))

  -- Fields with values of their types, none of them a reference to an object.
  pub data Shown (table : env.Tree Ptr) : List (Option Finfo) → List Basic → Type 0 where
    none_left : Shown table [] []
    one_more :
        (info : Finfo) (v : Basic) (slots : List (Option Finfo)) (vs : List Basic)
        → info.ftype ≡ sig_from_type (basic_type v)
        → IsNoObject table v
        → Shown table slots vs
        → Shown table (some info ∷ slots) (v ∷ vs)

  print_value-line :
      (show : Ptr → M (Unit {0})) (v : Basic) (d : Jdump)
      → IsNoObject d.h_table v
      → print_value show (sig_from_type (basic_type v)) (field_hvalue v) d
        ≡ ok tt (printed d (value_line v ∷ []))
  unfolding print_value sig_from_type steps
  print_value-line show (object n) d h = rw (h, if_none (n == 0)) refl
  print_value-line show (boolean n) d h = refl
  print_value-line show (char n) d h = refl
  print_value-line show (float n) d h = refl
  print_value-line show (double n) d h = refl
  print_value-line show (byte n) d h = refl
  print_value-line show (short n) d h = refl
  print_value-line show (int n) d h = refl
  print_value-line show (long n) d h = refl

  module _ (show : Ptr → M (Unit {0})) (q p : Ptr) (ho : Hobject) (ci : Cinfo) (info : Finfo)
      (v : Basic) (n i : ℕ) where
    -- A round of the loop.
    field_step :
        (indent : ℕ) (d : Jdump)
        → get_elem? d.classes p ≡ some ci
        → get_elem? d.objects q ≡ some ho
        → get_elem? ci.values i ≡ some (some info)
        → get_elem? ho.hvalues i ≡ some (field_hvalue v)
        → info.ftype ≡ sig_from_type (basic_type v)
        → IsNoObject d.h_table v
        → print_fields show indent q p (suc n) i d
          ≡ print_fields show indent q p n (i + 1) (
              printed d (
                tab_line indent
                ++ (Line.field_head i info.offset info.ftype info.name ∷ (value_line v ∷ []))))
    unfolding print_fields steps
    field_step zero d e e' slot value t h =
        let head = Line.field_head i info.offset (sig_from_type (basic_type v)) info.name in
        rw (e, slot, e', value, t, print_value-line show v (printed d (head ∷ [])) h)
          (ap (print_fields show zero q p n (i + 1))
            (printed-printed d (head ∷ []) (value_line v ∷ [])))
    field_step (suc indent) d e e' slot value t h =
        let head = Line.field_head i info.offset (sig_from_type (basic_type v)) info.name in
        let tab = Line.tabs 1 ∷ [] in
        rw
          (
            lt→ltb 0 (suc indent) (omega arith),
            e,
            slot,
            e',
            value,
            t,
            print_value-line show v (printed (printed d tab) (head ∷ [])) h,
          )
          (ap (print_fields show (suc indent) q p n (i + 1)) (
            printed-printed (printed d tab) (head ∷ []) (value_line v ∷ [])
            ∙ printed-printed d tab (head ∷ (value_line v ∷ []))))

  module _ (show : Ptr → M (Unit {0})) (indent : ℕ) (q p : Ptr) (ho : Hobject) (ci : Cinfo)
      (table : env.Tree Ptr) where
    -- The lines that the loop prints.
    pub print_fields-lines :
        (slots : List (Option Finfo)) (vs : List Basic) (slots0 : List (Option Finfo))
        (hs0 : List Hvalue) (d : Jdump)
        → get_elem? d.classes p ≡ some ci
        → get_elem? d.objects q ≡ some ho
        → d.h_table ≡ table
        → ci.values ≡ slots0 ++ slots
        → ho.hvalues ≡ hs0 ++ map field_hvalue vs
        → length slots0 ≡ length hs0
        → Shown table slots vs
        → print_fields show indent q p (length vs) (length slots0) d
          ≡ ok tt (printed d (field_lines indent (length slots0) slots vs))
    unfolding print_fields steps
    print_fields-lines slots vs slots0 hs0 d e e' tab values hvalues same none_left =
        ap (ok tt) (printed-nil d)
    print_fields-lines slots' vs' slots0 hs0 d e e' tab values hvalues same
          (one_more info v slots vs t h more) =
        let i = length slots0 in
        let lines =
          tab_line indent
          ++ (Line.field_head i info.offset info.ftype info.name ∷ (value_line v ∷ [])) in
        let slot : get_elem? ci.values i ≡ some (some info) =
          rw values (get_elem?-behind slots0 (some info) slots) in
        let value : get_elem? ho.hvalues i ≡ some (field_hvalue v) =
          rw (hvalues, same) (get_elem?-behind hs0 (field_hvalue v) (map field_hvalue vs)) in
        let longer = length-append slots0 (some info ∷ []) in
        let next : length (slots0 ++ (some info ∷ [])) ≡ i + 1 = omega (arith, longer) in
        let rest =
          print_fields-lines slots vs (slots0 ++ (some info ∷ [])) (hs0 ++ (field_hvalue v ∷ []))
            (printed d lines) e e' tab (values ∙ sym (append_assoc slots0 (some info ∷ []) slots))
            (hvalues ∙ sym (append_assoc hs0 (field_hvalue v ∷ []) (map field_hvalue vs)))
            (omega (arith, longer, same, length-append hs0 (field_hvalue v ∷ []))) more in
        field_step show q p ho ci info v (length vs) i indent d e e' slot value t
          (subst (λ z. IsNoObject z v) (sym tab) h)
        ∙ ap (λ j. print_fields show indent q p (length vs) j (printed d lines)) (sym next)
        ∙ rest
        ∙ ap (ok tt) (
            ap (λ j. printed (printed d lines) (field_lines indent j slots vs)) next
            ∙ printed-printed d lines (field_lines indent (i + 1) slots vs)
            ∙ ap (printed d) (
                append_assoc (tab_line indent)
                  (Line.field_head i info.offset info.ftype info.name ∷ (value_line v ∷ []))
                  (field_lines indent (i + 1) slots vs)))

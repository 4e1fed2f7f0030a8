-- ===== src/Print/Arrays.antt =====
-- What `printInstance` prints of an array of primitives.
use mathlib.Core.List.{append_assoc, append-nil}
use phat.Base.{
  ◌&&◌, not, ℕ, zero, suc, ◌+◌, ◌*◌, ◌/◌, ◌%◌, ◌^◌, ◌≡◌, ◌==◌, ap, sym, Bool, true, false, some,
  List, [], ◌∷◌, ◌++◌, map, length, get_elem?, ltb, take, drop,
}
use phat.Env.{Env}
use phat.Types.{Ptr, Hobject, Line}
use phat.Reader.Words.{be2, be4, be8}
use phat.Dump.{Jdump}
use phat.Array.{h_varray}
use phat.Print.{sign_extend}
use phat.Print.Elements.{swapped}

-- The elements of an array that has been resolved: a character counts as a short, and is one of a
-- string or not.
pub data Element : Type 0 where
  e_byte e_char e_short e_int e_long : Element

abbrev pub element_code : Element → ℕ
element_code e_byte = 8
element_code e_char = 9
element_code e_short = 9
element_code e_int = 10
element_code e_long = 11

abbrev pub element_size : Element → ℕ
element_size e_byte = 1
element_size e_char = 2
element_size e_short = 2
element_size e_int = 4
element_size e_long = 8

abbrev pub element_bytes : Element → ℕ → List ℕ
element_bytes e_byte n = n ∷ []
element_bytes e_char n = be2 n
element_bytes e_short n = be2 n
element_bytes e_int n = be4 n
element_bytes e_long n = be8 n

-- The bytes of a number in the opposite order.
abbrev pub swapped_short : ℕ → ℕ
swapped_short n = n / 2 ^ 8 % 256 + 2 ^ 8 * (n % 256)

abbrev pub swapped_long : ℕ → ℕ
swapped_long n = swapped (n / 2 ^ 32) + 2 ^ 32 * swapped n

abbrev pub element_line : Element → ℕ → Line
element_line e_byte n = Line.hex (sign_extend n)
element_line e_char n = Line.char (n % 256)
element_line e_short n = Line.hex (swapped_short n)
element_line e_int n = Line.hex (swapped n)
element_line e_long n = Line.hex (swapped_long n)

-- Characters are those of a string, shorts are not.
abbrev pub Fits : Element → Bool → Type 0
Fits e_char in_string = in_string ≡ true
Fits e_short in_string = in_string ≡ false
Fits e in_string = Unit {0}

abbrev pub elements_bytes : Element → List ℕ → List ℕ
elements_bytes x [] = []
elements_bytes x (n ∷ ns) = element_bytes x n ++ elements_bytes x ns

abbrev others : List ℕ → List Line
others [] = []
others (n ∷ ns) = Line.more_elements (length (n ∷ ns)) ∷ []

-- The first elements, and how many others there are.
abbrev pub element_lines : ℕ → Element → List ℕ → List Line
element_lines m x ns = map (element_line x) (take m ns) ++ others (drop m ns)

-- Tabs, where the array is not empty and indented.
abbrev pub tab_lines : ℕ → List ℕ → List Line
tab_lines indent [] = []
tab_lines zero (n ∷ ns) = []
tab_lines (suc indent) (n ∷ ns) = Line.tabs 2 ∷ []

module _ ⦃env : Env⦄ where
  abbrev pub printed : Jdump → List Line → Jdump
  printed d ls = record d { out = d.out ++ ls }

  pub printed-printed : (d : Jdump) (a b : List Line) → printed (printed d a) b ≡ printed d (a ++ b)
  printed-printed d a b = ap (λ ls. record d { out = ls }) (append_assoc d.out a b)

  pub printed-nil : (d : Jdump) → d ≡ printed d []
  printed-nil d = ap (λ ls. record d { out = ls }) (sym (append-nil d.out))

  abbrev value_line : Hobject → Element → List ℕ → Line
  value_line ho x ns = Line.value_array ho.inst_id ho.class_id (element_code x) (length ns) ho.osize

  -- All lines of an array.
  abbrev pub array_lines : ℕ → Hobject → Element → List ℕ → List Line
  array_lines indent ho x ns =
      value_line ho x ns ∷ (tab_lines indent ns ++ (element_lines 101 x ns ++ (Line.text [] ∷ [])))

  -- An array of primitives that has been resolved and holds the bytes of its elements.
  pub record ElementsOf (d : Jdump) (q : Ptr) (ho : Hobject) (x : Element) (ns : List ℕ)
      : Type 0 where
    pub here : get_elem? d.objects q ≡ some ho
    pub htype : ho.htype ≡ h_varray
    pub visit : ho.visit ≡ false
    pub xclass_id : ho.xclass_id ≡ element_code x
    pub count : ho.count ≡ length ns
    pub raw : ho.raw ≡ elements_bytes x ns

  -- Deeper than the limit on the depth, where one is given.
  abbrev pub is_too_deep : ℕ → ℕ → Bool
  is_too_deep plimit indent = ltb 1 indent && not (plimit == 0) && ltb plimit indent

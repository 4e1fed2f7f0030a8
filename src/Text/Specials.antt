-- ===== src/Text/Specials.antt =====
-- `hideSpecials`
use phat.Base.{ℕ, ◌≤◌, ◌<◌, ◌≡◌, refl, List, [], ◌∷◌, length, arith, All}
use phat.Text.{hide_specials, c_string}

abbrev pub IsPrintable : ℕ → Type 0
IsPrintable c = (0x20 ≤ c) × (c < 0x80)

all-IsPrintable : (cs : List ℕ) → All IsPrintable (c_string (hide_specials cs))
unfolding hide_specials c_string
all-IsPrintable [] = tt
all-IsPrintable (c ∷ cs) = ground (arith, all-IsPrintable cs)

pub length-hide_specials : (cs : List ℕ) → length (hide_specials cs) ≡ length cs
unfolding hide_specials
length-hide_specials [] = refl
length-hide_specials (c ∷ cs) = ground (arith, length-hide_specials cs)

length-c_string-hide_specials :
    (cs : List ℕ) → length (c_string (hide_specials cs)) ≡ length (c_string cs)
unfolding hide_specials c_string
length-c_string-hide_specials [] = refl
length-c_string-hide_specials (c ∷ cs) = ground (arith, length-c_string-hide_specials cs)

-- Every character of the string that `hideSpecials` leaves has a code from 0x20 to 0x7f, and the string
-- is as long as before.
pub hide_specials-IsPrintable :
    (cs : List ℕ)
    → All IsPrintable (c_string (hide_specials cs))
      × (length (c_string (hide_specials cs)) ≡ length (c_string cs))
hide_specials-IsPrintable cs = (all-IsPrintable cs, length-c_string-hide_specials cs)

-- A text whose characters are all printable is left as it is by `hideSpecials`.
pub hide_specials-id : (cs : List ℕ) → All IsPrintable cs → hide_specials cs ≡ cs
unfolding hide_specials
hide_specials-id [] h = refl
hide_specials-id (c ∷ cs) h = ground (arith, hide_specials-id cs h.1)

pub c_string-id : (cs : List ℕ) → All IsPrintable cs → c_string cs ≡ cs
unfolding c_string
c_string-id [] h = refl
c_string-id (c ∷ cs) h = ground (arith, c_string-id cs h.1)

-- ===== src/Tests/Readers.antt =====
-- The readers of numbers, texts and values on a few bytes.
use phat.Base.{
  ℕ, ◌+◌, ◌%◌, ◌^◌, ◌≡◌, ◌≢◌, refl, some, none, List, [], ◌∷◌, ◌++◌, length, arith, codes, All,
}
use phat.Stdio.{File, advance, rest}
use phat.Dump.{Jdump, ok, undef, skip}
use phat.Reader.{read_uint, read_ulong}
use phat.Reader.Words.{be4, be8, read_uint-be4, read_uint-short, read_ulong-small, read_ulong-lossy}
use phat.Reader.Reads.{Reads}
use phat.Text.{hide_specials, c_string, read_version}
use phat.Text.Specials.{IsPrintable, hide_specials-IsPrintable}
use phat.Text.Version.{v1_0_2, text_of, read_version-known, read_version-overflow}
use phat.Value.{read_value}
use phat.Value.Encode.{short, basic_bytes, basic_value, read_value-basic}
use phat.Main.{new_dump}
use phat.Tests.{test_env}

abbrev numbers : File
unfolding be4
numbers = record { bytes = 9 ∷ (be4 1000 ++ (7 ∷ [])); pos = 1 }

read_uint-be4_example : read_uint numbers ≡ (some 1000, advance 4 numbers)
unfolding be4
read_uint-be4_example = read_uint-be4 numbers 1000 (7 ∷ []) (omega arith) refl

abbrev cut_short : File
cut_short = record { bytes = 9 ∷ 1 ∷ 2 ∷ 3 ∷ []; pos = 1 }

read_uint-short_example : read_uint cut_short ≡ (none, advance (length (rest cut_short)) cut_short)
read_uint-short_example = read_uint-short cut_short (omega arith)

-- 2^40 + 5
abbrev wide : File
unfolding be4 be8
wide = record { bytes = be8 1099511627781; pos = 0 }

read_ulong-lossy_example :
    (m : ℕ) × (read_ulong wide ≡ (some m, advance 8 wide))
    × (m ≢ 1099511627781)
    × (m % 2 ^ 32 ≡ 1099511627781 % 2 ^ 32)
unfolding be4 be8
read_ulong-lossy_example = read_ulong-lossy wide 1099511627781 [] (omega arith) (omega arith) refl

abbrev not_wide : File
unfolding be4 be8
not_wide = record { bytes = be8 5 ++ (1 ∷ []); pos = 0 }

read_ulong-small_example : read_ulong not_wide ≡ (some 5, advance 8 not_wide)
unfolding be4 be8
read_ulong-small_example = read_ulong-small not_wide 5 (1 ∷ []) (omega arith) refl

read_value-basic_example : Reads read_value (basic_bytes (short 300)) (basic_value (short 300))
read_value-basic_example = read_value-basic (short 300) (omega arith)

-- A text with a line feed, a byte of UTF-8 and a NUL.
abbrev mixed : List ℕ
mixed = 72 ∷ 10 ∷ 195 ∷ 105 ∷ 0 ∷ 10 ∷ []

hide_specials-IsPrintable_example :
    All IsPrintable (c_string (hide_specials mixed))
    × (length (c_string (hide_specials mixed)) ≡ length (c_string mixed))
hide_specials-IsPrintable_example = hide_specials-IsPrintable mixed

abbrev version_dump : Jdump
version_dump = new_dump none 0 (codes " PROFILE 1.0.2" ++ (0 ∷ 0 ∷ []))

read_version-known_example :
    read_version version_dump ≡ ok (some 2) (skip (length (text_of v1_0_2) + 1) version_dump)
read_version-known_example = read_version-known v1_0_2 version_dump (0 ∷ []) refl

-- Thirty-nine blanks.
abbrev blanks : List ℕ
blanks = codes "                                       "

read_version-overflow_example : read_version (new_dump none 0 blanks) ≡ undef
read_version-overflow_example =
    read_version-overflow (new_dump none 0 blanks) blanks [] (ground arith) refl refl

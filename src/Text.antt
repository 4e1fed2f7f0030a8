-- ===== src/Text.antt =====
-- The text functions of phat.c: `hideSpecials`, `readVersion`, `sigFromType`.
pub mod Specials
pub mod Version
use mathlib.Core.Option
use phat.Base.{
  ℕ, zero, suc, ◌+◌, ◌%◌, ◌^◌, Bool, true, false, ◌||◌, Option, none, some, List, [], ◌∷◌, ltb, leb,
  ◌==◌, if◌then◌else◌, codes,
}
use phat.Env.{Env}
use phat.Types.{CString}
use phat.Stdio.{File, getc}
use phat.Dump.{M, Jdump, ok, undef, pure, ◌>>=◌, on_file}

-- `'\n' == *in || '\r' == *in || 0x20 > *in`, where `char` is signed: a byte from 128 on is negative.
unfoldable pub is_special : ℕ → Bool
is_special c = c == 10 || c == 13 || ltb c 0x20 || leb 128 c

-- hideSpecials, on the bytes of the buffer: the loop ends at the first NUL, and the byte behind the
-- last of the list is one.
unfoldable pub hide_specials : List ℕ → List ℕ
unfolding is_special
hide_specials [] = []
hide_specials (c ∷ cs) =
    let cs' = hide_specials cs in
    if c == 0 then c ∷ cs else (if is_special c then b'.' else c) ∷ cs'

-- The C string that a buffer holds.
unfoldable pub c_string : List ℕ → CString
c_string [] = []
c_string (c ∷ cs) = let cs' = c_string cs in if c == 0 then [] else c ∷ cs'

-- sigFromType
unfoldable pub sig_from_type : ℕ → ℕ
sig_from_type otype =
    if otype == 2
    then b'L'
    else if otype == 4
    then b'Z'
    else if otype == 5
    then b'C'
    else if otype == 6
    then b'F'
    else if otype == 7
    then b'D'
    else if otype == 8
    then b'B'
    else if otype == 9
    then b'S'
    else if otype == 10
    then b'I'
    else if otype == 11
    then b'J'
    else b'U'

-- `sb[len++] = ch; if (0 == ch) break;`, with what the later rounds return.
abbrev version_char : Option ℕ → File → Option (List ℕ) × File → Option (List ℕ) × File
version_char none fin more = (some [], fin)
version_char (some c) fin more =
    if c == 0 then (some (c ∷ []), fin) else (Option.map (λ sb. c ∷ sb) more.0, more.1)

-- The loop of readVersion, with `k` bytes still to read before `sizeof(sb) < len + 2`. Then
-- `sb[1+len] = 0` writes behind the forty bytes of `sb`: `none`. Otherwise the bytes of `sb`.
unfoldable pub version_loop : ℕ → File → Option (List ℕ) × File
unfolding getc
version_loop zero fin = (none, fin)
version_loop (suc k) fin =
    let more = version_loop k (getc fin).1 in version_char (getc fin).0 (getc fin).1 more

-- `0 == strcmp(sb, text)`, where only the first bytes of `sb` have been set. `none`: the answer
-- depends on a byte that has not.
unfoldable pub same_text : List ℕ → CString → Option Bool
same_text [] text = none
same_text (c ∷ sb) [] = some (c == 0)
same_text (c ∷ sb) (t ∷ text) = if c == t then same_text sb text else some false

module _ ⦃env : Env⦄ where
  -- Goes on to the next text where the buffer differs.
  abbrev pub or_else : Option Bool → ℕ → M (Option ℕ) → M (Option ℕ)
  or_else none v m = λ d. undef
  or_else (some true) v m = pure (some v)
  or_else (some false) v m = m

  abbrev pub version_of : Option (List ℕ) → M (Option ℕ)
  version_of none d = undef
  version_of (some []) d = ok none d
  version_of (some (c ∷ cs)) d =
      or_else (same_text (c ∷ cs) (codes " PROFILE 1.0.2")) 2
        (or_else (same_text (c ∷ cs) (codes " PROFILE 1.0.1")) 1
          (or_else (same_text (c ∷ cs) (codes " PROFILE 1.0")) 0 (pure none)))
        d

  -- readVersion: `none` is -1.
  unfoldable pub read_version : M (Option ℕ)
  unfolding version_loop same_text
  read_version = on_file (version_loop 39) >>= version_of

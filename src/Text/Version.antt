-- ===== src/Text/Version.antt =====
-- `readVersion`
use phat.Base.{
  ℕ, zero, suc, ◌+◌, ◌<◌, ◌≡◌, refl, ap, sym, ◌∙◌, none, some, List, [], ◌∷◌, ◌++◌, length, arith,
  All, codes, ne→eq_false,
}
use phat.Env.{Env}
use phat.Stdio.{File, Rest, Rest-advance, advance, getc-Rest}
use phat.Dump.{Jdump, ok, undef, skip, steps}
use phat.Text.{version_loop, same_text, read_version}

abbrev pub NonZero : ℕ → Type 0
NonZero c = 0 < c

moved : (f : File) (n m : ℕ) → n ≡ m → record f { pos = n } ≡ record f { pos = m }
moved f n m e = ap (λ p. record f { pos = p }) e

-- A text and its NUL, read within the rounds that the array leaves.
pub version_loop-text :
    (text : List ℕ) (k : ℕ) (fin : File) (r : List ℕ)
    → All NonZero text
    → length text < k
    → Rest fin (text ++ (0 ∷ r))
    → version_loop k fin ≡ (some (text ++ (0 ∷ [])), advance (length text + 1) fin)
unfolding version_loop
version_loop-text text zero fin r all lt rest = absurd (omega (arith, lt))
version_loop-text [] (suc k) fin r all lt rest = rw (getc-Rest fin 0 r rest) refl
version_loop-text (c ∷ cs) (suc k) fin r (one, all) lt rest =
    rw
      (
        getc-Rest fin c (cs ++ (0 ∷ r)) rest,
        version_loop-text cs k (advance 1 fin) r all (omega (arith, lt))
            (Rest-advance fin (c ∷ []) (cs ++ (0 ∷ r)) rest),
        ne→eq_false c 0 (omega (arith, one)),
      )
      (ap (λ p. (some (c ∷ (cs ++ (0 ∷ []))), record fin { pos = p })) (omega arith))

-- As many bytes as the loop has rounds, and no NUL among them.
pub version_loop-full :
    (text : List ℕ) (fin : File) (r : List ℕ)
    → All NonZero text
    → Rest fin (text ++ r)
    → version_loop (length text) fin ≡ (none, advance (length text) fin)
unfolding version_loop
version_loop-full [] fin r all rest = ap (λ p. (none, record fin { pos = p })) (omega arith)
version_loop-full (c ∷ cs) fin r (one, all) rest =
    rw
      (
        getc-Rest fin c (cs ++ r) rest,
        version_loop-full cs (advance 1 fin) r all (Rest-advance fin (c ∷ []) (cs ++ r) rest),
        ne→eq_false c 0 (omega (arith, one)),
      )
      (ap (λ p. (none, record fin { pos = p })) (omega arith))

pub data Version : Type 0 where
  v1_0 : Version
  v1_0_1 : Version
  v1_0_2 : Version

-- The text in the header of a dump, behind "JAVA", and its number.
abbrev pub text_of : Version → List ℕ
text_of v1_0 = codes " PROFILE 1.0"
text_of v1_0_1 = codes " PROFILE 1.0.1"
text_of v1_0_2 = codes " PROFILE 1.0.2"

abbrev pub number_of : Version → ℕ
number_of v1_0 = 0
number_of v1_0_1 = 1
number_of v1_0_2 = 2

text_of-short : (v : Version) → length (text_of v) < 39
text_of-short v1_0 = omega arith
text_of-short v1_0_1 = omega arith
text_of-short v1_0_2 = omega arith

pub text_of-NonZero : (v : Version) → All NonZero (text_of v)
text_of-NonZero v1_0 = ground arith
text_of-NonZero v1_0_1 = ground arith
text_of-NonZero v1_0_2 = ground arith

module _ ⦃env : Env⦄ where
  -- On a file that stands before the text of one of the three versions and its NUL, `readVersion`
  -- returns the number of the version and reads no more than these.
  pub read_version-known :
      (v : Version) (d : Jdump) (r : List ℕ)
      → Rest d.fin (text_of v ++ (0 ∷ r))
      → read_version d ≡ ok (some (number_of v)) (skip (length (text_of v) + 1) d)
  unfolding read_version steps same_text
  read_version-known v1_0 d r rest =
      rw
        (version_loop-text (text_of v1_0) 39 d.fin r (text_of-NonZero v1_0) (text_of-short v1_0)
          rest)
        refl
  read_version-known v1_0_1 d r rest =
      rw
        (version_loop-text (text_of v1_0_1) 39 d.fin r (text_of-NonZero v1_0_1)
          (text_of-short v1_0_1) rest)
        refl
  read_version-known v1_0_2 d r rest =
      rw
        (version_loop-text (text_of v1_0_2) 39 d.fin r (text_of-NonZero v1_0_2)
          (text_of-short v1_0_2) rest)
        refl

  -- On a file that stands before 39 bytes that are not 0, `readVersion` writes behind its array, so
  -- that what it does is undefined.
  pub read_version-overflow :
      (d : Jdump) (text r : List ℕ)
      → All NonZero text
      → length text ≡ 39
      → Rest d.fin (text ++ r)
      → read_version d ≡ undef
  unfolding read_version steps
  read_version-overflow d text r all len rest =
      rw (ap (λ k. version_loop k d.fin) (sym len) ∙ version_loop-full text d.fin r all rest) refl

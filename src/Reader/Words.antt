-- ===== src/Reader/Words.antt =====
-- Big-endian numbers: what the readers return on the bytes of a number, and on a short file.
use phat.Base.{
  ℕ, suc, ◌+◌, ◌*◌, ◌/◌, ◌%◌, ◌^◌, ◌≤◌, ◌<◌, ◌≡◌, ◌≢◌, refl, ap, ◌∙◌, none, some, List, [], ◌∷◌,
  ◌++◌, length, arith, take,
}
use phat.Stdio.{File, advance, rest, Rest, fread}
use phat.Reader.{word4, uint_of, ulong_of, read_ushort, read_uint, read_ulong}

abbrev pub IsByte : ℕ → Type 0
IsByte x = x < 256

-- The bytes of a number, the highest first.
unfoldable pub be2 : ℕ → List ℕ
be2 n = (n / 2 ^ 8 % 256) ∷ (n % 256) ∷ []

unfoldable pub be4 : ℕ → List ℕ
be4 n = (n / 2 ^ 24 % 256) ∷ (n / 2 ^ 16 % 256) ∷ (n / 2 ^ 8 % 256) ∷ (n % 256) ∷ []

unfoldable pub be8 : ℕ → List ℕ
unfolding be4
be8 n = be4 (n / 2 ^ 32) ++ be4 (n % 2 ^ 32)

pub length-be2 : (n : ℕ) → length (be2 n) ≡ 2
unfolding be2
length-be2 n = refl

pub length-be4 : (n : ℕ) → length (be4 n) ≡ 4
unfolding be4
length-be4 n = refl

-- A number that fits its width is read back, and the file stands behind it.
pub read_ushort-be2 :
    (fin : File) (n : ℕ) (ys : List ℕ)
    → n < 2 ^ 16
    → Rest fin (be2 n ++ ys)
    → read_ushort fin ≡ (some n, advance 2 fin)
unfolding read_ushort be2
read_ushort-be2 fin n ys h r = rw r (ap (λ k. (some k, advance 2 fin)) (omega arith))

-- On a file that stands before the four bytes of a number below 2^32, the highest first, `readUint`
-- returns the number and consumes exactly these.
pub read_uint-be4 :
    (fin : File) (n : ℕ) (ys : List ℕ)
    → n < 2 ^ 32
    → Rest fin (be4 n ++ ys)
    → read_uint fin ≡ (some n, advance 4 fin)
unfolding read_uint be4
read_uint-be4 fin n ys h r = rw r (ap (λ k. (some k, advance 4 fin)) (omega arith))

uint_of-short : (xs : List ℕ) → length xs < 4 → uint_of xs ≡ none
unfolding uint_of
uint_of-short [] h = refl
uint_of-short (a ∷ []) h = refl
uint_of-short (a ∷ b ∷ []) h = refl
uint_of-short (a ∷ b ∷ c ∷ []) h = refl
uint_of-short (a ∷ b ∷ c ∷ d ∷ xs) h = absurd (omega arith)

take_all {ℓ} : {A : Type ℓ} (n : ℕ) (xs : List A) → length xs ≤ n → take n xs ≡ xs
take_all ℕ.zero [] h = refl
take_all ℕ.zero (x ∷ xs) h = absurd (omega arith)
take_all (suc n) [] h = refl
take_all (suc n) (x ∷ xs) h = ap (λ t. x ∷ t) (take_all n xs (omega arith))

-- On a file with fewer than four bytes left, `readUint` returns -1 and has consumed them all.
pub read_uint-short :
    (fin : File) → length (rest fin) < 4 → read_uint fin ≡ (none, advance (length (rest fin)) fin)
unfolding read_uint fread
read_uint-short fin h = rw (take_all 4 (rest fin) (omega arith), uint_of-short (rest fin) h)

word4-bytes :
    (m : ℕ)
    → m < 2 ^ 32
    → word4 (m / 2 ^ 24 % 256) (m / 2 ^ 16 % 256) (m / 2 ^ 8 % 256) (m % 256) ≡ m
word4-bytes m h = omega arith

middle-bytes :
    (n : ℕ)
    → (n % 2 ^ 32 / 2 ^ 24 % 256 * 2 ^ 8 + n % 2 ^ 32 / 2 ^ 16 % 256) * 2 ^ 8
        + n % 2 ^ 32 / 2 ^ 8 % 256
      ≡ n / 2 ^ 8 % 2 ^ 24
middle-bytes n = omega arith

-- What `readUlong` makes of the eight bytes of a 64-bit number.
abbrev pub mangled : ℕ → ℕ
mangled n = (n / 2 ^ 32 * 2 ^ 32 + n / 2 ^ 8 % 2 ^ 24) % 2 ^ 64 * 2 ^ 8 % 2 ^ 64 + n % 2 ^ 8

pub read_ulong-be8 :
    (fin : File) (n : ℕ) (ys : List ℕ)
    → n < 2 ^ 64
    → Rest fin (be8 n ++ ys)
    → read_ulong fin ≡ (some (mangled n), advance 8 fin)
unfolding read_ulong be8
read_ulong-be8 fin n ys h r = rw r (
    rw (word4-bytes (n / 2 ^ 32) (omega arith), middle-bytes n)
      (ap (λ k. (some k, advance 8 fin)) (omega arith)))

mangled-small : (n : ℕ) → n < 2 ^ 32 → mangled n ≡ n
mangled-small n lt = omega arith

mangled-shift : (n : ℕ) → n < 2 ^ 64 → mangled n ≡ n / 2 ^ 32 * 2 ^ 8 % 2 ^ 32 * 2 ^ 32 + n % 2 ^ 32
mangled-shift n lt = omega arith

mangled-ne : (n : ℕ) → n < 2 ^ 64 → 2 ^ 32 ≤ n → mangled n ≢ n
mangled-ne n lt le same = absurd (omega (arith, mangled-shift n lt, same, le))

-- On the eight bytes of a number below 2^32, `readUlong` returns it and consumes exactly these.
pub read_ulong-small :
    (fin : File) (n : ℕ) (ys : List ℕ)
    → n < 2 ^ 32
    → Rest fin (be8 n ++ ys)
    → read_ulong fin ≡ (some n, advance 8 fin)
read_ulong-small fin n ys lt rest =
    read_ulong-be8 fin n ys (omega arith) rest
    ∙ ap (λ m. (some m, advance 8 fin)) (mangled-small n lt)

-- On the eight bytes of a number that needs more than 32 bits, `readUlong` consumes these and
-- returns another number, with the same low 32 bits.
pub read_ulong-lossy :
    (fin : File) (n : ℕ) (ys : List ℕ)
    → n < 2 ^ 64
    → 2 ^ 32 ≤ n
    → Rest fin (be8 n ++ ys)
    → (m : ℕ) × (read_ulong fin ≡ (some m, advance 8 fin)) × (m ≢ n) × (m % 2 ^ 32 ≡ n % 2 ^ 32)
read_ulong-lossy fin n ys lt le rest = (
  mangled n,
  read_ulong-be8 fin n ys lt rest,
  mangled-ne n lt le,
  omega (arith, mangled-shift n lt),
)

ulong_of-short : (xs : List ℕ) → length xs < 8 → ulong_of xs ≡ none
unfolding ulong_of
ulong_of-short [] h = refl
ulong_of-short (a ∷ []) h = refl
ulong_of-short (a ∷ b ∷ []) h = refl
ulong_of-short (a ∷ b ∷ c ∷ []) h = refl
ulong_of-short (a ∷ b ∷ c ∷ d ∷ []) h = refl
ulong_of-short (a ∷ b ∷ c ∷ d ∷ e ∷ []) h = refl
ulong_of-short (a ∷ b ∷ c ∷ d ∷ e ∷ f ∷ []) h = refl
ulong_of-short (a ∷ b ∷ c ∷ d ∷ e ∷ f ∷ g ∷ []) h = refl
ulong_of-short (a ∷ b ∷ c ∷ d ∷ e ∷ f ∷ g ∷ i ∷ xs) h = absurd (omega arith)

pub read_ulong-short :
    (fin : File) → length (rest fin) < 8 → read_ulong fin ≡ (none, advance (length (rest fin)) fin)
unfolding read_ulong fread
read_ulong-short fin h = rw (take_all 8 (rest fin) (omega arith), ulong_of-short (rest fin) h)

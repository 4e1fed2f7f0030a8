-- ===== src/Reader.antt =====
-- The readers of numbers in phat.c: `readUshort`, `readUint`, `readUlong`, `readIdent`, `countbytes`.
-- `none` is the return value -1, which leaves the caller's variable as it was.
pub mod Words
pub mod Reads
use phat.Base.{
  ℕ, suc, ◌+◌, ◌*◌, ◌%◌, ◌^◌, Option, none, some, List, [], ◌∷◌, ltb, ◌==◌, if◌then◌else◌,
}
use phat.Env.{Env}
use phat.Stdio.{File, fread, rest, advance}
use phat.Dump.{M, Jdump, on_file}

-- `sb[0] << 8 | sb[1]`. The operands of each `|` have no bit in common, so it is a sum.
-- `__BIGENDIAN` is no macro of endian.h and counts as 0, so `#else` is what is compiled.
abbrev pub word2 : ℕ → ℕ → ℕ
word2 a b = a * 2 ^ 8 + b

abbrev pub word4 : ℕ → ℕ → ℕ → ℕ → ℕ
word4 a b c d = ((a * 2 ^ 8 + b) * 2 ^ 8 + c) * 2 ^ 8 + d

unfoldable pub ushort_of : List ℕ → Option ℕ
ushort_of (a ∷ b ∷ []) = some (word2 a b)
ushort_of _ = none

unfoldable pub uint_of : List ℕ → Option ℕ
uint_of (a ∷ b ∷ c ∷ d ∷ []) = some (word4 a b c d)
uint_of _ = none

unfoldable pub read_ushort : File → Option ℕ × File
unfolding ushort_of fread
read_ushort fin = let (sb, fin') = fread 2 fin in (ushort_of sb, fin')

unfoldable pub read_uint : File → Option ℕ × File
unfolding uint_of fread
read_uint fin = let (sb, fin') = fread 4 fin in (uint_of sb, fin')

-- countbytes: the bytes among the next `sz` that are not 0.
count_loop : ℕ → List ℕ → ℕ → File → ℕ × File
count_loop ℕ.zero bs count fin = (count, fin)
count_loop (suc sz) [] count fin = (count, fin)
count_loop (suc sz) (b ∷ bs) count fin =
    count_loop sz bs (if ltb 0 b then (count + 1) % 2 ^ 32 else count) (advance 1 fin)

pub countbytes : File → ℕ → ℕ × File
unfolding count_loop
countbytes fin sz = count_loop sz (rest fin) 0 fin

-- val = (val << 32) + ((sb[4] << 8 | sb[5]) << 8 | sb[6]) << 8 | sb[7];
-- `val` is an `unsigned long long`, and `+` binds tighter than the last `<<`: so the first four bytes
-- are shifted by 40 and not by 32. What sign they have as an `int` makes no difference.
unfoldable pub ulong_of : List ℕ → Option ℕ
ulong_of (a ∷ b ∷ c ∷ d ∷ e ∷ f ∷ g ∷ h ∷ []) =
    let val = word4 a b c d in
    let sum = (val * 2 ^ 32 + ((e * 2 ^ 8 + f) * 2 ^ 8 + g)) % 2 ^ 64 in
    some (sum * 2 ^ 8 % 2 ^ 64 + h)
ulong_of _ = none

unfoldable pub read_ulong : File → Option ℕ × File
unfolding ulong_of fread
read_ulong fin = let (sb, fin') = fread 8 fin in (ulong_of sb, fin')

module _ ⦃env : Env⦄ where
  -- `none`: the number was cut short, and what is returned is a variable that has no value.
  unfoldable pub read_ident : M (Option ℕ)
  read_ident d = if d.identsz == 4 then on_file read_uint d else on_file read_ulong d

-- ===== src/Print/Elements.antt =====
-- What is printed of an element of an array: its bytes are those of the dump, the highest first, and
-- are taken as a number of the host, whose first byte is the lowest.
use phat.Base.{
  ℕ, ◌+◌, ◌*◌, ◌/◌, ◌%◌, ◌^◌, ◌≡◌, refl, ap, sym, ◌∙◌, true, some, List, [], ◌∷◌, ◌++◌, length,
  get_elem?, arith, Bool, length-append, get_elem?-behind,
}
use mathlib.Core.List.{append_assoc}
use phat.Env.{Env}
use phat.Types.{Line}
use phat.Reader.Words.{be2, be4}
use phat.Dump.{Jdump, ok, steps}
use phat.Print.{bytes_at, print_elem}

pub bytes_at-behind :
    (bs xs ys : List ℕ) (at : ℕ)
    → length xs ≡ at
    → bytes_at (length bs) at (xs ++ (bs ++ ys)) ≡ some bs
unfolding bytes_at
bytes_at-behind [] xs ys at e = refl
bytes_at-behind (b ∷ bs) xs ys at e =
    let first : get_elem? (xs ++ (b ∷ (bs ++ ys))) at ≡ some b =
      ap (get_elem? (xs ++ (b ∷ (bs ++ ys)))) (sym e) ∙ get_elem?-behind xs b (bs ++ ys) in
    let longer : length (xs ++ (b ∷ [])) ≡ at + 1 = omega (arith, length-append xs (b ∷ []), e) in
    let others : bytes_at (length bs) (at + 1) (xs ++ (b ∷ (bs ++ ys))) ≡ some bs =
      ap (bytes_at (length bs) (at + 1)) (sym (append_assoc xs (b ∷ []) (bs ++ ys)))
      ∙ bytes_at-behind bs (xs ++ (b ∷ [])) ys (at + 1) longer in
    rw (first, others) refl

-- The four bytes of a number in the opposite order.
abbrev pub swapped : ℕ → ℕ
swapped n =
    n / 2 ^ 24 % 256 + 2 ^ 8 * (n / 2 ^ 16 % 256) + 2 ^ 16 * (n / 2 ^ 8 % 256) + 2 ^ 24 * (n % 256)

module _ ⦃env : Env⦄ where
  -- The i-th element of an array of `int`, which the dump holds as the number `n`, is printed as the
  -- number with the four bytes of `n` in the opposite order.
  pub print_elem-swapped :
      (d : Jdump) (n i : ℕ) (xs ys : List ℕ) (in_string : Bool)
      → length xs ≡ 4 * i
      → print_elem 10 in_string (xs ++ (be4 n ++ ys)) i d
        ≡ ok tt (record d { out = d.out ++ (Line.hex (swapped n) ∷ []) })
  unfolding print_elem steps be4
  print_elem-swapped d n i xs ys in_string e =
      rw (bytes_at-behind (be4 n) xs ys (i * 4) (omega (arith, e)))
        (ap (λ m. ok tt (record d { out = d.out ++ (Line.hex m ∷ []) })) (omega arith))

  -- The i-th element of the characters of a string, which the dump holds as the number `n`, is printed
  -- as the character of the low eight bits of `n`.
  pub print_elem-char :
      (d : Jdump) (n i : ℕ) (xs ys : List ℕ)
      → length xs ≡ 2 * i
      → print_elem 9 true (xs ++ (be2 n ++ ys)) i d
        ≡ ok tt (record d { out = d.out ++ (Line.char (n % 256) ∷ []) })
  unfolding print_elem steps be2
  print_elem-char d n i xs ys e =
      rw (bytes_at-behind (be2 n) xs ys (i * 2) (omega (arith, e)))
        (ap (λ m. ok tt (record d { out = d.out ++ (Line.char m ∷ []) })) (omega arith))

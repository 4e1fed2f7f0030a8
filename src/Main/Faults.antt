-- ===== src/Main/Faults.antt =====
-- The headers that `readDump` refuses, and the codes that it leaves with.
use phat.Base.{
  ℕ, ◌+◌, ◌^◌, ◌<◌, ◌≡◌, ◌≢◌, refl, ap, sym, ◌∙◌, subst, some, none, false, List, [], ◌∷◌, ◌++◌,
  length, arith, All, ◌⊎◌, ◌==◌, Bool-cases, inl, inr, ne→eq_false, eq→eq,
}
use phat.Env.{Env}
use phat.Stdio.{Rest, Rest-advance, advance}
use phat.Reader.{read_uint, read_ulong}
use phat.Reader.Words.{be4, read_uint-short, read_ulong-short}
use phat.Dump.{Jdump, ok, exits, skip, on_file, state}
use phat.Text.{same_text, version_of, read_version}
use phat.Text.Version.{
  NonZero, Version, v1_0, v1_0_1, v1_0_2, text_of, number_of, text_of-NonZero, version_loop-text,
  read_version-known,
}
use phat.Main.{dump_header, magic_header}
use phat.Main.Records.{ident_sizes}
use phat.Reader.Reads.{word_step}

-- A text that ends at its NUL differs from another.
same_text-ne :
    (xs t : List ℕ)
    → All NonZero xs
    → All NonZero t
    → xs ≢ t
    → same_text (xs ++ (0 ∷ [])) t ≡ some false
unfolding same_text
same_text-ne [] [] hx ht ne = absurd (ne refl)
same_text-ne [] (c ∷ t) hx (h, ht) ne = rw (ne→eq_false 0 c (omega (arith, h))) refl
same_text-ne (x ∷ xs) [] (h, hx) ht ne = ap some (ne→eq_false x 0 (omega (arith, h)))
same_text-ne (x ∷ xs) (c ∷ t) (h, hx) (h', ht) ne = elim (Bool-cases (x == c)) [
  | inl same ↦
      rw same
        (same_text-ne xs t hx ht (λ e. ne (ap (λ y. y ∷ xs) (eq→eq x c same) ∙ ap (λ l. c ∷ l) e)))
  | inr other ↦ rw other refl
]

module _ ⦃env : Env⦄ where
  version_of-unknown :
      (text : List ℕ) (d : Jdump)
      → All NonZero text
      → ((v : Version) → text ≢ text_of v)
      → version_of (some (text ++ (0 ∷ []))) d ≡ ok none d
  version_of-unknown [] d nz other =
      rw
        (
          same_text-ne [] (text_of v1_0_2) nz (text_of-NonZero v1_0_2) (other v1_0_2),
          same_text-ne [] (text_of v1_0_1) nz (text_of-NonZero v1_0_1) (other v1_0_1),
          same_text-ne [] (text_of v1_0) nz (text_of-NonZero v1_0) (other v1_0),
        )
        refl
  version_of-unknown (c ∷ cs) d nz other =
      rw
        (
          same_text-ne (c ∷ cs) (text_of v1_0_2) nz (text_of-NonZero v1_0_2) (other v1_0_2),
          same_text-ne (c ∷ cs) (text_of v1_0_1) nz (text_of-NonZero v1_0_1) (other v1_0_1),
          same_text-ne (c ∷ cs) (text_of v1_0) nz (text_of-NonZero v1_0) (other v1_0),
        )
        refl

  -- Any other text of fewer than 39 bytes is no version.
  read_version-unknown :
      (text : List ℕ) (d : Jdump) (r : List ℕ)
      → All NonZero text
      → length text < 39
      → ((v : Version) → text ≢ text_of v)
      → Rest d.fin (text ++ (0 ∷ r))
      → read_version d ≡ ok none (skip (length text + 1) d)
  unfolding read_version on_file
  read_version-unknown text d r nz lt other rest =
      rw (version_loop-text text 39 d.fin r nz lt rest)
        (version_of-unknown text (skip (length text + 1) d) nz other)

  -- A header that something is wrong with: it is cut short in its first number, its first number is
  -- not "JAVA", its version is unknown, it is cut short in the size of an identifier, that size is
  -- neither 4 nor 8, or it is cut short in its date.
  pub data Fault : Type 0 where
    no_magic : List ℕ → Fault
    wrong_magic : ℕ → List ℕ → Fault
    unknown_version : List ℕ → List ℕ → Fault
    no_size : Version → List ℕ → Fault
    wrong_size : Version → ℕ → List ℕ → Fault
    no_date : Version → ℕ → List ℕ → Fault

  abbrev pub fault_bytes : Fault → List ℕ
  fault_bytes (no_magic bs) = bs
  fault_bytes (wrong_magic n r) = be4 n ++ r
  fault_bytes (unknown_version text r) = be4 magic_header ++ (text ++ (0 ∷ r))
  fault_bytes (no_size v bs) = be4 magic_header ++ (text_of v ++ (0 ∷ bs))
  fault_bytes (wrong_size v n r) = be4 magic_header ++ (text_of v ++ (0 ∷ (be4 n ++ r)))
  fault_bytes (no_date v n bs) = be4 magic_header ++ (text_of v ++ (0 ∷ (be4 n ++ bs)))

  abbrev pub IsFault : Fault → Type 0
  IsFault (no_magic bs) = length bs < 4
  IsFault (wrong_magic n r) = (n < 2 ^ 32) × (n ≢ magic_header)
  IsFault (unknown_version text r) =
      All NonZero text × (length text < 39) × ((v : Version) → text ≢ text_of v)
  IsFault (no_size v bs) = length bs < 4
  IsFault (wrong_size v n r) = (n < 2 ^ 32) × (n ≢ 4) × (n ≢ 8)
  IsFault (no_date v n bs) = ((n ≡ 4) ⊎ (n ≡ 8)) × (length bs < 8)

  -- The code that the program leaves with.
  abbrev pub fault_code : Fault → ℕ
  fault_code (no_magic bs) = 2
  fault_code (wrong_magic n r) = 2
  fault_code (unknown_version text r) = 3
  fault_code (no_size v bs) = 2
  fault_code (wrong_size v n r) = 4
  fault_code (no_date v n bs) = 2

  uint_cut :
      (d : Jdump) (bs : List ℕ)
      → length bs < 4
      → Rest d.fin bs
      → on_file read_uint d ≡ ok none (skip (length bs) d)
  unfolding on_file
  uint_cut d bs lt rest =
      rw (read_uint-short d.fin (subst (λ x. length x < 4) (sym rest) lt), rest) refl

  ulong_cut :
      (d : Jdump) (bs : List ℕ)
      → length bs < 8
      → Rest d.fin bs
      → on_file read_ulong d ≡ ok none (skip (length bs) d)
  unfolding on_file
  ulong_cut d bs lt rest =
      rw (read_ulong-short d.fin (subst (λ x. length x < 8) (sym rest) lt), rest) refl

  behind_version :
      (d : Jdump) (text bs : List ℕ)
      → Rest d.fin (be4 magic_header ++ (text ++ (0 ∷ bs)))
      → Rest (skip 4 d).fin (text ++ (0 ∷ bs)) × Rest (skip (length text + 1) (skip 4 d)).fin bs
  unfolding be4
  behind_version d text bs rest =
      let magic = Rest-advance d.fin (be4 magic_header) (text ++ (0 ∷ bs)) rest in
      let nul = Rest-advance (skip 4 d).fin text (0 ∷ bs) magic in
      (
        magic,
        subst (λ p. Rest (record d.fin { pos = p }) bs) (omega arith)
            (Rest-advance (advance (length text) (skip 4 d).fin) (0 ∷ []) bs nul),
      )

  magic_step :
      (d : Jdump) (xs : List ℕ)
      → Rest d.fin (be4 magic_header ++ xs)
      → on_file read_uint d ≡ ok (some magic_header) (skip 4 d)
  magic_step d xs rest = word_step d magic_header xs (omega arith) rest

  cut : (n : ℕ) (bs : List ℕ) (d : Jdump) → Rest d.fin (be4 n ++ bs) → Rest (skip 4 d).fin bs
  unfolding be4
  cut n bs d rest = Rest-advance d.fin (be4 n) bs rest

  -- On a file that is a header with one of these faults, `readDump` prints nothing and leaves with
  -- the code of the fault: 3 for an unknown version whose text has fewer than 39 bytes, 4 for a
  -- wrong size of identifiers, and otherwise 2.
  pub dump_header-rejects :
      (x : Fault) (d : Jdump)
      → IsFault x
      → Rest d.fin (fault_bytes x)
      → dump_header d ≡ exits (fault_code x) d.out
  unfolding dump_header state
  dump_header-rejects (no_magic bs) d lt rest = rw (uint_cut d bs lt rest) refl
  dump_header-rejects (wrong_magic n r) d (lt, ne) rest =
      rw (word_step d n r lt rest, ne→eq_false n magic_header ne) refl
  dump_header-rejects (unknown_version text r) d (nz, lt, other) rest =
      rw
        (
          magic_step d (text ++ (0 ∷ r)) rest,
          read_version-unknown text (skip 4 d) r nz lt other (behind_version d text r rest).0,
        )
        refl
  dump_header-rejects (no_size v bs) d lt rest =
      let (magic, behind) = behind_version d (text_of v) bs rest in
      rw
        (
          magic_step d (text_of v ++ (0 ∷ bs)) rest,
          read_version-known v (skip 4 d) bs magic,
          uint_cut (skip (length (text_of v) + 1) (skip 4 d)) bs lt behind,
        )
        refl
  dump_header-rejects (wrong_size v n r) d (lt, h4, h8) rest =
      let (magic, behind) = behind_version d (text_of v) (be4 n ++ r) rest in
      rw
        (
          magic_step d (text_of v ++ (0 ∷ (be4 n ++ r))) rest,
          read_version-known v (skip 4 d) (be4 n ++ r) magic,
          word_step (skip (length (text_of v) + 1) (skip 4 d)) n r lt behind,
          ne→eq_false n 4 h4,
          ne→eq_false n 8 h8,
        )
        refl
  dump_header-rejects (no_date v n bs) d (size, lt) rest =
      let at = skip (length (text_of v) + 1) (skip 4 d) in
      let (magic, behind) = behind_version d (text_of v) (be4 n ++ bs) rest in
      let (small, fits) = ident_sizes n size in
      rw
        (
          magic_step d (text_of v ++ (0 ∷ (be4 n ++ bs))) rest,
          read_version-known v (skip 4 d) (be4 n ++ bs) magic,
          word_step at n bs small behind,
          fits,
          ulong_cut (record (skip 4 at) { f_version = number_of v; identsz = n }) bs lt
              (cut n bs at behind),
        )
        refl

-- ===== src/Heap/Eof.antt =====
-- The loop of `readHeap` at the end of the file. `rtype` is an `unsigned char`, so the test for EOF
-- never fails: each round is taken for a root of an unknown kind.
use phat.Base.{
  ℕ, zero, suc, ◌+◌, ◌-◌, ◌*◌, ◌/◌, ◌%◌, ◌^◌, ◌≤◌, ◌<◌, ◌≡◌, refl, ap, sym, ◌∙◌, List, [], ◌∷◌,
  ◌++◌, arith, none,
}
use native.Mathlib.Decide.{dec_lt}
use mathlib.Core.List.{append-nil, append_assoc}
use phat.Env.{Env}
use phat.Types.{Line, Tally}
use phat.Stdio.{Rest, getc, getc-eof, fread}
use phat.Reader.{read_uint, uint_of}
use phat.Reader.Reads.{Narrow, read_ident-Narrow}
use phat.Dump.{Jdump, ok, steps, on_file, state}
use phat.Class.{sub32}
use phat.Class.Encode.{sub32_le}
use phat.Heap.{root_unknown, heap_record, heap_loop}

abbrev pub unknowns : ℕ → List Line
unknowns zero = []
unknowns (suc n) = Line.root_unknown ∷ unknowns n

-- What a round leaves of `hsize`, and of the times it wraps around.
next :
    (h wraps n : ℕ)
    → suc h + wraps * 2 ^ 32 ≡ 5 * suc n
    → suc h < 2 ^ 32
    → (sub32 h 4 < 2 ^ 32) × ((left : ℕ) × (sub32 h 4 + left * 2 ^ 32 ≡ 5 * n))
unfolding sub32
next h zero n e lt = (omega arith, (0, omega (arith, e)))
next h (suc wraps) n e lt = elim (dec_lt h 4) [
  | yes low ↦ (omega arith, (wraps, omega (arith, e, low)))
  | no high ↦ (omega arith, (suc wraps, omega (arith, e, high)))
]

module _ ⦃env : Env⦄ where
  abbrev pub printed : Jdump → List Line → Jdump
  printed d ls = record d { out = d.out ++ ls }

  read_uint_eof : (d : Jdump) → Rest d.fin [] → on_file read_uint d ≡ ok none d
  unfolding steps read_uint uint_of fread
  read_uint_eof d rest =
      rw (rest) (ap (λ n. ok none (record d { fin = record d.fin { pos = n } })) (omega arith))

  -- At the end of the file the handler prints its line and consumes nothing.
  root_unknown_eof :
      (d : Jdump) (h : ℕ)
      → Narrow d
      → Rest d.fin []
      → root_unknown h d ≡ ok (sub32 h 4) (printed d (Line.root_unknown ∷ []))
  unfolding state root_unknown
  root_unknown_eof d h w rest =
      rw (read_ident-Narrow d w ∙ read_uint_eof d rest)
        (ap (λ n. ok (sub32 h n) (printed d (Line.root_unknown ∷ []))) w.narrow)

  pub getc_eof : (d : Jdump) → Rest d.fin [] → on_file getc d ≡ ok none d
  unfolding on_file
  getc_eof d rest = rw (getc-eof d.fin rest) refl

  suc_plus : (n k : ℕ) → suc n + k ≡ suc (n + k)
  suc_plus n k = omega arith

  five : (n : ℕ) → 5 * suc n ≡ suc (5 * n + 4)
  five n = omega arith

  four : (n : ℕ) → 5 * n + 4 - 4 ≡ 5 * n
  four n = omega arith

  -- One round: it prints a line, and takes the tag and an identifier off `hsize`.
  eof_step :
      (k h : ℕ) (t : Tally) (d : Jdump)
      → Narrow d
      → Rest d.fin []
      → heap_loop (suc k) (suc h) t d
        ≡ heap_loop k (sub32 h 4) t (printed d (Line.root_unknown ∷ []))
  unfolding heap_loop heap_record
  eof_step k h t d w rest = rw (getc_eof d rest, root_unknown_eof d h w rest) refl

  eof_round :
      (k h : ℕ) (t : Tally) (d : Jdump)
      → Narrow d
      → Rest d.fin []
      → 4 ≤ h
      → h < 2 ^ 32
      → heap_loop (suc k) (suc h) t d ≡ heap_loop k (h - 4) t (printed d (Line.root_unknown ∷ []))
  eof_round k h t d w rest le lt =
      eof_step k h t d w rest
      ∙ ap (λ n. heap_loop k n t (printed d (Line.root_unknown ∷ []))) (sub32_le h 4 lt le)

  -- On a dump of version 1.0.1 or later with 4-byte identifiers whose file has ended, with `hsize`
  -- at 5 * n, which is a 32-bit number, the loop of `readHeap` prints `n` times the line of a root
  -- of an unknown kind, whatever the fuel from `n` rounds on is, and returns the counts as they
  -- were.
  pub heap_loop-eof :
      (n k : ℕ) (t : Tally) (d : Jdump)
      → Narrow d
      → Rest d.fin []
      → 5 * n < 2 ^ 32
      → heap_loop (n + k) (5 * n) t d ≡ ok t (printed d (unknowns n))
  unfolding heap_loop
  heap_loop-eof zero k t d w rest lt =
      ap (λ o. ok t (record d { out = o })) (sym (append-nil d.out))
  heap_loop-eof (suc n) k t d w rest lt =
      ap (λ m. heap_loop m (5 * suc n) t d) (suc_plus n k)
      ∙ ap (λ m. heap_loop (suc (n + k)) m t d) (five n)
      ∙ eof_round (n + k) (5 * n + 4) t d w rest (omega arith) (omega arith)
      ∙ ap (λ m. heap_loop (n + k) m t (printed d (Line.root_unknown ∷ []))) (four n)
      ∙ heap_loop-eof n k t (printed d (Line.root_unknown ∷ []))
          (record { narrow = w.narrow; version = w.version }) rest (omega arith)
      ∙ ap (λ o. ok t (record d { out = o }))
          (append_assoc d.out (Line.root_unknown ∷ []) (unknowns n))

  printed_more :
      (d : Jdump) (n : ℕ)
      → printed (printed d (Line.root_unknown ∷ [])) (unknowns n) ≡ printed d (unknowns (suc n))
  printed_more d n =
      ap (λ o. record d { out = o }) (append_assoc d.out (Line.root_unknown ∷ []) (unknowns n))

  -- `wraps` is how often `hsize` goes below 0 before it meets 0.
  eof_rounds :
      (n h wraps : ℕ) (t : Tally) (d : Jdump)
      → Narrow d
      → Rest d.fin []
      → h < 2 ^ 32
      → h + wraps * 2 ^ 32 ≡ 5 * n
      → (m : ℕ) × (heap_loop m h t d ≡ ok t (printed d (unknowns m)))
  unfolding heap_loop
  eof_rounds n zero wraps t d w rest lt e =
      (0, ap (λ o. ok t (record d { out = o })) (sym (append-nil d.out)))
  eof_rounds zero (suc h) wraps t d w rest lt e = absurd (omega (arith, e))
  eof_rounds (suc n) (suc h) wraps t d w rest lt e =
      let (below, left) = next h wraps n e lt in
      let (m, more) =
        eof_rounds n (sub32 h 4) left.0 t (printed d (Line.root_unknown ∷ []))
          (record { narrow = w.narrow; version = w.version }) rest below left.1 in
      (suc m, eof_step m h t d w rest ∙ more ∙ ap (ok t) (printed_more d m))

  -- On a dump of version 1.0.1 or later with 4-byte identifiers whose file has ended, the loop of
  -- `readHeap` ends, whatever 32-bit number `hsize` is: also where it does not meet 0 at once and
  -- wraps around. With `m` rounds it has printed `m` times the line of a root of an unknown kind,
  -- and the counts are as they were.
  pub heap_loop-ends :
      (h : ℕ) (t : Tally) (d : Jdump)
      → Narrow d
      → Rest d.fin []
      → h < 2 ^ 32
      → (m : ℕ) × (heap_loop m h t d ≡ ok t (printed d (unknowns m)))
  heap_loop-ends h t d w rest lt =
      eof_rounds ((h + 4 * h % 5 * 2 ^ 32) / 5) h (4 * h % 5) t d w rest lt (omega arith)

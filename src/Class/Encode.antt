-- ===== src/Class/Encode.antt =====
-- The bytes of a class dump, and the parts of `readClass` that only read.
use phat.Base.{
  ℕ, suc, ◌+◌, ◌*◌, ◌^◌, ◌<◌, ◌≤◌, ◌-◌, ◌≡◌, refl, ap, ◌∙◌, List, [], ◌∷◌, ◌++◌, length, arith, All,
}
use phat.Env.{Env}
use phat.Types.{Hobject, Finfo}
use phat.Reader.Words.{be2, be4}
use phat.Reader.Reads.{
  Narrow, Reads, Reads-bind, Reads-getc, Reads-ident_unused, Reads-ushort_unused, Reads-uint_unused,
  Reads-state, Reads-end, Reads-at, Reads-pure, Reads-ident_then, Reads-ushort_then,
}
use phat.Dump.{Jdump}
use phat.Text.{sig_from_type}
use phat.Value.Encode.{
  Basic, InRange, basic_bytes, basic_size, basic_value, read_value-basic, typed,
}
use phat.Class.{
  sub32, pool_loop, statics_loop, fields_loop, static_of, field_of, Links, class_links, class_pool,
}

-- An entry of the constant pool: its index and its value. A static: its name and its value.
abbrev pub Entry : Type 0
Entry = ℕ × Basic

abbrev pub EntryInRange : Entry → Type 0
EntryInRange (n, v) = (n < 2 ^ 16) × InRange v

abbrev pub StaticInRange : Entry → Type 0
StaticInRange (n, v) = (n < 2 ^ 32) × InRange v

abbrev pub pool_bytes : List Entry → List ℕ
pool_bytes [] = []
pool_bytes ((n, v) ∷ es) = be2 n ++ (basic_bytes v ++ pool_bytes es)

abbrev pub statics_bytes : List Entry → List ℕ
statics_bytes [] = []
statics_bytes ((n, v) ∷ es) = be4 n ++ (basic_bytes v ++ statics_bytes es)

-- A field of the class: its name and its type code.
abbrev pub fields_bytes : List (ℕ × ℕ) → List ℕ
fields_bytes [] = []
fields_bytes ((n, t) ∷ fs) = be4 n ++ (t ∷ fields_bytes fs)

abbrev pub FieldInRange : ℕ × ℕ → Type 0
FieldInRange (n, t) = n < 2 ^ 32

-- What the loops subtract: for the pool a byte less per entry than the entry takes.
abbrev pub pool_charge : List Entry → ℕ
pool_charge [] = 0
pool_charge ((n, v) ∷ es) = 2 + basic_size v + pool_charge es

abbrev pub statics_charge : List Entry → ℕ
statics_charge [] = 0
statics_charge ((n, v) ∷ es) = 5 + basic_size v + statics_charge es

pub sub32-sub32 : (h a b : ℕ) → sub32 (sub32 h a) b ≡ sub32 h (a + b)
unfolding sub32
sub32-sub32 h a b = omega arith

pub sub32_zero : (h : ℕ) → h < 2 ^ 32 → sub32 h 0 ≡ h
unfolding sub32
sub32_zero h lt = omega arith

pub sub32-lt : (h a : ℕ) → sub32 h a < 2 ^ 32
unfolding sub32
sub32-lt h a = omega arith

-- Where nothing wraps it is the difference.
pub sub32_le : (h a : ℕ) → h < 2 ^ 32 → a ≤ h → sub32 h a ≡ h - a
unfolding sub32
sub32_le h a lt le = omega arith

module _ ⦃env : Env⦄ where
  pub pool_loop-Reads :
      (es : List Entry) (h : ℕ)
      → All EntryInRange es
      → h < 2 ^ 32
      → Reads (pool_loop (length es) h) (pool_bytes es) (sub32 h (pool_charge es))
  unfolding pool_loop
  pool_loop-Reads [] h r lt = rw (sub32_zero h lt) (Reads-pure h)
  pool_loop-Reads ((n, v) ∷ es) h r lt = rw (← sub32-sub32 h (2 + basic_size v) (pool_charge es)) (
      Reads-bind _ (Reads-ushort_unused n r.0.0) (
        Reads-bind _ (read_value-basic v r.0.1) (
          Reads-at (pool_loop (length es)) (sub32-sub32 h 2 (basic_size v))
            (pool_loop-Reads es (sub32 h (2 + basic_size v)) r.1 (sub32-lt h (2 + basic_size v))))))

  -- What a class keeps of its statics and fields.
  abbrev pub statics_of : ℕ → List Entry → List Hobject
  statics_of i [] = []
  statics_of i ((n, v) ∷ es) = static_of i n (basic_value v) ∷ statics_of (i + 1) es

  abbrev pub fields_of : List (ℕ × ℕ) → List Finfo
  fields_of [] = []
  fields_of ((n, t) ∷ fs) = field_of n (sig_from_type t) ∷ fields_of fs

  charged : (h s : ℕ) (d : Jdump) → Narrow d → sub32 (sub32 h d.identsz) (1 + s) ≡ sub32 h (5 + s)
  charged h s d w = sub32-sub32 h d.identsz (1 + s) ∙ ap (sub32 h) (omega (arith, w.narrow))

  pub statics_loop-Reads :
      (es : List Entry) (i h : ℕ)
      → All StaticInRange es
      → h < 2 ^ 32
      → Reads
          (statics_loop (length es) i h)
          (statics_bytes es)
          (statics_of i es, sub32 h (statics_charge es))
  unfolding statics_loop
  statics_loop-Reads [] i h r lt = rw (sub32_zero h lt) (Reads-pure _)
  statics_loop-Reads ((n, v) ∷ es) i h r lt =
      let more =
        statics_loop-Reads es (i + 1) (sub32 h (5 + basic_size v)) r.1
          (sub32-lt h (5 + basic_size v)) in
      rw (← sub32-sub32 h (5 + basic_size v) (statics_charge es)) (
        Reads-ident_then _ n r.0.0 (
          Reads-state _ λ d w. Reads-bind _ (read_value-basic v r.0.1) (
            Reads-end _
              (Reads-at (statics_loop (length es) (i + 1)) (charged h (basic_size v) d w) more)
              (λ d' w'. refl))))

  pub fields_loop-Reads :
      (fs : List (ℕ × ℕ)) (h : ℕ)
      → All FieldInRange fs
      → h < 2 ^ 32
      → Reads (fields_loop (length fs) h) (fields_bytes fs) (fields_of fs, sub32 h (5 * length fs))
  unfolding fields_loop
  fields_loop-Reads [] h r lt = rw (sub32_zero h lt) (Reads-pure _)
  fields_loop-Reads ((n, t) ∷ fs) h r lt =
      let more = fields_loop-Reads fs (sub32 h 5) r.1 (sub32-lt h 5) in
      let e : 5 * suc (length fs) ≡ 5 + 5 * length fs = omega arith in
      rw (e, ← sub32-sub32 h 5 (5 * length fs))
        (Reads-ident_then _ n r.0 (
          Reads-bind _ (Reads-getc t) (
            Reads-state _ λ d w. rw (typed w) (
              Reads-end _
                (Reads-at (fields_loop (length fs)) (ap (sub32 h) (omega (arith, w.narrow))) more)
                (λ d' w'. refl)))))

  pub class_links-Reads :
      (stack : ℕ) (l : Links)
      → stack < 2 ^ 32
      → l.super_id < 2 ^ 32
      → l.loader_id < 2 ^ 32
      → l.signer_id < 2 ^ 32
      → l.domain_id < 2 ^ 32
      → Reads class_links
          (be4 stack
            ++ (be4 l.super_id
                ++ (be4 l.loader_id ++ (be4 l.signer_id ++ (be4 l.domain_id ++ [])))))
          l
  unfolding class_links
  class_links-Reads stack l hs h1 h2 h3 h4 = Reads-bind _ (Reads-uint_unused stack hs) (
      Reads-ident_then _ l.super_id h1 (
        Reads-ident_then _ l.loader_id h2
          (Reads-ident_then _ l.signer_id h3 (Reads-ident_then _ l.domain_id h4 (Reads-pure l)))))

  pool_start : (h : ℕ) (d : Jdump) → Narrow d → sub32 (sub32 h (7 * d.identsz + 8)) 2 ≡ sub32 h 38
  pool_start h d w = sub32-sub32 h (7 * d.identsz + 8) 2 ∙ ap (sub32 h) (omega (arith, w.narrow))

  pub class_pool-Reads :
      (res1 res2 instsz : ℕ) (es : List Entry) (h : ℕ)
      → res1 < 2 ^ 32
      → res2 < 2 ^ 32
      → instsz < 2 ^ 32
      → length es < 2 ^ 16
      → All EntryInRange es
      → Reads
          (class_pool h)
          (be4 res1 ++ (be4 res2 ++ (be4 instsz ++ (be2 (length es) ++ pool_bytes es))))
          (sub32 h (38 + pool_charge es))
  unfolding class_pool
  class_pool-Reads res1 res2 instsz es h h1 h2 h3 h4 r = Reads-bind _ (Reads-ident_unused res1 h1) (
      Reads-bind _ (Reads-ident_unused res2 h2) (
        Reads-bind _ (Reads-uint_unused instsz h3) (
          Reads-ushort_then _ (length es) h4 (
            Reads-state _ λ d w. rw (← sub32-sub32 h 38 (pool_charge es)) (
              Reads-at (pool_loop (length es)) (pool_start h d w)
                (pool_loop-Reads es (sub32 h 38) r (sub32-lt h 38)))))))

-- ===== src/Reader/Reads.antt =====
-- `Reads m bs a`: on a dump of version 1.0.1 or later with 4-byte identifiers that stands before
-- the bytes `bs`, the command `m` consumes exactly those, returns `a` and changes nothing else. It
-- composes along `>>=`.
use mathlib.Core.List.{append_assoc}
use phat.Base.{
  ℕ, ◌+◌, ◌^◌, ◌≤◌, ◌<◌, ◌≡◌, refl, ap, sym, subst, ◌∙◌, Option, some, List, [], ◌∷◌, ◌++◌, length,
  arith, length-append,
}
use phat.Env.{Env}
use phat.Stdio.{Rest, Rest-advance, getc, getc-Rest}
use phat.Dump.{M, Jdump, ok, pure, ◌>>=◌, given, on_file, skip, fseek_cur, state, steps}
use phat.Reader.{read_ushort, read_uint, read_ulong, read_ident}
use phat.Reader.Words.{be2, be4, be8, mangled, read_ushort-be2, read_uint-be4, read_ulong-be8}

module _ ⦃env : Env⦄ where
  -- 4-byte identifiers, and a version from 1.0.1 on.
  pub record Narrow (d : Jdump) : Type 0 where
    pub narrow : d.identsz ≡ 4
    pub version : 1 ≤ d.f_version

  pub Narrow-skip : {d : Jdump} (n : ℕ) → Narrow d → Narrow (skip n d)
  Narrow-skip n v = record { narrow = v.narrow; version = v.version }

  pub record Reads {A : Type 0} (m : M A) (bs : List ℕ) (a : A) : Type 0 where
    pub runs :
        (d : Jdump) (r : List ℕ) → Narrow d → Rest d.fin (bs ++ r) → m d ≡ ok a (skip (length bs) d)

  pub skip-skip : (n m : ℕ) (d : Jdump) → skip m (skip n d) ≡ skip (n + m) d
  skip-skip n m d = ap (λ p. record d { fin = record d.fin { pos = p } }) (omega arith)

  skip_zero : (d : Jdump) → d ≡ skip 0 d
  skip_zero d = ap (λ p. record d { fin = record d.fin { pos = p } }) (omega arith)

  pub Reads-pure : {A : Type 0} (a : A) → Reads (pure a) [] a
  Reads-pure a = record { runs = λ d r v h. ap (ok a) (skip_zero d) }

  pub Reads-bind :
      {A B : Type 0} {m : M A} (k : A → M B) {xs ys : List ℕ} {a : A} {b : B}
      → Reads m xs a
      → Reads (k a) ys b
      → Reads (m >>= k) (xs ++ ys) b
  Reads-bind {m} k {xs} {ys} {a} {b} p q = record {
    runs = λ d r v h.
        let h' : Rest d.fin (xs ++ (ys ++ r)) = h ∙ append_assoc xs ys r in
        let e = p.runs d (ys ++ r) v h' in
        let e' =
          q.runs (skip (length xs) d) r (Narrow-skip (length xs) v)
            (Rest-advance d.fin xs (ys ++ r) h') in
        rw e (
          e'
          ∙ ap (ok b) (
              skip-skip (length xs) (length ys) d
              ∙ ap (λ n. skip n d) (sym (length-append xs ys))));
  }

  pub Reads-ushort : (n : ℕ) → n < 2 ^ 16 → Reads (on_file read_ushort >>= given) (be2 n) n
  unfolding steps be2
  Reads-ushort n h = record { runs = λ d r v e. rw (read_ushort-be2 d.fin n r h e) }

  pub Reads-uint : (n : ℕ) → n < 2 ^ 32 → Reads (on_file read_uint >>= given) (be4 n) n
  unfolding steps be4
  Reads-uint n h = record { runs = λ d r v e. rw (read_uint-be4 d.fin n r h e) }

  pub Reads-uint_unused : (n : ℕ) → n < 2 ^ 32 → Reads (on_file read_uint) (be4 n) (some n)
  unfolding steps be4
  Reads-uint_unused n h = record { runs = λ d r v e. rw (read_uint-be4 d.fin n r h e) }

  pub read_ident-Narrow : (d : Jdump) → Narrow d → read_ident d ≡ on_file read_uint d
  unfolding steps read_ident
  read_ident-Narrow d v = ground arith

  pub Reads-ident_unused : (n : ℕ) → n < 2 ^ 32 → Reads read_ident (be4 n) (some n)
  unfolding steps be4
  Reads-ident_unused n h = record {
    runs = λ d r v e. rw (read_ident-Narrow d v, read_uint-be4 d.fin n r h e);
  }

  pub Reads-ident : (n : ℕ) → n < 2 ^ 32 → Reads (read_ident >>= given) (be4 n) n
  unfolding steps be4
  Reads-ident n h = record {
    runs = λ d r v e. rw (read_ident-Narrow d v, read_uint-be4 d.fin n r h e);
  }

  pub Reads-getc : (n : ℕ) → Reads (on_file getc) (n ∷ []) (some n)
  unfolding steps
  Reads-getc n = record { runs = λ d r v e. rw (getc-Rest d.fin n r e) }

  pub Reads-ulong : (n : ℕ) → n < 2 ^ 64 → Reads (on_file read_ulong) (be8 n) (some (mangled n))
  unfolding steps be8
  Reads-ulong n h = record { runs = λ d r v e. rw (read_ulong-be8 d.fin n r h e) }

  pub Reads-ushort_unused : (n : ℕ) → n < 2 ^ 16 → Reads (on_file read_ushort) (be2 n) (some n)
  unfolding steps be2
  Reads-ushort_unused n h = record { runs = λ d r v e. rw (read_ushort-be2 d.fin n r h e) }

  -- A seek over bytes that nothing reads.
  pub Reads-seek : (bs : List ℕ) → Reads (fseek_cur (length bs)) bs tt
  unfolding steps
  Reads-seek bs = record { runs = λ d r v e. refl }

  -- The state is read along the way.
  pub Reads-state :
      {A : Type 0} (k : Jdump → M A) {bs : List ℕ} {a : A}
      → ((d : Jdump) → Narrow d → Reads (k d) bs a)
      → Reads (state >>= k) bs a
  unfolding steps
  Reads-state k p = record { runs = λ d r v e. (p d v).runs d r v e }

  pub Reads-given :
      {A B : Type 0} (k : A → M B) {x : A} {bs : List ℕ} {b : B}
      → Reads (k x) bs b
      → Reads (given (some x) >>= k) bs b
  unfolding steps
  Reads-given k p = record { runs = λ d r v e. p.runs d r v e }

  -- The last step returns what has been read.
  pub Reads-end :
      {A B : Type 0} {m : M A} (k : A → M B) {bs : List ℕ} {a : A} {b : B}
      → Reads m bs a
      → ((d : Jdump) → Narrow d → k a d ≡ ok b d)
      → Reads (m >>= k) bs b
  Reads-end k {bs} p q = record {
    runs = λ d r v e. rw (p.runs d r v e) (q (skip (length bs) d) (Narrow-skip (length bs) v));
  }

  pub Reads-at :
      {A X : Type 0} (m : X → M A) {x y : X} {bs : List ℕ} {a : A}
      → x ≡ y
      → Reads (m y) bs a
      → Reads (m x) bs a
  Reads-at m {bs} {a} e p = subst (λ z. Reads (m z) bs a) (sym e) p

  -- A number that is read and used, and one that is read and not used.
  pub Reads-ident_then :
      {B : Type 0} (k : ℕ → M B) (n : ℕ) {ys : List ℕ} {b : B}
      → n < 2 ^ 32
      → Reads (k n) ys b
      → Reads (read_ident >>= λ i. given i >>= k) (be4 n ++ ys) b
  Reads-ident_then k n h p = Reads-bind _ (Reads-ident_unused n h) (Reads-given k p)

  pub Reads-uint_then :
      {B : Type 0} (k : ℕ → M B) (n : ℕ) {ys : List ℕ} {b : B}
      → n < 2 ^ 32
      → Reads (k n) ys b
      → Reads (on_file read_uint >>= λ i. given i >>= k) (be4 n ++ ys) b
  Reads-uint_then k n h p = Reads-bind _ (Reads-uint_unused n h) (Reads-given k p)

  pub Reads-ushort_then :
      {B : Type 0} (k : ℕ → M B) (n : ℕ) {ys : List ℕ} {b : B}
      → n < 2 ^ 16
      → Reads (k n) ys b
      → Reads (on_file read_ushort >>= λ i. given i >>= k) (be2 n ++ ys) b
  Reads-ushort_then k n h p = Reads-bind _ (Reads-ushort_unused n h) (Reads-given k p)

  -- `Runs m d a d'`: from `d` the command returns `a` and leaves `d'`.
  pub record Runs {A : Type 0} (m : M A) (d : Jdump) (a : A) (d' : Jdump) : Type 0 where
    pub run : m d ≡ ok a d'

  pub Runs-bind :
      {A B : Type 0} {m : M A} (k : A → M B) {d d1 d2 : Jdump} {a : A} {b : B}
      → Runs m d a d1
      → Runs (k a) d1 b d2
      → Runs (m >>= k) d b d2
  Runs-bind k p q = record { run = rw p.run q.run }

  pub Runs-Reads :
      {A : Type 0} {m : M A} {bs : List ℕ} {a : A} (d : Jdump) (r : List ℕ)
      → Reads m bs a
      → Narrow d
      → Rest d.fin (bs ++ r)
      → Runs m d a (skip (length bs) d)
  Runs-Reads d r p v h = record { run = p.runs d r v h }

  pub Runs-state :
      {A : Type 0} (k : Jdump → M A) {d d' : Jdump} {a : A}
      → Runs (k d) d a d'
      → Runs (state >>= k) d a d'
  unfolding steps
  Runs-state k p = record { run = p.run }

  pub Runs-given :
      {A B : Type 0} (k : A → M B) {o : Option A} (x : A) {d d' : Jdump} {b : B}
      → o ≡ some x
      → Runs (k x) d b d'
      → Runs (given o >>= k) d b d'
  unfolding steps
  Runs-given k x e p = record { run = rw e p.run }

  -- Two states that differ in nothing are one.
  pub Runs-to :
      {A : Type 0} {m : M A} {d d1 d2 : Jdump} {a : A} → Runs m d a d1 → d1 ≡ d2 → Runs m d a d2
  Runs-to {a} p e = record { run = p.run ∙ ap (ok a) e }

  -- A step that only reads, and what follows it behind the bytes that it took.
  pub Runs-step :
      {A B : Type 0} {m : M A} (k : A → M B) {xs : List ℕ} (zs : List ℕ) {d d' : Jdump} {a : A}
      {b : B}
      → Reads m xs a
      → Narrow d
      → Rest d.fin (xs ++ zs)
      → Runs (k a) (skip (length xs) d) b d'
      → Runs (m >>= k) d b d'
  Runs-step k zs {d} p v h q = Runs-bind k (Runs-Reads d zs p v h) q

  pub Runs-value :
      {A : Type 0} {m : M A} {d d' : Jdump} {a b : A} → Runs m d a d' → a ≡ b → Runs m d b d'
  Runs-value {d'} p e = record { run = p.run ∙ ap (λ x. ok x d') e }

  -- A word of four bytes, read as an identifier or a number; what follows it stands before the rest.
  module _ (d : Jdump) (n : ℕ) (bs : List ℕ) where
    pub Runs-ident :
        {B : Type 0} (k : ℕ → M B) {b : B} {d' : Jdump}
        → Narrow d
        → n < 2 ^ 32
        → Rest d.fin (be4 n ++ bs)
        → (Rest (skip 4 d).fin bs → Runs (k n) (skip 4 d) b d')
        → Runs (read_ident >>= λ i. given i >>= k) d b d'
    unfolding be4
    Runs-ident k w h e go =
        Runs-step _ bs (Reads-ident_unused n h) w e
          (Runs-given k n refl (go (Rest-advance d.fin (be4 n) bs e)))

    pub Runs-ident_unused :
        {B : Type 0} (k : Option ℕ → M B) {b : B} {d' : Jdump}
        → Narrow d
        → n < 2 ^ 32
        → Rest d.fin (be4 n ++ bs)
        → (Rest (skip 4 d).fin bs → Runs (k (some n)) (skip 4 d) b d')
        → Runs (read_ident >>= k) d b d'
    unfolding be4
    Runs-ident_unused k w h e go =
        Runs-step k bs (Reads-ident_unused n h) w e (go (Rest-advance d.fin (be4 n) bs e))

    pub Runs-uint :
        {B : Type 0} (k : ℕ → M B) {b : B} {d' : Jdump}
        → Narrow d
        → n < 2 ^ 32
        → Rest d.fin (be4 n ++ bs)
        → (Rest (skip 4 d).fin bs → Runs (k n) (skip 4 d) b d')
        → Runs (on_file read_uint >>= λ i. given i >>= k) d b d'
    unfolding be4
    Runs-uint k w h e go =
        Runs-step _ bs (Reads-uint_unused n h) w e
          (Runs-given k n refl (go (Rest-advance d.fin (be4 n) bs e)))

    pub Runs-uint_unused :
        {B : Type 0} (k : Option ℕ → M B) {b : B} {d' : Jdump}
        → Narrow d
        → n < 2 ^ 32
        → Rest d.fin (be4 n ++ bs)
        → (Rest (skip 4 d).fin bs → Runs (k (some n)) (skip 4 d) b d')
        → Runs (on_file read_uint >>= k) d b d'
    unfolding be4
    Runs-uint_unused k w h e go =
        Runs-step k bs (Reads-uint_unused n h) w e (go (Rest-advance d.fin (be4 n) bs e))

  -- A number, as an equation of the step that reads it.
  pub word_step :
      (d : Jdump) (n : ℕ) (xs : List ℕ)
      → n < 2 ^ 32
      → Rest d.fin (be4 n ++ xs)
      → on_file read_uint d ≡ ok (some n) (skip 4 d)
  unfolding on_file
  word_step d n xs lt rest = rw (read_uint-be4 d.fin n xs lt rest) refl

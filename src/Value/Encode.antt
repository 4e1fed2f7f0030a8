-- ===== src/Value/Encode.antt =====
-- The values that HPROF writes, with their bytes, and what `readValue` makes of them.
use phat.Base.{
  ℕ, ◌^◌, ◌≤◌, ◌<◌, ◌≡◌, refl, ap, true, some, List, [], ◌∷◌, arith, leb, ltb, if◌then◌else◌,
}
use phat.Env.{Env}
use phat.Types.{Hvalue}
use phat.Reader.Words.{be2, be4, be8, mangled}
use phat.Reader.Reads.{
  Narrow, Reads, Reads-bind, Reads-getc, Reads-ident_unused, Reads-ushort_unused, Reads-uint_unused,
  Reads-ulong, Reads-seek, Reads-state, Reads-end,
}
use phat.Dump.{Jdump, ok, given, state}
use phat.Text.{sig_from_type}
use phat.Value.{Value, value_of, read_value, signature, minus_one}

-- A basic value of HPROF.
pub data Basic : Type 0 where
  object : ℕ → Basic
  boolean : ℕ → Basic
  char : ℕ → Basic
  float : ℕ → Basic
  double : ℕ → Basic
  byte : ℕ → Basic
  short : ℕ → Basic
  int : ℕ → Basic
  long : ℕ → Basic

-- Its type code and its bytes, with 4-byte identifiers.
abbrev pub basic_type : Basic → ℕ
basic_type (object n) = 2
basic_type (boolean n) = 4
basic_type (char n) = 5
basic_type (float n) = 6
basic_type (double n) = 7
basic_type (byte n) = 8
basic_type (short n) = 9
basic_type (int n) = 10
basic_type (long n) = 11

abbrev pub basic_payload : Basic → List ℕ
basic_payload (object n) = be4 n
basic_payload (boolean n) = n ∷ []
basic_payload (char n) = be2 n
basic_payload (float n) = be4 n
basic_payload (double n) = be8 n
basic_payload (byte n) = n ∷ []
basic_payload (short n) = be2 n
basic_payload (int n) = be4 n
basic_payload (long n) = be8 n

abbrev pub basic_bytes : Basic → List ℕ
basic_bytes v = basic_type v ∷ basic_payload v

abbrev pub InRange : Basic → Type 0
InRange (object n) = n < 2 ^ 32
InRange (boolean n) = n ≤ 1
InRange (char n) = n < 2 ^ 16
InRange (float n) = n < 2 ^ 32
InRange (double n) = n < 2 ^ 64
InRange (byte n) = n < 256
InRange (short n) = n < 2 ^ 16
InRange (int n) = n < 2 ^ 32
InRange (long n) = n < 2 ^ 64

-- The size of the payload, which `readValue` returns.
abbrev pub basic_size : Basic → ℕ
basic_size (object n) = 4
basic_size (boolean n) = 1
basic_size (char n) = 2
basic_size (float n) = 4
basic_size (double n) = 8
basic_size (byte n) = 1
basic_size (short n) = 2
basic_size (int n) = 4
basic_size (long n) = 8

module _ ⦃env : Env⦄ where
  abbrev pub basic_hvalue : Basic → Hvalue
  basic_hvalue (object n) = Hvalue.ident n
  basic_hvalue (boolean n) = Hvalue.b n
  basic_hvalue (char n) = Hvalue.c n
  basic_hvalue (float n) = Hvalue.f
  basic_hvalue (double n) = Hvalue.d
  basic_hvalue (byte n) = Hvalue.b n
  basic_hvalue (short n) = Hvalue.c n
  basic_hvalue (int n) = Hvalue.i n
  basic_hvalue (long n) = Hvalue.j (mangled n)

  abbrev pub basic_value : Basic → Value
  basic_value v = record {
    ret = basic_size v;
    htype = sig_from_type (basic_type v);
    hvalue = some (basic_hvalue v);
  }

  pub typed : {d : Jdump} → Narrow d → leb 1 d.f_version ≡ true
  typed v = ground arith

  bool_ret : (n : ℕ) → n ≤ 1 → (if ltb 1 n then minus_one else 1) ≡ 1
  bool_ret n h = ground arith

  read_value-typed :
      (t : ℕ) (bs : List ℕ) (v : Value)
      → Reads (value_of (sig_from_type t)) bs v
      → Reads read_value (t ∷ bs) v
  unfolding read_value
  read_value-typed t bs v p = Reads-bind _ (Reads-getc t) (
      Reads-state (λ d. value_of (signature d.f_version (some t)))
        λ d n. record { runs = λ d' r n' e. rw (typed n) (p.runs d' r n' e) })

  payload-Reads :
      (v : Basic)
      → InRange v
      → Reads (value_of (sig_from_type (basic_type v))) (basic_payload v) (basic_value v)
  unfolding value_of sig_from_type be4 be8
  payload-Reads (object n) h = Reads-end _ (Reads-ident_unused n h) (λ d w.
      unfold given state in
      ap (λ k. ok (record { ret = k; htype = b'L'; hvalue = some (Hvalue.ident n) }) d) w.narrow)
  payload-Reads (boolean n) h = Reads-end _ (Reads-getc n) (λ d w.
      ap (λ k. ok (record { ret = k; htype = b'Z'; hvalue = some (Hvalue.b n) }) d) (bool_ret n h))
  payload-Reads (char n) h = Reads-end _ (Reads-ushort_unused n h) (λ d w. refl)
  payload-Reads (float n) h = Reads-end _ (Reads-seek (be4 n)) (λ d w. refl)
  payload-Reads (double n) h = Reads-end _ (Reads-seek (be8 n)) (λ d w. refl)
  payload-Reads (byte n) h = Reads-end _ (Reads-getc n) (λ d w. refl)
  payload-Reads (short n) h = Reads-end _ (Reads-ushort_unused n h) (λ d w. refl)
  payload-Reads (int n) h = Reads-end _ (Reads-uint_unused n h) (λ d w. refl)
  payload-Reads (long n) h = Reads-end _ (Reads-ulong n h) (λ d w. refl)

  -- On a dump of version 1.0.1 or later with 4-byte identifiers that stands before a basic value in
  -- range, its type and its payload, `readValue` consumes exactly these, changes nothing else, and
  -- returns the type, the size of the payload alone, and the value, except that of a float or a
  -- double it returns none, and of a long what `readUlong` makes of it: another number from 2^32
  -- on.
  pub read_value-basic : (v : Basic) → InRange v → Reads read_value (basic_bytes v) (basic_value v)
  read_value-basic v h =
      read_value-typed (basic_type v) (basic_payload v) (basic_value v) (payload-Reads v h)

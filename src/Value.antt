-- ===== src/Value.antt =====
-- `readValue`: a constant or a static field, a type byte and the value behind it.
pub mod Encode
use phat.Base.{
  ℕ, ◌-◌, ◌%◌, ◌^◌, Bool, true, false, ◌||◌, Option, none, some, leb, ltb, ◌==◌, if◌then◌else◌,
}
use mathlib.Core.Option
use phat.Env.{Env}
use phat.Types.{Hvalue}
use phat.Stdio.{getc}
use phat.Reader.{read_ushort, read_uint, read_ulong, read_ident}
use phat.Dump.{M, Jdump, pure, ◌>>=◌, ◌>>◌, given, state, on_file, fseek_cur}
use phat.Text.{sig_from_type}

-- What `readValue` returns and what it stores in the object: `ret` is an `int`, so -1 is 2^32 - 1
-- where it is taken from an `unsigned int`; `none` leaves `hvalues[0]` as it was.
pub record Value : Type 0 where
  pub ret : ℕ
  pub htype : ℕ
  pub hvalue : Option Hvalue

-- An `int` that holds EOF is -1; stored in an `unsigned char` it is 255.
abbrev pub as_int : Option ℕ → ℕ
as_int none = 2 ^ 32 - 1
as_int (some c) = c

abbrev pub as_uchar : Option ℕ → ℕ
as_uchar none = 255
as_uchar (some c) = c

abbrev pub minus_one : ℕ
minus_one = 2 ^ 32 - 1

module _ ⦃env : Env⦄ where
  -- case 'Z': a byte other than 0 and 1 is an error.
  abbrev bool_value : ℕ → ℕ → Value
  bool_value t b = record {
    ret = if ltb 1 b then minus_one else 1;
    htype = t;
    hvalue = some (Hvalue.b b);
  }

  abbrev value : ℕ → ℕ → Option Hvalue → M Value
  value r t v = pure (record { ret = r; htype = t; hvalue = v })

  -- The switch of readValue on the signature `t`.
  unfoldable pub value_of : ℕ → M Value
  value_of t =
      if t == b'[' || t == b'L'
      then (do i ← read_ident; v ← given i; d ← state; value d.identsz t (some (Hvalue.ident v)))
      else if t == b'Z'
      then (do c ← on_file getc; pure (bool_value t (as_uchar c)))
      else if t == b'B'
      then (do c ← on_file getc; value 1 t (some (Hvalue.b (as_uchar c))))
      else if t == b'S'
      then (do v ← on_file read_ushort; value 2 t (Option.map Hvalue.c v))
      else if t == b'C'
      then (do v ← on_file read_ushort; value 2 t (Option.map Hvalue.c v))
      else if t == b'I'
      then (do v ← on_file read_uint; value 4 t (Option.map Hvalue.i v))
      else if t == b'J'
      then (do v ← on_file read_ulong; value 8 t (Option.map Hvalue.j v))
      else if t == b'F'
      then (do fseek_cur 4; value 4 t (some Hvalue.f))
      else if t == b'D'
      then (do fseek_cur 8; value 8 t (some Hvalue.d))
      else value 0 t none

  -- The signature: from version 1.0.1 on the type byte is a code.
  abbrev pub signature : ℕ → Option ℕ → ℕ
  signature version c = if leb 1 version then sig_from_type (as_uchar c) else as_int c

  unfoldable pub read_value : M Value
  unfolding value_of
  read_value = do c ← on_file getc; d ← state; value_of (signature d.f_version c)

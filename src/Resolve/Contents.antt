-- ===== src/Resolve/Contents.antt =====
-- The contents of an array of primitives, which `readArray` leaves out and `resolveInstance` reads.
use phat.Base.{
  ℕ, ◌*◌, set, ◌^◌, ◌<◌, ◌≡◌, true, false, some, List, [], ◌∷◌, get_elem?, Bool, if◌then◌else◌,
}
use phat.Env.{Env}
use phat.Types.{Cinfo, Hobject}
use phat.Stdio.{seek_to, fread}
use phat.Dump.{Jdump, skip}
use phat.Array.{h_varray}
use phat.Array.Accounting.{array_obj}
use phat.Resolve.{max_values}

pub data Prim : Type 0 where
  p_boolean p_char p_float p_double p_byte p_short p_int p_long : Prim

-- The code of an element type in the dump, the letter in the name of the array's class, and the size.
abbrev pub code_of : Prim → ℕ
code_of p_boolean = 4
code_of p_char = 5
code_of p_float = 6
code_of p_double = 7
code_of p_byte = 8
code_of p_short = 9
code_of p_int = 10
code_of p_long = 11

abbrev pub letter_of : Prim → ℕ
letter_of p_boolean = b'Z'
letter_of p_char = b'C'
letter_of p_float = b'F'
letter_of p_double = b'D'
letter_of p_byte = b'B'
letter_of p_short = b'S'
letter_of p_int = b'I'
letter_of p_long = b'J'

abbrev pub bytes_of : Prim → ℕ
bytes_of p_boolean = 1
bytes_of p_char = 2
bytes_of p_float = 4
bytes_of p_double = 8
bytes_of p_byte = 1
bytes_of p_short = 2
bytes_of p_int = 4
bytes_of p_long = 8

-- The type that a resolved array has: a boolean counts as a byte, a character as a short.
abbrev pub resolved_code : Prim → ℕ
resolved_code p_boolean = 8
resolved_code p_char = 9
resolved_code p = code_of p

-- Floats are not read.
abbrev pub contents_of : Prim → List ℕ → List ℕ
contents_of p_float bs = []
contents_of p_double bs = []
contents_of p bs = bs

abbrev is_kept : Prim → Bool
is_kept p_float = false
is_kept p_double = false
is_kept p = true

-- An array that is read has fewer elements than talloc_array refuses.
abbrev pub Held : Prim → ℕ → Type 0
Held p_float n = Unit
Held p_double n = Unit
Held x n = n < max_values

module _ ⦃env : Env⦄ where
  -- An array that has been read, and its class.
  pub record ArrayAt (d : Jdump) (q p : ℕ) (ho : Hobject) (ci : Cinfo) (x : Prim) : Type 0 where
    pub object : get_elem? d.objects q ≡ some ho
    pub class : get_elem? d.classes p ≡ some ci
    pub name : ci.name ≡ b'[' ∷ letter_of x ∷ []
    pub class_id : 12 < ho.class_id
    pub xclass_id : ho.xclass_id ≡ 0
    pub count : 0 < ho.count
    pub short : bytes_of x * ho.count < 2 ^ 32
    pub held : Held x ho.count

  -- The object and the state behind the resolver, for an array with the contents `bs`.
  abbrev pub resolved_array : Prim → List ℕ → Hobject → Hobject
  resolved_array x bs ho = record ho {
    xclass_id = resolved_code x;
    raw = contents_of x bs;
    osize = bytes_of x * ho.count;
  }

  abbrev with_contents : Jdump → ℕ → ℕ → Hobject → Cinfo → Prim → List ℕ → Jdump
  with_contents d q p ho ci x bs = record d {
    fin = (fread (if is_kept x then bytes_of x * ho.count else 0) (seek_to ho.fpos d.fin)).1;
    objects = set d.objects q (resolved_array x bs ho);
    classes = set d.classes p (record ci { size = bytes_of x * ho.count });
  }

  module _ (d : Jdump) (ide stack isz p k : ℕ) (ci : Cinfo) (x : Prim) (bs r : List ℕ) where
    abbrev pub read_object : Hobject
    read_object = record (array_obj (skip 13 d) h_varray ide ci.ident (bytes_of x) isz) {
      resolved = true;
      xclass_id = resolved_code x;
      raw = contents_of x bs;
      osize = bytes_of x * isz;
    }

-- ===== src/Tests/Arrays.antt =====
-- `readArray` on an array of three `int` and on one of two objects, and the class of an array.
use phat.Base.{
  ℕ, ◌+◌, ◌*◌, ◌≡◌, refl, true, false, some, none, List, [], ◌∷◌, ◌++◌, get_elem?, arith, codes,
}
use phat.Env.{lookup32}
use phat.Types.{Cinfo}
use phat.Dump.{Jdump, ok, skip}
use phat.Reader.Words.{be4}
use phat.Class.{hash_key}
use phat.Array.{read_array, array_class, h_varray, h_oarray, prim_sig}
use phat.Array.Accounting.{array_head, with_array, read_array-prim, read_array-object}
use phat.Array.NewClass.{fake, array_class-misfiled}
use phat.Main.{new_dump}
use phat.Tests.{test_env, blank_class}

-- A class of arrays, and a class of objects with the same name as the test of `findClass` asks.
abbrev ints : Cinfo
ints = record blank_class { ident = 90; name = codes "[I" }

abbrev points : Cinfo
points = record blank_class { ident = 91; name = codes "Point" }

abbrev arrays_of : List ℕ → Jdump
unfolding hash_key
arrays_of bytes = record (new_dump none 0 bytes) {
  f_version = 1;
  identsz = 4;
  c_table = (90, 0) ∷ (91, 1) ∷ [];
  rc_table = (hash_key (codes "[I"), 0) ∷ (hash_key (codes "Point"), 1) ∷ [];
  classes = ints ∷ points ∷ [];
}

abbrev three_ints : Jdump
unfolding be4
three_ints = arrays_of (array_head 5 1 3 (10 ∷ (be4 1 ++ (be4 2 ++ (be4 3 ++ (9 ∷ []))))))

read_array-prim_example :
    read_array (13 + 4 * 3 + 1) true three_ints
    ≡ ok 1 (with_array (skip 13 three_ints) h_varray 5 90 4 3)
unfolding be4 hash_key lookup32 prim_sig
read_array-prim_example =
    read_array-prim three_ints 5 1 3 0 ints 1 (be4 1 ++ (be4 2 ++ (be4 3 ++ (9 ∷ [])))) 10 b'I' 4
      (record { narrow = refl; version = omega arith }) (omega arith) (omega arith) (omega arith)
      refl (omega arith) refl refl refl

abbrev two_points : Jdump
unfolding be4
two_points = arrays_of (array_head 6 1 2 (be4 91 ++ (be4 70 ++ (be4 71 ++ []))))

read_array-object_example :
    read_array (16 + 4 * 2 + 0) false two_points
    ≡ ok 0 (with_array (skip 16 two_points) h_oarray 6 91 4 2)
unfolding be4 hash_key lookup32
read_array-object_example =
    read_array-object two_points 6 1 2 1 points 0 (be4 70 ++ (be4 71 ++ [])) 91 1 points
      (record { narrow = refl; version = omega arith }) (omega arith) (omega arith) (omega arith)
      (omega arith) (omega arith) refl refl refl refl refl

array_class-misfiled_example :
    (d' : Jdump) × (array_class (codes "[J") 11 two_points ≡ ok 2 d')
    × (get_elem? d'.classes 2 ≡ some (fake two_points (codes "[J") 11))
    × (lookup32 d'.rc_table (hash_key (codes "[J")) ≡ some 2)
    × (lookup32 d'.c_table 1001 ≡ some 2)
    × (lookup32 d'.c_table 1000 ≡ lookup32 two_points.c_table 1000)
unfolding be4 hash_key lookup32
array_class-misfiled_example = array_class-misfiled two_points (codes "[J") 11 refl (omega arith)

-- ===== src/Class/Accounting.antt =====
-- What `readClass` leaves of `hsize`, against the length of a class dump.
use phat.Base.{
  ℕ, ◌+◌, ◌*◌, ◌^◌, ◌<◌, ◌≡◌, refl, ap, ◌∙◌, some, List, [], ◌∷◌, ◌++◌, length, get_elem?, set,
  arith, length-append,
}
use phat.Env.{Env, lookup32}
use phat.Types.{Ptr, Cinfo}
use phat.Stdio.{Rest}
use phat.Reader.Words.{be2, be4, be8}
use phat.Reader.Reads.{Narrow}
use phat.Dump.{Jdump, ok, skip}
use phat.Value.Encode.{
  Basic, object, boolean, char, float, double, byte, short, int, long, basic_payload, basic_size,
}
use phat.Class.{sub32, read_class}
use phat.Class.Encode.{
  Entry, pool_bytes, statics_bytes, fields_bytes, pool_charge, statics_charge, sub32_le,
}
use phat.Class.Runs.{
  ClassDump, ClassInRange, statics_part, fields_part, class_bytes, dumped, stored, class_charge,
  read_class-Runs,
}

module _ ⦃env : Env⦄ where
  length-payload : (v : Basic) → length (basic_payload v) ≡ basic_size v
  unfolding be2 be4 be8
  length-payload (object n) = refl
  length-payload (boolean n) = refl
  length-payload (char n) = refl
  length-payload (float n) = refl
  length-payload (double n) = refl
  length-payload (byte n) = refl
  length-payload (short n) = refl
  length-payload (int n) = refl
  length-payload (long n) = refl

  length-pool_bytes : (es : List Entry) → length (pool_bytes es) ≡ pool_charge es + length es
  unfolding be2
  length-pool_bytes [] = refl
  length-pool_bytes ((n, v) ∷ es) = omega (
    arith,
    length-append (basic_payload v) (pool_bytes es),
    length-payload v,
    length-pool_bytes es,
  )

  length-statics_bytes : (es : List Entry) → length (statics_bytes es) ≡ statics_charge es
  unfolding be4
  length-statics_bytes [] = refl
  length-statics_bytes ((n, v) ∷ es) = omega (
    arith,
    length-append (basic_payload v) (statics_bytes es),
    length-payload v,
    length-statics_bytes es,
  )

  length-fields_bytes : (fs : List (ℕ × ℕ)) → length (fields_bytes fs) ≡ 5 * length fs
  unfolding be4
  length-fields_bytes [] = refl
  length-fields_bytes ((n, t) ∷ fs) = omega (arith, length-fields_bytes fs)

  -- A class dump takes a byte more per entry of its constant pool than `readClass` subtracts.
  pub length-class_bytes : (c : ClassDump) → length (class_bytes c) ≡ class_charge c + length c.pool
  unfolding be2 be4
  length-class_bytes c = omega (
    arith,
    length-append (pool_bytes c.pool) (statics_part c ++ fields_part c),
    length-append (statics_bytes c.statics) (fields_part c),
    length-pool_bytes c.pool,
    length-statics_bytes c.statics,
    length-fields_bytes c.fields,
  )

  module _ (d : Jdump) (c : ClassDump) (p : Ptr) (ci : Cinfo) (more : ℕ) (r : List ℕ) where
    -- On a dump of version 1.0.1 or later with 4-byte identifiers that stands before a class dump
    -- of a known class, whose numbers are in range, `readClass` consumes exactly the class dump and
    -- stores it in the class. Of `hsize` it leaves what follows, and one byte too many for each
    -- entry of the constant pool.
    pub read_class-accounting :
        Narrow d
        → ClassInRange c
        → lookup32 d.c_table c.ident ≡ some p
        → get_elem? d.classes p ≡ some ci
        → Rest d.fin (class_bytes c ++ r)
        → length (class_bytes c) + more < 2 ^ 32
        → read_class (length (class_bytes c) + more) d
          ≡ ok
              (more + length c.pool)
              (record (skip (length (class_bytes c)) d) { classes = set d.classes p (dumped ci c) })
    read_class-accounting w range found e rest lt =
        let left : sub32 (length (class_bytes c) + more) (class_charge c) ≡ more + length c.pool =
          sub32_le _ _ lt (omega (arith, length-class_bytes c))
          ∙ omega (arith, length-class_bytes c) in
        (read_class-Runs d c p ci (length (class_bytes c) + more) r w range found e rest).run
        ∙ ap (λ k. ok k (stored (skip (length (class_bytes c)) d) p (dumped ci c))) left

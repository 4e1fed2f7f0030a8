-- ===== src/Array/NewClass.antt =====
-- The class that `readArray` makes for an array type which it meets for the first time.
use phat.Base.{
  ℕ, ◌+◌, ◌%◌, ◌^◌, ◌<◌, ◌≡◌, ◌∙◌, none, some, [], ◌∷◌, ◌++◌, ◌==◌, length, get_elem?, arith, false,
  get_elem?-append_last, ne→eq_false,
}
use phat.Env.{Env, lookup32, insert32, lookup32-insert32, lookup32-insert32_self}
use phat.Types.{CString, Cinfo}
use phat.Dump.{Jdump, ok, steps}
use phat.Class.{mkcinfo, find_class, hash_key}
use phat.Array.{array_class}

module _ ⦃env : Env⦄ where
  -- The class and the state behind `array_class`, where no class has the name.
  abbrev pub fake : Jdump → CString → ℕ → Cinfo
  fake d cname nid = record (env.talloc_cinfo (length d.classes)) {
    ident = d.fake_class;
    nident = nid;
    name = cname;
    tfields = 0;
    resolved = false;
    count = 0;
  }

  abbrev pub with_fake : Jdump → CString → ℕ → Jdump
  with_fake d cname nid = record d {
    classes = d.classes ++ (fake d cname nid ∷ []);
    fake_class = d.fake_class + 1;
    sb_table = insert32 d.sb_table nid cname;
    c_table = insert32 d.c_table (d.fake_class + 1) (length d.classes);
    rc_table = insert32 d.rc_table (hash_key cname) (length d.classes);
  }

  pub array_class-found :
      (d : Jdump) (cname : CString) (nid p : ℕ)
      → lookup32 d.rc_table (hash_key cname) ≡ some p
      → array_class cname nid d ≡ ok p d
  unfolding steps array_class find_class
  array_class-found d cname nid p e = rw e

  pub array_class-fresh :
      (d : Jdump) (cname : CString) (nid : ℕ)
      → lookup32 d.rc_table (hash_key cname) ≡ none
      → array_class cname nid d ≡ ok (length d.classes) (with_fake d cname nid)
  unfolding steps array_class find_class mkcinfo
  array_class-fresh d cname nid e = rw e

  next-key : (n : ℕ) → n + 1 < 2 ^ 32 → ((n + 1) % 2 ^ 32 == n % 2 ^ 32) ≡ false
  next-key n h = ne→eq_false _ _ (omega arith)

  module _ (d : Jdump) (cname : CString) (nid : ℕ) where
    -- Where no class has the name, and the counter is not at its end, the class that `readArray` makes
    -- for an array is found by its name and has the identifier `fakeClass`; but the table of classes
    -- has it under the next number, and what it has under `fakeClass` is what it had.
    pub array_class-misfiled :
        lookup32 d.rc_table (hash_key cname) ≡ none
        → d.fake_class + 1 < 2 ^ 32
        → (d' : Jdump) × (array_class cname nid d ≡ ok (length d.classes) d')
          × (get_elem? d'.classes (length d.classes) ≡ some (fake d cname nid))
          × (lookup32 d'.rc_table (hash_key cname) ≡ some (length d.classes))
          × (lookup32 d'.c_table (d.fake_class + 1) ≡ some (length d.classes))
          × (lookup32 d'.c_table d.fake_class ≡ lookup32 d.c_table d.fake_class)
    array_class-misfiled e lt = (
      with_fake d cname nid,
      array_class-fresh d cname nid e,
      get_elem?-append_last d.classes (fake d cname nid),
      lookup32-insert32_self d.rc_table (hash_key cname) (length d.classes),
      lookup32-insert32_self d.c_table (d.fake_class + 1) (length d.classes),
      lookup32-insert32 d.c_table (d.fake_class + 1) d.fake_class (length d.classes)
          ∙ rw (next-key d.fake_class lt),
    )

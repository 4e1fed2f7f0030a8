-- ===== src/Array/Accounting.antt =====
-- `readArray` on the bytes of an array whose class is known: the object that it makes, and what it
-- leaves of `hsize`.
use phat.Base.{
  ℕ, ◌+◌, ◌*◌, ◌%◌, ◌^◌, ◌<◌, ◌≡◌, refl, ap, sym, ◌∙◌, subst, true, false, Option, some, List, [],
  ◌∷◌, ◌++◌, length, get_elem?, set, arith, get_elem?-append_last,
}
use phat.Env.{Env, lookup32, insert32}
use phat.Types.{CString, Cinfo, Hobject}
use phat.Stdio.{Rest, Rest-advance, advance}
use phat.Reader.Words.{be4}
use phat.Reader.Reads.{
  Narrow, Narrow-skip, Reads-ident_unused, Reads-uint_unused, Reads-getc, Runs, Runs-bind,
  Runs-state, Runs-given, Runs-step, skip-skip,
}
use phat.Dump.{M, Jdump, ok, skip, steps, given, on_file, ◌>>=◌}
use phat.Reader.{read_ident, read_uint}
use phat.Class.{sub32, hash_key}
use phat.Class.Runs.{load_class-Runs}
use phat.Class.Encode.{sub32-sub32, sub32_le}
use phat.Array.{
  h_varray, h_oarray, prim_sig, make_obj, array_object, prim_array, object_array, array_of,
  array_class, read_array,
}
use phat.Array.NewClass.{array_class-found}

pub set_last {ℓ} :
    {A : Type ℓ} (xs : List A) (u v : A) → set (xs ++ (u ∷ [])) (length xs) v ≡ xs ++ (v ∷ [])
set_last [] u v = refl
set_last (x ∷ xs) u v = ap (λ t. x ∷ t) (set_last xs u v)

module _ ⦃env : Env⦄ where
  -- The object of an array with `isz` elements of `elsz` bytes at the place where the file stands.
  abbrev pub array_obj : Jdump → ℕ → ℕ → ℕ → ℕ → ℕ → Hobject
  array_obj d ht ide cid elsz isz = record (env.talloc_hobject (length d.objects)) {
    htype = ht;
    class_id = cid;
    inst_id = ide;
    fpos = d.fin.pos;
    resolved = false;
    visit = false;
    size = elsz;
    csize = 0;
    xclass_id = 0;
    count = isz;
  }

  abbrev pub with_array : Jdump → ℕ → ℕ → ℕ → ℕ → ℕ → Jdump
  with_array d ht ide cid elsz isz = record (skip (elsz * isz) d) {
    objects = d.objects ++ (array_obj d ht ide cid elsz isz ∷ []);
    h_table = insert32 d.h_table ide (length d.objects);
  }

  array_object-Runs :
      (d : Jdump) (ht ide p elsz isz h : ℕ) (ci : Cinfo)
      → get_elem? d.classes p ≡ some ci
      → elsz * isz < 2 ^ 32
      → Runs
          (array_object ht ide p elsz isz h)
          d
          (sub32 h (elsz * isz))
          (with_array d ht ide ci.ident elsz isz)
  unfolding steps array_object make_obj
  array_object-Runs d ht ide p elsz isz h ci e lt = record {
    run = rw (e, get_elem?-append_last, set_last, fits);
  }
    where
      fits : elsz * isz % 2 ^ 32 ≡ elsz * isz
      fits = omega arith

  -- The head of an array dump: its identifier, its stack trace and the number of its elements.
  abbrev pub array_head : ℕ → ℕ → ℕ → List ℕ → List ℕ
  array_head ide stack isz bs = be4 ide ++ (be4 stack ++ (be4 isz ++ bs))

  Rest-next :
      (d : Jdump) (xs ys : List ℕ) → Rest d.fin (xs ++ ys) → Rest (advance (length xs) d.fin) ys
  Rest-next d xs ys h = Rest-advance d.fin xs ys h

  array_class-Runs :
      (d : Jdump) (cname : CString) (nid p : ℕ)
      → lookup32 d.rc_table (hash_key cname) ≡ some p
      → Runs (array_class cname nid) d p d
  array_class-Runs d cname nid p e = record { run = array_class-found d cname nid p e }

  array_of-Runs :
      (d : Jdump) (ide t : ℕ) (o : Option (ℕ × ℕ)) (sig elsz p isz h : ℕ) (ci : Cinfo)
      → o ≡ some (sig, elsz)
      → lookup32 d.rc_table (hash_key (b'[' ∷ sig ∷ [])) ≡ some p
      → get_elem? d.classes p ≡ some ci
      → elsz * isz < 2 ^ 32
      → Runs
          (array_of ide t o isz h)
          d
          (sub32 h (elsz * isz))
          (with_array d h_varray ide ci.ident elsz isz)
  unfolding array_of prim_array
  array_of-Runs d ide t o sig elsz p isz h ci known found e lt = rw known (
      Runs-bind _ (array_class-Runs d (b'[' ∷ sig ∷ []) t p found)
        (array_object-Runs d h_varray ide p elsz isz h ci e lt))

  object_array-Runs :
      (d : Jdump) (ide t p0 p isz h : ℕ) (ci0 ci : Cinfo)
      → lookup32 d.c_table t ≡ some p0
      → get_elem? d.classes p0 ≡ some ci0
      → lookup32 d.rc_table (hash_key ci0.name) ≡ some p
      → get_elem? d.classes p ≡ some ci
      → d.identsz * isz < 2 ^ 32
      → Runs
          (object_array ide t isz h)
          d
          (sub32 h (d.identsz * isz))
          (with_array d h_oarray ide ci.ident d.identsz isz)
  unfolding object_array
  object_array-Runs d ide t p0 p isz h ci0 ci known e0 found e lt = Runs-state _ (
      Runs-given _ p0 known (
        Runs-bind _ (load_class-Runs d p0 ci0 e0) (
          Runs-bind _ (array_class-Runs d ci0.name t p found)
            (array_object-Runs d h_oarray ide p d.identsz isz h ci e lt))))

  third : (d : Jdump) → skip 4 (skip 4 (skip 4 d)) ≡ skip 12 d
  third d = ap (λ p. record d { fin = record d.fin { pos = p } }) (omega arith)

  -- Reading the head takes twelve bytes.
  module _ (d : Jdump) (ide stack isz : ℕ) (bs : List ℕ) where
    head_then :
        {B : Type 0} (k : ℕ → ℕ → M B) {b : B} {d' : Jdump}
        → Narrow d
        → ide < 2 ^ 32
        → stack < 2 ^ 32
        → isz < 2 ^ 32
        → Rest d.fin (array_head ide stack isz bs)
        → (Rest (skip 12 d).fin bs → Runs (k ide isz) (skip 12 d) b d')
        → Runs
            (read_ident >>= λ id. given id >>= λ ide'.
              on_file read_uint >>= λ _. on_file read_uint >>= λ size. given size >>= k ide')
            d
            b
            d'
    unfolding be4
    head_then k {b} {d'} w h1 h2 h3 rest go =
        let behind1 = Rest-next d (be4 ide) _ rest in
        let behind2 = Rest-next (skip 4 d) (be4 stack) _ behind1 in
        let behind3 = Rest-next (skip 4 (skip 4 d)) (be4 isz) _ behind2 in
        let end : Rest (skip 12 d).fin bs = subst (λ x. Rest x.fin bs) (third d) behind3 in
        Runs-step _ _ (Reads-ident_unused ide h1) w rest (
          Runs-given _ ide refl (
            Runs-step _ _ (Reads-uint_unused stack h2) (Narrow-skip 4 w) behind1 (
              Runs-step _ _ (Reads-uint_unused isz h3) (Narrow-skip 4 (Narrow-skip 4 w)) behind2 (
                Runs-given (k ide) isz refl
                  (subst (λ x. Runs (k ide isz) x b d') (sym (third d)) (go end))))))

  module _ (d : Jdump) (ide stack isz p : ℕ) (ci : Cinfo) (more : ℕ) (r : List ℕ) where
    -- On a dump of version 1.0.1 or later with 4-byte identifiers that stands before a primitive
    -- array of a known element type, whose class has been made before, `readArray` goes behind the
    -- elements, files an object with the class, the number of the elements and the position of the
    -- first, and leaves what follows of `hsize`.
    pub read_array-prim :
        (t sig elsz : ℕ)
        → Narrow d
        → ide < 2 ^ 32
        → stack < 2 ^ 32
        → isz < 2 ^ 32
        → prim_sig t ≡ some (sig, elsz)
        → 13 + elsz * isz + more < 2 ^ 32
        → lookup32 d.rc_table (hash_key (b'[' ∷ sig ∷ [])) ≡ some p
        → get_elem? d.classes p ≡ some ci
        → Rest d.fin (array_head ide stack isz (t ∷ r))
        → read_array (13 + elsz * isz + more) true d
          ≡ ok more (with_array (skip 13 d) h_varray ide ci.ident elsz isz)
    unfolding read_array
    read_array-prim t sig elsz w h1 h2 h3 known lt found e rest =
        let total = 13 + elsz * isz + more in
        let h = sub32 (sub32 total (8 + d.identsz)) 1 in
        let left : sub32 h (elsz * isz) ≡ more =
          ap (λ x. sub32 x (elsz * isz)) (sub32-sub32 total (8 + d.identsz) 1)
          ∙ sub32-sub32 total (8 + d.identsz + 1) (elsz * isz)
          ∙ sub32_le total (8 + d.identsz + 1 + elsz * isz) lt (omega (arith, w.narrow))
          ∙ omega (arith, w.narrow) in
        let behind : skip 1 (skip 12 d) ≡ skip 13 d = skip-skip 12 1 d in
        (head_then d ide stack isz (t ∷ r) _ w h1 h2 h3 rest (λ rest'. Runs-state _ (
          Runs-step _ r (Reads-getc t) (Narrow-skip 12 w) rest' (
            array_of-Runs (skip 1 (skip 12 d)) ide t (prim_sig t) sig elsz p isz h ci known found e
              (omega arith))))).run
        ∙ ap (λ x. ok x (with_array (skip 1 (skip 12 d)) h_varray ide ci.ident elsz isz)) left
        ∙ ap (λ x. ok more (with_array x h_varray ide ci.ident elsz isz)) behind

    -- On a dump of version 1.0.1 or later with 4-byte identifiers that stands before an array of
    -- objects, whose class is known and is found by its name, `readArray` goes behind the elements,
    -- files an object with the class, the number of the elements and the position of the first, and
    -- leaves what follows of `hsize`.
    pub read_array-object :
        (t p0 : ℕ) (ci0 : Cinfo)
        → Narrow d
        → ide < 2 ^ 32
        → stack < 2 ^ 32
        → isz < 2 ^ 32
        → t < 2 ^ 32
        → 16 + 4 * isz + more < 2 ^ 32
        → lookup32 d.c_table t ≡ some p0
        → get_elem? d.classes p0 ≡ some ci0
        → lookup32 d.rc_table (hash_key ci0.name) ≡ some p
        → get_elem? d.classes p ≡ some ci
        → Rest d.fin (array_head ide stack isz (be4 t ++ r))
        → read_array (16 + 4 * isz + more) false d
          ≡ ok more (with_array (skip 16 d) h_oarray ide ci.ident 4 isz)
    unfolding read_array be4
    read_array-object t p0 ci0 w h1 h2 h3 h4 lt known e0 found e rest =
        let total = 16 + 4 * isz + more in
        let h = sub32 (sub32 total (8 + d.identsz)) d.identsz in
        let size : d.identsz * isz ≡ 4 * isz = ap (λ n. n * isz) w.narrow in
        let left : sub32 h (d.identsz * isz) ≡ more =
          ap (λ x. sub32 x (d.identsz * isz)) (sub32-sub32 total (8 + d.identsz) d.identsz)
          ∙ sub32-sub32 total (8 + d.identsz + d.identsz) (d.identsz * isz)
          ∙ sub32_le total (8 + d.identsz + d.identsz + d.identsz * isz) lt
              (omega (arith, w.narrow, size))
          ∙ omega (arith, w.narrow, size) in
        (head_then d ide stack isz (be4 t ++ r) _ w h1 h2 h3 rest (λ rest'. Runs-state _ (
          Runs-step _ r (Reads-ident_unused t h4) (Narrow-skip 12 w) rest' (
            Runs-given _ t refl (
              object_array-Runs (skip 4 (skip 12 d)) ide t p0 p isz h ci0 ci known e0 found e
                (omega (arith, size))))))).run
        ∙ ap (λ x. ok x (with_array (skip 4 (skip 12 d)) h_oarray ide ci.ident d.identsz isz)) left
        ∙ ap (λ x. ok more (with_array (skip 4 (skip 12 d)) h_oarray ide ci.ident x isz)) w.narrow
        ∙ ap (λ x. ok more (with_array x h_oarray ide ci.ident 4 isz)) (skip-skip 12 4 d)

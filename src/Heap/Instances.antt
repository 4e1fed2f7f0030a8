-- ===== src/Heap/Instances.antt =====
-- The handler of `readHeap` for an instance.
use phat.Base.{
  ℕ, ◌+◌, ◌%◌, ◌^◌, ◌<◌, ◌≡◌, ap, Bool, sym, true, false, some, List, [], ◌∷◌, ◌++◌, length,
  get_elem?, set, arith, lt→ltb, get_elem?-append_last, subst,
}
use phat.Env.{Env, lookup32, insert32}
use phat.Types.{Ptr, Cinfo, Hobject}
use phat.Stdio.{Rest}
use phat.Reader.Words.{be4}
use phat.Reader.Reads.{
  Narrow, Narrow-skip, Runs, Runs-bind, Runs-state, Runs-given, Runs-ident, Runs-uint,
  Runs-uint_unused, Runs-to,
}
use phat.Dump.{M, Jdump, ok, skip, steps, pure, ◌>>=◌, ◌>>◌, fseek_cur, load_class, store_class}
use phat.Class.{sub32}
use phat.Class.Runs.{load_class-Runs}
use phat.Array.{h_instance, make_obj}
use phat.Array.Accounting.{set_last}
use phat.Heap.{is_kept, new_instance, instance_dump}

module _ ⦃env : Env⦄ where
  abbrev pub instance_obj : Jdump → ℕ → ℕ → Hobject
  instance_obj d ide class_id = record (env.talloc_hobject (length d.objects)) {
    htype = h_instance;
    class_id = class_id;
    inst_id = ide;
    fpos = d.fin.pos;
    resolved = false;
    visit = false;
    size = 0;
    csize = 0;
    xclass_id = 0;
  }

  -- The state with the object of an instance whose fields are where the file stands.
  abbrev pub with_instance : Jdump → ℕ → ℕ → Jdump
  with_instance d ide class_id = record d {
    objects = d.objects ++ (instance_obj d ide class_id ∷ []);
    h_table = insert32 d.h_table ide (length d.objects);
  }

  abbrev pub counted_class : Cinfo → Cinfo
  counted_class ci = record ci { count = ci.count + 1 }

  new_instance-Runs :
      (d : Jdump) (ide class_id : ℕ)
      → Runs (new_instance ide class_id true) d tt (with_instance d ide class_id)
  unfolding steps new_instance make_obj
  new_instance-Runs d ide class_id = record { run = rw (get_elem?-append_last, set_last) }

  is_kept-Runs :
      (d : Jdump) (count class_id : ℕ) → count < 50000 → Runs (is_kept count class_id) d true d
  unfolding steps is_kept
  is_kept-Runs d count class_id lt = record { run = rw (lt→ltb count 50000 lt) }

  -- An instance dump: its identifier, its stack trace, its class and the bytes of its fields.
  abbrev pub instance_head : ℕ → ℕ → ℕ → ℕ → List ℕ → List ℕ
  instance_head ide stack class_id isz bs =
      be4 ide ++ (be4 stack ++ (be4 class_id ++ (be4 isz ++ bs)))

  fourth : (d : Jdump) → skip 4 (skip 4 (skip 4 (skip 4 d))) ≡ skip 16 d
  fourth d = ap (λ p. record d { fin = record d.fin { pos = p } }) (omega arith)

  -- What `instance_dump` does behind the look-up of the class.
  abbrev instance_tail : ℕ → ℕ → ℕ → ℕ → ℕ → ℕ → M ℕ
  instance_tail identsz ide class_id isz p h = do
    ci ← load_class p
    store_class p (record ci { count = (ci.count + 1) % 2 ^ 64 })
    kept ← is_kept ((ci.count + 1) % 2 ^ 64) class_id
    new_instance ide class_id kept
    fseek_cur isz
    pure (sub32 h (isz + 8 + identsz + identsz))

  counted_small : (ci : Cinfo) → ci.count + 1 < 50000 → (ci.count + 1) % 2 ^ 64 ≡ ci.count + 1
  counted_small ci lt = omega (arith, lt)

  store_counted-Runs :
      (d : Jdump) (p : Ptr) (ci : Cinfo)
      → ci.count + 1 < 50000
      → Runs
          (store_class p (record ci { count = (ci.count + 1) % 2 ^ 64 }))
          d
          tt
          (record d { classes = set d.classes p (counted_class ci) })
  store_counted-Runs d p ci lt = record {
    run =
        ap (λ c. ok tt (record d { classes = set d.classes p (record ci { count = c }) }))
          (counted_small ci lt);
  }

  Runs-seek :
      (d : Jdump) (n h x y : ℕ)
      → x ≡ y
      → Runs (fseek_cur n >> pure (sub32 h x)) d (sub32 h y) (skip n d)
  unfolding steps
  Runs-seek d n h x y e = record { run = ap (λ z. ok (sub32 h z) (skip n d)) e }

  instance_tail-Runs :
      (d : Jdump) (identsz ide class_id isz p h : ℕ) (ci : Cinfo)
      → identsz ≡ 4
      → get_elem? d.classes p ≡ some ci
      → ci.count + 1 < 50000
      → Runs (instance_tail identsz ide class_id isz p h) d (sub32 h (16 + isz)) (
          skip isz (
            with_instance (record d { classes = set d.classes p (counted_class ci) }) ide class_id))
  instance_tail-Runs d identsz ide class_id isz p h ci four e lt =
      let seek : M ℕ = fseek_cur isz >> pure (sub32 h (isz + 8 + identsz + identsz)) in
      let behind : Bool → M ℕ = λ kept. new_instance ide class_id kept >> seek in
      let small = counted_small ci lt in
      Runs-bind _ (load_class-Runs d p ci e) (
        Runs-bind (λ _. is_kept ((ci.count + 1) % 2 ^ 64) class_id >>= behind)
          (store_counted-Runs d p ci lt)
          (Runs-bind behind (is_kept-Runs _ _ class_id (subst (λ c. c < 50000) (sym small) lt)) (
            Runs-bind (λ _. seek) (new_instance-Runs _ ide class_id)
              (Runs-seek _ isz h (isz + 8 + identsz + identsz) (16 + isz) (omega (arith, four))))))

  module _ (d : Jdump) (ide class_id isz p h : ℕ) (ci : Cinfo) (r : List ℕ) where
    -- On a dump of version 1.0.1 or later with 4-byte identifiers that stands before an instance,
    -- whose class is known and has fewer than 49999 instances so far, the handler goes behind the
    -- fields of the instance, takes its length off `hsize`, counts the instance in its class, and
    -- files an unresolved object that holds the class and the position of the fields.
    pub instance_dump-Runs :
        (stack : ℕ)
        → Narrow d
        → ide < 2 ^ 32
        → stack < 2 ^ 32
        → class_id < 2 ^ 32
        → isz < 2 ^ 32
        → lookup32 d.c_table class_id ≡ some p
        → get_elem? d.classes p ≡ some ci
        → ci.count + 1 < 50000
        → Rest d.fin (instance_head ide stack class_id isz r)
        → Runs (instance_dump h) d (sub32 h (16 + isz)) (
            skip isz (
              with_instance
                (record (skip 16 d) { classes = set d.classes p (counted_class ci) })
                ide
                class_id))
    unfolding instance_dump be4
    instance_dump-Runs stack w h1 h2 h3 h4 found e lt rest = Runs-ident d ide _ _ w h1 rest (λ r1.
        Runs-uint_unused (skip 4 d) stack _ _ (Narrow-skip 4 w) h2 r1 (λ r2.
          Runs-ident (skip 4 (skip 4 d)) class_id _ _ (Narrow-skip 4 (Narrow-skip 4 w)) h3 r2 (λ r3.
            Runs-uint (skip 4 (skip 4 (skip 4 d))) isz _ _
              (Narrow-skip 4 (Narrow-skip 4 (Narrow-skip 4 w))) h4 r3
              (λ r4. Runs-state _ (
                Runs-given _ p found (
                  Runs-to (instance_tail-Runs _ d.identsz ide class_id isz p h ci w.narrow e lt) (
                    ap
                      (λ x. skip isz (
                        with_instance (record x { classes = set d.classes p (counted_class ci) })
                          ide class_id))
                      (fourth d))))))))

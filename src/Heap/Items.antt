-- ===== src/Heap/Items.antt =====
-- The records of a heap dump as `readHeap` reads them: their bytes, what they ask of the state, what
-- they make of it, and the handler on each.
use phat.Base.{
  ℕ, ◌+◌, ◌*◌, ◌^◌, ◌<◌, ◌≡◌, refl, ap, sym, ◌∙◌, subst, some, List, [], ◌∷◌, ◌++◌, length,
  get_elem?, set, arith, true, false,
}
use phat.Env.{Env, lookup32}
use phat.Types.{Ptr, Cinfo, Tally}
use phat.Stdio.{File, Rest, advance, Rest-advance}
use phat.Reader.Words.{be4}
use phat.Reader.Reads.{Narrow}
use phat.Dump.{Jdump, M, ok, skip}
use phat.Class.{hash_key, sub32}
use phat.Class.Encode.{sub32_le}
use phat.Class.Accounting.{read_class-accounting}
use phat.Class.Runs.{ClassDump, ClassInRange, class_bytes, dumped}
use phat.Array.{h_varray, h_oarray, prim_sig}
use phat.Array.Accounting.{array_head, with_array, read_array-prim, read_array-object}
use phat.Heap.{heap_record, counted, instance_dump}
use phat.Array.{read_array}
use phat.Class.{read_class}
use phat.Heap.Roots.{
  RootRecord, thread_obj, jni_global, jni_local, java_frame, native_stack, sticky_class,
  thread_block, monitor_used, root_tag, root_words, words_bytes, WordsInRange, kept_root,
  root_handler, root_handler-Runs,
}
use phat.Heap.Instances.{instance_head, with_instance, counted_class, instance_dump-Runs}

abbrev pub tally_root : RootRecord → Tally → Tally
tally_root (thread_obj id x s) t = record t { roott = t.roott + 1 }
tally_root (jni_global id g) t = record t { rootg = t.rootg + 1 }
tally_root (jni_local id x n) t = record t { rootl = t.rootl + 1 }
tally_root (java_frame id x n) t = record t { frame = t.frame + 1 }
tally_root (native_stack id x) t = record t { stack = t.stack + 1 }
tally_root (sticky_class id) t = record t { sclass = t.sclass + 1 }
tally_root (thread_block id x) t = record t { tblock = t.tblock + 1 }
tally_root (monitor_used id) t = record t { monitor = t.monitor + 1 }

module _ ⦃env : Env⦄ where
  -- A record of the heap, with the classes that the trees hold under its identifiers.
  pub data Item : Type 0 where
    a_root : RootRecord → Item
    a_class : ClassDump → Ptr → Cinfo → Item
    an_instance : (ide stack class_id : ℕ) → List ℕ → Ptr → Cinfo → Item
    a_prim_array : (ide stack isz t sig elsz : ℕ) → List ℕ → Ptr → Cinfo → Item
    an_object_array : (ide stack isz t : ℕ) → List ℕ → Ptr → Cinfo → Ptr → Cinfo → Item

  abbrev pub item_tag : Item → ℕ
  item_tag (a_root x) = root_tag x
  item_tag (a_class c p ci) = 0x20
  item_tag (an_instance ide stack class_id bs p ci) = 0x21
  item_tag (a_prim_array ide stack isz t sig elsz bs p ci) = 0x23
  item_tag (an_object_array ide stack isz t bs p0 ci0 p ci) = 0x22

  -- The bytes behind the tag.
  abbrev pub item_bytes : Item → List ℕ
  item_bytes (a_root x) = words_bytes (root_words x)
  item_bytes (a_class c p ci) = class_bytes c
  item_bytes (an_instance ide stack class_id bs p ci) =
      instance_head ide stack class_id (length bs) bs
  item_bytes (a_prim_array ide stack isz t sig elsz bs p ci) = array_head ide stack isz (t ∷ bs)
  item_bytes (an_object_array ide stack isz t bs p0 ci0 p ci) =
      array_head ide stack isz (be4 t ++ bs)

  -- What the record asks of the state before it: its numbers have four bytes, its classes are known,
  -- and its contents are as long as its header says. A class has no constant pool, and a class has
  -- fewer than 49999 instances so far.
  abbrev pub Allowed : Item → Jdump → Type 0
  Allowed (a_root x) d = WordsInRange (root_words x)
  Allowed (a_class c p ci) d =
      ClassInRange c
      × (c.pool ≡ [])
      × (lookup32 d.c_table c.ident ≡ some p)
      × (get_elem? d.classes p ≡ some ci)
  Allowed (an_instance ide stack class_id bs p ci) d =
      (ide < 2 ^ 32)
      × (stack < 2 ^ 32)
      × (class_id < 2 ^ 32)
      × (lookup32 d.c_table class_id ≡ some p)
      × (get_elem? d.classes p ≡ some ci)
      × (ci.count + 1 < 50000)
  Allowed (a_prim_array ide stack isz t sig elsz bs p ci) d =
      (ide < 2 ^ 32)
      × (stack < 2 ^ 32)
      × (isz < 2 ^ 32)
      × (prim_sig t ≡ some (sig, elsz))
      × (length bs ≡ elsz * isz)
      × (lookup32 d.rc_table (hash_key (b'[' ∷ sig ∷ [])) ≡ some p)
      × (get_elem? d.classes p ≡ some ci)
  Allowed (an_object_array ide stack isz t bs p0 ci0 p ci) d =
      (ide < 2 ^ 32)
      × (stack < 2 ^ 32)
      × (isz < 2 ^ 32)
      × (t < 2 ^ 32)
      × (length bs ≡ 4 * isz)
      × (lookup32 d.c_table t ≡ some p0)
      × (get_elem? d.classes p0 ≡ some ci0)
      × (lookup32 d.rc_table (hash_key ci0.name) ≡ some p)
      × (get_elem? d.classes p ≡ some ci)

  -- The state behind the record, from that behind its tag.
  abbrev pub after : Item → Jdump → Jdump
  after (a_root x) d = kept_root x (skip (length (words_bytes (root_words x))) d)
  after (a_class c p ci) d = record (skip (length (class_bytes c)) d) {
    classes = set d.classes p (dumped ci c);
  }
  after (an_instance ide stack class_id bs p ci) d = skip (length bs) (
      with_instance (record (skip 16 d) { classes = set d.classes p (counted_class ci) }) ide
        class_id)
  after (a_prim_array ide stack isz t sig elsz bs p ci) d =
      with_array (skip 13 d) h_varray ide ci.ident elsz isz
  after (an_object_array ide stack isz t bs p0 ci0 p ci) d =
      with_array (skip 16 d) h_oarray ide ci.ident 4 isz

  abbrev pub tallied : Item → Tally → Tally
  tallied (a_root x) t = tally_root x t
  tallied (a_class c p ci) t = record t { cclass = t.cclass + 1 }
  tallied (an_instance ide stack class_id bs p ci) t = record t { inst = t.inst + 1 }
  tallied (a_prim_array ide stack isz x sig elsz bs p ci) t = record t { parr = t.parr + 1 }
  tallied (an_object_array ide stack isz x bs p0 ci0 p ci) t = record t { oarr = t.oarr + 1 }

  pub after-Narrow : (i : Item) (d : Jdump) → Narrow d → Narrow (after i d)
  after-Narrow (a_root (thread_obj id x s)) d w = record { narrow = w.narrow; version = w.version }
  after-Narrow (a_root (jni_global id g)) d w = record { narrow = w.narrow; version = w.version }
  after-Narrow (a_root (jni_local id x n)) d w = record { narrow = w.narrow; version = w.version }
  after-Narrow (a_root (java_frame id x n)) d w = record { narrow = w.narrow; version = w.version }
  after-Narrow (a_root (native_stack id x)) d w = record { narrow = w.narrow; version = w.version }
  after-Narrow (a_root (sticky_class id)) d w = record { narrow = w.narrow; version = w.version }
  after-Narrow (a_root (thread_block id x)) d w = record { narrow = w.narrow; version = w.version }
  after-Narrow (a_root (monitor_used id)) d w = record { narrow = w.narrow; version = w.version }
  after-Narrow (a_class c p ci) d w = record { narrow = w.narrow; version = w.version }
  after-Narrow (an_instance ide stack class_id bs p ci) d w = record {
    narrow = w.narrow;
    version = w.version;
  }
  after-Narrow (a_prim_array ide stack isz t sig elsz bs p ci) d w = record {
    narrow = w.narrow;
    version = w.version;
  }
  after-Narrow (an_object_array ide stack isz t bs p0 ci0 p ci) d w = record {
    narrow = w.narrow;
    version = w.version;
  }

  moved : (f : File) (n m : ℕ) → n ≡ m → record f { pos = n } ≡ record f { pos = m }
  moved f n m e = ap (λ p. record f { pos = p }) e

  kept_root-fin : (x : RootRecord) (d : Jdump) → (kept_root x d).fin ≡ d.fin
  kept_root-fin (thread_obj id x s) d = refl
  kept_root-fin (jni_global id g) d = refl
  kept_root-fin (jni_local id x n) d = refl
  kept_root-fin (java_frame id x n) d = refl
  kept_root-fin (native_stack id x) d = refl
  kept_root-fin (sticky_class id) d = refl
  kept_root-fin (thread_block id x) d = refl
  kept_root-fin (monitor_used id) d = refl

  after-fin :
      (i : Item) (d : Jdump) → Allowed i d → (after i d).fin ≡ advance (length (item_bytes i)) d.fin
  unfolding be4
  after-fin (a_root x) d allowed = kept_root-fin x (skip (length (words_bytes (root_words x))) d)
  after-fin (a_class c p ci) d allowed = refl
  after-fin (an_instance ide stack class_id bs p ci) d allowed = moved d.fin _ _ (omega arith)
  after-fin (a_prim_array ide stack isz t sig elsz bs p ci) d (h1, h2, h3, h4, same, h5, h6) =
      moved d.fin _ _ (omega (arith, same))
  after-fin (an_object_array ide stack isz t bs p0 ci0 p ci) d
        (h1, h2, h3, h4, same, h5, h6, h7, h8) =
      moved d.fin _ _ (omega (arith, same))

  pub after-Rest :
      (i : Item) (d : Jdump) (r : List ℕ)
      → Allowed i d
      → Rest d.fin (item_bytes i ++ r)
      → Rest (after i d).fin r
  after-Rest i d r allowed rest =
      subst (λ f. Rest f r) (sym (after-fin i d allowed)) (Rest-advance d.fin (item_bytes i) r rest)

  root_dispatch :
      (x : RootRecord) (h : ℕ) (t : Tally) (d : Jdump)
      → heap_record (root_tag x) h t d ≡ counted (root_handler x h) (tally_root x t) d
  unfolding heap_record
  root_dispatch (thread_obj id y s) h t d = refl
  root_dispatch (jni_global id g) h t d = refl
  root_dispatch (jni_local id y n) h t d = refl
  root_dispatch (java_frame id y n) h t d = refl
  root_dispatch (native_stack id y) h t d = refl
  root_dispatch (sticky_class id) h t d = refl
  root_dispatch (thread_block id y) h t d = refl
  root_dispatch (monitor_used id) h t d = refl

  -- A handler that leaves `more`, behind which the count goes up.
  counted-ok :
      (m : M ℕ) (t : Tally) (d d' : Jdump) (h more : ℕ)
      → m d ≡ ok h d'
      → h ≡ more
      → counted m t d ≡ ok (more, t) d'
  counted-ok m t d d' h more e same = rw e (ap (λ n. ok (n, t) d') same)

  taken : (n more : ℕ) → n + more < 2 ^ 32 → sub32 (n + more) n ≡ more
  taken n more lt = sub32_le (n + more) n lt (omega arith) ∙ omega arith

  pub item_lem :
      (i : Item) (d : Jdump) (t : Tally) (more : ℕ) (r : List ℕ)
      → Narrow d
      → Allowed i d
      → Rest d.fin (item_bytes i ++ r)
      → length (item_bytes i) + more < 2 ^ 32
      → heap_record (item_tag i) (length (item_bytes i) + more) t d
        ≡ ok (more, tallied i t) (after i d)
  unfolding heap_record be4
  item_lem (a_root x) d t more r w allowed rest lt =
      let n = length (words_bytes (root_words x)) in
      root_dispatch x (n + more) t d
      ∙ counted-ok (root_handler x (n + more)) (tally_root x t) d _ _ more
          (root_handler-Runs x d (n + more) r w allowed rest).run (taken n more lt)
  item_lem (a_class c p ci) d t more r w (range, none_kept, found, e) rest lt =
      counted-ok (read_class (length (class_bytes c) + more)) (tallied (a_class c p ci) t) d _ _
        more (read_class-accounting d c p ci more r w range found e rest lt)
        (ap (λ es. more + length es) none_kept ∙ omega arith)
  item_lem (an_instance ide stack class_id bs p ci) d t more r w (h1, h2, h3, found, e, few) rest
        lt =
      let n = length (instance_head ide stack class_id (length bs) bs) in
      counted-ok (instance_dump (n + more)) (tallied (an_instance ide stack class_id bs p ci) t) d _
        _ more
        (instance_dump-Runs d ide class_id (length bs) p (n + more) ci (bs ++ r) stack w h1 h2 h3
          (omega (arith, lt)) found e few rest).run
        (sub32_le (n + more) (16 + length bs) lt (omega arith) ∙ omega arith)
  item_lem (a_prim_array ide stack isz x sig elsz bs p ci) d t more r w
        (h1, h2, h3, known, same, found, e) rest lt =
      let n = length (array_head ide stack isz (x ∷ bs)) in
      let total : n + more ≡ 13 + elsz * isz + more = omega (arith, same) in
      counted-ok (read_array (n + more) true)
        (tallied (a_prim_array ide stack isz x sig elsz bs p ci) t) d _ _ more
        (ap (λ h. read_array h true d) total
          ∙ read_array-prim d ide stack isz p ci more (bs ++ r) x sig elsz w h1 h2 h3 known
              (omega (arith, total, lt)) found e rest)
        refl
  item_lem (an_object_array ide stack isz x bs p0 ci0 p ci) d t more r w
        (h1, h2, h3, h4, same, known, e0, found, e) rest lt =
      let n = length (array_head ide stack isz (be4 x ++ bs)) in
      let total : n + more ≡ 16 + 4 * isz + more = omega (arith, same) in
      counted-ok (read_array (n + more) false)
        (tallied (an_object_array ide stack isz x bs p0 ci0 p ci) t) d _ _ more
        (ap (λ h. read_array h false d) total
          ∙ read_array-object d ide stack isz p ci more (bs ++ r) x p0 ci0 w h1 h2 h3 h4
              (omega (arith, total, lt)) known e0 found e rest)
        refl

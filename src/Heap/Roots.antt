-- ===== src/Heap/Roots.antt =====
-- The handlers of `readHeap` for roots, on the bytes of their records.
use phat.Base.{ℕ, ◌+◌, ◌%◌, ◌^◌, ◌<◌, ◌≡◌, refl, ap, ◌∙◌, List, [], ◌∷◌, ◌++◌, length, arith}
use phat.Env.{Env, insert32}
use phat.Types.{Root, RootType}
use phat.Stdio.{Rest}
use phat.Reader.Words.{be4}
use phat.Reader.Reads.{
  Narrow, Narrow-skip, Runs, Runs-state, Runs-ident, Runs-ident_unused, Runs-uint_unused, skip-skip,
}
use phat.Dump.{M, Jdump, ok, skip, steps, ◌>>=◌, pure}
use phat.Class.{sub32}
use phat.Heap.{
  insert_root, root_thread_obj, root_jni_global, root_local, root_thread, root_sticky_class,
  root_monitor,
}

-- A root of the heap dump, in the words of HPROF.
pub data RootRecord : Type 0 where
  thread_obj : ℕ → ℕ → ℕ → RootRecord
  jni_global : ℕ → ℕ → RootRecord
  jni_local : ℕ → ℕ → ℕ → RootRecord
  java_frame : ℕ → ℕ → ℕ → RootRecord
  native_stack : ℕ → ℕ → RootRecord
  sticky_class : ℕ → RootRecord
  thread_block : ℕ → ℕ → RootRecord
  monitor_used : ℕ → RootRecord

abbrev pub root_tag : RootRecord → ℕ
root_tag (thread_obj id t s) = 0x08
root_tag (jni_global id g) = 0x01
root_tag (jni_local id t n) = 0x02
root_tag (java_frame id t n) = 0x03
root_tag (native_stack id t) = 0x04
root_tag (sticky_class id) = 0x05
root_tag (thread_block id t) = 0x06
root_tag (monitor_used id) = 0x07

-- The identifiers and numbers behind the tag, of four bytes each.
abbrev pub root_words : RootRecord → List ℕ
root_words (thread_obj id t s) = id ∷ t ∷ s ∷ []
root_words (jni_global id g) = id ∷ g ∷ []
root_words (jni_local id t n) = id ∷ t ∷ n ∷ []
root_words (java_frame id t n) = id ∷ t ∷ n ∷ []
root_words (native_stack id t) = id ∷ t ∷ []
root_words (sticky_class id) = id ∷ []
root_words (thread_block id t) = id ∷ t ∷ []
root_words (monitor_used id) = id ∷ []

abbrev pub words_bytes : List ℕ → List ℕ
words_bytes [] = []
words_bytes (w ∷ ws) = be4 w ++ words_bytes ws

abbrev pub WordsInRange : List ℕ → Type 0
WordsInRange [] = Unit
WordsInRange (w ∷ ws) = (w < 2 ^ 32) × WordsInRange ws

module _ ⦃env : Env⦄ where
  abbrev root_in : ℕ → RootType → Jdump → Jdump
  root_in id rtype d = record d {
    roots = insert32 d.roots id (Root.info (record { ident = id; ref = 0; rtype = rtype }));
  }

  -- What the tree of roots gets, and under which key; a thread object leaves nothing.
  abbrev pub kept_root : RootRecord → Jdump → Jdump
  kept_root (thread_obj id t s) d = d
  kept_root (jni_global id g) d = root_in id RootType.native_static d
  kept_root (jni_local id t n) d = root_in id RootType.native_local d
  kept_root (java_frame id t n) d = root_in id RootType.java_local d
  kept_root (native_stack id t) d = root_in id RootType.native_stack d
  kept_root (sticky_class id) d = root_in id RootType.system_class d
  kept_root (thread_block id t) d = root_in id RootType.thread_block d
  kept_root (monitor_used id) d = record d {
    roots = insert32 d.roots id (Root.monitor (id % 2 ^ 32));
  }

  -- The handler of each root.
  abbrev pub root_handler : RootRecord → ℕ → M ℕ
  root_handler (thread_obj id t s) = root_thread_obj
  root_handler (jni_global id g) = root_jni_global
  root_handler (jni_local id t n) = root_local RootType.native_local
  root_handler (java_frame id t n) = root_local RootType.java_local
  root_handler (native_stack id t) = root_thread RootType.native_stack
  root_handler (sticky_class id) = root_sticky_class
  root_handler (thread_block id t) = root_thread RootType.thread_block
  root_handler (monitor_used id) = root_monitor

  abbrev step2 : (d : Jdump) → skip 4 (skip 4 d) ≡ skip 8 d
  step2 d = skip-skip 4 4 d

  abbrev step3 : (d : Jdump) → skip 4 (skip 4 (skip 4 d)) ≡ skip 12 d
  step3 d = ap (skip 4) (skip-skip 4 4 d) ∙ skip-skip 8 4 d

  -- The end of a handler, at the state behind the words: it inserts, and returns what is left.
  tail_root :
      (d d' : Jdump) (id n m h : ℕ) (rtype : RootType)
      → d ≡ d'
      → n ≡ m
      → Runs (insert_root id rtype >>= λ _. pure (sub32 h n)) d (sub32 h m) (root_in id rtype d')
  unfolding insert_root steps
  tail_root d d' id n m h rtype e e' = record {
    run =
        ap (λ x. ok (sub32 h n) (root_in id rtype x)) e
        ∙ ap (λ x. ok (sub32 h x) (root_in id rtype d')) e';
  }

  root_local-Runs :
      (rtype : RootType) (d : Jdump) (id t n h : ℕ) (r : List ℕ)
      → Narrow d
      → WordsInRange (id ∷ t ∷ n ∷ [])
      → Rest d.fin (words_bytes (id ∷ t ∷ n ∷ []) ++ r)
      → Runs (root_local rtype h) d (sub32 h 12) (root_in id rtype (skip 12 d))
  unfolding root_local be4
  root_local-Runs rtype d id t n h r w (hi, (ht, (hn, _))) rest =
      Runs-ident d id _ _ w hi rest (λ r1.
        Runs-uint_unused (skip 4 d) t _ _ (Narrow-skip 4 w) ht r1 (λ r2.
          Runs-uint_unused (skip 4 (skip 4 d)) n _ _ (Narrow-skip 4 (Narrow-skip 4 w)) hn r2 (λ r3.
            Runs-state _ (
              tail_root _ (skip 12 d) id (d.identsz + 8) 12 h rtype (step3 d)
                (omega (arith, w.narrow))))))

  root_thread-Runs :
      (rtype : RootType) (d : Jdump) (id t h : ℕ) (r : List ℕ)
      → Narrow d
      → WordsInRange (id ∷ t ∷ [])
      → Rest d.fin (words_bytes (id ∷ t ∷ []) ++ r)
      → Runs (root_thread rtype h) d (sub32 h 8) (root_in id rtype (skip 8 d))
  unfolding root_thread be4
  root_thread-Runs rtype d id t h r w (hi, (ht, _)) rest = Runs-ident d id _ _ w hi rest (λ r1.
      Runs-uint_unused (skip 4 d) t _ _ (Narrow-skip 4 w) ht r1 (λ r2.
        Runs-state _ (
          tail_root _ (skip 8 d) id (d.identsz + 4) 8 h rtype (step2 d) (omega (arith, w.narrow)))))

  root_jni_global-Runs :
      (d : Jdump) (id g h : ℕ) (r : List ℕ)
      → Narrow d
      → WordsInRange (id ∷ g ∷ [])
      → Rest d.fin (words_bytes (id ∷ g ∷ []) ++ r)
      → Runs (root_jni_global h) d (sub32 h 8) (root_in id RootType.native_static (skip 8 d))
  unfolding root_jni_global be4
  root_jni_global-Runs d id g h r w (hi, (hg, _)) rest = Runs-ident d id _ _ w hi rest (λ r1.
      Runs-ident_unused (skip 4 d) g _ _ (Narrow-skip 4 w) hg r1 (λ r2. Runs-state _ (
        tail_root _ (skip 8 d) id (d.identsz + d.identsz) 8 h RootType.native_static (step2 d)
          (omega (arith, w.narrow)))))

  root_sticky_class-Runs :
      (d : Jdump) (id h : ℕ) (r : List ℕ)
      → Narrow d
      → WordsInRange (id ∷ [])
      → Rest d.fin (words_bytes (id ∷ []) ++ r)
      → Runs (root_sticky_class h) d (sub32 h 4) (root_in id RootType.system_class (skip 4 d))
  unfolding root_sticky_class be4
  root_sticky_class-Runs d id h r w (hi, _) rest = Runs-ident d id _ _ w hi rest (λ r1.
      Runs-state _ (tail_root _ (skip 4 d) id d.identsz 4 h RootType.system_class refl w.narrow))

  root_monitor-Runs :
      (d : Jdump) (id h : ℕ) (r : List ℕ)
      → Narrow d
      → WordsInRange (id ∷ [])
      → Rest d.fin (words_bytes (id ∷ []) ++ r)
      → Runs (root_monitor h) d (sub32 h 4) (kept_root (monitor_used id) (skip 4 d))
  unfolding root_monitor be4
  root_monitor-Runs d id h r w (hi, _) rest = Runs-ident d id _ _ w hi rest (λ r1.
      Runs-state _ (record {
        run = ap (λ n. ok (sub32 h n) (kept_root (monitor_used id) (skip 4 d))) w.narrow;
      }))

  root_thread_obj-Runs :
      (d : Jdump) (id t n h : ℕ) (r : List ℕ)
      → Narrow d
      → WordsInRange (id ∷ t ∷ n ∷ [])
      → Rest d.fin (words_bytes (id ∷ t ∷ n ∷ []) ++ r)
      → Runs (root_thread_obj h) d (sub32 h 12) (skip 12 d)
  unfolding root_thread_obj be4
  root_thread_obj-Runs d id t n h r w (hi, (ht, (hn, _))) rest =
      Runs-ident_unused d id _ _ w hi rest (λ r1.
        Runs-uint_unused (skip 4 d) t _ _ (Narrow-skip 4 w) ht r1 (λ r2.
          Runs-uint_unused (skip 4 (skip 4 d)) n _ _ (Narrow-skip 4 (Narrow-skip 4 w)) hn r2 (λ r3.
            Runs-state _ (record {
              run =
                  ap (λ x. ok (sub32 h (d.identsz + 8)) x) (step3 d)
                  ∙ ap (λ x. ok (sub32 h x) (skip 12 d)) (omega (arith, w.narrow));
            }))))

  -- On a dump of version 1.0.1 or later with 4-byte identifiers that stands before the words of a
  -- root record behind its tag, each word below 2^32, the handler of that tag consumes exactly the
  -- words, takes their length off `hsize`, and leaves in the tree of roots what the record says.
  pub root_handler-Runs :
      (x : RootRecord) (d : Jdump) (h : ℕ) (r : List ℕ)
      → Narrow d
      → WordsInRange (root_words x)
      → Rest d.fin (words_bytes (root_words x) ++ r)
      → Runs
          (root_handler x h)
          d
          (sub32 h (length (words_bytes (root_words x))))
          (kept_root x (skip (length (words_bytes (root_words x))) d))
  unfolding be4
  root_handler-Runs (thread_obj id t s) d h r w i e = root_thread_obj-Runs d id t s h r w i e
  root_handler-Runs (jni_global id g) d h r w i e = root_jni_global-Runs d id g h r w i e
  root_handler-Runs (jni_local id t n) d h r w i e =
      root_local-Runs RootType.native_local d id t n h r w i e
  root_handler-Runs (java_frame id t n) d h r w i e =
      root_local-Runs RootType.java_local d id t n h r w i e
  root_handler-Runs (native_stack id t) d h r w i e =
      root_thread-Runs RootType.native_stack d id t h r w i e
  root_handler-Runs (sticky_class id) d h r w i e = root_sticky_class-Runs d id h r w i e
  root_handler-Runs (thread_block id t) d h r w i e =
      root_thread-Runs RootType.thread_block d id t h r w i e
  root_handler-Runs (monitor_used id) d h r w i e = root_monitor-Runs d id h r w i e

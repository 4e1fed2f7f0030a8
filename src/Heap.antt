-- ===== src/Heap.antt =====
-- `readHeap`: the sub-records of a heap dump, a handler for each, and the report behind the last.
pub mod Roots
pub mod Instances
pub mod Items
pub mod Loop
pub mod Eof
use phat.Base.{
  ℕ, zero, suc, ◌+◌, ◌*◌, ◌%◌, ◌^◌, Bool, true, false, ◌||◌, Option, none, some, [], ◌∷◌, ltb, ◌==◌,
  if◌then◌else◌, codes,
}
use phat.Env.{Env, lookup32, insert32}
use phat.Types.{Ptr, CString, Root, Rinfo, RootType, Tally, Line}
use phat.Stdio.{getc}
use phat.Reader.{read_uint, read_ident}
use phat.Dump.{
  M, pure, out_of_fuel, ◌>>=◌, ◌>>◌, given, state, put, print, on_file, fseek_cur, load_class,
  store_class, load_object, store_object,
}
use phat.Value.{as_uchar}
use phat.Class.{sub32, find_class, read_class}
use phat.Array.{h_instance, make_obj, insert_object, read_array}
use phat.Resolve.{resolve_instances}
use phat.Print.{print_instances, collect_stats}
use phat.Print.Classes.{print_class_r}

module _ ⦃env : Env⦄ where
  -- mkrinfo, and its insertion into `roots`
  unfoldable pub insert_root : ℕ → RootType → M (Unit {0})
  insert_root id rtype = do
    d ← state
    put (record d {
      roots = insert32 d.roots id (Root.info (record { ident = id; ref = 0; rtype = rtype }));
    })

  -- HPROF_GC_ROOT_UNKNOWN, also what is left at the end of the file: the identifier is not used.
  unfoldable pub root_unknown : ℕ → M ℕ
  root_unknown hsize = do
    read_ident
    d ← state
    print Line.root_unknown
    pure (sub32 hsize d.identsz)

  -- HPROF_GC_ROOT_THREAD_OBJ: nothing of it is kept.
  unfoldable pub root_thread_obj : ℕ → M ℕ
  root_thread_obj hsize = do
    read_ident
    on_file read_uint
    on_file read_uint
    d ← state
    pure (sub32 hsize (d.identsz + 8))

  -- HPROF_GC_ROOT_JNI_GLOBAL
  unfoldable pub root_jni_global : ℕ → M ℕ
  unfolding insert_root
  root_jni_global hsize = do
    i ← read_ident
    id ← given i
    read_ident
    d ← state
    insert_root id RootType.native_static
    pure (sub32 hsize (d.identsz + d.identsz))

  -- HPROF_GC_ROOT_JNI_LOCAL and HPROF_GC_ROOT_JAVA_FRAME: an identifier, a thread and a depth.
  unfoldable pub root_local : RootType → ℕ → M ℕ
  unfolding insert_root
  root_local rtype hsize = do
    i ← read_ident
    id ← given i
    on_file read_uint
    on_file read_uint
    d ← state
    insert_root id rtype
    pure (sub32 hsize (d.identsz + 8))

  -- HPROF_GC_ROOT_NATIVE_STACK and HPROF_GC_ROOT_THREAD_BLOCK: an identifier and a thread.
  unfoldable pub root_thread : RootType → ℕ → M ℕ
  unfolding insert_root
  root_thread rtype hsize = do
    i ← read_ident
    id ← given i
    on_file read_uint
    d ← state
    insert_root id rtype
    pure (sub32 hsize (d.identsz + 4))

  -- HPROF_GC_ROOT_STICKY_CLASS
  unfoldable pub root_sticky_class : ℕ → M ℕ
  unfolding insert_root
  root_sticky_class hsize = do
    i ← read_ident
    id ← given i
    d ← state
    insert_root id RootType.system_class
    pure (sub32 hsize d.identsz)

  -- HPROF_GC_ROOT_MONITOR_USED: `*iptr = id`, where `iptr` points to an `int`.
  unfoldable pub root_monitor : ℕ → M ℕ
  root_monitor hsize = do
    i ← read_ident
    id ← given i
    d ← state
    put (record d { roots = insert32 d.roots id (Root.monitor (id % 2 ^ 32)) })
    pure (sub32 hsize d.identsz)

  -- `50000 > ci->count || classId == jf->javaLangString->ident`, where the second test is made only
  -- if the first fails.
  unfoldable pub is_kept : ℕ → ℕ → M Bool
  is_kept count class_id = do
    d ← state
    if ltb count 50000
        then pure true
        else (do s ← given d.java_lang_string; ci ← load_class s; pure (class_id == ci.ident))

  unfoldable pub new_instance : ℕ → ℕ → Bool → M (Unit {0})
  unfolding make_obj
  new_instance ide class_id false = pure tt
  new_instance ide class_id true = do
    q ← make_obj h_instance ide class_id
    ho ← load_object q
    d ← state
    store_object q (record ho { fpos = d.fin.pos })
    insert_object ide q

  -- HPROF_GC_INSTANCE_DUMP
  unfoldable pub instance_dump : ℕ → M ℕ
  unfolding is_kept new_instance
  instance_dump hsize = do
    i ← read_ident
    ide ← given i
    on_file read_uint
    c ← read_ident
    class_id ← given c
    s ← on_file read_uint
    isz ← given s
    d ← state
    p ← given (lookup32 d.c_table class_id)
    ci ← load_class p
    let count = (ci.count + 1) % 2 ^ 64
    store_class p (record ci { count = count })
    kept ← is_kept count class_id
    new_instance ide class_id kept
    fseek_cur isz
    pure (sub32 hsize (isz + 8 + d.identsz + d.identsz))

  -- The default case skips what is left.
  abbrev unknown_type : ℕ → M ℕ
  unknown_type hsize = fseek_cur hsize >> pure 0

  -- A handler, and the count that goes up behind it.
  abbrev counted : M ℕ → Tally → M (ℕ × Tally)
  counted m t = m >>= λ h. pure (h, t)

  -- The switch of readHeap on the tag, with `hsize` less the tag.
  unfoldable pub heap_record : ℕ → ℕ → Tally → M (ℕ × Tally)
  heap_record rtype h t =
      if rtype == 0xff
      then counted (root_unknown h) t
      else if rtype == 0x08
      then counted (root_thread_obj h) (record t { roott = t.roott + 1 })
      else if rtype == 0x01
      then counted (root_jni_global h) (record t { rootg = t.rootg + 1 })
      else if rtype == 0x02
      then counted (root_local RootType.native_local h) (record t { rootl = t.rootl + 1 })
      else if rtype == 0x03
      then counted (root_local RootType.java_local h) (record t { frame = t.frame + 1 })
      else if rtype == 0x04
      then counted (root_thread RootType.native_stack h) (record t { stack = t.stack + 1 })
      else if rtype == 0x05
      then counted (root_sticky_class h) (record t { sclass = t.sclass + 1 })
      else if rtype == 0x06
      then counted (root_thread RootType.thread_block h) (record t { tblock = t.tblock + 1 })
      else if rtype == 0x07
      then counted (root_monitor h) (record t { monitor = t.monitor + 1 })
      else if rtype == 0x20
      then counted (read_class h) (record t { cclass = t.cclass + 1 })
      else if rtype == 0x21
      then counted (instance_dump h) (record t { inst = t.inst + 1 })
      else if rtype == 0x22
      then counted (read_array h false) (record t { oarr = t.oarr + 1 })
      else if rtype == 0x23
      then counted (read_array h true) (record t { parr = t.parr + 1 })
      else counted (unknown_type h) t

  -- while (0 < hsize && EOF != (rtype = getc(jf->fin))): `rtype` is an `unsigned char`, which is
  -- never EOF, so the second test always holds.
  unfoldable pub heap_loop : ℕ → ℕ → Tally → M Tally
  heap_loop fuel zero t = pure t
  heap_loop zero (suc h) t = λ _. out_of_fuel
  heap_loop (suc k) (suc h) t = do
    c ← on_file getc
    (h', t') ← heap_record (as_uchar c) h t
    heap_loop k h' t'

  abbrev pub no_records : Tally
  no_records = record {
    roott = 0;
    rootg = 0;
    rootl = 0;
    frame = 0;
    stack = 0;
    sclass = 0;
    tblock = 0;
    monitor = 0;
    cclass = 0;
    inst = 0;
    oarr = 0;
    parr = 0;
  }

  abbrev report_class : ℕ → CString → Option Ptr → M (Unit {0})
  report_class fuel name none = print (Line.findclass_not_found name)
  report_class fuel name (some p) = do
    ci ← load_class p
    d ← state
    collect_stats fuel (env.root d.h_table) ci.ident

  abbrev report_objects : ℕ → Option CString → M (Unit {0})
  report_objects fuel none = pure tt
  report_objects fuel (some []) = find_class [] >>= report_class fuel []
  report_objects fuel (some (c ∷ name)) =
      if c == b'*'
      then (do
        d ← state
        resolve_instances fuel (env.root d.h_table)
        d' ← state
        print_instances fuel (env.root d'.h_table))
      else (do found ← find_class (c ∷ name); report_class fuel (c ∷ name) found)

  -- What readHeap does behind its loop.
  unfoldable pub heap_report : ℕ → Tally → M (Unit {0})
  unfolding find_class print_class_r resolve_instances print_instances collect_stats
  heap_report fuel t = do
    print (Line.heap_summary t)
    print (Line.text (codes "Class Summary"))
    d ← state
    print_class_r (env.root d.c_table)
    report_objects fuel d.fclass

  -- readHeap: `fuel` rounds of the loop, and as deep a recursion behind it.
  unfoldable pub read_heap : ℕ → ℕ → M (Unit {0})
  unfolding heap_loop heap_report find_class
  read_heap fuel hsize = do
    s ← find_class (codes "java/lang/String")
    d ← state
    put (record d { java_lang_string = s })
    t ← heap_loop fuel hsize no_records
    heap_report fuel t

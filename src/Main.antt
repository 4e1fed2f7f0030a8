-- ===== src/Main.antt =====
-- `readDump`: the header of a dump and its records.
pub mod Options
pub mod Records
pub mod Faults
pub mod Entries
pub mod Whole
use phat.Base.{
  ℕ, zero, suc, ◌+◌, ◌-◌, ◌*◌, ◌/◌, ◌%◌, ◌^◌, Bool, true, false, ◌&&◌, ◌||◌, Option, none, some,
  List, [], ◌∷◌, ltb, leb, ◌==◌, not, if◌then◌else◌,
}
use phat.Env.{Env, lookup32, insert32}
use phat.Types.{Ptr, CString, Line, Root}
use phat.Stdio.{File, getc, fread, rest}
use phat.Reader.{read_uint, read_ulong, read_ident}
use phat.Dump.{
  M, Jdump, Outcome, ok, exits, undef, out_of_fuel, pure, ◌>>=◌, ◌>>◌, given, state, put, print,
  on_file, fseek_cur, load_class,
}
use phat.Class.{mkcinfo, hash_key}
use phat.Text.{hide_specials, c_string, read_version}
use phat.Value.{as_uchar}
use phat.Heap.{read_heap}

abbrev pub magic_header : ℕ
magic_header = 0x4a415641

module _ ⦃env : Env⦄ where
  abbrev pub exit : {A : Type 0} → ℕ → M A
  exit n d = exits n d.out

  -- if (rc = read...) exit(2);
  abbrev or_exit : {A : Type 0} → ℕ → Option A → M A
  or_exit n none = exit n
  or_exit n (some a) = pure a

  -- HPROF_UTF8. A length below the identifier's makes `slen` negative, and one of 2 GB is more than
  -- talloc gives: then the text is written to no array. The array is zero where the file ends early.
  unfoldable pub utf8_record : ℕ → M (Unit {0})
  utf8_record rlen = do
    i ← read_ident
    ident ← given i
    d ← state
    if ltb rlen d.identsz || leb (d.identsz + 2 ^ 31 - 2) rlen then (λ _. undef) else (do
      usb ← on_file (fread (rlen - d.identsz))
      d' ← state
      put (record d' { sb_table = insert32 d'.sb_table ident (c_string (hide_specials usb)) }))

  -- HPROF_LOAD_CLASS. `strlen(ci->name)` needs a name.
  unfoldable pub load_class_record : M (Unit {0})
  unfolding mkcinfo hash_key
  load_class_record = do
    s ← on_file read_uint
    serial ← given s
    c ← read_ident
    class_id ← given c
    on_file read_uint
    n ← read_ident
    class_name_id ← given n
    d ← state
    name ← given (lookup32 d.sb_table class_name_id)
    p ← mkcinfo class_id class_name_id name
    d' ← state
    put (record d' {
      c_table = insert32 d'.c_table class_id p;
      sc_table = insert32 d'.sc_table serial p;
      rc_table = insert32 d'.rc_table (hash_key name) p;
    })

  -- HPROF_FRAME. Each text is printed by `%s`, and the class by its name.
  unfoldable pub frame_record : M (Unit {0})
  frame_record = do
    i ← read_ident
    id ← given i
    m ← read_ident
    m_name ← given m
    g ← read_ident
    m_sig ← given g
    f ← read_ident
    src_file ← given f
    s ← on_file read_uint
    serial ← given s
    l ← on_file read_uint
    lineno ← given l
    d ← state
    name ← given (lookup32 d.sb_table m_name)
    sig ← given (lookup32 d.sb_table m_sig)
    src ← given (lookup32 d.sb_table src_file)
    p ← given (lookup32 d.sc_table serial)
    ci ← load_class p
    print (Line.frame_line id name sig serial ci.name src lineno)

  -- for (i = 0; i < frames; i++) readIdent(df);
  unfoldable pub skip_idents : ℕ → M (Unit {0})
  skip_idents zero = pure tt
  skip_idents (suc n) = read_ident >> skip_idents n

  -- HPROF_TRACE: `frames` is an `int`, so that a number from 2^31 on is negative.
  unfoldable pub trace_record : M (Unit {0})
  unfolding skip_idents
  trace_record = do
    s ← on_file read_uint
    serial ← given s
    t ← on_file read_uint
    thread_seq ← given t
    f ← on_file read_uint
    frames ← given f
    print (Line.trace_line serial thread_seq frames)
    skip_idents (if leb (2 ^ 31) frames then 0 else frames)

  -- The switch of readDump on the tag.
  unfoldable pub dump_record : ℕ → ℕ → ℕ → M (Unit {0})
  unfolding utf8_record load_class_record frame_record trace_record read_heap
  dump_record fuel rtype rlen =
      if rtype == 0x01
      then utf8_record rlen
      else if rtype == 0x02
      then load_class_record
      else if rtype == 0x04
      then frame_record
      else if rtype == 0x05
      then trace_record
      else if rtype == 0x0c
      then read_heap fuel rlen
      else fseek_cur rlen

  abbrev at_end : Option ℕ → Bool
  at_end none = true
  at_end (some c) = c == 0xff

  -- The same behind a `puts("")`.
  abbrev pub or_line_exit : {A : Type 0} → ℕ → Option A → M A
  or_line_exit n none = print (Line.text []) >> exit n
  or_line_exit n (some a) = pure a

  -- while (EOF != (rtype = getc(df->fin))): `rtype` is a signed `char`, so that the byte 0xff is EOF
  -- too, and `puts("")` behind it. `fuel` bounds the rounds, and those of each heap.
  unfoldable pub dump_loop : ℕ → M (Unit {0})
  unfolding dump_record
  dump_loop zero = λ _. out_of_fuel
  dump_loop (suc k) = do
    c ← on_file getc
    if at_end c then print (Line.text []) else (do
      ts ← on_file read_uint
      or_line_exit 2 ts
      len ← on_file read_uint
      rlen ← or_line_exit 2 len
      dump_record (suc k) (as_uchar c) rlen
      dump_loop k)

  -- What the header holds up to the date.
  unfoldable pub dump_header : M (Unit {0})
  unfolding read_version
  dump_header = do
    m ← on_file read_uint
    magic ← or_exit 2 m
    if not (magic == magic_header) then exit 2 else (do
      v ← read_version
      version ← or_exit 3 v
      s ← on_file read_uint
      identsz ← or_exit 2 s
      d ← state
      put (record d { f_version = version; identsz = identsz })
      if not (identsz == 4) && not (identsz == 8) then exit 4 else (do
        t ← on_file read_ulong
        date ← or_exit 2 t
        print (Line.dump_created (date / 1000))))

  -- The state behind the six calls of trbt_create.
  abbrev pub new_dump : Option CString → ℕ → List ℕ → Jdump
  new_dump fclass plimit bytes = record {
    fin = record { bytes = bytes; pos = 0 };
    f_version = 0;
    identsz = 0;
    sb_table = env.trbt_create CString;
    c_table = env.trbt_create Ptr;
    h_table = env.trbt_create Ptr;
    rc_table = env.trbt_create Ptr;
    sc_table = env.trbt_create Ptr;
    roots = env.trbt_create Root;
    java_lang_string = none;
    fclass = fclass;
    plimit = plimit;
    fake_class = 1000;
    classes = [];
    objects = [];
    arcs = [];
    arc_vec = [];
    dfn_stack = [];
    dfn_counter = 0;
    cyctab = env.trbt_create Ptr;
    topotab = env.trbt_create Ptr;
    sizetab = env.trbt_create Ptr;
    num_cycles = 0;
    num_objs = 0;
    old_head = none;
    print_size = 0;
    out = [];
  }

  abbrev outcome_of : {A : Type 0} → M A → Jdump → Outcome A
  outcome_of m d = m d

  -- readDump: `none` is a file that cannot be opened.
  unfoldable pub read_dump : ℕ → Option CString → ℕ → Option (List ℕ) → Outcome (Unit {0})
  unfolding dump_header dump_loop
  read_dump fuel fclass plimit none = exits 1 []
  read_dump fuel fclass plimit (some bytes) =
      outcome_of (dump_header >> dump_loop fuel) (new_dump fclass plimit bytes)

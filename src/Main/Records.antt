-- ===== src/Main/Records.antt =====
-- The records of `readDump` outside the heap, and the header of a dump.
use phat.Base.{
  ℕ, ◌+◌, ◌-◌, ◌/◌, ◌^◌, ◌<◌, ◌≡◌, refl, ap, sym, ◌∙◌, subst, some, List, [], ◌∷◌, ◌++◌, length,
  get_elem?, arith, not, ◌&&◌, ◌==◌, ◌⊎◌, inl, inr, get_elem?-append_last, le→ltb_false, leb, ltb,
  ◌||◌, if◌then◌else◌, false, length-append,
}
use mathlib.Core.List.{append_assoc}
use phat.Env.{Env, lookup32, insert32, lookup32-insert32_self}
use phat.Class.{mkcinfo, hash_key, find_class}
use phat.Heap.Roots.{WordsInRange}
use phat.Types.{CString, Line, Cinfo}
use phat.Stdio.{Rest, Rest-advance, advance, fread, fread-Rest}
use phat.Reader.Words.{be4, be8, mangled, read_uint-be4, read_ulong-be8}
use phat.Reader.{read_uint, read_ulong}
use phat.Reader.Reads.{
  Narrow, Narrow-skip, Runs, Runs-ident, Runs-uint, Runs-given, Runs-uint_unused, Runs-state,
  Runs-to, skip-skip,
}
use phat.Dump.{M, put, print, ◌>>=◌, ◌>>◌, Jdump, ok, undef, skip, on_file, state, steps}
use phat.Text.{hide_specials, c_string}
use phat.Main.{utf8_record, load_class_record, dump_header, magic_header, or_exit, exit}
use phat.Text.Version.{Version, text_of, number_of, read_version-known}

module _ ⦃env : Env⦄ where
  -- The string table with the text of a record.
  abbrev pub with_text : Jdump → ℕ → List ℕ → Jdump
  with_text d ident text = record d {
    sb_table = insert32 d.sb_table ident (c_string (hide_specials text));
  }

  -- What `utf8_record` does behind the identifier.
  abbrev utf8_tail : ℕ → ℕ → ℕ → M (Unit {0})
  utf8_tail ident rlen n = if ltb rlen n || leb (n + 2 ^ 31 - 2) rlen then (λ _. undef) else (do
    usb ← on_file (fread (rlen - n))
    d' ← state
    put (record d' { sb_table = insert32 d'.sb_table ident (c_string (hide_specials usb)) }))

  utf8_tail-Runs :
      (d : Jdump) (ident : ℕ) (text r : List ℕ)
      → length text + 2 < 2 ^ 31
      → Rest d.fin (text ++ r)
      → Runs
          (utf8_tail ident (4 + length text) 4)
          d
          tt
          (with_text (skip (length text) d) ident text)
  unfolding steps
  utf8_tail-Runs d ident text r lt rest =
      let low : ltb (4 + length text) 4 ≡ false = le→ltb_false _ _ (omega arith) in
      let high : leb (4 + 2 ^ 31 - 2) (4 + length text) ≡ false = ground arith in
      let left : 4 + length text - 4 ≡ length text = omega arith in
      record { run = rw (low, high, left, fread-Rest d.fin text r rest) refl }

  -- On a dump of version 1.0.1 or later with 4-byte identifiers that stands before a HPROF_UTF8
  -- record of a text shorter than 2 GB, the record is read and no more, and the string table holds
  -- under its identifier the text up to its first NUL, with a dot for each special character.
  pub utf8_record-stores :
      (d : Jdump) (ident : ℕ) (text r : List ℕ)
      → Narrow d
      → ident < 2 ^ 32
      → length text + 2 < 2 ^ 31
      → Rest d.fin (be4 ident ++ (text ++ r))
      → Runs (utf8_record (4 + length text)) d tt (with_text (skip (4 + length text) d) ident text)
  unfolding utf8_record
  utf8_record-stores d ident text r w h lt rest = Runs-ident d ident _ _ w h rest (λ rest'.
      Runs-state _ (
        Runs-to
          (subst
            (λ n.
              Runs (utf8_tail ident (4 + length text) n) (skip 4 d) tt
                (with_text (skip (length text) (skip 4 d)) ident text))
            (sym w.narrow) (utf8_tail-Runs (skip 4 d) ident text r lt rest'))
          (ap (λ x. with_text x ident text) (skip-skip 4 (length text) d))))

  -- The header of a dump: "JAVA", the version and its NUL, the size of an identifier, the date.
  abbrev pub header_bytes : Version → ℕ → ℕ → List ℕ
  header_bytes v identsz date = be4 magic_header ++ (text_of v ++ (0 ∷ (be4 identsz ++ be8 date)))

  abbrev pub with_header : Jdump → Version → ℕ → ℕ → Jdump
  with_header d v identsz date = record (skip (length (header_bytes v identsz date)) d) {
    f_version = number_of v;
    identsz = identsz;
    out = d.out ++ (Line.dump_created (mangled date / 1000) ∷ []);
  }

  -- The part of the header behind the version.
  abbrev header_end : ℕ → M (Unit {0})
  header_end version = do
    s ← on_file read_uint
    identsz ← or_exit 2 s
    d ← state
    put (record d { f_version = version; identsz = identsz })
    if not (identsz == 4) && not (identsz == 8) then exit 4 else (do
      t ← on_file read_ulong
      date ← or_exit 2 t
      print (Line.dump_created (date / 1000)))

  pub ident_sizes :
      (n : ℕ) → (n ≡ 4) ⊎ (n ≡ 8) → (n < 2 ^ 32) × ((not (n == 4) && not (n == 8)) ≡ false)
  ident_sizes n (inl e) = (omega (arith, e), rw e refl)
  ident_sizes n (inr e) = (omega (arith, e), rw e refl)

  header_end-ok :
      (d : Jdump) (version identsz date : ℕ) (r : List ℕ)
      → (identsz ≡ 4) ⊎ (identsz ≡ 8)
      → date < 2 ^ 64
      → Rest d.fin (be4 identsz ++ (be8 date ++ r))
      → header_end version d
        ≡ ok tt (record (skip 12 d) {
          f_version = version;
          identsz = identsz;
          out = d.out ++ (Line.dump_created (mangled date / 1000) ∷ []);
        })
  unfolding steps be4 be8
  header_end-ok d version identsz date r four lt rest =
      let (small, size) = ident_sizes identsz four in
      let next : Rest (advance 4 d.fin) (be8 date ++ r) =
        Rest-advance d.fin (be4 identsz) (be8 date ++ r) rest in
      rw
        (
          read_uint-be4 d.fin identsz (be8 date ++ r) small rest,
          size,
          read_ulong-be8 (advance 4 d.fin) date r lt next,
        )
        (ap
          (λ p. ok tt (record d {
            fin = record d.fin { pos = p };
            f_version = version;
            identsz = identsz;
            out = d.out ++ (Line.dump_created (mangled date / 1000) ∷ []);
          }))
          (omega arith))

  -- On a file that stands before the header of a dump, of any version and either size of an
  -- identifier, the header is read and no more. The date that is printed is the mangled one.
  pub dump_header-accepts :
      (v : Version) (d : Jdump) (identsz date : ℕ) (r : List ℕ)
      → (identsz ≡ 4) ⊎ (identsz ≡ 8)
      → date < 2 ^ 64
      → Rest d.fin (header_bytes v identsz date ++ r)
      → dump_header d ≡ ok tt (with_header d v identsz date)
  unfolding dump_header steps be4 be8
  dump_header-accepts v d identsz date r four lt rest =
      let end : List ℕ = be4 identsz ++ be8 date in
      let n = length (text_of v) in
      let behind : Rest (advance 4 d.fin) (text_of v ++ (0 ∷ (end ++ r))) =
        Rest-advance d.fin (be4 magic_header) ((text_of v ++ (0 ∷ end)) ++ r) rest
        ∙ append_assoc (text_of v) (0 ∷ end) r in
      let nul : Rest (advance n (advance 4 d.fin)) (0 ∷ (end ++ r)) =
        Rest-advance (advance 4 d.fin) (text_of v) (0 ∷ (end ++ r)) behind in
      let last : Rest (advance (n + 1) (advance 4 d.fin)) (end ++ r) =
        subst (λ p. Rest (record d.fin { pos = p }) (end ++ r)) (omega arith)
          (Rest-advance (advance n (advance 4 d.fin)) (0 ∷ []) (end ++ r) nul) in
      rw
        (
          read_uint-be4 d.fin magic_header ((text_of v ++ (0 ∷ end)) ++ r) (omega arith) rest,
          read_version-known v (skip 4 d) (end ++ r) behind,
        )
        (header_end-ok (skip (n + 1) (skip 4 d)) (number_of v) identsz date r four lt last
          ∙ ap
              (λ p. ok tt (record d {
                fin = record d.fin { pos = p };
                f_version = number_of v;
                identsz = identsz;
                out = d.out ++ (Line.dump_created (mangled date / 1000) ∷ []);
              }))
              (omega (arith, length-append (text_of v) (0 ∷ end))))

  -- The class that a record loads, and the state that holds it.
  abbrev pub loaded : Jdump → ℕ → ℕ → CString → Cinfo
  loaded d class_id name_id name = record (env.talloc_cinfo (length d.classes)) {
    ident = class_id;
    nident = name_id;
    name = name;
    tfields = 0;
    resolved = false;
    count = 0;
  }

  abbrev pub with_class : Jdump → ℕ → ℕ → ℕ → CString → Jdump
  with_class d serial class_id name_id name = record d {
    classes = d.classes ++ (loaded d class_id name_id name ∷ []);
    c_table = insert32 d.c_table class_id (length d.classes);
    sc_table = insert32 d.sc_table serial (length d.classes);
    rc_table = insert32 d.rc_table (hash_key name) (length d.classes);
  }

  abbrev pub load_bytes : ℕ → ℕ → ℕ → ℕ → List ℕ → List ℕ
  load_bytes serial class_id stack name_id r =
      be4 serial ++ (be4 class_id ++ (be4 stack ++ (be4 name_id ++ r)))

  fourth : (d : Jdump) → skip 4 (skip 4 (skip 4 (skip 4 d))) ≡ skip 16 d
  fourth d = ap (λ p. record d { fin = record d.fin { pos = p } }) (omega arith)

  -- What `load_class_record` does behind the look-up of the name.
  abbrev file_class : ℕ → ℕ → ℕ → CString → M (Unit {0})
  file_class serial class_id name_id name = do
    p ← mkcinfo class_id name_id name
    d' ← state
    put (record d' {
      c_table = insert32 d'.c_table class_id p;
      sc_table = insert32 d'.sc_table serial p;
      rc_table = insert32 d'.rc_table (hash_key name) p;
    })

  file_class-Runs :
      (d : Jdump) (serial class_id name_id : ℕ) (name : CString)
      → Runs
          (file_class serial class_id name_id name)
          d
          tt
          (with_class d serial class_id name_id name)
  unfolding steps mkcinfo
  file_class-Runs d serial class_id name_id name = record { run = refl }

  pub load_class_record-Runs :
      (d : Jdump) (serial class_id stack name_id : ℕ) (name : CString) (r : List ℕ)
      → Narrow d
      → WordsInRange (serial ∷ class_id ∷ stack ∷ name_id ∷ [])
      → lookup32 d.sb_table name_id ≡ some name
      → Rest d.fin (load_bytes serial class_id stack name_id r)
      → Runs load_class_record d tt (with_class (skip 16 d) serial class_id name_id name)
  unfolding load_class_record
  load_class_record-Runs d serial class_id stack name_id name r w (h1, (h2, (h3, (h4, _)))) known
        rest =
      Runs-uint d serial _ _ w h1 rest (λ r1.
        Runs-ident (skip 4 d) class_id _ _ (Narrow-skip 4 w) h2 r1 (λ r2.
          Runs-uint_unused (skip 4 (skip 4 d)) stack _ _ (Narrow-skip 4 (Narrow-skip 4 w)) h3 r2
            (λ r3.
              Runs-ident (skip 4 (skip 4 (skip 4 d))) name_id r _
                (Narrow-skip 4 (Narrow-skip 4 (Narrow-skip 4 w))) h4 r3
                (λ r4. Runs-state _ (
                  Runs-given _ name known (
                    Runs-to (file_class-Runs _ serial class_id name_id name)
                      (ap (λ x. with_class x serial class_id name_id name) (fourth d))))))))

  module _ (d : Jdump) (serial class_id stack name_id : ℕ) (name : CString) (r : List ℕ) where
    -- On a dump of version 1.0.1 or later with 4-byte identifiers that stands before a
    -- HPROF_LOAD_CLASS record whose name the string table holds, the record is read and a class is
    -- made, not resolved and without instances. It is then found by its identifier, by its serial
    -- number and by its name.
    pub load_class_record-finds :
        Narrow d
        → WordsInRange (serial ∷ class_id ∷ stack ∷ name_id ∷ [])
        → lookup32 d.sb_table name_id ≡ some name
        → Rest d.fin (load_bytes serial class_id stack name_id r)
        → (d' : Jdump) × (load_class_record d ≡ ok tt d')
          × (d'.fin ≡ advance 16 d.fin)
          × (get_elem? d'.classes (length d.classes) ≡ some (loaded d class_id name_id name))
          × (lookup32 d'.c_table class_id ≡ some (length d.classes))
          × (lookup32 d'.sc_table serial ≡ some (length d.classes))
          × (find_class name d' ≡ ok (some (length d.classes)) d')
    unfolding find_class
    load_class_record-finds w range known rest = (
      with_class (skip 16 d) serial class_id name_id name,
      (load_class_record-Runs d serial class_id stack name_id name r w range known rest).run,
      refl,
      get_elem?-append_last d.classes (loaded d class_id name_id name),
      lookup32-insert32_self d.c_table class_id (length d.classes),
      lookup32-insert32_self d.sc_table serial (length d.classes),
      rw (lookup32-insert32_self d.rc_table (hash_key name) (length d.classes)) refl,
    )

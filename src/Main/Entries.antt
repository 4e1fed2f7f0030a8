-- ===== src/Main/Entries.antt =====
-- The records of a dump: what each asks for, what `readDump` makes of it, and that it does.
use mathlib.Core.List.{append_assoc, append-nil}
use phat.Base.{
  ℕ, ◌+◌, ◌-◌, ◌^◌, ◌≤◌, ◌<◌, ◌≡◌, ◌≢◌, refl, ap, sym, ◌∙◌, subst, some, none, List, [], ◌∷◌, ◌++◌,
  map, length, get_elem?, arith, codes, ne→eq_false,
}
use phat.Env.{Env, lookup32}
use phat.Types.{Ptr, CString, Cinfo, Line, Tally}
use phat.Stdio.{Rest, Rest-advance, advance}
use phat.Reader.Words.{be4}
use phat.Reader.Reads.{Narrow}
use phat.Dump.{Jdump, ok, skip, steps}
use phat.Class.{hash_key, find_class}
use phat.Heap.{heap_loop, heap_report, read_heap, no_records}
use phat.Heap.Roots.{WordsInRange}
use phat.Heap.Items.{Item}
use phat.Heap.Loop.{
  items_bytes, after_all, AllAllowed, tallied_all, heap_loop-records, after_all-Narrow,
  after_all-Rest,
}
use phat.Print.Orders.{inorder, class_line, print_all, print_class_r-inorder}
use phat.Main.{dump_record, utf8_record}
use phat.Main.Records.{
  with_text, utf8_record-stores, with_class, load_class_record-Runs, load_bytes,
}

-- The classes `cs` are what a list of pointers refers to in a store.
abbrev pub Listed : List Cinfo → List Ptr → List Cinfo → Type 0
Listed store [] [] = Unit
Listed store [] (c ∷ cs) = ⊥
Listed store (p ∷ ps) [] = ⊥
Listed store (p ∷ ps) (c ∷ cs) = (get_elem? store p ≡ some c) × Listed store ps cs

module _ ⦃env : Env⦄ where
  -- A record of the dump: a text, a class that is loaded, a heap, or one whose tag has no meaning.
  pub data DumpEntry : Type 0 where
    a_text : (ident : ℕ) → List ℕ → DumpEntry
    a_load : (serial class_id stack name_id : ℕ) → CString → DumpEntry
    a_heap : List Item → List Cinfo → DumpEntry
    a_skipped : (tag : ℕ) → List ℕ → DumpEntry

  abbrev pub entry_tag : DumpEntry → ℕ
  entry_tag (a_text ident text) = 0x01
  entry_tag (a_load serial class_id stack name_id name) = 0x02
  entry_tag (a_heap is cs) = 0x0c
  entry_tag (a_skipped tag bs) = tag

  abbrev pub entry_body : DumpEntry → List ℕ
  entry_body (a_text ident text) = be4 ident ++ text
  entry_body (a_load serial class_id stack name_id name) =
      load_bytes serial class_id stack name_id []
  entry_body (a_heap is cs) = items_bytes is
  entry_body (a_skipped tag bs) = bs

  -- The state before the first sub-record of a heap, and behind its last.
  abbrev pub heap_start : Jdump → Jdump
  heap_start d = record d {
    java_lang_string = lookup32 d.rc_table (hash_key (codes "java/lang/String"));
  }

  abbrev pub heap_end : List Item → Jdump → Jdump
  heap_end is d = after_all is (heap_start d)

  -- What a record makes of the state behind its length.
  abbrev pub after_entry : DumpEntry → Jdump → Jdump
  after_entry (a_text ident text) d = with_text (skip (4 + length text) d) ident text
  after_entry (a_load serial class_id stack name_id name) d =
      with_class (skip 16 d) serial class_id name_id name
  after_entry (a_heap is cs) d = record (heap_end is d) {
    out =
        (heap_end is d).out
        ++ (Line.heap_summary (tallied_all is no_records)
            ∷ Line.text (codes "Class Summary")
            ∷ map class_line cs);
  }
  after_entry (a_skipped tag bs) d = skip (length bs) d

  -- What a record asks of the state behind its length. No class is asked for on the command line, so
  -- that the report behind a heap prints no objects; every class that it prints is there.
  abbrev pub EntryAllowed : ℕ → DumpEntry → Jdump → Type 0
  EntryAllowed k (a_text ident text) d = (ident < 2 ^ 32) × (length text + 2 < 2 ^ 31)
  EntryAllowed k (a_load serial class_id stack name_id name) d =
      WordsInRange (serial ∷ class_id ∷ stack ∷ name_id ∷ [])
      × (lookup32 d.sb_table name_id ≡ some name)
  EntryAllowed k (a_heap is cs) d =
      AllAllowed is (heap_start d)
      × (length is ≤ k)
      × ((heap_end is d).fclass ≡ none)
      × Listed (heap_end is d).classes (inorder (env.root (heap_end is d).c_table)) cs
  EntryAllowed k (a_skipped tag bs) d =
      (tag ≢ 0x01) × (tag ≢ 0x02) × (tag ≢ 0x04) × (tag ≢ 0x05) × (tag ≢ 0x0c) × (tag ≢ 0xff)

  lined : (Cinfo → Line) → List Cinfo → Jdump → Jdump
  lined line cs d = record d { out = d.out ++ map line cs }

  -- Where all classes of a list are there, `print_all` prints their lines.
  print_all-Listed :
      (line : Cinfo → Line) (ps : List Ptr) (cs : List Cinfo) (d : Jdump)
      → Listed d.classes ps cs
      → print_all line ps d ≡ ok tt (lined line cs d)
  unfolding print_all lined steps
  print_all-Listed line [] [] d h = ap (λ o. ok tt (record d { out = o })) (sym (append-nil d.out))
  print_all-Listed line [] (c ∷ cs) d h = absurd h
  print_all-Listed line (p ∷ ps) [] d h = absurd h
  print_all-Listed line (p ∷ ps) (c ∷ cs) d (e, more) = rw e (
      print_all-Listed line ps cs (record d { out = d.out ++ (line c ∷ []) }) more
      ∙ ap (λ o. ok tt (record d { out = o })) (append_assoc d.out (line c ∷ []) (map line cs)))

  -- The report behind a heap, where no class is asked for.
  heap_report-lem :
      (fuel : ℕ) (t : Tally) (d : Jdump) (cs : List Cinfo)
      → d.fclass ≡ none
      → Listed d.classes (inorder (env.root d.c_table)) cs
      → heap_report fuel t d
        ≡ ok tt (record d {
          out =
              d.out
              ++ (Line.heap_summary t ∷ Line.text (codes "Class Summary") ∷ map class_line cs);
        })
  unfolding heap_report steps lined
  heap_report-lem fuel t d cs no_class h =
      let headed : Jdump = record d {
        out = (d.out ++ (Line.heap_summary t ∷ [])) ++ (Line.text (codes "Class Summary") ∷ []);
      } in
      rw
        (
          print_class_r-inorder (env.root d.c_table) headed
              ∙ print_all-Listed class_line (inorder (env.root d.c_table)) cs headed h,
          no_class,
        )
        (ap (λ o. ok tt (record d { fclass = none; out = o }))
          (append_assoc (d.out ++ (Line.heap_summary t ∷ []))
              (Line.text (codes "Class Summary") ∷ []) (map class_line cs)
            ∙ append_assoc d.out (Line.heap_summary t ∷ [])
                (Line.text (codes "Class Summary") ∷ map class_line cs)))

  read_heap-lem :
      (is : List Item) (cs : List Cinfo) (k : ℕ) (d : Jdump) (r : List ℕ)
      → Narrow d
      → EntryAllowed k (a_heap is cs) d
      → Rest d.fin (items_bytes is ++ r)
      → length (items_bytes is) < 2 ^ 32
      → read_heap k (length (items_bytes is)) d ≡ ok tt (after_entry (a_heap is cs) d)
  unfolding read_heap find_class steps
  read_heap-lem is cs k d r w (allowed, le, no_class, listed) rest lt =
      let start : Narrow (heap_start d) = record { narrow = w.narrow; version = w.version } in
      let fuel : length is + (k - length is) ≡ k = omega (arith, le) in
      let ran =
        ap (λ n. heap_loop n (length (items_bytes is)) no_records (heap_start d)) (sym fuel)
        ∙ heap_loop-records is (k - length is) no_records (heap_start d) r start allowed rest lt in
      rw ran (heap_report-lem k (tallied_all is no_records) (heap_end is d) cs no_class listed)

  dump_record-skips :
      (k tag rlen : ℕ) (d : Jdump)
      → EntryAllowed k (a_skipped tag []) d
      → dump_record k tag rlen d ≡ ok tt (skip rlen d)
  unfolding dump_record steps
  dump_record-skips k tag rlen d (h1, h2, h4, h5, hc, _) =
      rw
        (
          ne→eq_false tag 0x01 h1,
          ne→eq_false tag 0x02 h2,
          ne→eq_false tag 0x04 h4,
          ne→eq_false tag 0x05 h5,
          ne→eq_false tag 0x0c hc,
        )
        refl

  pub entry_lem :
      (e : DumpEntry) (k : ℕ) (d : Jdump) (r : List ℕ)
      → Narrow d
      → EntryAllowed k e d
      → Rest d.fin (entry_body e ++ r)
      → length (entry_body e) < 2 ^ 32
      → dump_record k (entry_tag e) (length (entry_body e)) d ≡ ok tt (after_entry e d)
  unfolding dump_record be4
  entry_lem (a_text ident text) k d r w (h, lt) rest _ =
      ap (λ n. utf8_record n d) (omega arith) ∙ (utf8_record-stores d ident text r w h lt rest).run
  entry_lem (a_load serial class_id stack name_id name) k d r w (range, known) rest _ =
      (load_class_record-Runs d serial class_id stack name_id name r w range known rest).run
  entry_lem (a_heap is cs) k d r w allowed rest lt = read_heap-lem is cs k d r w allowed rest lt
  entry_lem (a_skipped tag bs) k d r w allowed rest _ =
      dump_record-skips k tag (length bs) d allowed

  pub after_entry-Narrow : (e : DumpEntry) (d : Jdump) → Narrow d → Narrow (after_entry e d)
  after_entry-Narrow (a_text ident text) d w = record { narrow = w.narrow; version = w.version }
  after_entry-Narrow (a_load serial class_id stack name_id name) d w = record {
    narrow = w.narrow;
    version = w.version;
  }
  after_entry-Narrow (a_heap is cs) d w =
      let end =
        after_all-Narrow is (heap_start d) (record { narrow = w.narrow; version = w.version }) in
      record { narrow = end.narrow; version = end.version }
  after_entry-Narrow (a_skipped tag bs) d w = record { narrow = w.narrow; version = w.version }

  pub after_entry-Rest :
      (e : DumpEntry) (k : ℕ) (d : Jdump) (r : List ℕ)
      → EntryAllowed k e d
      → Rest d.fin (entry_body e ++ r)
      → Rest (after_entry e d).fin r
  unfolding be4
  after_entry-Rest (a_text ident text) k d r allowed rest =
      subst (λ n. Rest (advance n d.fin) r) (omega arith)
        (Rest-advance d.fin (be4 ident ++ text) r rest)
  after_entry-Rest (a_load serial class_id stack name_id name) k d r allowed rest =
      Rest-advance d.fin (load_bytes serial class_id stack name_id []) r rest
  after_entry-Rest (a_heap is cs) k d r (allowed, _, _, _) rest =
      after_all-Rest is (heap_start d) r allowed rest
  after_entry-Rest (a_skipped tag bs) k d r allowed rest = Rest-advance d.fin bs r rest

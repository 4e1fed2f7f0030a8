-- ===== src/Main/Whole.antt =====
-- A whole dump: its records as `readDump` reads them, and what the run makes of them.
use phat.Base.{
  inl, ◌==◌, false, ℕ, suc, ◌+◌, ◌^◌, ◌≤◌, ◌<◌, ◌≡◌, refl, ap, ◌∙◌, some, none, List, [], ◌∷◌, ◌++◌,
  length, arith, ne→eq_false,
}
use phat.Env.{Env}
use phat.Types.{Line}
use phat.Stdio.{Rest, Rest-advance}
use phat.Reader.Words.{be4}
use phat.Reader.Reads.{Narrow, Narrow-skip, word_step}
use phat.Dump.{Jdump, ok, skip}
use phat.Heap.Loop.{tag_step}
use phat.Heap.Eof.{getc_eof}
use phat.Main.{dump_loop, read_dump, new_dump}
use phat.Main.Records.{header_bytes, with_header, dump_header-accepts}
use phat.Text.Version.{Version, number_of}
use phat.Main.Entries.{
  DumpEntry, a_text, a_load, a_heap, a_skipped, entry_tag, entry_body, after_entry, EntryAllowed,
  entry_lem, after_entry-Narrow, after_entry-Rest,
}

module _ ⦃env : Env⦄ where
  -- A record with its tag, its time and its length; and several of them, of one time.
  abbrev pub entry_bytes : ℕ → DumpEntry → List ℕ
  entry_bytes time e = entry_tag e ∷ (be4 time ++ (be4 (length (entry_body e)) ++ entry_body e))

  abbrev pub entries_bytes : ℕ → List DumpEntry → List ℕ
  entries_bytes time [] = []
  entries_bytes time (e ∷ es) = entry_bytes time e ++ entries_bytes time es

  abbrev pub after_entries : List DumpEntry → Jdump → Jdump
  after_entries [] d = d
  after_entries (e ∷ es) d = after_entries es (after_entry e (skip 9 d))

  -- Each is allowed in the state that those before it leave, and shorter than 4 GB.
  abbrev pub EntriesAllowed : ℕ → List DumpEntry → Jdump → Type 0
  EntriesAllowed k [] d = Unit
  EntriesAllowed k (e ∷ es) d =
      EntryAllowed k e (skip 9 d)
      × ((length (entry_body e) < 2 ^ 32) × EntriesAllowed k es (after_entry e (skip 9 d)))

  entry_tag-ne_eof :
      (e : DumpEntry) (k : ℕ) (d : Jdump) → EntryAllowed k e d → (entry_tag e == 0xff) ≡ false
  entry_tag-ne_eof (a_text ident text) k d h = refl
  entry_tag-ne_eof (a_load serial class_id stack name_id name) k d h = refl
  entry_tag-ne_eof (a_heap is cs) k d h = refl
  entry_tag-ne_eof (a_skipped tag bs) k d (_, _, _, _, _, h) = ne→eq_false tag 0xff h

  ninth : (d : Jdump) → skip 4 (skip 4 (skip 1 d)) ≡ skip 9 d
  ninth d = ap (λ p. record d { fin = record d.fin { pos = p } }) (omega arith)

  EntryAllowed-more :
      (e : DumpEntry) (k m : ℕ) (d : Jdump) → k ≤ m → EntryAllowed k e d → EntryAllowed m e d
  EntryAllowed-more (a_text ident text) k m d le h = h
  EntryAllowed-more (a_load serial class_id stack name_id name) k m d le h = h
  EntryAllowed-more (a_heap is cs) k m d le (h, fits, h', h'') =
      (h, omega (arith, fits, le), h', h'')
  EntryAllowed-more (a_skipped tag bs) k m d le h = h

  -- A round of the loop of `readDump` takes one record.
  dump_step :
      (time k : ℕ) (e : DumpEntry) (d : Jdump) (r : List ℕ)
      → time < 2 ^ 32
      → Narrow d
      → EntryAllowed (suc k) e (skip 9 d)
      → length (entry_body e) < 2 ^ 32
      → Rest d.fin (entry_bytes time e ++ r)
      → Rest (skip 9 d).fin (entry_body e ++ r)
      → dump_loop (suc k) d ≡ dump_loop k (after_entry e (skip 9 d))
  unfolding dump_loop be4
  dump_step time k e d r lt w allowed short rest behind =
      let n = length (entry_body e) in
      let r1 =
        Rest-advance d.fin (entry_tag e ∷ []) (be4 time ++ (be4 n ++ (entry_body e ++ r))) rest in
      let r2 = Rest-advance (skip 1 d).fin (be4 time) (be4 n ++ (entry_body e ++ r)) r1 in
      rw
        (
          tag_step d (entry_tag e) (be4 time ++ (be4 n ++ (entry_body e ++ r))) rest,
          entry_tag-ne_eof e (suc k) (skip 9 d) allowed,
          word_step (skip 1 d) time (be4 n ++ (entry_body e ++ r)) lt r1,
          word_step (skip 4 (skip 1 d)) n (entry_body e ++ r) short r2,
          ninth d,
          entry_lem e (suc k) (skip 9 d) r (Narrow-skip 9 w) allowed behind short,
        )
        refl

  behind_head :
      (time : ℕ) (e : DumpEntry) (d : Jdump) (r : List ℕ)
      → Rest d.fin (entry_bytes time e ++ r)
      → Rest (skip 9 d).fin (entry_body e ++ r)
  unfolding be4
  behind_head time e d r rest =
      let n = length (entry_body e) in
      Rest-advance d.fin (entry_tag e ∷ (be4 time ++ be4 n)) (entry_body e ++ r) rest

  sum_suc : (n k : ℕ) → suc n + suc k ≡ suc (n + suc k)
  sum_suc n k = omega arith

  zero_suc : (k : ℕ) → 0 + suc k ≡ suc k
  zero_suc k = omega arith

  -- The state behind the last record: a blank line ends the output.
  abbrev pub at_last : Jdump → Jdump
  at_last d = record d { out = d.out ++ (Line.text [] ∷ []) }

  dump_loop-entries :
      (time k : ℕ) (es : List DumpEntry) (d : Jdump)
      → time < 2 ^ 32
      → Narrow d
      → EntriesAllowed k es d
      → Rest d.fin (entries_bytes time es)
      → dump_loop (length es + suc k) d ≡ ok tt (at_last (after_entries es d))
  unfolding dump_loop
  dump_loop-entries time k [] d lt w allowed rest =
      ap (λ n. dump_loop n d) (zero_suc k) ∙ rw (getc_eof d rest) refl
  dump_loop-entries time k (e ∷ es) d lt w (one, (short, others)) rest =
      let fuel = length es + suc k in
      let behind = behind_head time e d (entries_bytes time es) rest in
      ap (λ n. dump_loop n d) (sum_suc (length es) k)
      ∙ dump_step time fuel e d (entries_bytes time es) lt w
          (EntryAllowed-more e k (suc fuel) (skip 9 d) (omega arith) one) short rest behind
      ∙ dump_loop-entries time k es (after_entry e (skip 9 d)) lt
          (after_entry-Narrow e (skip 9 d) (Narrow-skip 9 w)) others
          (after_entry-Rest e k (skip 9 d) (entries_bytes time es) one behind)

  -- A dump of version 1.0.1 or 1.0.2 with 4-byte identifiers: its header, with the date in
  -- milliseconds, and records of texts, of classes, of heaps and of no meaning. Where each record
  -- is allowed in the state that those before it leave, and the fuel is a round per record and a
  -- round for each sub-record of the longest heap, `readDump` returns, and the run is that of its
  -- records one after the other, from the state behind the header, and of the blank line behind
  -- them. Allowed is a text shorter than 2 GB, a class whose name is known, a heap of records that
  -- `heap_loop-records` allows and for whose report the classes are there, and a tag of no meaning
  -- other than 0xff, each with numbers in range and shorter than 4 GB. No class is asked for on
  -- the command line.
  pub read_dump-entries :
      (v : Version) (date time k plimit : ℕ) (es : List DumpEntry) (bytes : List ℕ)
      → 1 ≤ number_of v
      → date < 2 ^ 64
      → time < 2 ^ 32
      → bytes ≡ header_bytes v 4 date ++ entries_bytes time es
      → EntriesAllowed k es (with_header (new_dump none plimit bytes) v 4 date)
      → read_dump (length es + suc k) none plimit (some bytes)
        ≡ ok tt (at_last (after_entries es (with_header (new_dump none plimit bytes) v 4 date)))
  unfolding read_dump
  read_dump-entries v date time k plimit es bytes recent lt lt' e allowed =
      let start = new_dump none plimit bytes in
      rw (dump_header-accepts v start 4 date (entries_bytes time es) (inl refl) lt e) (
        dump_loop-entries time k es (with_header start v 4 date) lt'
          (record { narrow = refl; version = recent }) allowed
          (Rest-advance start.fin (header_bytes v 4 date) (entries_bytes time es) e))

-- ===== src/Tests/Whole.antt =====
-- A dump of four records, a faulty header, and a heap whose file has ended.
use phat.Base.{ℕ, suc, ◌+◌, ◌≡◌, refl, none, some, List, [], ◌∷◌, ◌++◌, arith, codes}
use phat.Env.{lookup32, insert32}
use phat.Types.{Cinfo}
use phat.Reader.Words.{be2, be4, be8}
use phat.Dump.{Jdump, ok, exits}
use phat.Class.{hash_key}
use phat.Heap.{heap_loop, no_records}
use phat.Heap.Roots.{jni_local}
use phat.Heap.Items.{a_root}
use phat.Heap.Eof.{printed, unknowns, heap_loop-ends}
use phat.Text.{c_string, hide_specials, is_special}
use phat.Text.Version.{v1_0_1}
use phat.Main.{new_dump, read_dump, dump_header}
use phat.Main.Records.{header_bytes, with_header}
use phat.Main.Faults.{Fault, wrong_size, fault_bytes, dump_header-rejects}
use phat.Main.Entries.{DumpEntry, a_text, a_load, a_heap, a_skipped}
use phat.Main.Whole.{entries_bytes, after_entries, at_last, read_dump-entries}
use phat.Tests.{test_env, blank_class}

abbrev point : Cinfo
point = record blank_class { ident = 7; nident = 30; name = codes "Point" }

-- A text, a class with that name, a frame and a heap with one root.
abbrev entries : List DumpEntry
entries =
    a_text 30 (codes "Point")
    ∷ a_load 1 7 2 30 (codes "Point")
    ∷ a_skipped 0x03 (1 ∷ 2 ∷ [])
    ∷ a_heap (a_root (jni_local 20 1 0) ∷ []) (point ∷ [])
    ∷ []

abbrev bytes : List ℕ
bytes = header_bytes v1_0_1 4 1500 ++ entries_bytes 0 entries

read_dump-entries_example :
    read_dump (4 + suc 3) none 0 (some bytes)
    ≡ ok tt (at_last (after_entries entries (with_header (new_dump none 0 bytes) v1_0_1 4 1500)))
unfolding be2 be4 be8 hash_key lookup32 insert32 c_string hide_specials is_special
read_dump-entries_example =
    read_dump-entries v1_0_1 1500 0 3 0 entries bytes (omega arith) (omega arith) (omega arith) refl
      (
        (omega arith, omega arith),
        (
          omega arith,
          (
            ((omega arith, (omega arith, (omega arith, (omega arith, tt)))), refl),
            (
              omega arith,
              (
                (
                  (λ e. absurd (omega (arith, e))),
                  (λ e. absurd (omega (arith, e))),
                  (λ e. absurd (omega (arith, e))),
                  (λ e. absurd (omega (arith, e))),
                  (λ e. absurd (omega (arith, e))),
                  (λ e. absurd (omega (arith, e))),
                ),
                (
                  omega arith,
                  (
                    (
                      ((omega arith, (omega arith, (omega arith, tt))), tt),
                      omega arith,
                      refl,
                      (refl, tt),
                    ),
                    (omega arith, tt),
                  ),
                ),
              ),
            ),
          ),
        ),
      )

abbrev fault : Fault
fault = wrong_size v1_0_1 6 []

abbrev faulty : Jdump
unfolding be4
faulty = new_dump none 0 (fault_bytes fault)

dump_header-rejects_example : dump_header faulty ≡ exits 4 []
unfolding be4
dump_header-rejects_example =
    dump_header-rejects fault faulty
      (omega arith, (λ e. absurd (omega (arith, e))), (λ e. absurd (omega (arith, e)))) refl

abbrev ended : Jdump
ended = record (new_dump none 0 []) { f_version = 1; identsz = 4 }

heap_loop-ends_example :
    (m : ℕ) × (heap_loop m 7 no_records ended ≡ ok no_records (printed ended (unknowns m)))
heap_loop-ends_example =
    heap_loop-ends 7 no_records ended (record { narrow = refl; version = omega arith }) refl
      (omega arith)

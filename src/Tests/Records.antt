-- ===== src/Tests/Records.antt =====
-- The header of a dump, a text and a class.
use phat.Base.{
  ℕ, ◌+◌, ◌≡◌, refl, inl, some, none, List, [], ◌∷◌, ◌++◌, length, get_elem?, arith, codes,
}
use phat.Env.{lookup32}
use phat.Stdio.{advance}
use phat.Dump.{Jdump, ok, skip}
use phat.Reader.Words.{be4, be8}
use phat.Reader.Reads.{Runs}
use phat.Class.{find_class}
use phat.Text.Version.{v1_0_1}
use phat.Main.{new_dump, utf8_record, load_class_record, dump_header}
use phat.Main.Records.{
  with_text, utf8_record-stores, header_bytes, with_header, dump_header-accepts, loaded, load_bytes,
  load_class_record-finds,
}
use phat.Tests.{test_env}

abbrev header_dump : Jdump
unfolding be4 be8
header_dump = new_dump none 0 (header_bytes v1_0_1 4 1500 ++ (1 ∷ []))

dump_header-accepts_example :
    dump_header header_dump ≡ ok tt (with_header header_dump v1_0_1 4 1500)
unfolding be4 be8
dump_header-accepts_example =
    dump_header-accepts v1_0_1 header_dump 4 1500 (1 ∷ []) (inl refl) (omega arith) refl

abbrev at : List ℕ → Jdump
at bytes = record (new_dump none 0 bytes) {
  f_version = 1;
  identsz = 4;
  sb_table = (30, codes "Point") ∷ [];
}

abbrev text_dump : Jdump
unfolding be4
text_dump = at (be4 31 ++ (codes "Line" ++ (2 ∷ [])))

utf8_record-stores_example :
    Runs
      (utf8_record (4 + length (codes "Line")))
      text_dump
      tt
      (with_text (skip (4 + length (codes "Line")) text_dump) 31 (codes "Line"))
unfolding be4
utf8_record-stores_example =
    utf8_record-stores text_dump 31 (codes "Line") (2 ∷ [])
      (record { narrow = refl; version = omega arith }) (omega arith) (omega arith) refl

abbrev class_dump : Jdump
unfolding be4
class_dump = at (load_bytes 1 7 2 30 [])

load_class_record-finds_example :
    (d' : Jdump) × (load_class_record class_dump ≡ ok tt d')
    × (d'.fin ≡ advance 16 class_dump.fin)
    × (get_elem? d'.classes 0 ≡ some (loaded class_dump 7 30 (codes "Point")))
    × (lookup32 d'.c_table 7 ≡ some 0)
    × (lookup32 d'.sc_table 1 ≡ some 0)
    × (find_class (codes "Point") d' ≡ ok (some 0) d')
unfolding be4 lookup32
load_class_record-finds_example =
    load_class_record-finds class_dump 1 7 2 30 (codes "Point") []
      (record { narrow = refl; version = omega arith })
      (omega arith, (omega arith, (omega arith, (omega arith, tt)))) refl refl

-- ===== src/Tests/Classes.antt =====
-- `readClass` on a class with one constant, one static and two fields.
use phat.Base.{◌+◌, ◌≡◌, refl, none, [], ◌∷◌, ◌++◌, length, arith}
use phat.Env.{lookup32}
use phat.Dump.{Jdump, ok, skip}
use phat.Reader.Words.{be2, be4}
use phat.Class.{read_class, Links}
use phat.Class.Accounting.{read_class-accounting}
use phat.Class.Runs.{ClassDump, class_bytes, dumped}
use phat.Value.Encode.{int, object}
use phat.Main.{new_dump}
use phat.Tests.{test_env, blank_class}

abbrev links : Links
links = record { super_id = 0; loader_id = 0; signer_id = 0; domain_id = 0 }

abbrev point : ClassDump
point = record {
  ident = 7;
  stack = 1;
  links = links;
  res1 = 0;
  res2 = 0;
  instsz = 8;
  pool = (3, int 5) ∷ [];
  statics = (40, object 9) ∷ [];
  fields = (41, 10) ∷ (42, 2) ∷ [];
}

-- The dump stands before the class and one more byte, and knows the class.
abbrev before : Jdump
unfolding be2 be4
before = record (new_dump none 0 (class_bytes point ++ (9 ∷ []))) {
  f_version = 1;
  identsz = 4;
  c_table = (7, 0) ∷ [];
  classes = blank_class ∷ [];
}

read_class-accounting_example :
    read_class (length (class_bytes point) + 1) before
    ≡ ok (1 + 1) (record (skip (length (class_bytes point)) before) {
      classes = dumped blank_class point ∷ [];
    })
unfolding be2 be4 lookup32
read_class-accounting_example =
    read_class-accounting before point 0 blank_class 1 (9 ∷ [])
      (record { narrow = refl; version = omega arith }) (omega arith) refl refl refl (omega arith)

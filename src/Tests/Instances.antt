-- ===== src/Tests/Instances.antt =====
-- An instance of a class with a superclass that has fields.
use phat.Base.{ℕ, true, false, none, [], ◌∷◌, ◌++◌, List, codes}
use phat.Types.{Cinfo, Finfo, Hobject}
use phat.Reader.Words.{be4, be8}
use phat.Dump.{Jdump}
use phat.Value.Encode.{Basic, int, float, long, object}
use phat.Heap.Instances.{instance_head}
use phat.Resolve.Placed.{payloads, payloads_all}
use phat.Array.{h_instance}
use phat.Main.{new_dump}
use phat.Tests.{test_env, blank_class, blank_object}

abbrev field : ℕ → ℕ → Finfo
field ident t = record { ident = ident; name = none; ftype = t; resolved = false; offset = 0 }

abbrev root_class : Cinfo
root_class = record blank_class { ident = 60; resolved = true }

-- It has an `int` and a reference.
abbrev point_class : Cinfo
point_class = record blank_class {
  ident = 61;
  super_id = 60;
  cfields = 2;
  fields = field 30 b'I' ∷ field 31 b'L' ∷ [];
  resolved = true;
}

-- It has a `float` and a `long`.
abbrev place_class : Cinfo
place_class = record blank_class {
  ident = 62;
  super_id = 61;
  cfields = 2;
  fields = field 32 b'F' ∷ field 33 b'J' ∷ [];
}

abbrev own : List Basic
own = float 5 ∷ long 6 ∷ []

abbrev inherited : List (List Basic)
inherited = (int 7 ∷ object 0 ∷ []) ∷ []

abbrev place_dump : Jdump
unfolding be4 be8
place_dump =
    record (new_dump none 0
      (instance_head 21 1 62 20 (payloads own ++ (payloads_all inherited ++ [])))) {
        f_version = 1;
        identsz = 4;
        sb_table =
            (30, codes "x") ∷ (31, codes "next") ∷ (32, codes "height") ∷ (33, codes "time") ∷ [];
        c_table = (60, 0) ∷ (61, 1) ∷ (62, 2) ∷ [];
        classes = root_class ∷ point_class ∷ place_class ∷ [];
      }

-- An object of the class, whose values stand at the start of the file.
abbrev place : Hobject
place = record blank_object { htype = h_instance; inst_id = 21; class_id = 62 }

abbrev stored_dump : Jdump
unfolding be4 be8
stored_dump = record (new_dump none 0 (payloads own ++ (payloads_all inherited ++ []))) {
  f_version = 1;
  identsz = 4;
  sb_table = (30, codes "x") ∷ (31, codes "next") ∷ (32, codes "height") ∷ (33, codes "time") ∷ [];
  c_table = (60, 0) ∷ (61, 1) ∷ (62, 2) ∷ [];
  classes = root_class ∷ point_class ∷ place_class ∷ [];
  objects = place ∷ [];
}

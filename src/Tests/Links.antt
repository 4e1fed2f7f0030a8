-- ===== src/Tests/Links.antt =====
-- Two references from an object of one class to an object of another.
use phat.Base.{◌≡◌, refl, none, [], ◌∷◌, arith}
use phat.Env.{lookup32}
use phat.Types.{Cinfo, Hobject}
use phat.Dump.{Jdump, ok, ◌>>◌}
use phat.Arcs.{arc_add, arc_lookup}
use phat.Arcs.Twice.{new_arc, with_arc, arc_add-twice}
use phat.Main.{new_dump}
use phat.Tests.{test_env, blank_class, blank_object}

abbrev list_object : Hobject
list_object = record blank_object { class_id = 20 }

abbrev node_object : Hobject
node_object = record blank_object { class_id = 21; size = 6 }

abbrev list_class : Cinfo
list_class = record blank_class { ident = 20 }

abbrev node_class : Cinfo
node_class = record blank_class { ident = 21 }

abbrev objects_dump : Jdump
objects_dump = record (new_dump none 0 []) {
  c_table = (20, 0) ∷ (21, 1) ∷ [];
  classes = list_class ∷ node_class ∷ [];
  objects = list_object ∷ node_object ∷ [];
}

arc_add-twice_example :
    (arc_add 0 1 1 >> arc_add 0 1 1) objects_dump
    ≡ ok tt (
        with_arc objects_dump 0 1 list_class node_class
          (new_arc objects_dump 0 1 list_class node_class 2 12))
unfolding lookup32 arc_lookup
arc_add-twice_example =
    arc_add-twice objects_dump 0 1 0 1 list_object node_object list_class node_class 1 1 (record {
      from = refl;
      to = refl;
      parent = refl;
      child = refl;
      parent_class = refl;
      child_class = refl;
      apart = λ e. absurd (omega (arith, e));
      none_yet = refl;
    })

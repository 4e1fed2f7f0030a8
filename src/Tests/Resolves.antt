-- ===== src/Tests/Resolves.antt =====
-- A class with two fields, its superclass, and arrays of `int`, of characters and of objects.
use phat.Base.{ℕ, ◌≡◌, refl, true, false, none, [], ◌∷◌, ◌++◌, arith, codes}
use phat.Env.{lookup32}
use phat.Types.{Cinfo, Finfo, Hobject, Hvalue}
use phat.Reader.Words.{be4}
use phat.Dump.{Jdump, ok, out_of_fuel}
use phat.Class.{hash_key}
use phat.Array.{h_oarray, h_varray}
use phat.Array.Accounting.{array_head}
use phat.Print.{print_instance}
use phat.Print.Arrays.{e_int, element_bytes}
use phat.Print.Circles.{print_instance-endless}
use phat.Resolve.Layout.{resolve_sclass_size, resolve_class_node}
use phat.Resolve.Chain.{top, below, resolve_sclass_size-sum}
use phat.Resolve.Own.{resolved_class, resolve_class_node-layout}
use phat.Main.{new_dump}
use phat.Tests.{test_env, blank_class, blank_object}

abbrev field : ℕ → ℕ → Finfo
field ident t = record { ident = ident; name = none; ftype = t; resolved = false; offset = 0 }

abbrev object_class : Cinfo
object_class = record blank_class { ident = 60; resolved = true }

abbrev point_class : Cinfo
point_class = record blank_class {
  ident = 61;
  super_id = 60;
  cfields = 2;
  fields = field 30 b'I' ∷ field 31 b'L' ∷ [];
}

abbrev classes_dump : Jdump
classes_dump = record (new_dump none 0 []) {
  identsz = 4;
  sb_table = (30, codes "x") ∷ (31, codes "next") ∷ [];
  c_table = (60, 0) ∷ (61, 1) ∷ [];
  classes = object_class ∷ point_class ∷ [];
}

resolve_sclass_size-sum_example : resolve_sclass_size 2 1 classes_dump ≡ ok 2 classes_dump
unfolding lookup32
resolve_sclass_size-sum_example =
    resolve_sclass_size-sum 2 classes_dump 1 (2 ∷ [])
      (below 1 0 point_class [] refl (λ e. absurd (omega (arith, e))) refl
        (top 0 object_class refl refl))
      (omega arith)

-- A class that inherits two fields, and has one.
abbrev place_class : Cinfo
place_class = record blank_class {
  ident = 62;
  super_id = 61;
  cfields = 1;
  fields = field 32 b'J' ∷ [];
}

abbrev resolved_point : Cinfo
resolved_point = record point_class { resolved = true }

abbrev places_dump : Jdump
places_dump = record classes_dump {
  sb_table = (30, codes "x") ∷ (31, codes "next") ∷ (32, codes "time") ∷ [];
  c_table = (60, 0) ∷ (61, 1) ∷ (62, 2) ∷ [];
  classes = object_class ∷ resolved_point ∷ place_class ∷ [];
}

resolve_class_node-layout_example :
    resolve_class_node 3 2 places_dump
    ≡ ok tt (record places_dump {
      classes =
          object_class
          ∷ resolved_point
          ∷ resolved_class places_dump place_class (point_class.fields ∷ [])
          ∷ [];
    })
unfolding lookup32
resolve_class_node-layout_example =
    resolve_class_node-layout 2 places_dump 2 1 place_class resolved_point (point_class.fields ∷ [])
      refl refl refl (omega arith) refl (λ e. absurd (omega (arith, e))) refl refl
      (λ e. absurd (omega (arith, e))) refl
      (
        record {
          base = record {
            at = 1;
            class = resolved_point;
            known = refl;
            apart = λ e. absurd (omega (arith, e));
            here = refl;
          };
          has_super = λ e. absurd (omega (arith, e));
          fields = refl;
          count = refl;
        },
        record {
          base = record {
            at = 0;
            class = object_class;
            known = refl;
            apart = λ e. absurd (omega (arith, e));
            here = refl;
          };
          no_super = refl;
        },
      )
      (omega arith)

-- An array of two ints.
abbrev two_elements : Hobject
two_elements = record blank_object {
  htype = h_varray;
  inst_id = 70;
  xclass_id = 10;
  count = 2;
  raw = element_bytes e_int 7 ++ (element_bytes e_int 1 ++ []);
}

abbrev elements_dump : Jdump
elements_dump = record (new_dump none 0 []) { objects = two_elements ∷ [] }

abbrev circle : Hobject
circle = record blank_object {
  htype = h_oarray;
  inst_id = 70;
  count = 1;
  hvalues = Hvalue.ident 70 ∷ [];
}

abbrev circle_dump : Jdump
circle_dump = record (new_dump none 0 []) { h_table = (70, 0) ∷ []; objects = circle ∷ [] }

print_instance-endless_example : print_instance 9 0 1 false false circle_dump ≡ out_of_fuel
unfolding lookup32
print_instance-endless_example =
    print_instance-endless 9 circle_dump 0 1 circle 70 [] false false (record {
      here = refl;
      htype = refl;
      visit = refl;
      count = omega arith;
      hvalues = refl;
      not_null = λ e. absurd (omega (arith, e));
      itself = refl;
      plimit = refl;
    })

abbrev ints : Cinfo
ints = record blank_class { ident = 90; name = codes "[I"; resolved = true }

abbrev two_ints : Jdump
unfolding hash_key be4
two_ints = record (new_dump none 0 (array_head 5 1 2 (10 ∷ ((be4 7 ++ be4 8) ++ [])))) {
  f_version = 1;
  identsz = 4;
  c_table = (90, 0) ∷ [];
  rc_table = (hash_key (codes "[I"), 0) ∷ [];
  classes = ints ∷ [];
}

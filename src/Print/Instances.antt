-- ===== src/Print/Instances.antt =====
-- What is printed of an instance that is resolved and then printed, as `collectStats` does.
use phat.Base.{◌+◌, ◌%◌, ◌^◌, true, List, ◌∷◌, ◌++◌, set}
use phat.Env.{Env}
use phat.Types.{Ptr, Hobject, Cinfo, Finfo, Line}
use phat.Dump.{Jdump}
use phat.Value.Encode.{Basic}
use phat.Resolve.Fields.{counted, Fields}
use phat.Resolve.Fields.Loop.{filled_object}
use phat.Resolve.Own.{resolved_class}
use phat.Resolve.Placed.{upward}
use phat.Print.Fields.{field_lines}

module _ ⦃env : Env⦄ where
  -- The lines of an instance: its head and its fields.
  abbrev pub instance_lines : Hobject → Cinfo → List Basic → List Line
  instance_lines ho ci vs =
      Line.instance_head ho.inst_id ho.class_id ci.name ho.osize ((ho.osize + ho.csize) % 2 ^ 64)
      ∷ field_lines 0 0 ci.values vs

  -- The object has been printed.
  abbrev pub visited : Jdump → Ptr → Hobject → Jdump
  visited d q ho = record d { objects = set d.objects q (record ho { visit = true }) }

  -- The object and the class when the fields have been resolved.
  abbrev pub resolved_object : Hobject → List Basic → List (List Basic) → Hobject
  resolved_object ho vs vss = filled_object (record ho { resolved = true }) (upward vss ++ vs)

  abbrev pub sized_class :
      Jdump → Cinfo → List (List Finfo) → List Basic → List (List Basic) → Cinfo
  sized_class d ci fss vs vss = record (resolved_class d ci fss) {
    size = counted (upward vss ++ vs);
  }

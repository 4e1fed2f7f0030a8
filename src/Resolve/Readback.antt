-- ===== src/Resolve/Readback.antt =====
-- The fields of an instance, which the handler of an instance leaves out and `resolveInstance` reads.
use phat.Base.{ℕ, true, List, map, set}
use phat.Env.{Env}
use phat.Types.{Hobject, Cinfo, Finfo}
use phat.Dump.{Jdump, skip}
use phat.Value.Encode.{Basic}
use phat.Heap.Instances.{instance_obj, with_instance, counted_class}
use phat.Resolve.Fields.{counted, field_hvalue}

module _ ⦃env : Env⦄ where
  -- The object with its fields.
  abbrev pub read_instance : Jdump → ℕ → ℕ → List Basic → Hobject
  read_instance d ide class_id vs = record (instance_obj (skip 16 d) ide class_id) {
    resolved = true;
    hvalues = map field_hvalue vs;
    osize = counted vs;
  }

  module _ (k : ℕ) (d : Jdump) (ide class_id isz p h : ℕ) (ci : Cinfo) (fss : List (List Finfo))
      (vs : List Basic) (vss : List (List Basic)) (r : List ℕ) where
    -- The state behind the handler.
    abbrev filed : Jdump
    filed = skip isz (
        with_instance (record (skip 16 d) { classes = set d.classes p (counted_class ci) }) ide
          class_id)

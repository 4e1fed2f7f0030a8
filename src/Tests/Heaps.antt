-- ===== src/Tests/Heaps.antt =====
-- The loop of `readHeap` on a heap with a root, a class, an instance and an array, and at the end of
-- the file; the handlers of a root and of an instance.
use phat.Base.{ℕ, ◌+◌, ◌*◌, ◌≡◌, refl, none, List, [], ◌∷◌, length, set, arith, codes}
use phat.Env.{lookup32, insert32}
use phat.Types.{Cinfo}
use phat.Dump.{Jdump, ok, skip}
use phat.Reader.Words.{be2, be4}
use phat.Reader.Reads.{Runs}
use phat.Class.{sub32, hash_key}
use phat.Class.Runs.{ClassDump, dumped}
use phat.Array.{prim_sig}
use phat.Value.Encode.{int}
use phat.Heap.{heap_loop, instance_dump, no_records}
use phat.Heap.Roots.{jni_local, root_words, words_bytes, kept_root, root_handler, root_handler-Runs}
use phat.Heap.Instances.{instance_head, with_instance, counted_class, instance_dump-Runs}
use phat.Heap.Items.{Item, a_root, a_class, an_instance, a_prim_array}
use phat.Heap.Loop.{items_bytes, after_all, tallied_all, heap_loop-records}
use phat.Heap.Eof.{printed, unknowns, heap_loop-eof}
use phat.Main.{new_dump}
use phat.Tests.{test_env, blank_class}

abbrev ints : Cinfo
ints = record blank_class { ident = 90; name = codes "[I" }

abbrev points : Cinfo
points = record blank_class { ident = 91; name = codes "Point" }

-- A dump whose class table holds the two classes.
abbrev heap_of : List ℕ → Jdump
heap_of bytes = record (new_dump none 0 bytes) {
  f_version = 1;
  identsz = 4;
  c_table = (90, 0) ∷ (91, 1) ∷ [];
  rc_table = (hash_key (codes "[I"), 0) ∷ [];
  classes = ints ∷ points ∷ [];
}

abbrev local_dump : Jdump
unfolding be4
local_dump = heap_of (words_bytes (root_words (jni_local 20 1 0)))

root_handler-Runs_example :
    Runs
      (root_handler (jni_local 20 1 0) 12)
      local_dump
      (sub32 12 12)
      (kept_root (jni_local 20 1 0) (skip 12 local_dump))
unfolding be4
root_handler-Runs_example =
    root_handler-Runs (jni_local 20 1 0) local_dump 12 []
      (record { narrow = refl; version = omega arith })
      (omega arith, (omega arith, (omega arith, tt))) refl

abbrev fields : List ℕ
fields = 1 ∷ 2 ∷ 3 ∷ []

abbrev instance_file : Jdump
unfolding be4
instance_file = heap_of (instance_head 21 1 91 3 fields)

instance_dump-Runs_example : Runs (instance_dump 20) instance_file (sub32 20 (16 + 3)) (
    skip 3 (
      with_instance
        (record (skip 16 instance_file) {
          classes = set instance_file.classes 1 (counted_class points);
        })
        21
        91))
unfolding be4 lookup32
instance_dump-Runs_example =
    instance_dump-Runs instance_file 21 91 3 1 20 points fields 1
      (record { narrow = refl; version = omega arith }) (omega arith) (omega arith) (omega arith)
      (omega arith) refl refl (omega arith) refl

abbrev small : ClassDump
small = record {
  ident = 91;
  stack = 1;
  links = record { super_id = 0; loader_id = 0; signer_id = 0; domain_id = 0 };
  res1 = 0;
  res2 = 0;
  instsz = 3;
  pool = [];
  statics = (40, int 5) ∷ [];
  fields = (41, 10) ∷ [];
}

abbrev a_heap : List Item
a_heap =
    a_root (jni_local 20 1 0)
    ∷ a_class small 1 points
    ∷ an_instance 21 1 91 fields 1 (dumped points small)
    ∷ a_prim_array 22 1 2 8 b'B' 1 (4 ∷ 5 ∷ []) 0 ints
    ∷ []

abbrev heap_file : Jdump
unfolding be2 be4
heap_file = record (heap_of (items_bytes a_heap)) { rc_table = (hash_key (codes "[B"), 0) ∷ [] }

heap_loop-records_example :
    heap_loop (4 + 0) (length (items_bytes a_heap)) no_records heap_file
    ≡ ok (tallied_all a_heap no_records) (after_all a_heap heap_file)
unfolding be2 be4 lookup32 insert32 hash_key prim_sig
heap_loop-records_example =
    heap_loop-records a_heap 0 no_records heap_file []
      (record { narrow = refl; version = omega arith })
      (
        (omega arith, (omega arith, (omega arith, tt))),
        (
          (omega arith, refl, refl, refl),
          (
            (omega arith, omega arith, omega arith, refl, refl, omega arith),
            ((omega arith, omega arith, omega arith, refl, refl, refl, refl), tt),
          ),
        ),
      )
      refl (omega arith)

-- The file has ended, and 15 bytes are said to follow.
heap_loop-eof_example :
    heap_loop (3 + 0) (5 * 3) no_records (heap_of [])
    ≡ ok no_records (printed (heap_of []) (unknowns 3))
heap_loop-eof_example =
    heap_loop-eof 3 0 no_records (heap_of []) (record { narrow = refl; version = omega arith }) refl
      (omega arith)

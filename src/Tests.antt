-- ===== src/Tests.antt =====
-- Concrete inputs for the theorems, and what the definitions compute at them. What phat.c leaves to
-- its libraries is instantiated by an association list for the tree and a sum for the checksum.
pub mod Classes
pub mod Graphs
pub mod Readers
pub mod Print
pub mod Arrays
pub mod Heaps
pub mod Records
pub mod Sorts
pub mod Resolves
pub mod Whole
pub mod Links
pub mod Numbers
pub mod Instances
use phat.Base.{
  ℕ, ◌+◌, ◌*◌, ◌%◌, ◌^◌, ◌≡◌, refl, Bool, true, false, Option, none, some, List, [], ◌∷◌, arith,
  ◌==◌, if◌then◌else◌,
}
use phat.Env.{Env, Node, leaf, node}
use phat.Types.{Hobject, Finfo, Cinfo, Arc}

abbrev pub find : {A : Type 0} → List (ℕ × A) → ℕ → Option A
find [] j = none
find ((k, v) ∷ t) j = if k == j then some v else find t j

abbrev pub insert : {A : Type 0} → List (ℕ × A) → ℕ → A → List (ℕ × A)
insert [] k v = (k, v) ∷ []
insert ((i, w) ∷ t) k v = if i == k then (k, v) ∷ t else (i, w) ∷ insert t k v

pub find-insert :
    {A : Type 0} (t : List (ℕ × A)) (k j : ℕ) (v : A)
    → find (insert t k v) j ≡ (if k == j then some v else find t j)
find-insert [] k j v = refl
find-insert ((i, w) ∷ t) k j v = ground (arith, find-insert t k j v)

abbrev chain : {A : Type 0} → List (ℕ × A) → Node A
chain [] = leaf
chain ((k, v) ∷ t) = node leaf k v (chain t)

abbrev total : ℕ → List ℕ → ℕ
total acc [] = acc
total acc (b ∷ bs) = total ((acc * 31 + b) % 2 ^ 32) bs

abbrev pub blank_class : Cinfo
blank_class = record {
  ident = 0;
  nident = 0;
  name = [];
  count = 0;
  super_id = 0;
  loader_id = 0;
  signer_id = 0;
  domain_id = 0;
  cstats = 0;
  cfields = 0;
  tfields = 0;
  resolved = false;
  statics = [];
  fields = [];
  values = [];
  size = 0;
  child_size = 0;
  cyc_num = 0;
  cyc_head = 0;
  cyc_next = none;
  top_order = 0;
  print_flag = false;
  index = 0;
  parents = none;
  children = none;
}

abbrev pub blank_object : Hobject
blank_object = record {
  htype = 0;
  inst_id = 0;
  class_id = 0;
  fpos = 0;
  xclass_id = 0;
  resolved = false;
  visit = false;
  count = 0;
  size = 0;
  osize = 0;
  csize = 0;
  hvalues = [];
  raw = [];
}

abbrev blank_field : Finfo
blank_field = record { ident = 0; name = none; ftype = 0; resolved = false; offset = 0 }

abbrev blank_arc : Arc
blank_arc = record {
  parent = 0;
  child = 0;
  next_parent = none;
  next_child = none;
  count = 0;
  size = 0;
  child_size = 0;
}

instance abbrev pub test_env : Env
test_env = record {
  Tree = λ A. List (ℕ × A);
  trbt_create = λ A. [];
  trbt_insert32 = insert;
  trbt_lookup32 = find;
  root = chain;
  lookup-create = λ A k. refl;
  lookup-insert = λ t k j v h i. find-insert t k j v;
  talloc_cinfo = λ p. blank_class;
  talloc_hobject = λ p. blank_object;
  talloc_arc = λ p. blank_arc;
  talloc_static = λ i. blank_object;
  talloc_finfo = blank_field;
  crc32_init = 0;
  crc32 = total;
}

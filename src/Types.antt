-- ===== src/Types.antt =====
-- The structures at the top of phat.c. A pointer is the place of its target in the list of all
-- structures of that type; `none` is NULL. C's integers are natural numbers.
use phat.Base.{ℕ, Bool, Option, List}

abbrev pub Ptr : Type 0
Ptr = ℕ

-- A C string, without its NUL.
abbrev pub CString : Type 0
CString = List ℕ

-- union hvalue: the member that was written last, with its bits.
pub data Hvalue : Type 0 where
  ident : ℕ → Hvalue
  b : ℕ → Hvalue
  c : ℕ → Hvalue
  i : ℕ → Hvalue
  j : ℕ → Hvalue
  f : Hvalue
  d : Hvalue

-- struct _hobject. `hvalues` is the array of unions of an instance or an object array, `raw` the
-- same memory as the bytes that were read into it for an array of primitives.
pub record Hobject : Type 0 where
  pub htype : ℕ
  pub inst_id : ℕ
  pub class_id : ℕ
  pub fpos : ℕ
  pub xclass_id : ℕ
  pub resolved : Bool
  pub visit : Bool
  pub count : ℕ
  pub size : ℕ
  pub osize : ℕ
  pub csize : ℕ
  pub hvalues : List Hvalue
  pub raw : List ℕ

-- struct _finfo
pub record Finfo : Type 0 where
  pub ident : ℕ
  pub name : Option CString
  pub ftype : ℕ
  pub resolved : Bool
  pub offset : ℕ

-- struct _cinfo. `children` and `parents` head lists of arcs; a pointer of `values`
-- that has not been set is `none`.
pub record Cinfo : Type 0 where
  pub ident : ℕ
  pub nident : ℕ
  pub name : CString
  pub count : ℕ
  pub super_id : ℕ
  pub loader_id : ℕ
  pub signer_id : ℕ
  pub domain_id : ℕ
  pub cstats : ℕ
  pub cfields : ℕ
  pub tfields : ℕ
  pub resolved : Bool
  pub statics : List Hobject
  pub fields : List Finfo
  pub values : List (Option Finfo)
  pub size : ℕ
  pub child_size : ℕ
  pub parents : Option Ptr
  pub children : Option Ptr
  pub cyc_num : ℕ
  pub cyc_head : Ptr
  pub cyc_next : Option Ptr
  pub top_order : ℕ
  pub print_flag : Bool
  pub index : ℕ

-- struct _arc
pub record Arc : Type 0 where
  pub parent : Ptr
  pub child : Ptr
  pub next_parent : Option Ptr
  pub next_child : Option Ptr
  pub count : ℕ
  pub size : ℕ
  pub child_size : ℕ

-- The `rtype` of a root.
pub data RootType : Type 0 where
  native_static native_local java_local native_stack system_class thread_block : RootType

-- struct _rinfo; `desc` is always the empty string.
pub record Rinfo : Type 0 where
  pub ident : ℕ
  pub ref : ℕ
  pub rtype : RootType

-- What the tree of roots points to: a `struct _rinfo`, or the `int` that a busy monitor leaves.
pub data Root : Type 0 where
  info : Rinfo → Root
  monitor : ℕ → Root

-- The twelve counters of `readHeap`.
pub record Tally : Type 0 where
  pub roott : ℕ
  pub rootg : ℕ
  pub rootl : ℕ
  pub frame : ℕ
  pub stack : ℕ
  pub sclass : ℕ
  pub tblock : ℕ
  pub monitor : ℕ
  pub cclass : ℕ
  pub inst : ℕ
  pub oarr : ℕ
  pub parr : ℕ

-- What the program prints on its standard output, a constructor for each form of line. Messages on
-- the standard error are left out, and `time_t` and pointers are printed as their numbers.
pub data Line : Type 0 where
  dump_created : ℕ → Line
  frame_line : ℕ → CString → CString → ℕ → CString → CString → ℕ → Line
  trace_line : ℕ → ℕ → ℕ → Line
  root_unknown : Line
  invalid_root : ℕ → Line
  invalid_class : ℕ → Line
  name_line : CString → Line
  arc_line : ℕ → ℕ → ℕ → Line
  node_line : ℕ → ℕ → ℕ → ℕ → Line
  heap_summary : Tally → Line
  class_line : ℕ → ℕ → ℕ → CString → Line
  instance_line : ℕ → ℕ → ℕ → CString → Line
  findclass_not_found : CString → Line
  recursive : ℕ → ℕ → ℕ → ℕ → Line
  value_array : ℕ → ℕ → ℕ → ℕ → ℕ → Line
  object_array : ℕ → ℕ → ℕ → ℕ → Line
  instance_head : ℕ → ℕ → CString → ℕ → ℕ → Line
  string_head : ℕ → ℕ → CString → Line
  hex : ℕ → Line
  char : ℕ → Line
  more_elements : ℕ → Line
  equal_elements : ℕ → Line
  unknown_instance : ℕ → Line
  tabs : ℕ → Line
  enter : ℕ → Line
  leave : ℕ → Line
  field_head : ℕ → ℕ → ℕ → Option CString → Line
  number : ℕ → Line
  text : CString → Line
  begin_node : Ptr → Line
  end_node : Ptr → Line

-- ===== src/Print.antt =====
-- What is printed of classes and objects: `printClass_r`, `printClass`, `printInstance`,
-- `printString`, `printInstances` and `collectStats`. Objects may refer to one another in a circle,
-- so these run on fuel.
pub mod Classes
pub mod Orders
pub mod Circles
pub mod Elements
pub mod Arrays
pub mod Fields
pub mod Instances
use phat.Base.{
  ℕ, zero, suc, ◌+◌, ◌-◌, ◌*◌, ◌%◌, ◌^◌, Bool, true, false, ◌||◌, ◌&&◌, Option, none, some, List,
  [], ◌∷◌, ◌/◌, not, ltb, leb, ◌==◌, if◌then◌else◌, get_elem?, codes,
}
use phat.Env.{Env, Node, leaf, node, lookup32}
use phat.Types.{Ptr, Hobject, Hvalue, Finfo, Line}
use phat.Dump.{
  M, pure, undef, out_of_fuel, ◌>>=◌, ◌>>◌, given, state, print, load_class, load_object,
  store_object,
}
use phat.Array.{h_varray, h_oarray}
use phat.Resolve.{resolve_instance}

-- The bytes of an element in the memory of a little-endian host: the first is the lowest.
abbrev native : List ℕ → ℕ
native [] = 0
native (b ∷ bs) = b + 2 ^ 8 * native bs

abbrev cons_byte : Option ℕ → Option (List ℕ) → Option (List ℕ)
cons_byte none bs = none
cons_byte (some b) none = none
cons_byte (some b) (some bs) = some (b ∷ bs)

-- The `n` bytes from place `at` on; `none` where memory has not been set.
unfoldable pub bytes_at : ℕ → ℕ → List ℕ → Option (List ℕ)
bytes_at zero at raw = some []
bytes_at (suc n) at raw = cons_byte (get_elem? raw at) (bytes_at n (at + 1) raw)

-- `%x` of a `char` prints it as a signed `int`.
abbrev pub sign_extend : ℕ → ℕ
sign_extend b = if leb 128 b then b + 2 ^ 32 - 256 else b

module _ ⦃env : Env⦄ where
  abbrev load_elem : ℕ → ℕ → List ℕ → M ℕ
  load_elem elsz i raw = given (bytes_at elsz (i * elsz) raw) >>= λ bs. pure (native bs)

  -- The switch of printInstance on the type of an element.
  unfoldable pub print_elem : ℕ → Bool → List ℕ → ℕ → M (Unit {0})
  unfolding bytes_at
  print_elem t in_string raw i =
      if t == 4 || t == 8
      then (do b ← load_elem 1 i raw; print (Line.hex (sign_extend b)))
      else if t == 5
      then (do c ← load_elem 2 i raw; print (Line.char (c / 2 ^ 8)))
      else if t == 9
      then (do
        c ← load_elem 2 i raw
        print (if in_string then Line.char (c / 2 ^ 8) else Line.hex c))
      else if t == 10
      then (do c ← load_elem 4 i raw; print (Line.hex c))
      else if t == 11
      then (do c ← load_elem 8 i raw; print (Line.hex c))
      else pure tt

  -- for (i = 0; i < ho->count; i++), `n` rounds of which are left: it stops behind a hundred and one.
  unfoldable pub print_elems : ℕ → ℕ → ℕ → Bool → List ℕ → M (Unit {0})
  unfolding print_elem
  print_elems zero i t in_string raw = pure tt
  print_elems (suc n) i t in_string raw =
      if ltb 100 i
      then print (Line.more_elements (suc n))
      else (do print_elem t in_string raw i; print_elems n (i + 1) t in_string raw)

  abbrev when : Bool → M (Unit {0}) → M (Unit {0})
  when true m = m
  when false m = pure tt

  -- `if (indent) fputs(...)`
  abbrev tabs : ℕ → ℕ → M (Unit {0})
  tabs indent n = when (ltb 0 indent) (print (Line.tabs n))

  -- The branch for an array of primitives.
  unfoldable pub print_varray : Hobject → ℕ → Bool → M (Unit {0})
  unfolding print_elems
  print_varray ho indent in_string = do
    print (Line.value_array ho.inst_id ho.class_id ho.xclass_id ho.count ho.osize)
    let t = if ho.xclass_id == 0 then ho.class_id else ho.xclass_id
    when (ltb 0 ho.count) (tabs indent 2 >> print_elems ho.count 0 t in_string ho.raw)
    print (Line.text [])

  abbrev flush_count : ℕ → M (Unit {0})
  flush_count last_cnt = when (ltb 0 last_cnt) (print (Line.equal_elements last_cnt))

  abbrev pub null_or_unknown : ℕ → Line
  null_or_unknown v = if v == 0 then Line.text (codes "[null]") else Line.unknown_instance v

  -- The object that an identifier other than 0 names.
  abbrev dereference : ℕ → M (Option Ptr)
  dereference v = do d ← state; pure (if v == 0 then none else lookup32 d.h_table v)

  -- One round of the loop over an array of objects, with `last_cnt` and `last_pid`.
  abbrev print_ref : (Ptr → M (Unit {0})) → ℕ → ℕ → Option Ptr → ℕ → ℕ → M (ℕ × ℕ)
  print_ref show indent v (some dref) last_cnt last_pid =
      flush_count last_cnt >> (show dref >> pure (0, last_pid))
  print_ref show indent v none last_cnt last_pid =
      if last_pid == v
      then pure (last_cnt + 1, last_pid)
      else (do flush_count last_cnt; tabs indent 3; print (null_or_unknown v); pure (1, v))

  abbrev ident_of : Hvalue → ℕ
  ident_of (Hvalue.ident v) = v
  ident_of (Hvalue.b v) = v
  ident_of (Hvalue.c v) = v
  ident_of (Hvalue.i v) = v
  ident_of (Hvalue.j v) = v
  ident_of _ = 0

  -- for (i = 0; i < ho->count; i++), on the elements that are left.
  unfoldable pub print_refs : (Ptr → M (Unit {0})) → ℕ → Bool → List Hvalue → ℕ → ℕ → M (Unit {0})
  print_refs show indent pshort [] last_cnt last_pid = flush_count last_cnt
  print_refs show indent pshort (v ∷ vs) last_cnt last_pid =
      if pshort && ident_of v == 0 then print_refs show indent pshort vs last_cnt last_pid else (do
        dref ← dereference (ident_of v)
        (cnt, pid) ← print_ref show indent (ident_of v) dref last_cnt last_pid
        print_refs show indent pshort vs cnt pid)

  -- The branch for an array of objects; `last_pid = ~0`.
  unfoldable pub print_oarray : (Ptr → M (Unit {0})) → Hobject → ℕ → Bool → M (Unit {0})
  unfolding print_refs
  print_oarray show ho indent pshort = do
    print (Line.object_array ho.inst_id ho.class_id ho.count ho.osize)
    when (ltb 0 ho.count) (print_refs show indent pshort ho.hvalues 0 (2 ^ 64 - 1))

  abbrev print_ref_field : (Ptr → M (Unit {0})) → ℕ → Option Ptr → M (Unit {0})
  print_ref_field show v (some dref) = show dref
  print_ref_field show v none = print (null_or_unknown v)

  -- The switch on the type of a field, which ends its line.
  unfoldable pub print_value : (Ptr → M (Unit {0})) → ℕ → Hvalue → M (Unit {0})
  print_value show t v =
      if t == b'[' || t == b'L'
      then (do dref ← dereference (ident_of v); print_ref_field show (ident_of v) dref)
      else if t == b'B' || t == b'Z' || t == b'C' || t == b'S' || t == b'I' || t == b'J'
      then print (Line.number (ident_of v))
      else print (Line.text (codes " 0 0 "))

  -- for (i = 0; i < ci->tfields; i++), `n` rounds of which are left.
  unfoldable pub print_fields : (Ptr → M (Unit {0})) → ℕ → Ptr → Ptr → ℕ → ℕ → M (Unit {0})
  unfolding print_value
  print_fields show indent q p zero i = pure tt
  print_fields show indent q p (suc n) i = do
    ci ← load_class p
    slot ← given (get_elem? ci.values i)
    info ← given slot
    ho ← load_object q
    v ← given (get_elem? ho.hvalues i)
    tabs indent 1
    print (Line.field_head i info.offset info.ftype info.name)
    print_value show info.ftype v
    print_fields show indent q p n (i + 1)

  abbrev pub is_class : Ptr → Option Ptr → Bool
  is_class p none = false
  is_class p (some s) = p == s

  -- The branch for an instance: `visit` is set for good, so that an object is printed once.
  -- `show` prints a field's object, given whether this object is a string.
  unfoldable pub print_plain : (Bool → Ptr → M (Unit {0})) → Ptr → Hobject → ℕ → Bool → M (Unit {0})
  unfolding print_fields
  print_plain show q ho indent pshort = do
    d ← state
    p ← given (lookup32 d.c_table ho.class_id)
    ci ← load_class p
    print (
        Line.instance_head ho.inst_id ho.class_id ci.name ho.osize ((ho.osize + ho.csize) % 2 ^ 64))
    when (not pshort) (do
      store_object q (record ho { visit = true })
      when (ltb 0 indent) (print (Line.enter indent))
      print_fields (show (is_class p d.java_lang_string)) indent q p ci.tfields 0
      when (ltb 0 indent) (print (Line.leave indent)))

  -- printInstance
  unfoldable pub print_instance : ℕ → Ptr → ℕ → Bool → Bool → M (Unit {0})
  unfolding print_varray print_oarray print_plain
  print_instance zero q indent pshort in_string = λ _. out_of_fuel
  print_instance (suc k) q indent pshort in_string = do
    ho ← load_object q
    d ← state
    if ho.visit
        then print (Line.recursive ho.inst_id ho.class_id ho.osize ((ho.osize + ho.csize) % 2 ^ 64))
        else if ltb 1 indent && not (d.plimit == 0) && ltb d.plimit indent
        then pure tt
        else if ho.htype == h_varray
        then print_varray ho indent in_string
        else if ho.htype == h_oarray
        then print_oarray (λ q'. print_instance k q' (1 + indent) false false) ho indent pshort
        else print_plain (λ is_string q'. print_instance k q' (1 + indent) false is_string) q ho
            indent pshort

  -- printString
  unfoldable pub print_string : ℕ → Ptr → M (Unit {0})
  unfolding print_fields print_instance
  print_string fuel q = do
    ho ← load_object q
    d ← state
    p ← given (lookup32 d.c_table ho.class_id)
    ci ← load_class p
    print (Line.string_head ho.inst_id ho.class_id ci.name)
    print_fields (λ q'. print_instance fuel q' 1 true true) 0 q p ci.tfields 0

  -- printInstances
  unfoldable pub print_instances : ℕ → Node Ptr → M (Unit {0})
  unfolding print_instance
  print_instances fuel leaf = pure tt
  print_instances fuel (node l key q r) = do
    print_instances fuel l
    print (Line.begin_node q)
    print_instance fuel q 0 false false
    print (Line.end_node q)
    print_instances fuel r

  -- collectStats: the objects of the class with the identifier `ckey`.
  unfoldable pub collect_stats : ℕ → Node Ptr → ℕ → M (Unit {0})
  unfolding resolve_instance print_instance
  collect_stats fuel leaf ckey = pure tt
  collect_stats fuel (node l key q r) ckey = do
    collect_stats fuel l ckey
    ho ← load_object q
    when (ckey == ho.class_id) (resolve_instance fuel q >> print_instance fuel q 0 false false)
    collect_stats fuel r ckey

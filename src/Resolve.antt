-- ===== src/Resolve.antt =====
-- Sizes and fields of objects: `resolveInstance` and the walks over a tree; Resolve/Layout is about
-- the fields of classes. A chain of references may be of any length, so these run on fuel.
pub mod Layout
pub mod Chain
pub mod Own
pub mod Contents
pub mod Fields
pub mod Placed
pub mod Instances
pub mod Readback
use mathlib.Core.Option
use phat.Base.{
  ℕ, zero, suc, ◌+◌, ◌-◌, ◌*◌, ◌%◌, ◌^◌, Bool, true, false, ◌||◌, ◌&&◌, Option, none, some, List,
  [], ◌∷◌, ltb, leb, ◌==◌, if◌then◌else◌, get_elem?, set,
}
use phat.Env.{Env, Node, leaf, node, lookup32}
use phat.Types.{Ptr, Hobject, Hvalue, Finfo}
use phat.Stdio.{getc, fread, seek_to}
use phat.Reader.{read_ushort, read_uint, read_ulong, read_ident}
use phat.Dump.{
  M, ok, undef, out_of_fuel, pure, ◌>>=◌, ◌>>◌, given, state, on_file, load_class, store_class,
  load_object, store_object,
}
use phat.Value.{as_uchar}
use phat.Array.{h_varray, h_oarray}
use phat.Arcs.{arc_add}
use phat.Resolve.Layout.{resolve_class_node}

-- The element type of a resolved array: by the second letter of the name of its class.
unfoldable pub xclass_of : ℕ → ℕ → ℕ
xclass_of c old =
    if c == b'B' || c == b'Z'
    then 8
    else if c == b'C' || c == b'S'
    then 9
    else if c == b'F'
    then 6
    else if c == b'D'
    then 7
    else if c == b'I'
    then 10
    else if c == b'J'
    then 11
    else old

-- Bytes per element, and whether they are read: floats and doubles are not.
unfoldable pub elem_size : ℕ → ℕ × Bool
elem_size t =
    if t == 4 || t == 8
    then (1, true)
    else if t == 5 || t == 9
    then (2, true)
    else if t == 6
    then (4, false)
    else if t == 7
    then (8, false)
    else if t == 10
    then (4, true)
    else if t == 11
    then (8, true)
    else (0, false)

-- `*(ci->name + 1)`, which a name of no characters does not have.
abbrev second : List ℕ → Option ℕ
second [] = none
second (a ∷ []) = some 0
second (a ∷ b ∷ s) = some b

-- talloc_array gives no array of 2 GB or more: as many values of 8 bytes as this are none.
abbrev pub max_values : ℕ
max_values = 2 ^ 28 - 1

module _ ⦃env : Env⦄ where
  -- fseeko(jf->fin, pos, SEEK_SET)
  abbrev seek_set : ℕ → M (Unit {0})
  seek_set pos d = ok tt (record d { fin = seek_to pos d.fin })

  -- The branch of resolveInstance for an array of primitives. Where there is no array, what is read is
  -- written to NULL.
  unfoldable pub resolve_varray : Ptr → Ptr → M ℕ
  unfolding xclass_of elem_size
  resolve_varray q p = do
    ho ← load_object q
    ci ← load_class p
    if ho.count == 0 then pure 0 else (do
      seek_set ho.fpos
      c ← given (if ltb 12 ho.class_id then second ci.name else some 0)
      let xclass = if ltb 12 ho.class_id then xclass_of c ho.xclass_id else ho.xclass_id
      let (elsz, is_read) = elem_size (if xclass == 0 then ho.class_id else xclass)
      let size = elsz * ho.count % 2 ^ 32
      if is_read && leb max_values ho.count then (λ _. undef) else (do
        raw ← on_file (fread (if is_read then elsz * ho.count else 0))
        store_object q (record ho { xclass_id = xclass; raw = raw; osize = size })
        store_class p (record ci { size = size })
        pure size))

  -- if (dref) { ho->csize += resolveInstance(jf, dref); arc_add(jf, ho, dref, 1); }
  abbrev follow_found : (Ptr → M ℕ) → Ptr → Option Ptr → M (Unit {0})
  follow_found resolve q none = pure tt
  follow_found resolve q (some dref) = do
    size ← resolve dref
    ho ← load_object q
    store_object q (record ho { csize = (ho.csize + size) % 2 ^ 64 })
    arc_add q dref 1

  abbrev pub follow : (Ptr → M ℕ) → Ptr → ℕ → M (Unit {0})
  follow resolve q ident = do d ← state; follow_found resolve q (lookup32 d.h_table ident)

  abbrev read_idents : ℕ → M (List Hvalue)
  read_idents zero = pure []
  read_idents (suc n) = do
    id ← read_ident
    ident ← given id
    more ← read_idents n
    pure (Hvalue.ident ident ∷ more)

  abbrev follow_all : (Ptr → M ℕ) → Ptr → List Hvalue → M (Unit {0})
  follow_all resolve q [] = pure tt
  follow_all resolve q (Hvalue.ident v ∷ vs) = follow resolve q v >> follow_all resolve q vs
  follow_all resolve q (_ ∷ vs) = follow_all resolve q vs

  -- The branch for an array of objects.
  unfoldable pub resolve_oarray : (Ptr → M ℕ) → Ptr → Ptr → M ℕ
  resolve_oarray resolve q p = do
    ho ← load_object q
    if ho.count == 0 then pure 0 else if leb max_values ho.count then (λ _. undef) else (do
      seek_set ho.fpos
      vs ← read_idents ho.count
      store_object q (record ho { hvalues = vs })
      follow_all resolve q vs
      d ← state
      ho' ← load_object q
      ci ← load_class p
      let osize = ho.count * d.identsz % 2 ^ 32
      store_object q (record ho' { osize = osize })
      store_class p (record ci { size = osize })
      pure ((osize + ho'.csize) % 2 ^ 64))

  -- `*(ho->hvalues + i) = v`
  abbrev set_hvalue : Ptr → ℕ → Hvalue → M (Unit {0})
  set_hvalue q i v = do
    ho ← load_object q
    store_object q (record ho { hvalues = set ho.hvalues i v })

  -- A number that could not be read leaves the union as it was.
  abbrev set_read : Ptr → ℕ → (ℕ → Hvalue) → Option ℕ → M (Unit {0})
  set_read q i c none = pure tt
  set_read q i c (some v) = set_hvalue q i (c v)

  -- The switch on the type of the i-th field: what it adds to `size`.
  unfoldable pub resolve_field : (Ptr → M ℕ) → Ptr → ℕ → ℕ → M ℕ
  resolve_field resolve q i t =
      if t == b'[' || t == b'L'
      then (do
        id ← read_ident
        ident ← given id
        set_hvalue q i (Hvalue.ident ident)
        follow resolve q ident
        d ← state
        pure d.identsz)
      else if t == b'Z' || t == b'B'
      then (do c ← on_file getc; set_hvalue q i (Hvalue.b (as_uchar c)); pure 1)
      else if t == b'S' || t == b'C'
      then (do v ← on_file read_ushort; set_read q i Hvalue.c v; pure 2)
      else if t == b'I'
      then (do v ← on_file read_uint; set_read q i Hvalue.i v; pure 4)
      else if t == b'J'
      then (do v ← on_file read_ulong; set_read q i Hvalue.j v; pure 8)
      else pure 0

  unfoldable pub resolve_fields : (Ptr → M ℕ) → Ptr → Ptr → ℕ → ℕ → ℕ → M ℕ
  unfolding resolve_field
  resolve_fields resolve q p zero i size = pure size
  resolve_fields resolve q p (suc n) i size = do
    ci ← load_class p
    slot ← given (get_elem? ci.values i)
    info ← given slot
    ho ← load_object q
    seek_set (ho.fpos + info.offset)
    s ← resolve_field resolve q i info.ftype
    resolve_fields resolve q p n (i + 1) (size + s)

  -- The unions of a new array. One is read before it is set only where its read falls short.
  abbrev pub fresh_values : ℕ → List Hvalue
  fresh_values zero = []
  fresh_values (suc n) = Hvalue.f ∷ fresh_values n

  -- The branch for an instance; a class has never as many fields as talloc_array refuses.
  unfoldable pub resolve_plain : (Ptr → M ℕ) → Ptr → Ptr → M ℕ
  unfolding resolve_fields
  resolve_plain resolve q p = do
    ho ← load_object q
    ci ← load_class p
    store_object q
        (record ho { hvalues = if ci.tfields == 0 then ho.hvalues else fresh_values ci.tfields })
    size ← resolve_fields resolve q p ci.tfields 0 0
    ho' ← load_object q
    ci' ← load_class p
    store_object q (record ho' { osize = size })
    store_class p (record ci' { size = size })
    pure ((size + ho'.csize) % 2 ^ 64)

  -- resolveInstance
  unfoldable pub resolve_instance : ℕ → Ptr → M ℕ
  unfolding resolve_class_node resolve_varray resolve_oarray resolve_plain
  resolve_instance zero q = λ _. out_of_fuel
  resolve_instance (suc k) q = do
    ho ← load_object q
    if ho.resolved then pure ((ho.osize + ho.csize) % 2 ^ 64) else (do
      store_object q (record ho { resolved = true })
      d ← state
      p ← given (lookup32 d.c_table ho.class_id)
      resolve_class_node (suc k) p
      if ho.htype == h_varray
          then resolve_varray q p
          else if ho.htype == h_oarray
          then resolve_oarray (resolve_instance k) q p
          else resolve_plain (resolve_instance k) q p)

  -- resolveInstances
  unfoldable pub resolve_instances : ℕ → Node Ptr → M (Unit {0})
  unfolding resolve_instance
  resolve_instances fuel leaf = pure tt
  resolve_instances fuel (node l key q r) = do
    resolve_instances fuel l
    resolve_instance fuel q
    resolve_instances fuel r

  -- resolveClass
  unfoldable pub resolve_class : ℕ → Node Ptr → M (Unit {0})
  unfolding resolve_class_node
  resolve_class fuel leaf = pure tt
  resolve_class fuel (node l key p r) = do
    resolve_class fuel l
    resolve_class_node fuel p
    resolve_class fuel r

  -- resolveClasses; the two classes of the Java library that it looks up are used by no other code.
  unfoldable pub resolve_classes : ℕ → M (Unit {0})
  unfolding resolve_class resolve_instances
  resolve_classes fuel = do
    d ← state
    resolve_class fuel (env.root d.c_table)
    d' ← state
    resolve_instances fuel (env.root d'.h_table)

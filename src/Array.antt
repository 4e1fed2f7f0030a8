-- ===== src/Array.antt =====
-- `readArray` and `makeObj`: an array of the heap becomes an object whose elements stay in the file.
pub mod NewClass
pub mod Accounting
use phat.Base.{
  ℕ, ◌+◌, ◌-◌, ◌*◌, ◌%◌, ◌^◌, Bool, true, false, Option, none, some, List, [], ◌∷◌, ◌++◌, ◌==◌,
  if◌then◌else◌, length,
}
use phat.Env.{Env, lookup32, insert32}
use phat.Types.{Ptr, CString, Hobject, Cinfo}
use phat.Stdio.{getc}
use phat.Reader.{read_uint, read_ident}
use phat.Dump.{
  M, Jdump, pure, ◌>>=◌, ◌>>◌, given, state, put, on_file, fseek_cur, load_class, new_object,
  load_object, store_object,
}
use phat.Class.{sub32, mkcinfo, find_class, hash_key}

abbrev pub h_instance : ℕ
h_instance = 1

abbrev pub h_varray : ℕ
h_varray = 2

abbrev pub h_oarray : ℕ
h_oarray = 3

-- The switch on the element type: `primSig` and `elsz`, and `none` where `primSig` stays 0.
unfoldable pub prim_sig : ℕ → Option (ℕ × ℕ)
prim_sig t =
    if t == 4
    then some (b'Z', 1)
    else if t == 5
    then some (b'C', 2)
    else if t == 6
    then some (b'F', 4)
    else if t == 7
    then some (b'D', 8)
    else if t == 8
    then some (b'B', 1)
    else if t == 9
    then some (b'S', 2)
    else if t == 10
    then some (b'I', 4)
    else if t == 11
    then some (b'J', 8)
    else none

-- `elemClassId = getc(fin)`, a `long long`.
abbrev pub as_long_long : Option ℕ → ℕ
as_long_long none = 2 ^ 64 - 1
as_long_long (some c) = c

module _ ⦃env : Env⦄ where
  -- makeObj with the fields that its callers set: `osize`, and `count` of an instance, are not.
  unfoldable pub make_obj : ℕ → ℕ → ℕ → M Ptr
  make_obj ht iid cid d =
      new_object
        (record (env.talloc_hobject (length d.objects)) {
          htype = ht;
          class_id = cid;
          inst_id = iid;
          fpos = 0;
          resolved = false;
          visit = false;
          size = 0;
          csize = 0;
          xclass_id = 0;
        })
        d

  -- The class with the name `cname`, made if there is none. A new class gets the number
  -- `fakeClass++` and is inserted in `cTable` under the value that `fakeClass` has after that.
  unfoldable pub array_class : CString → ℕ → M Ptr
  unfolding hash_key
  array_class cname elem_class_id = do
    found ← find_class cname
    elim found [
      | some p ↦ pure p
      | none ↦ (do
        d ← state
        p ← mkcinfo d.fake_class elem_class_id cname
        d ← state
        put (record d {
          fake_class = d.fake_class + 1;
          sb_table = insert32 d.sb_table elem_class_id cname;
          c_table = insert32 d.c_table (d.fake_class + 1) p;
          rc_table = insert32 d.rc_table (hash_key cname) p;
        })
        pure p)
    ]

  -- trbt_insert32(jf->hTable, ide, ho)
  abbrev pub insert_object : ℕ → Ptr → M (Unit {0})
  insert_object ide q = do d ← state; put (record d { h_table = insert32 d.h_table ide q })

  -- The object, with the position of its elements, and the seek over them: `elsz * isz` is a
  -- product of `unsigned int`.
  unfoldable pub array_object : ℕ → ℕ → Ptr → ℕ → ℕ → ℕ → M ℕ
  unfolding make_obj
  array_object ht ide p elsz isz hsize = do
    ci ← load_class p
    q ← make_obj ht ide ci.ident
    ho ← load_object q
    d ← state
    store_object q (record ho { fpos = d.fin.pos; size = elsz; count = isz })
    let bytes = elsz * isz % 2 ^ 32
    fseek_cur bytes
    insert_object ide q
    pure (sub32 hsize bytes)

  -- The two ends of readArray. The name of the class of an object array is that of its element
  -- class, since the line that puts `[` before it is commented out.
  unfoldable pub prim_array : ℕ → ℕ → ℕ × ℕ → ℕ → ℕ → M ℕ
  unfolding array_class array_object
  prim_array ide elem_class_id (sig, elsz) isz hsize = do
    p ← array_class (b'[' ∷ sig ∷ []) elem_class_id
    array_object h_varray ide p elsz isz hsize

  unfoldable pub object_array : ℕ → ℕ → ℕ → ℕ → M ℕ
  unfolding array_class array_object
  object_array ide elem_class_id isz hsize = do
    d ← state
    p ← given (lookup32 d.c_table elem_class_id)
    ci ← load_class p
    p' ← array_class ci.name elem_class_id
    array_object h_oarray ide p' d.identsz isz hsize

  -- An element type that is not in the switch leaves `primSig` 0: the array is read as one of
  -- objects.
  unfoldable pub array_of : ℕ → ℕ → Option (ℕ × ℕ) → ℕ → ℕ → M ℕ
  unfolding prim_array object_array
  array_of ide elem_class_id none isz hsize = object_array ide elem_class_id isz hsize
  array_of ide elem_class_id (some sig) isz hsize = prim_array ide elem_class_id sig isz hsize

  -- readArray
  unfoldable pub read_array : ℕ → Bool → M ℕ
  unfolding array_of object_array prim_sig
  read_array hsize prim = do
    id ← read_ident
    ide ← given id
    on_file read_uint
    size ← on_file read_uint
    isz ← given size
    d ← state
    let h = sub32 hsize (8 + d.identsz)
    if prim
        then (do
          c ← on_file getc
          array_of ide (as_long_long c) (prim_sig (as_long_long c)) isz (sub32 h 1))
        else (do
          e ← read_ident
          elem_class_id ← given e
          object_array ide elem_class_id isz (sub32 h d.identsz))

-- ===== src/Class.antt =====
-- `readClass` with `mkcinfo`, and the look-up of a class by name.
pub mod Encode
pub mod Runs
pub mod Accounting
use phat.Base.{
  ℕ, zero, suc, ◌+◌, ◌-◌, ◌*◌, ◌%◌, ◌^◌, false, Option, none, some, List, [], ◌∷◌, ltb,
  if◌then◌else◌, length,
}
use phat.Env.{Env, lookup32}
use phat.Types.{Ptr, CString, Hobject, Hvalue, Finfo, Cinfo}
use phat.Stdio.{getc}
use phat.Reader.{read_ushort, read_uint, read_ident}
use phat.Dump.{M, ok, pure, ◌>>=◌, ◌>>◌, given, state, on_file, load_class, store_class, new_class}
use phat.Value.{Value, read_value, signature}

-- `h -= k` on an `unsigned int`.
unfoldable pub sub32 : ℕ → ℕ → ℕ
sub32 h k = (h + 2 ^ 32 - k % 2 ^ 32) % 2 ^ 32

-- The array of one union that a static points to, after `readValue`.
abbrev stored : Option Hvalue → List Hvalue
stored none = []
stored (some v) = v ∷ []

-- A short read leaves the old value of a field.
abbrev pub or_old : Option ℕ → ℕ → ℕ
or_old none old = old
or_old (some v) old = v

module _ ⦃env : Env⦄ where
  -- mkcinfo: only these six fields are set, the others hold what the memory held.
  unfoldable pub mkcinfo : ℕ → ℕ → CString → M Ptr
  mkcinfo cid nid name d =
      new_class
        (record (env.talloc_cinfo (length d.classes)) {
          ident = cid;
          nident = nid;
          name = name;
          tfields = 0;
          resolved = false;
          count = 0;
        })
        d

  -- hashKey, findClass
  unfoldable pub hash_key : CString → ℕ
  hash_key key = env.crc32 env.crc32_init key

  unfoldable pub find_class : CString → M (Option Ptr)
  unfolding hash_key
  find_class cname d = ok (lookup32 d.rc_table (hash_key cname)) d

  -- The loop over the constant pool: the type byte that `readValue` reads is not subtracted.
  unfoldable pub pool_loop : ℕ → ℕ → M ℕ
  pool_loop zero hsize = pure hsize
  pool_loop (suc n) hsize = do
    on_file read_ushort
    v ← read_value
    pool_loop n (sub32 (sub32 hsize 2) v.ret)

  abbrev pub static_of : ℕ → ℕ → Value → Hobject
  static_of i ident v = record (env.talloc_static i) {
    inst_id = ident;
    resolved = false;
    htype = v.htype;
    hvalues = stored v.hvalue;
  }

  -- The loop over the statics; `i` counts up. They are written to `ci` when the loop is done.
  unfoldable pub statics_loop : ℕ → ℕ → ℕ → M (List Hobject × ℕ)
  statics_loop zero i hsize = pure ([], hsize)
  statics_loop (suc n) i hsize = do
    id ← read_ident
    ident ← given id
    d ← state
    v ← read_value
    (more, h) ← statics_loop n (i + 1) (sub32 (sub32 hsize d.identsz) (1 + v.ret))
    pure (static_of i ident v ∷ more, h)

  abbrev pub field_of : ℕ → ℕ → Finfo
  field_of ident ftype = record env.talloc_finfo { ident = ident; ftype = ftype; resolved = false }

  unfoldable pub fields_loop : ℕ → ℕ → M (List Finfo × ℕ)
  fields_loop zero hsize = pure ([], hsize)
  fields_loop (suc n) hsize = do
    id ← read_ident
    ident ← given id
    c ← on_file getc
    d ← state
    (more, h) ← fields_loop n (sub32 hsize (1 + d.identsz))
    pure (field_of ident (signature d.f_version c) ∷ more, h)

  -- The statics of `ci`: the count, and the array unless the count is 0.
  unfoldable pub read_statics : Ptr → ℕ → M ℕ
  unfolding statics_loop
  read_statics p hsize = do
    ci ← load_class p
    n ← on_file read_ushort
    let cstats = or_old n ci.cstats
    (statics, h) ← statics_loop cstats 0 (sub32 hsize 2)
    store_class p
        (record ci { cstats = cstats; statics = if ltb 0 cstats then statics else ci.statics })
    pure h

  unfoldable pub read_fields : Ptr → ℕ → M ℕ
  unfolding fields_loop
  read_fields p hsize = do
    ci ← load_class p
    n ← on_file read_ushort
    let cfields = or_old n ci.cfields
    (fields, h) ← fields_loop cfields (sub32 hsize 2)
    store_class p
        (record ci { cfields = cfields; fields = if ltb 0 cfields then fields else ci.fields })
    pure h

  -- The stack trace, which is not used, and the four identifiers that are.
  pub record Links : Type 0 where
    pub super_id : ℕ
    pub loader_id : ℕ
    pub signer_id : ℕ
    pub domain_id : ℕ

  unfoldable pub class_links : M Links
  class_links = do
    on_file read_uint
    super ← read_ident
    super_id ← given super
    loader ← read_ident
    loader_id ← given loader
    signer ← read_ident
    signer_id ← given signer
    domain ← read_ident
    domain_id ← given domain
    pure (record {
      super_id = super_id;
      loader_id = loader_id;
      signer_id = signer_id;
      domain_id = domain_id;
    })

  abbrev pub linked : Cinfo → Links → Cinfo
  linked ci l = record ci {
    super_id = l.super_id;
    loader_id = l.loader_id;
    signer_id = l.signer_id;
    domain_id = l.domain_id;
  }

  -- The two reserved identifiers, the size of an instance, and the constant pool.
  unfoldable pub class_pool : ℕ → M ℕ
  unfolding pool_loop
  class_pool hsize = do
    read_ident
    read_ident
    on_file read_uint
    pool ← on_file read_ushort
    cpool ← given pool
    d ← state
    pool_loop cpool (sub32 (sub32 hsize (7 * d.identsz + 8)) 2)

  -- readClass: `hsize` is what is left of the heap record, and what is returned is left after it.
  unfoldable pub read_class : ℕ → M ℕ
  unfolding class_links class_pool read_statics read_fields
  read_class hsize = do
    id ← read_ident
    ident ← given id
    d ← state
    p ← given (lookup32 d.c_table ident)
    links ← class_links
    ci ← load_class p
    store_class p (linked ci links)
    h ← class_pool hsize
    h' ← read_statics p h
    read_fields p h'

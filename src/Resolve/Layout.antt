-- ===== src/Resolve/Layout.antt =====
-- The fields of a class and of its superclasses: `resolveSClassSize`, `resolveClassNode` with
-- `resolveField`, `getSuperClass` and `copyField`.
use mathlib.Core.Option
use phat.Base.{
  ℕ, zero, suc, ◌+◌, ◌-◌, true, ◌||◌, Option, none, some, List, [], ◌∷◌, ltb, ◌==◌, if◌then◌else◌,
  get_elem?, set,
}
use phat.Env.{Env, lookup32}
use phat.Types.{Ptr, Hobject, Finfo}
use phat.Dump.{M, undef, out_of_fuel, pure, ◌>>=◌, ◌>>◌, given, state, load_class, store_class}

abbrev pub replicate : ℕ → List (Option Finfo)
replicate zero = []
replicate (suc n) = none ∷ replicate n

-- The switch on the type of a field: the bytes that it takes in the dump.
unfoldable pub field_size : ℕ → ℕ → ℕ
field_size identsz t =
    if t == b'L' || t == b'['
    then identsz
    else if t == b'Z' || t == b'B'
    then 1
    else if t == b'S' || t == b'C'
    then 2
    else if t == b'F' || t == b'I'
    then 4
    else if t == b'D' || t == b'J'
    then 8
    else 0

-- resolveField on the first `n` statics; `none` where there are fewer.
unfoldable pub resolve_statics : ℕ → List Hobject → Option (List Hobject)
resolve_statics zero fs = some fs
resolve_statics (suc n) [] = none
resolve_statics (suc n) (f ∷ fs) =
    Option.map (λ r. record f { resolved = true } ∷ r) (resolve_statics n fs)

module _ ⦃env : Env⦄ where
  -- resolveSClassSize
  unfoldable pub resolve_sclass_size : ℕ → Ptr → M ℕ
  resolve_sclass_size zero p = λ _. out_of_fuel
  resolve_sclass_size (suc k) p = do
    ci ← load_class p
    d ← state
    if ci.super_id == 0 then pure 0 else (do
      super ← given (lookup32 d.c_table ci.super_id)
      n ← resolve_sclass_size k super
      pure (ci.cfields + n))

  -- The variables of the loop that fills `values`: the class whose fields are being copied, the
  -- place of its first field, the next field, and the offset.
  pub record Fill : Type 0 where
    pub cc : Ptr
    pub target : ℕ
    pub field_no : ℕ
    pub index : ℕ

  -- while (fieldNo >= cc->cfields) { cc = getSuperClass(jf, cc); fieldNo = 0; target -= ...; }
  -- A place before the array is undefined.
  unfoldable pub next_class : ℕ → Fill → M Fill
  next_class zero s = λ _. out_of_fuel
  next_class (suc k) s = do
    cc ← load_class s.cc
    d ← state
    if ltb s.field_no cc.cfields then pure s else (do
      super ← given (lookup32 d.c_table cc.super_id)
      sc ← load_class super
      if ltb s.target sc.cfields
          then (λ _. undef)
          else next_class k (record {
            cc = super;
            target = s.target - sc.cfields;
            field_no = 0;
            index = s.index;
          }))

  -- `*value = ...`; `field->offset = index`: a field of `ci` itself is the one in its `fields`, and
  -- gets its name; a field of a superclass is copied.
  unfoldable pub fill_field : Ptr → Fill → M (Unit {0})
  fill_field p s = do
    d ← state
    cc ← load_class s.cc
    field ← given (get_elem? cc.fields s.field_no)
    ci ← load_class p
    let at = s.target + s.field_no
    let copy = record field { offset = s.index }
    let own = record copy { name = lookup32 d.sb_table field.ident }
    given (get_elem? ci.values at)
    store_class p (
        if s.cc == p
        then record ci {
          fields = set ci.fields s.field_no own;
          values = set ci.values at (some own);
        }
        else record ci { values = set ci.values at (some copy) })

  -- for (i = 0; i < ci->tfields; i++, fieldNo++), which returns the last `index`.
  unfoldable pub fill_loop : ℕ → ℕ → Ptr → Fill → M ℕ
  unfolding next_class fill_field field_size
  fill_loop fuel zero p s = pure s.index
  fill_loop fuel (suc n) p s = do
    t ← next_class fuel s
    fill_field p t
    cc ← load_class t.cc
    field ← given (get_elem? cc.fields t.field_no)
    d ← state
    fill_loop fuel n p (record {
      cc = t.cc;
      target = t.target;
      field_no = t.field_no + 1;
      index = t.index + field_size d.identsz field.ftype;
    })

  -- The part of resolveClassNode behind the superclass.
  unfoldable pub fill_values : ℕ → Ptr → M (Unit {0})
  unfolding fill_loop
  fill_values fuel p = do
    ci ← load_class p
    if ltb 0 ci.tfields
        then (do
          store_class p (record ci { values = replicate ci.tfields })
          index ←
              fill_loop fuel ci.tfields p
                (record { cc = p; target = ci.tfields - ci.cfields; field_no = 0; index = 0 })
          ci' ← load_class p
          store_class p (record ci' { size = index }))
        else pure tt

  -- resolveClassNode
  unfoldable pub resolve_class_node : ℕ → Ptr → M (Unit {0})
  unfolding resolve_sclass_size resolve_statics fill_values
  resolve_class_node zero p = λ _. out_of_fuel
  resolve_class_node (suc k) p = do
    ci ← load_class p
    if ci.resolved then pure tt else (do
      tfields ← resolve_sclass_size (suc k) p
      statics ← given (resolve_statics ci.cstats ci.statics)
      store_class p (record ci { tfields = tfields; statics = statics })
      d ← state
      elim (lookup32 d.c_table ci.super_id) [
        | none ↦ pure tt
        | some super ↦ resolve_class_node k super
      ]
      fill_values (suc k) p
      ci' ← load_class p
      store_class p (record ci' { resolved = true }))

-- ===== src/Resolve/Instances.antt =====
-- `resolveInstance` at an instance whose class has not been resolved: the class is laid out, and the
-- fields are read where the layout says.
use phat.Base.{
  ℕ, suc, ◌+◌, ◌%◌, ◌^◌, ◌<◌, ◌≡◌, ◌≢◌, refl, sym, ◌∙◌, some, true, false, List, ◌++◌, length,
  get_elem?, set, arith, get_elem?-set_same, set-set, length-append,
}
use phat.Env.{Env, lookup32}
use phat.Types.{Ptr, Hobject, Cinfo, Finfo}
use phat.Stdio.{Rest, seek_to}
use phat.Dump.{Jdump, ok, steps}
use phat.Reader.Reads.{Narrow}
use phat.Array.{h_instance}
use phat.Value.Encode.{Basic}
use phat.Resolve.{resolve_plain, resolve_instance}
use phat.Resolve.Layout.{resolve_class_node}
use phat.Resolve.Fields.Loop.{filled_object, resolve_plain-lem}
use phat.Resolve.Fields.{counted}
use phat.Resolve.Own.{resolved_class, resolve_class_node-layout}
use phat.Resolve.Own.Above.{total, Bases}
use phat.Resolve.Placed.{
  Typed, TypedAll, length-Typed, length-TypedAll, payloads, payloads_all, upward, class_fields,
}

module _ ⦃env : Env⦄ where
  -- A class that is not resolved, and can be: it has or inherits fields, its superclass is resolved,
  -- and it has as many fields and statics as it says.
  pub record Open (d : Jdump) (p : Ptr) (ci : Cinfo) (fss : List (List Finfo)) : Type 0 where
    pub fresh : ci.resolved ≡ false
    pub cfields : ci.cfields ≡ length ci.fields
    pub some_field : 0 < length ci.fields + total fss
    pub cstats : ci.cstats ≡ length ci.statics
    pub has_super : ci.super_id ≢ 0
    pub super : Ptr
    pub super_class : Cinfo
    pub super_known : lookup32 d.c_table ci.super_id ≡ some super
    pub super_at : get_elem? d.classes super ≡ some super_class
    pub super_apart : p ≢ super
    pub super_resolved : super_class.resolved ≡ true
    pub bases : Bases d.classes d.c_table p ci.super_id fss

  -- The branch for an instance follows the resolution of the class.
  resolve_instance-branch :
      (k : ℕ) (d d2 : Jdump) (q p : Ptr) (ho : Hobject)
      → get_elem? d.objects q ≡ some ho
      → ho.resolved ≡ false
      → ho.htype ≡ h_instance
      → lookup32 d.c_table ho.class_id ≡ some p
      → resolve_class_node
          (suc k)
          p
          (record d { objects = set d.objects q (record ho { resolved = true }) })
        ≡ ok tt d2
      → resolve_instance (suc k) q d ≡ resolve_plain (resolve_instance k) q p d2
  unfolding resolve_instance steps
  resolve_instance-branch k d d2 q p ho e new htype found node =
      rw (e, new, found, node, htype) refl

  -- The object and the class behind `resolveInstance`.
  abbrev pub with_fields :
      Jdump → Ptr → Ptr → Hobject → Cinfo → List (List Finfo) → ℕ → List Basic → Jdump
  with_fields d q p ho ci fss n vs = record d {
    fin = record d.fin { pos = n };
    objects = set d.objects q (filled_object (record ho { resolved = true }) vs);
    classes = set d.classes p (record (resolved_class d ci fss) { size = counted vs });
  }

  module _ (k : ℕ) (d : Jdump) (q p : Ptr) (ho : Hobject) (ci : Cinfo) (fss : List (List Finfo))
      (vs : List Basic) (vss : List (List Basic)) (r : List ℕ) where
    pub count_all :
        Typed d.h_table ci.fields vs
        → TypedAll d.h_table fss vss
        → length (upward vss ++ vs) ≡ length ci.fields + total fss
    count_all t ts = omega (
      arith,
      length-append (upward vss) vs,
      length-Typed d.h_table ci.fields vs t,
      length-TypedAll d.h_table fss vss ts,
    )

    pub resolve_instance-fields :
        Narrow d
        → get_elem? d.objects q ≡ some ho
        → ho.resolved ≡ false
        → ho.htype ≡ h_instance
        → lookup32 d.c_table ho.class_id ≡ some p
        → get_elem? d.classes p ≡ some ci
        → Open d p ci fss
        → length fss < k
        → Typed d.h_table ci.fields vs
        → TypedAll d.h_table fss vss
        → Rest (seek_to ho.fpos d.fin) (payloads vs ++ (payloads_all vss ++ r))
        → (n : ℕ) × (resolve_instance (suc k) q d
            ≡ ok
                ((counted (upward vss ++ vs) + ho.csize) % 2 ^ 64)
                (with_fields d q p ho ci fss n (upward vss ++ vs)))
    resolve_instance-fields w e new htype found at_p c enough t ts rest =
        let ho1 = record ho { resolved = true } in
        let d1 = record d { objects = set d.objects q ho1 } in
        let ci2 = resolved_class d ci fss in
        let d2 = record d1 { classes = set d.classes p ci2 } in
        let node =
          resolve_class_node-layout k d1 p c.super ci c.super_class fss at_p c.fresh c.cfields
            c.some_field c.cstats c.has_super c.super_known c.super_at c.super_apart
            c.super_resolved c.bases enough in
        let all = upward vss ++ vs in
        let (n, plain) =
          resolve_plain-lem (resolve_instance k) d2
            (record { narrow = w.narrow; version = w.version }) q p ho1 ci2
            (get_elem?-set_same d.classes p ci2 at_p) all (get_elem?-set_same d.objects q ho1 e)
            (omega (arith, c.some_field, count_all t ts)) (sym (count_all t ts))
            (class_fields d2 w.narrow ho.fpos ci fss vs vss r t ts rest) in
        (
          n,
          resolve_instance-branch k d d2 q p ho e new htype found node ∙ plain ∙ λ j.
              ok ((counted all + ho.csize) % 2 ^ 64) (record d {
                fin = record d.fin { pos = n };
                objects = set-set d.objects q ho1 (filled_object ho1 all) j;
                classes = set-set d.classes p ci2 (record ci2 { size = counted all }) j;
              }),
        )

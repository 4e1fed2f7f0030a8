-- ===== src/Resolve/Fields/Loop.antt =====
-- The loop of `resolveInstance` over the fields of an instance, and the branch that it stands in.
use mathlib.Core.List.{append_assoc}
use phat.Base.{
  right_zero, zero_left, plus_assoc, ℕ, suc, ◌+◌, ◌%◌, ◌^◌, ◌<◌, ◌≡◌, refl, ap, sym, ◌∙◌, Option,
  some, List, [], ◌∷◌, ◌++◌, map, length, get_elem?, set, arith, get_elem?-set_same, set-set,
  length-append, get_elem?-behind, set-behind, set-same, ne→eq_false,
}
use phat.Env.{Env}
use phat.Types.{Ptr, Hvalue, Hobject, Cinfo, Finfo}
use phat.Dump.{Jdump, M, ok, steps}
use phat.Reader.Reads.{Narrow}
use phat.Value.Encode.{Basic}
use phat.Resolve.{fresh_values, resolve_fields, resolve_plain}
use phat.Resolve.Fields.{
  counted_size, counted, field_hvalue, resolve_field-lem, FieldAt, Fields, no_field, a_field,
}

module _ ⦃env : Env⦄ where
  -- The state at another position of the file, and with other objects.
  abbrev at : Jdump → ℕ → List Hobject → Jdump
  at d n os = record d { fin = record d.fin { pos = n }; objects = os }

  -- The object and its class as the branch for an instance leaves them.
  abbrev pub filled_object : Hobject → List Basic → Hobject
  filled_object ho vs = record ho { hvalues = map field_hvalue vs; osize = counted vs }

  abbrev pub filled_dump : Jdump → Ptr → Ptr → Hobject → Cinfo → ℕ → List Basic → Jdump
  filled_dump d q p ho ci n vs = record d {
    fin = record d.fin { pos = n };
    objects = set d.objects q (filled_object ho vs);
    classes = set d.classes p (record ci { size = counted vs });
  }

  module _ (resolve : Ptr → M ℕ) (d : Jdump) (w : Narrow d) (q p : ℕ) (ho : Hobject) (ci : Cinfo)
      (here : get_elem? d.classes p ≡ some ci) where
    abbrev filling : List Hvalue → Hobject
    filling hs = record ho { hvalues = hs }

    fields_step :
        (slots0 slots : List (Option Finfo)) (info : Finfo) (done : List Hvalue) (m n size : ℕ)
        (os : List Hobject) (v : Basic)
        → ci.values ≡ slots0 ++ (some info ∷ slots)
        → length slots0 ≡ length done
        → FieldAt d ho.fpos info v
        → get_elem? os q ≡ some (filling (done ++ (Hvalue.f ∷ fresh_values m)))
        → resolve_fields resolve q p (suc m) (length done) size (at d n os)
          ≡ resolve_fields resolve q p m (length done + 1) (size + counted_size v) (
              at d
                (ho.fpos + info.offset + counted_size v)
                (set os q (filling (done ++ (field_hvalue v ∷ fresh_values m)))))
    unfolding resolve_fields steps
    fields_step slots0 slots info done m n size os v listed same f e =
        let hs = done ++ (Hvalue.f ∷ fresh_values m) in
        let slot : get_elem? ci.values (length done) ≡ some (some info) =
          rw (listed, sym same) (get_elem?-behind slots0 (some info) slots) in
        let field =
          resolve_field-lem resolve (at d (ho.fpos + info.offset) os) q (length done) (filling hs)
            f.behind v (record { narrow = w.narrow; version = w.version }) f.in_range f.nowhere e
            (get_elem?-behind done Hvalue.f (fresh_values m)) f.bytes in
        rw
          (
            here,
            slot,
            e,
            f.ftype,
            field,
            set-behind done Hvalue.f (field_hvalue v) (fresh_values m),
          )
          refl

    resolve_fields-lem :
        (slots0 slots : List (Option Finfo)) (vs : List Basic) (done : List Hvalue) (n size : ℕ)
        (os : List Hobject)
        → ci.values ≡ slots0 ++ slots
        → length slots0 ≡ length done
        → Fields d ho.fpos slots vs
        → get_elem? os q ≡ some (filling (done ++ fresh_values (length vs)))
        → (n' : ℕ) × (resolve_fields resolve q p (length vs) (length done) size (at d n os)
            ≡ ok (size + counted vs) (at d n' (set os q (filling (done ++ map field_hvalue vs)))))
    unfolding resolve_fields steps
    resolve_fields-lem slots0 slots vs done n size os listed same no_field e =
        (n, λ j. ok (right_zero size j) (at d n (sym (set-same os q (filling (done ++ [])) e) j)))
    resolve_fields-lem slots0 slots' vs' done n size os listed same (a_field info v slots vs f more)
          e =
        let hv = field_hvalue v in
        let ho2 = filling (done ++ (hv ∷ fresh_values (length vs))) in
        let os2 = set os q ho2 in
        let longer = length-append done (hv ∷ []) in
        let assoc = append_assoc done (hv ∷ []) in
        let (n', others) =
          resolve_fields-lem (slots0 ++ (some info ∷ [])) slots vs (done ++ (hv ∷ []))
            (ho.fpos + info.offset + counted_size v) (size + counted_size v) os2
            (listed ∙ sym (append_assoc slots0 (some info ∷ []) slots))
            (omega (arith, same, longer, length-append slots0 (some info ∷ []))) more
            (get_elem?-set_same os q ho2 e
              ∙ ap (λ hs. some (filling hs)) (sym (assoc (fresh_values (length vs))))) in
        (
          n',
          fields_step slots0 slots info done (length vs) n size os v listed same f e
              ∙ ap
                  (λ i.
                    resolve_fields resolve q p (length vs) i (size + counted_size v)
                      (at d (ho.fpos + info.offset + counted_size v) os2))
                  (omega (arith, longer))
              ∙ others
              ∙ λ j. ok (plus_assoc size (counted_size v) (counted vs) j) (
                  at d n' (
                    (set-set os q ho2 (filling ((done ++ (hv ∷ [])) ++ map field_hvalue vs))
                        ∙ ap (λ hs. set os q (filling hs)) (assoc (map field_hvalue vs)))
                      j)),
        )

    -- By what the loop over the fields leaves.
    resolve_plain-loop :
        (vs : List Basic) (n : ℕ)
        → get_elem? d.objects q ≡ some ho
        → 0 < ci.tfields
        → resolve_fields resolve q p ci.tfields 0 0
            (at d d.fin.pos (set d.objects q (filling (fresh_values ci.tfields))))
          ≡ ok (counted vs) (at d n (set d.objects q (filling (map field_hvalue vs))))
        → resolve_plain resolve q p d
          ≡ ok ((counted vs + ho.csize) % 2 ^ 64) (filled_dump d q p ho ci n vs)
    unfolding resolve_plain steps
    resolve_plain-loop vs n e some_field loop =
        let done = filling (map field_hvalue vs) in
        rw
          (
            e,
            here,
            ne→eq_false ci.tfields 0 (λ z. absurd (omega (arith, z, some_field))),
            loop,
            get_elem?-set_same d.objects q done e,
            here,
            set-set d.objects q done (filled_object ho vs),
          )
          refl

    pub resolve_plain-lem :
        (vs : List Basic)
        → get_elem? d.objects q ≡ some ho
        → 0 < length vs
        → ci.tfields ≡ length vs
        → Fields d ho.fpos ci.values vs
        → (n : ℕ) × (resolve_plain resolve q p d
            ≡ ok ((counted vs + ho.csize) % 2 ^ 64) (filled_dump d q p ho ci n vs))
    resolve_plain-lem vs e some_field all fields =
        let begun = filling (fresh_values (length vs)) in
        let os = set d.objects q begun in
        let (n, loop) =
          resolve_fields-lem [] ci.values vs [] d.fin.pos 0 os refl refl fields
            (get_elem?-set_same d.objects q begun e) in
        (
          n,
          resolve_plain-loop vs n e (omega (arith, all, some_field)) (
              ap
                (λ m.
                  resolve_fields resolve q p m 0 0
                    (at d d.fin.pos (set d.objects q (filling (fresh_values m)))))
                all
              ∙ loop
              ∙ λ j.
                  ok (zero_left (counted vs) j)
                    (at d n (set-set d.objects q begun (filling (map field_hvalue vs)) j))),
        )

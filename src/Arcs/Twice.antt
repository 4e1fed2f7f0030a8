-- ===== src/Arcs/Twice.antt =====
-- `arc_add` for two references from one class to another.
use phat.Base.{
  ℕ, suc, ◌+◌, ◌%◌, ◌^◌, ◌≡◌, ◌≢◌, refl, sym, ◌∙◌, some, none, [], ◌∷◌, ◌++◌, length, get_elem?,
  set, arith, eq_refl, ne→eq_false, length-append, get_elem?-append_last, set-behind,
  get_elem?-set_same, get_elem?-set_ne,
}
use phat.Env.{Env, lookup32}
use phat.Types.{Ptr, Arc, Cinfo, Hobject}
use phat.Dump.{Jdump, ok, steps, ◌>>◌}
use phat.Arcs.{int_to_long, arc_lookup, arc_add}

module _ ⦃env : Env⦄ where
  -- The objects at `q` and `r` are of the classes at `p` and `c`, and there is no arc between these.
  pub record NoArc (d : Jdump) (q r p c : Ptr) (ho hc : Hobject) (pc cc : Cinfo) : Type 0 where
    pub from : get_elem? d.objects q ≡ some ho
    pub to : get_elem? d.objects r ≡ some hc
    pub parent : lookup32 d.c_table ho.class_id ≡ some p
    pub child : lookup32 d.c_table hc.class_id ≡ some c
    pub parent_class : get_elem? d.classes p ≡ some pc
    pub child_class : get_elem? d.classes c ≡ some cc
    pub apart : p ≢ c
    pub none_yet : arc_lookup (length d.arcs) pc.children c d ≡ ok none d

  -- The arc that is made for a count and a size.
  abbrev pub new_arc : Jdump → Ptr → Ptr → Cinfo → Cinfo → ℕ → ℕ → Arc
  new_arc d p c pc cc count size = record (env.talloc_arc (length d.arcs)) {
    parent = p;
    child = c;
    count = count;
    child_size = size;
    next_child = pc.children;
    next_parent = cc.parents;
  }

  -- The state with this arc, which heads both lists.
  abbrev pub with_arc : Jdump → Ptr → Ptr → Cinfo → Cinfo → Arc → Jdump
  with_arc d p c pc cc arc =
      let a = length d.arcs in
      record d {
        classes =
            set (set d.classes p (record pc { children = some a })) c
              (record cc { parents = some a });
        arcs = d.arcs ++ (arc ∷ []);
        arc_vec = d.arc_vec ++ (a ∷ []);
      }

  module _ (d : Jdump) (q r p c : Ptr) (ho hc : Hobject) (pc cc : Cinfo) where
    arc_add-first :
        (n : ℕ)
        → NoArc d q r p c ho hc pc cc
        → arc_add q r n d
          ≡ ok tt (with_arc d p c pc cc (new_arc d p c pc cc n (int_to_long hc.size)))
    unfolding arc_add steps
    arc_add-first n h =
        let a = length d.arcs in
        let pc1 = record pc { children = some a } in
        let e = get_elem?-set_ne d.classes p c pc1 h.apart ∙ h.child_class in
        rw
          (
            h.from,
            h.to,
            h.parent,
            h.child,
            h.parent_class,
            h.none_yet,
            h.parent_class,
            e,
            ne→eq_false p c h.apart,
          )
          refl

    arc_add-second :
        (n m size : ℕ)
        → NoArc d q r p c ho hc pc cc
        → arc_add q r m (with_arc d p c pc cc (new_arc d p c pc cc n size))
          ≡ ok tt (
              with_arc d p c pc cc
                (new_arc d p c pc cc ((n + m) % 2 ^ 64) ((size + int_to_long hc.size) % 2 ^ 64)))
    unfolding arc_add steps
    arc_add-second n m size h =
        let a = length d.arcs in
        let arc = new_arc d p c pc cc n size in
        let pc1 = record pc { children = some a } in
        let cc1 = record cc { parents = some a } in
        let back : c ≢ p = λ e. h.apart (sym e) in
        let e =
          get_elem?-set_ne (set d.classes p pc1) c p cc1 back
          ∙ get_elem?-set_same d.classes p pc1 h.parent_class in
        let longer : length (d.arcs ++ (arc ∷ [])) ≡ suc a =
          omega (arith, length-append d.arcs (arc ∷ [])) in
        rw
          (
            h.from,
            h.to,
            h.parent,
            h.child,
            e,
            longer,
            get_elem?-append_last d.arcs arc,
            eq_refl,
            get_elem?-append_last d.arcs arc,
            set-behind d.arcs arc
                (new_arc d p c pc cc ((n + m) % 2 ^ 64) ((size + int_to_long hc.size) % 2 ^ 64)) [],
          )
          refl

    -- Two references from one object to another, of two different classes, where there is no arc
    -- between the classes: the first makes an arc with its count, which heads the list of the children
    -- of the one and the list of the parents of the other; the second makes none, but adds its count
    -- and the size of the object to those of the arc, modulo 2^64.
    pub arc_add-twice :
        (n m : ℕ)
        → NoArc d q r p c ho hc pc cc
        → let size = int_to_long hc.size in
          (arc_add q r n >> arc_add q r m) d
          ≡ ok tt (
              with_arc d p c pc cc
                (new_arc d p c pc cc ((n + m) % 2 ^ 64) ((size + size) % 2 ^ 64)))
    arc_add-twice n m h = rw (arc_add-first n h) (arc_add-second n m (int_to_long hc.size) h)

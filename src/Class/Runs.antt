-- ===== src/Class/Runs.antt =====
-- A class dump, its bytes, and what `readClass` makes of them step by step.
use mathlib.Core.List.{append_assoc}
use phat.Base.{
  ℕ, ◌+◌, ◌*◌, ◌^◌, ◌<◌, ◌≡◌, refl, ap, sym, ◌∙◌, some, List, [], ◌++◌, length, get_elem?, set,
  arith, All, ltb, if◌then◌else◌, length-append, set-set, get_elem?-set_same,
}
use phat.Env.{Env, lookup32}
use phat.Types.{Ptr, Cinfo}
use phat.Stdio.{Rest, Rest-advance, advance}
use phat.Reader.Words.{be2, be4}
use phat.Reader.Reads.{
  Narrow, Narrow-skip, Reads-ident_unused, Reads-ushort_unused, Runs, Runs-bind, Runs-state,
  Runs-given, Runs-to, Runs-step, skip-skip,
}
use phat.Dump.{Jdump, skip, load_class, store_class, steps, ◌>>=◌}
use phat.Class.{sub32, Links, linked, class_pool, read_statics, read_fields, read_class}
use phat.Class.Encode.{
  Entry, EntryInRange, StaticInRange, FieldInRange, pool_bytes, statics_bytes, fields_bytes,
  pool_charge, statics_charge, statics_of, fields_of, statics_loop-Reads, fields_loop-Reads,
  class_links-Reads, class_pool-Reads, sub32-sub32, sub32-lt,
}

module _ ⦃env : Env⦄ where
  -- A class dump of HPROF.
  pub record ClassDump : Type 0 where
    pub ident : ℕ
    pub stack : ℕ
    pub links : Links
    pub res1 : ℕ
    pub res2 : ℕ
    pub instsz : ℕ
    pub pool : List Entry
    pub statics : List Entry
    pub fields : List (ℕ × ℕ)

  pub record ClassInRange (c : ClassDump) : Type 0 where
    pub ident : c.ident < 2 ^ 32
    pub stack : c.stack < 2 ^ 32
    pub super_id : c.links.super_id < 2 ^ 32
    pub loader_id : c.links.loader_id < 2 ^ 32
    pub signer_id : c.links.signer_id < 2 ^ 32
    pub domain_id : c.links.domain_id < 2 ^ 32
    pub res1 : c.res1 < 2 ^ 32
    pub res2 : c.res2 < 2 ^ 32
    pub instsz : c.instsz < 2 ^ 32
    pub pool_length : length c.pool < 2 ^ 16
    pub statics_length : length c.statics < 2 ^ 16
    pub fields_length : length c.fields < 2 ^ 16
    pub pool : All EntryInRange c.pool
    pub statics : All StaticInRange c.statics
    pub fields : All FieldInRange c.fields

  abbrev pub links_bytes : ℕ → Links → List ℕ
  links_bytes stack l =
      be4 stack
      ++ (be4 l.super_id ++ (be4 l.loader_id ++ (be4 l.signer_id ++ (be4 l.domain_id ++ []))))

  abbrev pub pool_part : ClassDump → List ℕ
  pool_part c =
      be4 c.res1 ++ (be4 c.res2 ++ (be4 c.instsz ++ (be2 (length c.pool) ++ pool_bytes c.pool)))

  abbrev pub statics_part : ClassDump → List ℕ
  statics_part c = be2 (length c.statics) ++ statics_bytes c.statics

  abbrev pub fields_part : ClassDump → List ℕ
  fields_part c = be2 (length c.fields) ++ fields_bytes c.fields

  abbrev pub class_bytes : ClassDump → List ℕ
  class_bytes c =
      be4 c.ident
      ++ (links_bytes c.stack c.links ++ (pool_part c ++ (statics_part c ++ fields_part c)))

  -- What the class of the dump holds afterwards. An empty list leaves the old pointer.
  abbrev with_statics : Cinfo → List Entry → Cinfo
  with_statics ci es = record ci {
    cstats = length es;
    statics = if ltb 0 (length es) then statics_of 0 es else ci.statics;
  }

  abbrev with_fields : Cinfo → List (ℕ × ℕ) → Cinfo
  with_fields ci fs = record ci {
    cfields = length fs;
    fields = if ltb 0 (length fs) then fields_of fs else ci.fields;
  }

  abbrev pub dumped : Cinfo → ClassDump → Cinfo
  dumped ci c = with_fields (with_statics (linked ci c.links) c.statics) c.fields

  -- Loading and storing.
  abbrev pub stored : Jdump → Ptr → Cinfo → Jdump
  stored d p ci = record d { classes = set d.classes p ci }

  pub load_class-Runs :
      (d : Jdump) (p : Ptr) (ci : Cinfo)
      → get_elem? d.classes p ≡ some ci
      → Runs (load_class p) d ci d
  unfolding steps
  load_class-Runs d p ci e = record { run = rw e }

  pub store_class-Runs :
      (d : Jdump) (p : Ptr) (ci : Cinfo) → Runs (store_class p ci) d tt (stored d p ci)
  store_class-Runs d p ci = record { run = refl }

  Rest-behind :
      (d : Jdump) (xs ys r : List ℕ)
      → Rest d.fin ((xs ++ ys) ++ r)
      → Rest d.fin (xs ++ (ys ++ r)) × Rest (advance (length xs) d.fin) (ys ++ r)
  Rest-behind d xs ys r h =
      let h' : Rest d.fin (xs ++ (ys ++ r)) = h ∙ append_assoc xs ys r in
      (h', Rest-advance d.fin xs (ys ++ r) h')

  read_statics-Runs :
      (d : Jdump) (p : Ptr) (ci : Cinfo) (es : List Entry) (h : ℕ) (r : List ℕ)
      → Narrow d
      → get_elem? d.classes p ≡ some ci
      → length es < 2 ^ 16
      → All StaticInRange es
      → Rest d.fin ((be2 (length es) ++ statics_bytes es) ++ r)
      → Runs
          (read_statics p h)
          d
          (sub32 h (2 + statics_charge es))
          (stored (skip (length (be2 (length es) ++ statics_bytes es)) d) p (with_statics ci es))
  unfolding read_statics be2
  read_statics-Runs d p ci es h r w e lt range rest =
      let (now, behind) = Rest-behind d (be2 (length es)) (statics_bytes es) r rest in
      rw (← sub32-sub32 h 2 (statics_charge es)) (
        Runs-to
          (Runs-bind _ (load_class-Runs d p ci e) (
            Runs-step _ (statics_bytes es ++ r) (Reads-ushort_unused (length es) lt) w now (
              Runs-step _ r (statics_loop-Reads es 0 (sub32 h 2) range (sub32-lt h 2))
                (Narrow-skip 2 w) behind (record { run = refl }))))
          (ap (λ d'. stored d' p (with_statics ci es))
            (skip-skip 2 (length (statics_bytes es)) d
              ∙ ap (λ n. skip n d) (sym (length-append (be2 (length es)) (statics_bytes es))))))

  read_fields-Runs :
      (d : Jdump) (p : Ptr) (ci : Cinfo) (fs : List (ℕ × ℕ)) (h : ℕ) (r : List ℕ)
      → Narrow d
      → get_elem? d.classes p ≡ some ci
      → length fs < 2 ^ 16
      → All FieldInRange fs
      → Rest d.fin ((be2 (length fs) ++ fields_bytes fs) ++ r)
      → Runs
          (read_fields p h)
          d
          (sub32 h (2 + 5 * length fs))
          (stored (skip (length (be2 (length fs) ++ fields_bytes fs)) d) p (with_fields ci fs))
  unfolding read_fields be2
  read_fields-Runs d p ci fs h r w e lt range rest =
      let (now, behind) = Rest-behind d (be2 (length fs)) (fields_bytes fs) r rest in
      rw (← sub32-sub32 h 2 (5 * length fs)) (
        Runs-to
          (Runs-bind _ (load_class-Runs d p ci e) (
            Runs-step _ (fields_bytes fs ++ r) (Reads-ushort_unused (length fs) lt) w now (
              Runs-step _ r (fields_loop-Reads fs (sub32 h 2) range (sub32-lt h 2))
                (Narrow-skip 2 w) behind (record { run = refl }))))
          (ap (λ d'. stored d' p (with_fields ci fs))
            (skip-skip 2 (length (fields_bytes fs)) d
              ∙ ap (λ n. skip n d) (sym (length-append (be2 (length fs)) (fields_bytes fs))))))

  parts :
      (d : Jdump) (as' bs cs ds : List ℕ)
      → skip (length ds) (skip (length cs) (skip (length bs) (skip (length as') d)))
        ≡ skip (length (as' ++ (bs ++ (cs ++ ds)))) d
  parts d as' bs cs ds =
      ap (λ k. record d { fin = record d.fin { pos = k } })
        (omega (
          arith,
          length-append as' (bs ++ (cs ++ ds)),
          length-append bs (cs ++ ds),
          length-append cs ds,
        ))

  -- What `readClass` subtracts.
  abbrev pub class_charge : ClassDump → ℕ
  class_charge c =
      38 + pool_charge c.pool + (2 + statics_charge c.statics + (2 + 5 * length c.fields))

  stored-stored : (d : Jdump) (p : Ptr) (u v : Cinfo) → stored (stored d p u) p v ≡ stored d p v
  stored-stored d p u v = ap (λ l. record d { classes = l }) (set-set d.classes p u v)

  -- The two ends of the dump.
  statics_fields-Runs :
      (d : Jdump) (p : Ptr) (ci : Cinfo) (c : ClassDump) (h : ℕ) (r : List ℕ)
      → Narrow d
      → get_elem? d.classes p ≡ some ci
      → ClassInRange c
      → Rest d.fin ((statics_part c ++ fields_part c) ++ r)
      → Runs
          (read_statics p h >>= λ h'. read_fields p h')
          d
          (sub32 h (2 + statics_charge c.statics + (2 + 5 * length c.fields)))
          (stored
            (skip (length (statics_part c ++ fields_part c)) d)
            p
            (with_fields (with_statics ci c.statics) c.fields))
  unfolding be2
  statics_fields-Runs d p ci c h r w e range rest =
      let (now, behind) = Rest-behind d (statics_part c) (fields_part c) r rest in
      let ci' = with_statics ci c.statics in
      let d' = stored (skip (length (statics_part c)) d) p ci' in
      let same =
        stored-stored (skip (length (fields_part c)) (skip (length (statics_part c)) d)) p ci'
          (with_fields ci' c.fields)
        ∙ ap (λ x. stored x p (with_fields ci' c.fields))
            (skip-skip (length (statics_part c)) (length (fields_part c)) d
              ∙ ap (λ n. skip n d) (sym (length-append (statics_part c) (fields_part c)))) in
      rw (← sub32-sub32 h (2 + statics_charge c.statics) (2 + 5 * length c.fields)) (
        Runs-to
          (Runs-bind _
            (read_statics-Runs d p ci c.statics h (fields_part c ++ r) w e range.statics_length
              range.statics now)
            (read_fields-Runs d' p ci' c.fields (sub32 h (2 + statics_charge c.statics)) r
              (record { narrow = w.narrow; version = w.version })
              (get_elem?-set_same d.classes p ci' e) range.fields_length range.fields behind))
          same)

  module _ (d : Jdump) (c : ClassDump) (p : Ptr) (ci : Cinfo) (h : ℕ) (r : List ℕ) where
    pub read_class-Runs :
        Narrow d
        → ClassInRange c
        → lookup32 d.c_table c.ident ≡ some p
        → get_elem? d.classes p ≡ some ci
        → Rest d.fin (class_bytes c ++ r)
        → Runs
            (read_class h)
            d
            (sub32 h (class_charge c))
            (stored (skip (length (class_bytes c)) d) p (dumped ci c))
    unfolding read_class
    read_class-Runs w range found e rest =
        let (now, behind) = Rest-behind d (be4 c.ident) _ r rest in
        let n1 = length (be4 c.ident) in
        let n2 = length (links_bytes c.stack c.links) in
        let n3 = length (pool_part c) in
        let n4 = length (statics_part c ++ fields_part c) in
        let d1 = skip n1 d in
        let (now1, behind1) = Rest-behind d1 (links_bytes c.stack c.links) _ r behind in
        let ci1 = linked ci c.links in
        let d2 = stored (skip n2 d1) p ci1 in
        let (now2, behind2) = Rest-behind d2 (pool_part c) _ r behind1 in
        let w2 : Narrow d2 = record { narrow = w.narrow; version = w.version } in
        rw
          (← sub32-sub32 h (38 + pool_charge c.pool)
            (2 + statics_charge c.statics + (2 + 5 * length c.fields)))
          (Runs-to
            (Runs-step _ _ (Reads-ident_unused c.ident range.ident) w now (
              Runs-given _ c.ident refl (
                Runs-state _ (
                  Runs-given _ p found (
                    Runs-step _ _
                      (class_links-Reads c.stack c.links range.stack range.super_id range.loader_id
                        range.signer_id range.domain_id)
                      (Narrow-skip n1 w) now1
                      (Runs-bind _ (load_class-Runs (skip n2 d1) p ci e) (
                        Runs-bind
                          (λ _.
                            class_pool h >>= λ h'. read_statics p h' >>= λ h''. read_fields p h'')
                          (store_class-Runs (skip n2 d1) p ci1)
                          (Runs-step (λ h'. read_statics p h' >>= λ h''. read_fields p h'') _
                            (class_pool-Reads c.res1 c.res2 c.instsz c.pool h range.res1 range.res2
                              range.instsz range.pool_length range.pool)
                            w2 now2
                            (statics_fields-Runs (skip n3 d2) p ci1 c
                              (sub32 h (38 + pool_charge c.pool)) r (Narrow-skip n3 w2)
                              (get_elem?-set_same d.classes p ci1 e) range behind2)))))))))
            (stored-stored (skip n4 (skip n3 (skip n2 d1))) p ci1 (dumped ci c)
              ∙ ap (λ x. stored x p (dumped ci c)) (parts d (be4 c.ident) _ _ _)))

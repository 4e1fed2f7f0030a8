-- ===== src/Print/Circles.antt =====
-- `printInstance` at an array of objects that holds itself: only an instance sets `visit`.
use phat.Base.{
  ℕ, zero, suc, ◌+◌, ◌<◌, ◌≡◌, ◌≢◌, refl, Bool, true, false, some, List, [], ◌∷◌, ◌++◌, ◌==◌,
  get_elem?, ◌&&◌, not, ltb, lt→ltb, ne→eq_false,
}
use phat.Env.{Env, lookup32}
use phat.Types.{Ptr, Hobject, Hvalue, Line}
use phat.Dump.{Jdump, M, out_of_fuel, steps, state, given}
use phat.Array.{h_oarray}
use phat.Print.{print_oarray, print_refs, print_instance}

and_false : (b : Bool) → (b && false) ≡ false
and_false true = refl
and_false false = refl

module _ ⦃env : Env⦄ where
  -- The array at `q`, whose first element is its own identifier, is not in `visit`, and no depth is set.
  pub record Circle (d : Jdump) (q : Ptr) (ho : Hobject) (v : ℕ) (vs : List Hvalue) : Type 0 where
    pub here : get_elem? d.objects q ≡ some ho
    pub htype : ho.htype ≡ h_oarray
    pub visit : ho.visit ≡ false
    pub count : 0 < ho.count
    pub hvalues : ho.hvalues ≡ Hvalue.ident v ∷ vs
    pub not_null : v ≢ 0
    pub itself : lookup32 d.h_table v ≡ some q
    pub plimit : d.plimit ≡ 0

  shown : Jdump → Hobject → Jdump
  shown d ho = record d {
    out = d.out ++ (Line.object_array ho.inst_id ho.class_id ho.count ho.osize ∷ []);
  }

  shown-Circle :
      {d : Jdump} {q : Ptr} {ho : Hobject} {v : ℕ} {vs : List Hvalue}
      → Circle d q ho v vs
      → Circle (shown d ho) q ho v vs
  unfolding shown
  shown-Circle c = record {
    here = c.here;
    htype = c.htype;
    visit = c.visit;
    count = c.count;
    hvalues = c.hvalues;
    not_null = c.not_null;
    itself = c.itself;
    plimit = c.plimit;
  }

  -- The array shows its first element, whatever that shows.
  print_oarray-first :
      (show : Ptr → M (Unit {0})) (d : Jdump) (q indent : ℕ) (ho : Hobject) (v : ℕ)
      (vs : List Hvalue) (pshort : Bool)
      → Circle d q ho v vs
      → show q (shown d ho) ≡ out_of_fuel
      → print_oarray show ho indent pshort d ≡ out_of_fuel
  unfolding print_oarray print_refs shown steps
  print_oarray-first show d q indent ho v vs pshort c e =
      rw
        (
          lt→ltb 0 ho.count c.count,
          c.hvalues,
          ne→eq_false v 0 c.not_null,
          and_false pshort,
          c.itself,
          e,
        )
        refl

  no_limit : (a b : Bool) (n : ℕ) → n ≡ 0 → ((a && not (n == 0)) && b) ≡ false
  no_limit true b n e = rw e refl
  no_limit false b n e = refl

  -- Whatever the fuel: the print of an array of objects whose first element is the array itself never
  -- ends, where it has been resolved and no limit on the depth is given.
  pub print_instance-endless :
      (fuel : ℕ) (d : Jdump) (q indent : ℕ) (ho : Hobject) (v : ℕ) (vs : List Hvalue)
      (pshort in_string : Bool)
      → Circle d q ho v vs
      → print_instance fuel q indent pshort in_string d ≡ out_of_fuel
  unfolding print_instance state given
  print_instance-endless zero d q indent ho v vs pshort in_string c = refl
  print_instance-endless (suc k) d q indent ho v vs pshort in_string c =
      let inner =
        print_instance-endless k (shown d ho) q (1 + indent) ho v vs false false (shown-Circle c) in
      let first =
        print_oarray-first (λ q'. print_instance k q' (1 + indent) false false) d q indent ho v vs
          pshort c inner in
      rw (c.here, c.visit, no_limit (ltb 1 indent) (ltb d.plimit indent) d.plimit c.plimit, c.htype)
        first

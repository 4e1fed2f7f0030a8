-- ===== src/Graph/Cycles.antt =====
-- The size of a cycle: `cycle_size` at the head of the cycle.
use phat.Base.{
  ℕ, zero, suc, ◌+◌, ◌%◌, ◌^◌, ◌≤◌, ◌<◌, ◌≡◌, ◌≢◌, ap, sym, ◌∙◌, Option, some, none, List, [], ◌∷◌,
  length, get_elem?, set, arith, set-set, set-same, get_elem?-set_same, get_elem?-set_ne,
}
use phat.Env.{Env}
use phat.Types.{Ptr, Cinfo}
use phat.Dump.{Jdump, M, ok, steps, ◌>>=◌, load_class, store_class}
use phat.Resolve.Chain.{sum}
use phat.Graph.Flow.{each_member, cycle_size}

module _ ⦃env : Env⦄ where
  -- The sizes of the classes that `cyc_next` leads to, among which the class at `p` is not.
  pub data Members (classes : List Cinfo) (p : Ptr) : Option Ptr → List ℕ → Type 0 where
    last : Members classes p none []
    member :
        (m : Ptr) (mi : Cinfo) (ns : List ℕ)
        → get_elem? classes m ≡ some mi
        → p ≢ m
        → Members classes p mi.cyc_next ns
        → Members classes p (some m) (mi.size ∷ ns)

  pub Members-frame :
      (classes : List Cinfo) (p : Ptr) (v : Cinfo) (o : Option Ptr) (ns : List ℕ)
      → Members classes p o ns
      → Members (set classes p v) p o ns
  Members-frame classes p v o ns last = last
  Members-frame classes p v o ns (member m mi ms e ne h) =
      member m mi ms (get_elem?-set_ne classes p m v ne ∙ e) ne
        (Members-frame classes p v mi.cyc_next ms h)

  abbrev sized : Cinfo → ℕ → Cinfo
  sized ci n = record ci { size = (ci.size + n) % 2 ^ 64 }

  abbrev add_member : Ptr → Ptr → M (Unit {0})
  add_member p m = do
    mi ← load_class m
    hi ← load_class p
    store_class p (record hi { size = (hi.size + mi.size) % 2 ^ 64 })

  each_member-sum :
      (fuel : ℕ) (d : Jdump) (p : Ptr) (ci : Cinfo) (o : Option Ptr) (ns : List ℕ)
      → get_elem? d.classes p ≡ some ci
      → ci.size < 2 ^ 64
      → Members d.classes p o ns
      → length ns ≤ fuel
      → each_member fuel (add_member p) o d
        ≡ ok tt (record d { classes = set d.classes p (sized ci (sum ns)) })
  unfolding each_member steps
  each_member-sum fuel d p ci o ns e lt last le =
      let same : ci ≡ sized ci 0 = ap (λ n. record ci { size = n }) (omega (arith, lt)) in
      ap (λ cs. ok tt (record d { classes = cs }))
        (sym (set-same d.classes p (sized ci 0) (e ∙ ap some same)))
  each_member-sum zero d p ci o ns e lt (member m mi ms e' ne h) le = absurd (omega (arith, le))
  each_member-sum (suc k) d p ci o ns e lt (member m mi ms e' ne h) le =
      let ci1 = sized ci mi.size in
      let d1 = record d { classes = set d.classes p ci1 } in
      let e1 = get_elem?-set_same d.classes p ci1 e in
      let at_m : get_elem? d1.classes m ≡ some mi = get_elem?-set_ne d.classes p m ci1 ne ∙ e' in
      let more =
        each_member-sum k d1 p ci1 mi.cyc_next ms e1 (omega arith)
          (Members-frame d.classes p ci1 mi.cyc_next ms h) (omega (arith, le)) in
      rw (e', e, at_m, more, set-set d.classes p ci1 (sized ci1 (sum ms)))
        (ap (λ n. ok tt (record d { classes = set d.classes p (record ci { size = n }) }))
          (omega arith))

  -- At the head of a cycle, whose other members `cyc_next` leads to, cycle_size returns, on fuel of at
  -- least their number: the size of the head becomes the sum of all sizes, modulo 2^64, and nothing
  -- else changes.
  pub cycle_size-sum :
      (fuel : ℕ) (d : Jdump) (p : Ptr) (ci : Cinfo) (ns : List ℕ)
      → get_elem? d.classes p ≡ some ci
      → ci.size < 2 ^ 64
      → Members d.classes p ci.cyc_next ns
      → length ns ≤ fuel
      → cycle_size fuel p d
        ≡ ok tt (record d {
          classes = set d.classes p (record ci { size = (ci.size + sum ns) % 2 ^ 64 });
        })
  unfolding cycle_size steps
  cycle_size-sum fuel d p ci ns e lt h le =
      rw e (each_member-sum fuel d p ci ci.cyc_next ns e lt h le)

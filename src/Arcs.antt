-- ===== src/Arcs.antt =====
-- The arcs between classes: `arc_lookup` and `arc_add`.
pub mod Twice
use phat.Base.{
  ℕ, zero, suc, ◌+◌, ◌-◌, ◌%◌, ◌^◌, ltb, Option, none, some, [], ◌∷◌, ◌++◌, ◌==◌, if◌then◌else◌,
  get_elem?, set, length,
}
use phat.Env.{Env, lookup32}
use phat.Types.{Ptr, Arc}
use phat.Dump.{
  M, out_of_fuel, pure, ◌>>=◌, ◌>>◌, given, state, put, load_class, store_class, load_object,
}

-- An `int` as a `long`.
abbrev pub int_to_long : ℕ → ℕ
int_to_long n = if ltb n (2 ^ 31) then n else n + (2 ^ 64 - 2 ^ 32)

module _ ⦃env : Env⦄ where
  abbrev pub load_arc : Ptr → M Arc
  load_arc a = state >>= λ d. given (get_elem? d.arcs a)

  -- arc_lookup, for two classes that are not null: the first arc of the list with this child.
  unfoldable pub arc_lookup : ℕ → Option Ptr → Ptr → M (Option Ptr)
  arc_lookup fuel none child = pure none
  arc_lookup zero (some a) child = λ _. out_of_fuel
  arc_lookup (suc k) (some a) child = do
    arc ← load_arc a
    if arc.child == child then pure (some a) else arc_lookup k arc.next_child child

  -- A new arc heads the list of the parent's children, then the list of the child's parents.
  unfoldable pub arc_link : Ptr → Ptr → ℕ → ℕ → M (Unit {0})
  arc_link parent child count size = do
    d ← state
    let a = length d.arcs
    pc ← load_class parent
    let arc = record (env.talloc_arc a) {
      parent = parent;
      child = child;
      count = count;
      child_size = size;
      next_child = pc.children;
    }
    store_class parent (record pc { children = some a })
    cc ← load_class child
    store_class child (record cc { parents = some a })
    d' ← state
    put (record d' {
      arcs = d.arcs ++ (record arc { next_parent = cc.parents } ∷ []);
      arc_vec = if parent == child then d.arc_vec else d.arc_vec ++ (a ∷ []);
    })

  abbrev arc_count : Ptr → ℕ → ℕ → M (Unit {0})
  arc_count a count size = do
    arc ← load_arc a
    d ← state
    put (record d {
      arcs = set d.arcs a (record arc {
        count = (arc.count + count) % 2 ^ 64;
        child_size = (arc.child_size + size) % 2 ^ 64;
      });
    })

  -- arc_add: a null class is a null pointer in what follows. A list of arcs is no longer than the
  -- number of arcs, which is the fuel.
  unfoldable pub arc_add : Ptr → Ptr → ℕ → M (Unit {0})
  unfolding arc_lookup arc_link
  arc_add hop hoc count = do
    d ← state
    ho ← load_object hop
    hc ← load_object hoc
    parent ← given (lookup32 d.c_table ho.class_id)
    child ← given (lookup32 d.c_table hc.class_id)
    pc ← load_class parent
    found ← arc_lookup (length d.arcs) pc.children child
    let size = int_to_long hc.size
    elim found [ some a ↦ arc_count a count size | none ↦ arc_link parent child count size ]

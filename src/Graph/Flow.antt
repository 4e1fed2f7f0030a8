-- ===== src/Graph/Flow.antt =====
-- What goes along the arcs once the classes are numbered: `cyc_iter`, `topo_sort`, `size_sort`,
-- `prop_flags`, `prop_size`, `cycle_size`.
use phat.Base.{
  ℕ, zero, suc, ◌+◌, ◌%◌, ◌^◌, Bool, true, false, ◌||◌, not, Option, none, some, leb, ◌==◌,
  if◌then◌else◌,
}
use phat.Env.{Env, insert32}
use phat.Types.{Ptr, Arc}
use phat.Dump.{M, undef, out_of_fuel, pure, ◌>>=◌, ◌>>◌, state, put, load_class, store_class}
use phat.Arcs.{load_arc}
use phat.Graph.Sort.{store_arc}

-- `a <= b` for two values of type `int`.
abbrev pub int_le : ℕ → ℕ → Bool
int_le a b = leb ((a + 2 ^ 31) % 2 ^ 32) ((b + 2 ^ 31) % 2 ^ 32)

abbrev same_ptr : Option Ptr → Ptr → Bool
same_ptr none p = false
same_ptr (some q) p = q == p

module _ ⦃env : Env⦄ where
  -- cyc_iter: the head of a cycle gets a class, whose `cyc_head` is taken from `cycobj`, a pointer
  -- that has never been set.
  unfoldable pub cyc_iter : Ptr → M (Unit {0})
  cyc_iter p = do
    ci ← load_class p
    elim ci.cyc_next [
      | none ↦ pure tt
      | some n ↦ (if ci.cyc_head == p then (λ _. undef) else pure tt)
    ]

  -- topo_sort
  unfoldable pub topo_sort : Ptr → M (Unit {0})
  topo_sort p = do
    ci ← load_class p
    d ← state
    put (record d { topotab = insert32 d.topotab ci.top_order p })

  -- size_sort
  unfoldable pub size_sort : Ptr → M (Unit {0})
  size_sort p = do
    ci ← load_class p
    d ← state
    put (record d { sizetab = insert32 d.sizetab ((ci.size + ci.child_size) % 2 ^ 64) p })

  -- A step for each arc of a list of parents or of children.
  unfoldable pub each_arc :
      (Arc → Option Ptr) → ℕ → (Ptr → M (Unit {0})) → Option Ptr → M (Unit {0})
  each_arc next fuel visit none = pure tt
  each_arc next zero visit (some a) = λ _. out_of_fuel
  each_arc next (suc k) visit (some a) = do
    visit a
    arc ← load_arc a
    each_arc next k visit (next arc)

  -- for (memb = ...; memb; memb = memb->cyc_next)
  unfoldable pub each_member : ℕ → (Ptr → M (Unit {0})) → Option Ptr → M (Unit {0})
  each_member fuel visit none = pure tt
  each_member zero visit (some p) = λ _. out_of_fuel
  each_member (suc k) visit (some p) = do
    visit p
    ci ← load_class p
    each_member k visit ci.cyc_next

  abbrev set_flag : Ptr → Bool → M (Unit {0})
  set_flag p b = do ci ← load_class p; store_class p (record ci { print_flag = b })

  -- to->print_flag |= from->print_flag
  abbrev or_flag : Ptr → Ptr → M (Unit {0})
  or_flag to from = do
    fi ← load_class from
    ti ← load_class to
    store_class to (record ti { print_flag = ti.print_flag || fi.print_flag })

  -- The branch of prop_flags for a class that heads its cycle, or is in none.
  unfoldable pub flags_of_head : ℕ → Ptr → M (Unit {0})
  unfolding each_arc
  flags_of_head fuel p = do
    set_flag p false
    ci ← load_class p
    each_arc (λ a. a.next_parent) fuel
        (λ a. do arc ← load_arc a; if p == arc.parent then pure tt else or_flag p arc.parent)
        ci.parents

  -- The branch for another member: the head's flag is that of all parents outside the cycle, and each
  -- member gets it.
  unfoldable pub flags_of_cycle : ℕ → Ptr → M (Unit {0})
  unfolding each_arc each_member
  flags_of_cycle fuel head = do
    set_flag head false
    hi ← load_class head
    each_member fuel
        (λ m. do
          mi ← load_class m
          each_arc (λ a. a.next_parent) fuel
              (λ a. do
                arc ← load_arc a
                pi ← load_class arc.parent
                if pi.cyc_head == head then pure tt else or_flag head arc.parent)
              mi.parents)
        hi.cyc_next
    each_member fuel (λ m. do hi' ← load_class head; set_flag m hi'.print_flag) (some head)

  -- prop_flags
  unfoldable pub prop_flags : ℕ → Ptr → M (Unit {0})
  unfolding flags_of_head flags_of_cycle
  prop_flags fuel p = do
    ci ← load_class p
    d ← state
    if same_ptr d.old_head ci.cyc_head then pure tt else (do
      put (record d { old_head = some ci.cyc_head })
      if p == ci.cyc_head then flags_of_head fuel p else flags_of_cycle fuel ci.cyc_head)
    set_flag p true
    ci' ← load_class p
    d' ← state
    put (record d' { print_size = (d'.print_size + ci'.size) % 2 ^ 64 })

  -- ho->child_size += n
  abbrev add_child_size : Ptr → ℕ → M (Unit {0})
  add_child_size p n = do
    ci ← load_class p
    store_class p (record ci { child_size = (ci.child_size + n) % 2 ^ 64 })

  -- The arc takes the sizes of its child, or of the head of the child's cycle, to `p` and to the head
  -- of the cycle of `p`.
  abbrev take_size : Ptr → Ptr → Ptr → M (Unit {0})
  take_size p a child = do
    ci ← load_class child
    arc ← load_arc a
    store_arc a (record arc { size = ci.size; child_size = ci.child_size })
    add_child_size p ((ci.size + ci.child_size) % 2 ^ 64)
    pi ← load_class p
    if pi.cyc_head == p
        then pure tt
        else add_child_size pi.cyc_head ((ci.size + ci.child_size) % 2 ^ 64)

  -- A round of prop_size.
  unfoldable pub prop_arc : Ptr → Ptr → M (Unit {0})
  prop_arc p a = do
    arc ← load_arc a
    ci ← load_class p
    ch ← load_class arc.child
    if arc.count == 0 || arc.child == p
        then pure tt
        else if not (ch.cyc_head == arc.child)
        then (if ci.cyc_num == ch.cyc_num then pure tt else take_size p a ch.cyc_head)
        else if int_le ci.top_order ch.top_order
        then pure tt
        else take_size p a arc.child

  -- prop_size
  unfoldable pub prop_size : ℕ → Ptr → M (Unit {0})
  unfolding each_arc prop_arc
  prop_size fuel p = do
    ci ← load_class p
    if ci.size == 0 then pure tt else each_arc (λ a. a.next_child) fuel (prop_arc p) ci.children

  -- cycle_size
  unfoldable pub cycle_size : ℕ → Ptr → M (Unit {0})
  unfolding each_member
  cycle_size fuel p = do
    ci ← load_class p
    each_member fuel
        (λ m. do
          mi ← load_class m
          hi ← load_class p
          store_class p (record hi { size = (hi.size + mi.size) % 2 ^ 64 }))
        ci.cyc_next

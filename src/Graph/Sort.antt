-- ===== src/Graph/Sort.antt =====
-- The order of arcs, and the two sorts of a list of arcs by insertion: `cmp_arc`, `sort_parents`,
-- `sort_children`. The dummy arc `sorted` is its one field that is used, the head of the list.
use phat.Base.{
  ℕ, zero, suc, ◌+◌, ◌-◌, ◌%◌, ◌^◌, Bool, true, false, ◌||◌, ◌&&◌, not, Option, none, some, ltb,
  leb, ◌==◌, if◌then◌else◌, set,
}
use phat.Env.{Env}
use phat.Types.{Ptr, Arc, Cinfo}
use phat.Dump.{M, out_of_fuel, pure, ◌>>=◌, ◌>>◌, state, put, load_class, store_class}
use phat.Arcs.{load_arc}

-- A difference of two numbers, as an `int`: from 2^31 on it is negative.
abbrev pub int_sub : ℕ → ℕ → ℕ
int_sub a b = (a + 2 ^ 32 - b % 2 ^ 32) % 2 ^ 32

-- `0 >= c` and `0 <= c` for an `int`.
abbrev pub is_low : ℕ → Bool
is_low c = c == 0 || leb (2 ^ 31) c

abbrev pub is_high : ℕ → Bool
is_high c = ltb c (2 ^ 31)

-- Both ends are in the same cycle.
abbrev pub in_cycle : Cinfo → Cinfo → Bool
in_cycle parent child =
    not (parent.cyc_num == 0) && not (child.cyc_num == 0) && parent.cyc_num == child.cyc_num

-- cmp_arc, on the arcs and the classes at their ends.
unfoldable pub compare_arcs : Arc → Cinfo → Cinfo → Arc → Cinfo → Cinfo → ℕ
compare_arcs left lp lc right rp rc =
    if left.parent == left.child
    then 2 ^ 32 - 1
    else if right.parent == right.child
    then 1
    else if in_cycle lp lc
    then (if in_cycle rp rc then int_sub left.count right.count else 2 ^ 32 - 1)
    else if in_cycle rp rc
    then 1
    else if int_sub left.size right.size == 0
    then int_sub left.count right.count
    else int_sub left.size right.size

module _ ⦃env : Env⦄ where
  abbrev pub store_arc : Ptr → Arc → M (Unit {0})
  store_arc a arc = state >>= λ d. put (record d { arcs = set d.arcs a arc })

  -- cmp_arc
  unfoldable pub cmp_arc : Ptr → Ptr → M ℕ
  unfolding compare_arcs
  cmp_arc l r = do
    left ← load_arc l
    right ← load_arc r
    lp ← load_class left.parent
    lc ← load_class left.child
    rp ← load_class right.parent
    rc ← load_class right.child
    pure (compare_arcs left lp lc right rp rc)

  -- Which of its two lists an arc is sorted in: the field that links it, and the test that stops.
  pub record Link : Type 0 where
    pub next : Arc → Option Ptr
    pub with_next : Option Ptr → Arc → Arc
    pub stops : ℕ → Bool

  abbrev pub parent_link : Link
  parent_link = record {
    next = λ a. a.next_parent;
    with_next = λ n a. record a { next_parent = n };
    stops = is_low;
  }

  abbrev pub child_link : Link
  child_link = record {
    next = λ a. a.next_child;
    with_next = λ n a. record a { next_child = n };
    stops = is_high;
  }

  -- for (prev = &sorted; prev->next; prev = prev->next) if (...) break;
  -- `prev` is `none` at the dummy; it is returned with what follows it.
  unfoldable pub find_place : Link → ℕ → Ptr → Option Ptr → Option Ptr → M (Option Ptr × Option Ptr)
  unfolding cmp_arc
  find_place l fuel a prev none = pure (prev, none)
  find_place l zero a prev (some q) = λ _. out_of_fuel
  find_place l (suc k) a prev (some q) = do
    c ← cmp_arc a q
    arc ← load_arc q
    elim (l.stops c) [ true ↦ pure (prev, some q) | false ↦ find_place l k a (some q) (l.next arc) ]

  -- prev->next = arc, which at the dummy is the new head.
  abbrev pub link_after : Link → Option Ptr → Ptr → Option Ptr → M (Option Ptr)
  link_after l none a head = pure (some a)
  link_after l (some p) a head = do
    arc ← load_arc p
    store_arc p (l.with_next (some a) arc)
    pure head

  -- A round of the outer loop: the arc goes behind `prev`.
  unfoldable pub insert_arc : Link → ℕ → Ptr → Option Ptr → M (Option Ptr)
  unfolding find_place
  insert_arc l fuel a head = do
    (prev, next) ← find_place l fuel a none head
    arc ← load_arc a
    store_arc a (l.with_next next arc)
    link_after l prev a head

  -- for (arc = ...; arc; arc = detached)
  unfoldable pub sort_loop : Link → ℕ → ℕ → Option Ptr → Option Ptr → M (Option Ptr)
  unfolding insert_arc
  sort_loop l inner fuel none head = pure head
  sort_loop l inner zero (some a) head = λ _. out_of_fuel
  sort_loop l inner (suc k) (some a) head = do
    arc ← load_arc a
    head' ← insert_arc l inner a head
    sort_loop l inner k (l.next arc) head'

  -- sort_parents
  unfoldable pub sort_parents : ℕ → Ptr → M (Unit {0})
  unfolding sort_loop
  sort_parents fuel p = do
    ci ← load_class p
    head ← sort_loop parent_link fuel fuel ci.parents none
    ci' ← load_class p
    store_class p (record ci' { parents = head })

  -- sort_children
  unfoldable pub sort_children : ℕ → Ptr → M (Unit {0})
  unfolding sort_loop
  sort_children fuel p = do
    ci ← load_class p
    head ← sort_loop child_link fuel fuel ci.children none
    ci' ← load_class p
    store_class p (record ci' { children = head })

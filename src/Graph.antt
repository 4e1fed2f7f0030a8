-- ===== src/Graph.antt =====
-- The graph of the classes, which are numbered by a depth-first search along their arcs: `arc_init`,
-- `mg_previsit`, `mg_postvisit`, `find_cycle`, `mg_dfn`, `mg_dfn_lup`. Nothing that runs calls these.
-- `dfn_stack` is the stack with its top first, so that `dfn_depth` is its length.
pub mod Alone
pub mod Sort
pub mod Flow
pub mod Assemble
pub mod Walks
pub mod Numbering
pub mod Steps
pub mod Topological
pub mod Roots
pub mod Cycles
pub mod Members
pub mod Chains
pub mod Insertion
pub mod Rounds
pub mod Sorted
pub mod Children
pub mod Prints
use phat.Base.{
  ℕ, zero, suc, ◌+◌, ◌-◌, ◌%◌, ◌^◌, false, ◌||◌, ◌&&◌, not, Option, none, some, List, [], ◌∷◌, ◌==◌,
  if◌then◌else◌,
}
use phat.Env.{Env, lookup32}
use phat.Types.{Ptr, Line}
use phat.Dump.{
  M, out_of_fuel, pure, ◌>>=◌, ◌>>◌, state, put, print, load_class, store_class, load_object,
}
use phat.Arcs.{load_arc}

-- MG_DFN_NAN and MG_DFN_BUSY, of an `int`.
abbrev pub mg_dfn_nan : ℕ
mg_dfn_nan = 0

abbrev pub mg_dfn_busy : ℕ
mg_dfn_busy = 2 ^ 32 - 1

module _ ⦃env : Env⦄ where
  -- arc_init
  unfoldable pub arc_init : Ptr → M (Unit {0})
  arc_init p = do
    ci ← load_class p
    store_class p (record ci {
      child_size = 0;
      print_flag = false;
      top_order = mg_dfn_nan;
      cyc_num = 0;
      cyc_head = p;
      cyc_next = none;
      parents = none;
      children = none;
    })

  -- mg_previsit
  unfoldable pub mg_previsit : Ptr → M (Unit {0})
  mg_previsit p = do
    d ← state
    put (record d { dfn_stack = p ∷ d.dfn_stack })
    ci ← load_class p
    store_class p (record ci { top_order = mg_dfn_busy })

  -- for (memb = ho; ho; ho = ho->cyc_next) memb->top_order = dfn_counter; where `memb` stays.
  unfoldable pub number_loop : ℕ → Ptr → Option Ptr → M (Unit {0})
  number_loop fuel memb none = pure tt
  number_loop zero memb (some p) = λ _. out_of_fuel
  number_loop (suc k) memb (some p) = do
    mi ← load_class memb
    d ← state
    store_class memb (record mi { top_order = d.dfn_counter })
    ci ← load_class p
    number_loop k memb ci.cyc_next

  abbrev pub pop : List Ptr → List Ptr
  pop [] = []
  pop (p ∷ ps) = ps

  -- mg_postvisit
  unfoldable pub mg_postvisit : ℕ → Ptr → M (Unit {0})
  unfolding number_loop
  mg_postvisit fuel p = do
    ci ← load_class p
    if ci.cyc_head == p
        then (do
          d ← state
          put (record d { dfn_counter = (d.dfn_counter + 1) % 2 ^ 32 })
          number_loop fuel p (some p))
        else pure tt
    d' ← state
    put (record d' { dfn_stack = pop d'.dfn_stack })

  -- The first loop of find_cycle, down the stack: the head, and what is above it, the lowest first.
  -- `none`: there is no head.
  unfoldable pub find_head : Ptr → List Ptr → List Ptr → M (Option (Ptr × List Ptr))
  find_head p [] above = pure none
  find_head p (q ∷ stack) above = do
    ci ← load_class p
    let is_head = p == q || (not (ci.cyc_head == p) && not (ci.cyc_head == q))
    if is_head then pure (some (q, above)) else find_head p stack (q ∷ above)

  -- for (tail = ...; tail->cyc_next; tail = tail->cyc_next)
  unfoldable pub tail_of : ℕ → Ptr → M Ptr
  tail_of zero t = λ _. out_of_fuel
  tail_of (suc k) t = do
    ci ← load_class t
    elim ci.cyc_next [ none ↦ pure t | some n ↦ tail_of k n ]

  -- The same, where each member behind the first gets a new head.
  unfoldable pub adopt : ℕ → Ptr → Ptr → M Ptr
  adopt zero head t = λ _. out_of_fuel
  adopt (suc k) head t = do
    ci ← load_class t
    elim ci.cyc_next [
      | none ↦ pure t
      | some n ↦ (do
        ni ← load_class n
        store_class n (record ni { cyc_head = head })
        adopt k head n)
    ]

  -- The loop over what is above the head on the stack.
  unfoldable pub capture : ℕ → Ptr → Ptr → List Ptr → M (Unit {0})
  unfolding adopt
  capture fuel head tail [] = pure tt
  capture fuel head tail (p ∷ ps) = do
    ci ← load_class p
    if ci.cyc_head == p
        then (do
          ti ← load_class tail
          store_class tail (record ti { cyc_next = some p })
          ci' ← load_class p
          store_class p (record ci' { cyc_head = head })
          tail' ← adopt fuel head p
          capture fuel head tail' ps)
        else if ci.cyc_head == head
        then capture fuel head tail ps
        else pure tt

  abbrev join_cycle : ℕ → Option (Ptr × List Ptr) → M (Unit {0})
  join_cycle fuel none = pure tt
  join_cycle fuel (some (head, [])) = pure tt
  join_cycle fuel (some (head, p ∷ above)) = do
    tail ← tail_of fuel head
    hi ← load_class head
    capture fuel hi.cyc_head tail (p ∷ above)

  -- find_cycle
  unfoldable pub find_cycle : ℕ → Ptr → M (Unit {0})
  unfolding find_head tail_of capture
  find_cycle fuel p = do d ← state; found ← find_head p d.dfn_stack []; join_cycle fuel found

  -- for (arc = ho->children; arc; arc = arc->next_child) mg_dfn(arc->child);
  unfoldable pub arcs_loop : ℕ → (Ptr → M (Unit {0})) → Option Ptr → M (Unit {0})
  arcs_loop fuel visit none = pure tt
  arcs_loop zero visit (some a) = λ _. out_of_fuel
  arcs_loop (suc k) visit (some a) = do
    arc ← load_arc a
    visit arc.child
    arc' ← load_arc a
    arcs_loop k visit arc'.next_child

  -- mg_dfn
  unfoldable pub mg_dfn : ℕ → Ptr → M (Unit {0})
  unfolding mg_previsit mg_postvisit find_cycle arcs_loop
  mg_dfn zero p = λ _. out_of_fuel
  mg_dfn (suc k) p = do
    ci ← load_class p
    if not (ci.top_order == mg_dfn_nan) && not (ci.top_order == mg_dfn_busy)
        then pure tt
        else if not (ci.top_order == mg_dfn_nan)
        then find_cycle (suc k) p
        else (do
          mg_previsit p
          ci' ← load_class p
          arcs_loop (suc k) (mg_dfn k) ci'.children
          mg_postvisit (suc k) p)

  abbrev visit_class : ℕ → ℕ → Option Ptr → M (Unit {0})
  visit_class fuel id none = print (Line.invalid_class id)
  visit_class fuel id (some p) = mg_dfn fuel p

  abbrev visit_object : ℕ → ℕ → Option Ptr → M (Unit {0})
  visit_object fuel id none = print (Line.invalid_root id)
  visit_object fuel id (some q) = do
    ho ← load_object q
    d ← state
    visit_class fuel id (lookup32 d.c_table ho.class_id)

  -- mg_dfn_lup
  unfoldable pub mg_dfn_lup : ℕ → ℕ → M (Unit {0})
  unfolding mg_dfn
  mg_dfn_lup fuel id = do d ← state; visit_object fuel id (lookup32 d.h_table id)

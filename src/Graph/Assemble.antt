-- ===== src/Graph/Assemble.antt =====
-- The walks over a tree and the print of the graph: `arc_iter`, `arc_rev_iter`, `cycle_link`,
-- `print_name`, `print_parents`, `print_children`, `mg_print`, `mg_assemble`. No code calls the last.
use phat.Base.{ℕ, zero, suc, ◌+◌, ◌*◌, ◌/◌, ◌%◌, ◌^◌, Option, none, some, ◌==◌, if◌then◌else◌}
use phat.Env.{Env, Node, leaf, node}
use phat.Types.{Ptr, Root, Line}
use phat.Dump.{M, undef, out_of_fuel, pure, ◌>>=◌, ◌>>◌, state, put, print, load_class, store_class}
use phat.Arcs.{load_arc}
use phat.Graph.{arc_init, mg_dfn_lup}
use phat.Graph.Sort.{sort_parents, sort_children}
use phat.Graph.Flow.{size_sort, prop_flags, prop_size, cycle_size}

module _ ⦃env : Env⦄ where
  -- arc_iter
  unfoldable pub arc_iter : {A : Type 0} → (A → M (Unit {0})) → Node A → M (Unit {0})
  arc_iter func leaf = pure tt
  arc_iter func (node l key a r) = do arc_iter func l; func a; arc_iter func r

  -- arc_rev_iter, which goes down by arc_iter.
  unfoldable pub arc_rev_iter : {A : Type 0} → (A → M (Unit {0})) → Node A → M (Unit {0})
  unfolding arc_iter
  arc_rev_iter func leaf = pure tt
  arc_rev_iter func (node l key a r) = do arc_iter func r; func a; arc_iter func l

  -- A function for classes at an object or a root: it reads fields behind the end of what it is given.
  abbrev pub no_class : {A : Type 0} → A → M (Unit {0})
  no_class a d = undef

  -- cycle_link
  unfoldable pub cycle_link : M (Unit {0})
  unfolding arc_iter
  cycle_link = do
    d ← state
    put (record d { num_cycles = 0 })
    arc_iter no_class (env.root d.h_table)

  -- print_name
  unfoldable pub print_name : Ptr → M (Unit {0})
  print_name p = do ci ← load_class p; print (Line.name_line ci.name)

  -- for (arc = ...; arc; arc->next_...): the third part has no effect, so `arc` stays.
  unfoldable pub print_arcs : ℕ → Ptr → Option Ptr → M (Unit {0})
  unfolding print_name
  print_arcs fuel p none = pure tt
  print_arcs zero p (some a) = λ _. out_of_fuel
  print_arcs (suc k) p (some a) = do
    arc ← load_arc a
    print (Line.arc_line arc.size arc.child_size arc.count)
    print_name p
    print_arcs k p (some a)

  -- print_parents: both branches of its test print the same.
  unfoldable pub print_parents : ℕ → Ptr → M (Unit {0})
  unfolding print_arcs sort_parents
  print_parents fuel p = do
    ci ← load_class p
    elim ci.parents [
      | none ↦ pure tt
      | some a ↦ (do sort_parents fuel p; ci' ← load_class p; print_arcs fuel p ci'.parents)
    ]

  -- print_children
  unfoldable pub print_children : ℕ → Ptr → M (Unit {0})
  unfolding print_arcs sort_children
  print_children fuel p = do
    ci ← load_class p
    elim ci.children [
      | none ↦ pure tt
      | some a ↦ (do sort_children fuel p; ci' ← load_class p; print_arcs fuel p ci'.children)
    ]

  -- mg_print. Its numbers are integers that are printed as `double`; the line holds the integers.
  unfoldable pub mg_print : ℕ → Ptr → M (Unit {0})
  unfolding print_parents print_children print_name
  mg_print fuel p = do
    ci ← load_class p
    d ← state
    put (record d { num_objs = (d.num_objs + 1) % 2 ^ 32 })
    store_class p (record ci { index = d.num_objs })
    print_parents fuel p
    ci' ← load_class p
    d' ← state
    if d'.print_size == 0 then (λ _. undef) else (do
      let total = 100 * ((ci'.size + ci'.child_size) % 2 ^ 64) % 2 ^ 64
      print (Line.node_line ci'.index (total / d'.print_size) ci'.size ci'.child_size)
      print_name p
      print_children fuel p)

  -- What mg_dfn_lup reads at a root: a `struct _rinfo` begins with its identifier, and of the number
  -- that a monitor leaves the low half is looked up and printed.
  abbrev pub root_ident : Root → ℕ
  root_ident (Root.info ri) = ri.ident
  root_ident (Root.monitor id) = id

  -- mg_assemble
  unfoldable pub mg_assemble : ℕ → M (Unit {0})
  unfolding arc_iter arc_rev_iter cycle_link arc_init mg_dfn_lup prop_flags prop_size cycle_size
      mg_print
  mg_assemble fuel = do
    d ← state
    arc_iter arc_init (env.root d.c_table)
    arc_iter (λ r. mg_dfn_lup fuel (root_ident r)) (env.root d.roots)
    d1 ← state
    put (record d1 { cyctab = env.trbt_create Ptr })
    cycle_link
    d2 ← state
    put (record d2 { topotab = env.trbt_create Ptr })
    arc_iter no_class (env.root d2.roots)
    d3 ← state
    arc_rev_iter (prop_flags fuel) (env.root d3.topotab)
    arc_iter (cycle_size fuel) (env.root d3.cyctab)
    arc_iter (prop_size fuel) (env.root d3.topotab)
    d4 ← state
    put (record d4 { sizetab = env.trbt_create Ptr })
    arc_iter no_class (env.root d4.roots)
    arc_iter size_sort (env.root d4.cyctab)
    d5 ← state
    arc_iter (mg_print fuel) (env.root d5.sizetab)

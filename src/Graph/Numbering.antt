-- ===== src/Graph/Numbering.antt =====
-- What `mg_dfn` keeps true of the numbers of the classes, on a graph without cycles.
use native.Mathlib.Decide.{ℕ_discrete}
use phat.Base.{
  ℕ, zero, suc, ◌+◌, ◌≤◌, ◌<◌, ◌≡◌, ◌≢◌, ◌⊎◌, inl, inr, refl, ap, sym, ◌∙◌, Option, some, none,
  List, [], ◌∷◌, All, length, get_elem?, set, get_elem?-set_same, get_elem?-set_ne, arith, ◌==◌,
  ◌||◌, if◌then◌else◌,
}
use phat.Types.{Ptr, Arc, Cinfo}
use phat.Graph.{mg_dfn_nan, mg_dfn_busy}

pub eq_cases : (a b : ℕ) → (a ≡ b) ⊎ (a ≢ b)
eq_cases a b = elim (ℕ_discrete a b) [ yes e ↦ inl e | no h ↦ inr h ]

-- The children that a list of arcs leads to.
pub data Kids (arcs : List Arc) : Option Ptr → List Ptr → Type 0 where
  last : Kids arcs none []
  more :
      (a : Ptr) (arc : Arc) (cs : List Ptr)
      → get_elem? arcs a ≡ some arc
      → Kids arcs arc.next_child cs
      → Kids arcs (some a) (arc.child ∷ cs)

abbrev order_of : Option Cinfo → ℕ
order_of none = mg_dfn_nan
order_of (some ci) = ci.top_order

-- The number of a class.
unfoldable pub order_at : List Cinfo → Ptr → ℕ
order_at classes p = order_of (get_elem? classes p)

pub order_at-class :
    (classes : List Cinfo) (p : Ptr) (ci : Cinfo)
    → get_elem? classes p ≡ some ci
    → order_at classes p ≡ ci.top_order
unfolding order_at
order_at-class classes p ci e = ap order_of e

-- A class gets another number.
abbrev pub renumber : List Cinfo → Ptr → Cinfo → ℕ → List Cinfo
renumber classes p ci n = set classes p (record ci { top_order = n })

pub order_at-renumber_self :
    (classes : List Cinfo) (p : Ptr) (ci : Cinfo) (n : ℕ)
    → get_elem? classes p ≡ some ci
    → order_at (renumber classes p ci n) p ≡ n
unfolding order_at
order_at-renumber_self classes p ci n e =
    ap order_of (get_elem?-set_same classes p (record ci { top_order = n }) e)

pub order_at-renumber_ne :
    (classes : List Cinfo) (p q : Ptr) (ci : Cinfo) (n : ℕ)
    → p ≢ q
    → order_at (renumber classes p ci n) q ≡ order_at classes q
unfolding order_at
order_at-renumber_ne classes p q ci n ne =
    ap order_of (get_elem?-set_ne classes p q (record ci { top_order = n }) ne)

-- The classes that have no number yet.
abbrev pub is_pending : ℕ → ℕ
is_pending n = if n == mg_dfn_nan || n == mg_dfn_busy then 1 else 0

unfoldable pub pending : List Cinfo → ℕ
pending [] = 0
pending (ci ∷ cs) = is_pending ci.top_order + pending cs

pub pending-set :
    (cs : List Cinfo) (i : ℕ) (u v : Cinfo)
    → get_elem? cs i ≡ some u
    → pending (set cs i v) + is_pending u.top_order ≡ pending cs + is_pending v.top_order
unfolding pending
pending-set [] i u v e = cc
pending-set (c ∷ cs) zero u v e = ground arith
pending-set (c ∷ cs) (suc i) u v e = omega (arith, pending-set cs i u v e)

pub pending_le :
    (cs : List Cinfo) (i : ℕ) (u : Cinfo)
    → get_elem? cs i ≡ some u
    → is_pending u.top_order ≤ pending cs
unfolding pending
pending_le [] i u e = cc
pending_le (c ∷ cs) zero u e = ground arith
pending_le (c ∷ cs) (suc i) u e = omega (arith, pending_le cs i u e)

module _ (kids : Ptr → List Ptr) where
  -- A class has no number, is on the stack, or has a number that is above those of its children.
  pub data Kind (classes : List Cinfo) (n : ℕ) (q : Ptr) : Type 0 where
    fresh : order_at classes q ≡ mg_dfn_nan → Kind classes n q
    busy : order_at classes q ≡ mg_dfn_busy → Kind classes n q
    done :
        1 ≤ order_at classes q
        → order_at classes q ≤ n
        → All (λ c. (1 ≤ order_at classes c) × (order_at classes c < order_at classes q)) (kids q)
        → Kind classes n q

  -- A class that is in no cycle, and whose arcs lead to its children.
  pub record Vertex (arcs : List Arc) (classes : List Cinfo) (q : Ptr) : Type 0 where
    pub class : Cinfo
    pub here : get_elem? classes q ≡ some class
    pub head : class.cyc_head ≡ q
    pub alone : class.cyc_next ≡ none
    pub linked : Kids arcs class.children (kids q)

  module _ (rank : Ptr → ℕ) where
    -- The arcs go down in rank, each class is of one kind, and the numbers do not overflow.
    pub record Numbering (arcs : List Arc) (classes : List Cinfo) (n : ℕ) : Type 0 where
      pub vertex : (q : Ptr) → q < length classes → Vertex arcs classes q
      pub below : (q : Ptr) → All (λ c. (c < length classes) × (rank c < rank q)) (kids q)
      pub kind : (q : Ptr) → Kind classes n q
      pub room : n + pending classes < mg_dfn_busy

    -- Every class that had a number keeps it, and so does a class on the stack.
    pub record Extends (classes classes' : List Cinfo) : Type 0 where
      pub size : length classes' ≡ length classes
      pub keeps :
          (q : Ptr) → order_at classes q ≢ mg_dfn_nan → order_at classes' q ≡ order_at classes q

    pub Extends-refl : (cs : List Cinfo) → Extends cs cs
    Extends-refl cs = record { size = refl; keeps = λ q h. refl }

    pub Extends-trans :
        (cs cs' cs'' : List Cinfo) → Extends cs cs' → Extends cs' cs'' → Extends cs cs''
    Extends-trans cs cs' cs'' e e' = record {
      size = e'.size ∙ e.size;
      keeps = λ q h. e'.keeps q (λ z. h (sym (e.keeps q h) ∙ z)) ∙ e.keeps q h;
    }

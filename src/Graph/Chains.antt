-- ===== src/Graph/Chains.antt =====
-- The lists of arcs that the sorts of Graph/Sort take apart and put together: an arc is linked to the
-- next one by one of its fields.
use mathlib.Core.Path.{◌≡◌, sym, ◌∙◌}
use phat.Base.{
  ◌≢◌, Option, none, some, List, [], ◌∷◌, ◌++◌, get_elem?, set, get_elem?-set_same,
  get_elem?-set_ne,
}
use phat.Env.{Env}
use phat.Types.{Ptr, Arc, Cinfo}
use phat.Graph.Sort.{Link}

-- A pointer that is not in a list.
abbrev pub Apart : Ptr → List Ptr → Type 0
Apart x [] = Unit {0}
Apart x (y ∷ ys) = (x ≢ y) × Apart x ys

abbrev pub Distinct : List Ptr → Type 0
Distinct [] = Unit {0}
Distinct (x ∷ xs) = Apart x xs × Distinct xs

abbrev pub Disjoint : List Ptr → List Ptr → Type 0
Disjoint [] ys = Unit {0}
Disjoint (x ∷ xs) ys = Apart x ys × Disjoint xs ys

pub Disjoint-nil : (xs : List Ptr) → Disjoint xs []
Disjoint-nil [] = tt
Disjoint-nil (x ∷ xs) = (tt, Disjoint-nil xs)

abbrev pub head_of : List Ptr → Option Ptr
head_of [] = none
head_of (x ∷ xs) = some x

abbrev pub last_of : Ptr → List Ptr → Ptr
last_of b [] = b
last_of b (c ∷ cs) = last_of c cs

pub Apart-insert :
    (y a : Ptr) (bs cs : List Ptr) → y ≢ a → Apart y (bs ++ cs) → Apart y (bs ++ (a ∷ cs))
Apart-insert y a [] cs ne h = (ne, h)
Apart-insert y a (b ∷ bs) cs ne (first, h) = (first, Apart-insert y a bs cs ne h)

pub Distinct-insert :
    (a : Ptr) (bs cs : List Ptr)
    → Apart a (bs ++ cs)
    → Distinct (bs ++ cs)
    → Distinct (bs ++ (a ∷ cs))
Distinct-insert a [] cs new h = (new, h)
Distinct-insert a (b ∷ bs) cs (ne, new) (first, h) =
    (Apart-insert b a bs cs (λ e. ne (sym e)) first, Distinct-insert a bs cs new h)

pub Disjoint-insert :
    (a : Ptr) (bs cs rest : List Ptr)
    → Apart a rest
    → Disjoint rest (bs ++ cs)
    → Disjoint rest (bs ++ (a ∷ cs))
Disjoint-insert a bs cs [] new h = tt
Disjoint-insert a bs cs (r ∷ rest) (ne, new) (first, h) =
    (Apart-insert r a bs cs (λ e. ne (sym e)) first, Disjoint-insert a bs cs rest new h)

pub Apart-last : (r b : Ptr) (bs cs : List Ptr) → Apart r (b ∷ (bs ++ cs)) → r ≢ last_of b bs
Apart-last r b [] cs (ne, h) = ne
Apart-last r b (c ∷ bs) cs (ne, h) = Apart-last r c bs cs h

pub last-Apart :
    (b : Ptr) (bs cs rest : List Ptr) → Disjoint rest (b ∷ (bs ++ cs)) → Apart (last_of b bs) rest
last-Apart b bs cs [] h = tt
last-Apart b bs cs (r ∷ rest) (first, h) =
    ((λ e. Apart-last r b bs cs first (sym e)), last-Apart b bs cs rest h)

module _ ⦃env : Env⦄ where
  -- What the sorts need of the field that links: it is what was stored last, and no other field
  -- depends on it.
  pub record Lawful (l : Link) : Type 0 where
    pub next-with : (n : Option Ptr) (a : Arc) → l.next (l.with_next n a) ≡ n
    pub with-with : (n m : Option Ptr) (a : Arc) → l.with_next n (l.with_next m a) ≡ l.with_next n a
    pub parent-with : (n : Option Ptr) (a : Arc) → (l.with_next n a).parent ≡ a.parent
    pub child-with : (n : Option Ptr) (a : Arc) → (l.with_next n a).child ≡ a.child
    pub count-with : (n : Option Ptr) (a : Arc) → (l.with_next n a).count ≡ a.count
    pub size-with : (n : Option Ptr) (a : Arc) → (l.with_next n a).size ≡ a.size

  -- The arcs up to their links, and the classes at their ends.
  pub record Ends : Type 0 where
    pub arc : Ptr → Arc
    pub parent : Ptr → Cinfo
    pub child : Ptr → Cinfo

  module _ (l : Link) (k : Ends) (classes : List Cinfo) where
    pub record Entry (arcs : List Arc) (a : Ptr) (n : Option Ptr) : Type 0 where
      pub stored : get_elem? arcs a ≡ some (l.with_next n (k.arc a))
      pub parent : get_elem? classes (k.arc a).parent ≡ some (k.parent a)
      pub child : get_elem? classes (k.arc a).child ≡ some (k.child a)

    -- The arcs of a list are linked in its order.
    abbrev pub Linked : List Arc → List Ptr → Type 0
    Linked arcs [] = Unit {0}
    Linked arcs (a ∷ xs) = Entry arcs a (head_of xs) × Linked arcs xs

    Entry-frame :
        (arcs : List Arc) (x a : Ptr) (v : Arc) (n : Option Ptr)
        → x ≢ a
        → Entry arcs a n
        → Entry (set arcs x v) a n
    Entry-frame arcs x a v n ne h = record {
      stored = get_elem?-set_ne arcs x a v ne ∙ h.stored;
      parent = h.parent;
      child = h.child;
    }

    pub Linked-frame :
        (arcs : List Arc) (x : Ptr) (v : Arc) (ys : List Ptr)
        → Apart x ys
        → Linked arcs ys
        → Linked (set arcs x v) ys
    Linked-frame arcs x v [] away h = tt
    Linked-frame arcs x v (y ∷ ys) (ne, away) (first, h) =
        (Entry-frame arcs x y v (head_of ys) ne first, Linked-frame arcs x v ys away h)

    pub Entry-set :
        (arcs : List Arc) (a : Ptr) (n m : Option Ptr)
        → Entry arcs a n
        → Entry (set arcs a (l.with_next m (k.arc a))) a m
    Entry-set arcs a n m h = record {
      stored = get_elem?-set_same arcs a (l.with_next m (k.arc a)) h.stored;
      parent = h.parent;
      child = h.child;
    }

    pub last-Entry :
        (arcs : List Arc) (b : Ptr) (bs cs : List Ptr)
        → Linked arcs (b ∷ (bs ++ cs))
        → Entry arcs (last_of b bs) (head_of cs)
    last-Entry arcs b [] cs (first, h) = first
    last-Entry arcs b (c ∷ bs) cs (first, h) = last-Entry arcs c bs cs h

    -- An arc is put behind the last of some, where it is linked to what follows.
    pub Linked-insert :
        (arcs : List Arc) (a b : Ptr) (bs cs : List Ptr)
        → Distinct (b ∷ (bs ++ (a ∷ cs)))
        → Linked arcs (b ∷ (bs ++ cs))
        → Entry arcs a (head_of cs)
        → Linked
            (set arcs (last_of b bs) (l.with_next (some a) (k.arc (last_of b bs))))
            (b ∷ (bs ++ (a ∷ cs)))
    Linked-insert arcs a b [] cs (away, d) (first, h) new = (
      Entry-set arcs b (head_of cs) (some a) first,
      Linked-frame arcs b (l.with_next (some a) (k.arc b)) (a ∷ cs) away (new, h),
    )
    Linked-insert arcs a b (c ∷ bs) cs (away, d) (first, h) new =
        let p = last_of c bs in
        (
          Entry-frame arcs p b (l.with_next (some a) (k.arc p)) (some c)
              (λ e. Apart-last b c bs (a ∷ cs) away (sym e)) first,
          Linked-insert arcs a c bs cs d h new,
        )

-- ===== src/Resolve/Own/Above.antt =====
-- The superclasses of a class, and where their fields go.
use phat.Base.{
  ℕ, ◌+◌, ◌≡◌, ◌≢◌, sym, ◌∙◌, Option, some, List, [], ◌∷◌, ◌++◌, map, length, get_elem?, set,
  get_elem?-set_ne,
}
use phat.Env.{Env, lookup32}
use phat.Types.{Ptr, Cinfo, Finfo}
use phat.Resolve.Own.Block.{copies, sizes}

-- All fields of some classes, and where they go: the last class comes first in `values`, and its
-- fields behind those of the others in an object.
abbrev pub total : List (List Finfo) → ℕ
total [] = 0
total (fs ∷ fss) = length fs + total fss

module _ ⦃env : Env⦄ where
  module _ (identsz : ℕ) where
    abbrev pub laid : ℕ → List (List Finfo) → List (Option Finfo)
    laid index [] = []
    laid index (fs ∷ fss) =
        laid (index + sizes identsz fs) fss ++ map some (copies identsz index fs)

    abbrev pub sizes_all : List (List Finfo) → ℕ
    sizes_all [] = 0
    sizes_all (fs ∷ fss) = sizes identsz fs + sizes_all fss

  module _ (classes : List Cinfo) (table : env.Tree Ptr) (p : Ptr) where
    -- The class with an identifier, which is not the class at `p`.
    pub record Base (id : ℕ) : Type 0 where
      pub at : Ptr
      pub class : Cinfo
      pub known : lookup32 table id ≡ some at
      pub apart : at ≢ p
      pub here : get_elem? classes at ≡ some class

    -- A superclass that has a superclass, with its fields.
    pub record Inner (id : ℕ) (fs : List Finfo) : Type 0 where
      pub base : Base id
      pub open base use *
      pub has_super : class.super_id ≢ 0
      pub fields : class.fields ≡ fs
      pub count : class.cfields ≡ length fs

    pub record Top (id : ℕ) : Type 0 where
      pub base : Base id
      pub open base use *
      pub no_super : class.super_id ≡ 0

    -- The superclasses from that with the identifier `id` on, up to one without a superclass, whose
    -- fields do not count.
    abbrev pub Bases : ℕ → List (List Finfo) → Type 0
    Bases id [] = Top id
    Bases id (fs ∷ fss) = (b : Inner id fs) × Bases b.class.super_id fss

  module _ (classes : List Cinfo) (table : env.Tree Ptr) (p : Ptr) (v : Cinfo) where
    pub Bases-frame :
        (fss : List (List Finfo)) (id : ℕ)
        → Bases classes table p id fss
        → Bases (set classes p v) table p id fss
    Bases-frame [] id t = record {
      base = record {
        at = t.at;
        class = t.class;
        known = t.known;
        apart = t.apart;
        here = get_elem?-set_ne classes p t.at v (λ z. t.apart (sym z)) ∙ t.here;
      };
      no_super = t.no_super;
    }
    Bases-frame (fs ∷ fss) id (b, more) = (
      record {
        base = record {
          at = b.at;
          class = b.class;
          known = b.known;
          apart = b.apart;
          here = get_elem?-set_ne classes p b.at v (λ z. b.apart (sym z)) ∙ b.here;
        };
        has_super = b.has_super;
        fields = b.fields;
        count = b.count;
      },
      Bases-frame fss b.class.super_id more,
    )

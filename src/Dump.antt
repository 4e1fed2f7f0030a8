-- ===== src/Dump.antt =====
-- The state of a run and the monad of the functions that change it.
-- `Jdump` is `struct jdump` with the globals of phat.c: `fakeClass`, what has been printed, and the
-- structures that pointers refer to. The options of the command line are fields, `debug` is 0.
use phat.Base.{ℕ, Option, none, some, List, [], ◌∷◌, ◌++◌, get_elem?, set, length}
use phat.Env.{Env}
use phat.Stdio.{File, advance}
use phat.Types.{Ptr, CString, Hobject, Cinfo, Arc, Root, Line}

module _ ⦃env : Env⦄ where
  pub record Jdump : Type 0 where
    pub fin : File
    pub f_version : ℕ
    pub identsz : ℕ
    pub sb_table : env.Tree CString
    pub c_table : env.Tree Ptr
    pub h_table : env.Tree Ptr
    pub rc_table : env.Tree Ptr
    pub sc_table : env.Tree Ptr
    pub roots : env.Tree Root
    pub java_lang_string : Option Ptr
    pub fclass : Option CString
    pub plimit : ℕ
    pub fake_class : ℕ
    pub classes : List Cinfo
    pub objects : List Hobject
    pub arcs : List Arc
    pub arc_vec : List Ptr
    pub dfn_stack : List Ptr
    pub dfn_counter : ℕ
    pub cyctab : env.Tree Ptr
    pub topotab : env.Tree Ptr
    pub sizetab : env.Tree Ptr
    pub num_cycles : ℕ
    pub num_objs : ℕ
    pub old_head : Option Ptr
    pub print_size : ℕ
    pub out : List Line

  -- How a call ends: it returns, it leaves the program by `exit`, or what it does is undefined (a
  -- null or wild pointer, a variable read before it has a value). `out_of_fuel` is no end of a run:
  -- a loop of the model was given too few rounds.
  pub data Outcome (A : Type 0) : Type 0 where
    ok : A → Jdump → Outcome A
    exits : ℕ → List Line → Outcome A
    undef : Outcome A
    out_of_fuel : Outcome A

  abbrev pub M : Type 0 → Type 0
  M A = Jdump → Outcome A

  abbrev pub pure : {A : Type 0} → A → M A
  pure a d = ok a d

  abbrev pub and_then : {A B : Type 0} → Outcome A → (A → M B) → Outcome B
  and_then (ok a d) k = k a d
  and_then (exits n l) k = exits n l
  and_then undef k = undef
  and_then out_of_fuel k = out_of_fuel

  infixl 5 ◌>>=◌ ◌>>◌
  abbrev pub ◌>>=◌ : {A B : Type 0} → M A → (A → M B) → M B
  m >>= k = λ d. and_then (m d) k

  abbrev pub ◌>>◌ : {A B : Type 0} → M A → M B → M B
  m >> k = m >>= λ _. k

  -- The value of a pointer that must not be null, or of a variable that must have been set.
  unfoldable pub given : {A : Type 0} → Option A → M A
  given none d = undef
  given (some a) d = ok a d

  unfoldable pub state : M Jdump
  state d = ok d d

  abbrev pub put : Jdump → M (Unit {0})
  put d' d = ok tt d'

  abbrev pub print : Line → M (Unit {0})
  print l d = ok tt (record d { out = d.out ++ (l ∷ []) })

  -- fseek(jf->fin, n, SEEK_CUR) and fseeko(jf->fin, n, SEEK_SET)
  unfoldable pub fseek_cur : ℕ → M (Unit {0})
  fseek_cur n d = ok tt (record d { fin = advance n d.fin })

  abbrev pub skip : ℕ → Jdump → Jdump
  skip n d = record d { fin = advance n d.fin }

  -- A function of Stdio or of the readers, on the file of the dump.
  unfoldable pub on_file : {A : Type 0} → (File → A × File) → M A
  on_file g d = let (a, f) = g d.fin in ok a (record d { fin = f })

  -- ci->..., for a pointer into the store.
  abbrev pub load_class : Ptr → M Cinfo
  load_class p = state >>= λ d. given (get_elem? d.classes p)

  abbrev pub store_class : Ptr → Cinfo → M (Unit {0})
  store_class p ci d = ok tt (record d { classes = set d.classes p ci })

  abbrev pub load_object : Ptr → M Hobject
  load_object q = state >>= λ d. given (get_elem? d.objects q)

  abbrev pub store_object : Ptr → Hobject → M (Unit {0})
  store_object q ho d = ok tt (record d { objects = set d.objects q ho })

  -- The pointer that the next allocation returns, and the allocation.
  abbrev pub new_class : Cinfo → M Ptr
  new_class ci d = ok (length d.classes) (record d { classes = d.classes ++ (ci ∷ []) })

  abbrev pub new_object : Hobject → M Ptr
  new_object ho d = ok (length d.objects) (record d { objects = d.objects ++ (ho ∷ []) })

  -- To compute with a command, unfold this: it opens the steps that are shut.
  unfoldable pub steps : Unit {0}
  unfolding given state fseek_cur on_file
  steps = tt

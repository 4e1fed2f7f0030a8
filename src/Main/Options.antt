-- ===== src/Main/Options.antt =====
-- `main`: the options of the command line, and the two dumps that it reads.
use phat.Base.{ℕ, Option, none, some, List, [], ◌∷◌, ◌==◌, if◌then◌else◌, codes}
use phat.Env.{Env}
use phat.Types.{CString}
use phat.Dump.{Jdump, Outcome, ok, exits, undef, out_of_fuel, ◌>>◌}
use phat.Main.{new_dump, dump_header, dump_loop, read_dump, outcome_of}

pub record Options : Type 0 where
  pub limit : ℕ
  pub baseline : Option CString
  pub findclass : Option CString

abbrev pub no_options : Options
no_options = record { limit = 0; baseline = none; findclass = none }

-- The switch of main on what getopt returns, with `optarg`. The default case prints an argument that
-- is not given. `-d` sets `debug`, which the model leaves at 0. `atoi` is that of the C library.
abbrev pub set_option : (CString → ℕ) → ℕ → CString → Options → Option Options
set_option atoi opt optarg o =
    if opt == b'a'
    then some (record o { findclass = some (codes "*") })
    else if opt == b'b'
    then some (record o { baseline = some optarg })
    else if opt == b'd'
    then some o
    else if opt == b'C'
    then some (record o { findclass = some optarg })
    else if opt == b'l'
    then some (record o { limit = atoi optarg })
    else none

-- while (-1 != (opt = getopt(...))), on the options that getopt returns.
unfoldable pub set_options : (CString → ℕ) → List (ℕ × CString) → Options → Option Options
set_options atoi [] o = some o
set_options atoi ((opt, optarg) ∷ opts) o = elim (set_option atoi opt optarg o) [
  | none ↦ none
  | some o' ↦ set_options atoi opts o'
]

module _ ⦃env : Env⦄ where
  abbrev end_of : Outcome (Unit {0}) → Outcome (Unit {0})
  end_of (ok t d) = exits 0 d.out
  end_of (exits n l) = exits n l
  end_of undef = undef
  end_of out_of_fuel = out_of_fuel

  -- readDump(NULL, limit, baseline): a new `struct jdump`, while the globals go on.
  abbrev read_baseline : ℕ → ℕ → Option (List ℕ) → Jdump → Outcome (Unit {0})
  read_baseline fuel limit none d = exits 1 d.out
  read_baseline fuel limit (some bytes) d =
      outcome_of (dump_header >> dump_loop fuel) (record (new_dump none limit bytes) {
        fake_class = d.fake_class;
        arcs = d.arcs;
        arc_vec = d.arc_vec;
        classes = d.classes;
        objects = d.objects;
        out = d.out;
      })

  abbrev then_baseline :
      ℕ → (CString → Option (List ℕ)) → Options → Outcome (Unit {0}) → Outcome (Unit {0})
  then_baseline fuel fopen o (ok t d) = elim o.baseline [
    | none ↦ exits 0 d.out
    | some name ↦ end_of (read_baseline fuel o.limit (fopen name) d)
  ]
  then_baseline fuel fopen o (exits n l) = exits n l
  then_baseline fuel fopen o undef = undef
  then_baseline fuel fopen o out_of_fuel = out_of_fuel

  -- main, on the options, the operand, and the files that fopen finds.
  unfoldable pub main :
      ℕ
      → (CString → ℕ)
      → (CString → Option (List ℕ))
      → List (ℕ × CString)
      → CString
      → Outcome (Unit {0})
  unfolding set_options read_dump
  main fuel atoi fopen opts operand = elim (set_options atoi opts no_options) [
    | none ↦ undef
    | some o ↦ then_baseline fuel fopen o (read_dump fuel o.findclass o.limit (fopen operand))
  ]

-- ===== src/Tests/Graphs.antt =====
-- The search at the second of two classes.
use phat.Base.{suc, ◌+◌, ◌%◌, ◌^◌, ◌≡◌, refl, none, [], ◌∷◌, set}
use phat.Dump.{Jdump, ok, ◌>>◌}
use phat.Graph.{arc_init, mg_dfn}
use phat.Graph.Alone.{numbered, arc_init-mg_dfn}
use phat.Main.{new_dump}
use phat.Tests.{test_env, blank_class}

abbrev two : Jdump
two = record (new_dump none 0 []) { classes = blank_class ∷ blank_class ∷ []; dfn_counter = 4 }

arc_init-mg_dfn_example :
    (arc_init 1 >> mg_dfn (suc 2) 1) two
    ≡ ok tt (record two {
      classes = set two.classes 1 (numbered blank_class 1 ((4 + 1) % 2 ^ 32));
      dfn_counter = (4 + 1) % 2 ^ 32;
    })
arc_init-mg_dfn_example = arc_init-mg_dfn two 1 2 blank_class refl

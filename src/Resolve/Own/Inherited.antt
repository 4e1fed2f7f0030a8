-- ===== src/Resolve/Own/Inherited.antt =====
-- The loop that fills `values`, on the fields of the superclasses of a class.
use mathlib.Core.List.{append_assoc}
use phat.Base.{
  plus_assoc, suc_plus, ℕ, zero, suc, ◌+◌, ◌-◌, ◌<◌, ◌≤◌, ◌≡◌, refl, ap, sym, ◌∙◌, Option, some,
  none, List, [], ◌∷◌, ◌++◌, map, length, get_elem?, set, arith, lt→ltb, le→ltb_false,
  get_elem?-set_same, set-set, set-same, get_elem?-set_ne,
}
use phat.Env.{Env, lookup32}
use phat.Types.{Ptr, Cinfo, Finfo}
use phat.Dump.{Jdump, ok, steps}
use phat.Resolve.Layout.{replicate, Fill, next_class, fill_loop}
use phat.Resolve.Own.Block.{at_field, copies, sizes, copy_block}
use phat.Resolve.Own.Above.{total, laid, sizes_all, Inner, Bases, Bases-frame}

module _ ⦃env : Env⦄ where
  module _ (d : Jdump) (p : Ptr) where
    -- At the end of the fields of a class the loop goes on to its superclass.
    next_class-up :
        (k c q target i index : ℕ) (ci sc : Cinfo)
        → get_elem? d.classes c ≡ some ci
        → ci.cfields ≤ i
        → lookup32 d.c_table ci.super_id ≡ some q
        → get_elem? d.classes q ≡ some sc
        → sc.cfields ≤ target
        → next_class (suc k) (at_field c target i index) d
          ≡ next_class k (at_field q (target - sc.cfields) 0 index) d
    unfolding next_class steps
    next_class-up k c q target i index ci sc e end known e' room =
        rw (e, le→ltb_false i ci.cfields end, known, e', le→ltb_false target sc.cfields room) refl

    next_class-stays :
        (k q target i index : ℕ) (sc : Cinfo)
        → get_elem? d.classes q ≡ some sc
        → i < sc.cfields
        → next_class (suc k) (at_field q target i index) d ≡ ok (at_field q target i index) d
    unfolding next_class steps
    next_class-stays k q target i index sc e lt = rw (e, lt→ltb i sc.cfields lt) refl

    through :
        (s s' t : Fill) (m : ℕ)
        → ((k : ℕ) → next_class (suc k) s d ≡ next_class k s' d)
        → ((k : ℕ) → m < k → next_class k s' d ≡ ok t d)
        → (k : ℕ) → suc m < k
        → next_class k s d ≡ ok t d
    through s s' t m up found zero lt = absurd (omega (arith, lt))
    through s s' t m up found (suc k) lt = up k ∙ found k (omega (arith, lt))

    -- From the start of a class, where fields are left, the next class with a field is found.
    next_class-found :
        (fss : List (List Finfo)) (fs : List Finfo) (target index id : ℕ)
        (b : Inner d.classes d.c_table p id fs)
        → Bases d.classes d.c_table p b.class.super_id fss
        → 0 < length fs + total fss
        → total fss ≤ target
        → (t : Fill) × ((k : ℕ)
            → length fss < k
            → next_class k (at_field b.at target 0 index) d ≡ ok t d)
    next_class-found fss (f ∷ fs) target index id b more some_left room =
        (at_field b.at target 0 index, go)
      where
        go :
            (k : ℕ)
            → length fss < k
            → next_class k (at_field b.at target 0 index) d ≡ ok (at_field b.at target 0 index) d
        go zero lt = absurd (omega (arith, lt))
        go (suc k) lt =
            next_class-stays k b.at target 0 index b.class b.here (omega (arith, b.count))
    next_class-found [] [] target index id b more some_left room = absurd (omega (arith, some_left))
    next_class-found (fs ∷ fss) [] target index id b (b', more) some_left room =
        let (t, found) =
          next_class-found fss fs (target - b'.class.cfields) index b.class.super_id b' more
            (omega (arith, some_left)) (omega (arith, b'.count, room)) in
        (
          t,
          through (at_field b.at target 0 index)
              (at_field b'.at (target - b'.class.cfields) 0 index) t (length fss)
              (λ k.
                next_class-up k b.at b'.at target 0 index b.class b'.class b.here
                  (omega (arith, b.count)) b'.known b'.here (omega (arith, b'.count, room)))
              found,
        )

    -- So the rounds that are left go on from the superclass.
    fill_loop-up :
        (fss : List (List Finfo)) (fs : List Finfo) (k n c i index : ℕ) (ci : Cinfo)
        → get_elem? d.classes c ≡ some ci
        → ci.cfields ≤ i
        → (b : Inner d.classes d.c_table p ci.super_id fs)
        → Bases d.classes d.c_table p b.class.super_id fss
        → n ≡ length fs + total fss
        → length fss < k
        → fill_loop (suc k) n p (at_field c (length fs + total fss) i index) d
          ≡ fill_loop (suc k) n p (at_field b.at (total fss) 0 index) d
    unfolding fill_loop steps
    fill_loop-up fss fs k zero c i index ci e end b more all enough = refl
    fill_loop-up fss fs k (suc n) c i index ci e end b more all enough =
        let less : length fs + total fss - b.class.cfields ≡ total fss = omega (arith, b.count) in
        let up =
          next_class-up k c b.at (length fs + total fss) i index ci b.class e end b.known b.here
            (omega (arith, b.count))
          ∙ ap (λ t. next_class k (at_field b.at t 0 index) d) less in
        let (t, found) =
          next_class-found fss fs (total fss) index ci.super_id b more (omega (arith, all))
            (omega arith) in
        rw (up ∙ found k enough ∙ sym (found (suc k) (omega (arith, enough)))) refl

replicate-cons :
    (b : ℕ) (vs : List (Option Finfo)) → replicate b ++ (none ∷ vs) ≡ none ∷ (replicate b ++ vs)
replicate-cons zero vs = refl
replicate-cons (suc b) vs = ap (λ l. none ∷ l) (replicate-cons b vs)

pub replicate-add :
    (a b : ℕ) (vs : List (Option Finfo))
    → replicate (a + b) ++ vs ≡ replicate b ++ (replicate a ++ vs)
replicate-add zero b vs = ap (λ n. replicate n ++ vs) (omega arith)
replicate-add (suc a) b vs =
    ap (λ n. replicate n ++ vs) (suc_plus a b)
    ∙ ap (λ l. none ∷ l) (replicate-add a b vs)
    ∙ sym (replicate-cons b (replicate a ++ vs))

pub length-replicate : (n : ℕ) → length (replicate n) ≡ n
length-replicate zero = refl
length-replicate (suc n) = omega (arith, length-replicate n)

module _ ⦃env : Env⦄ where
  -- The rounds at the fields of the superclasses.
  pub fill_loop-Bases :
      (fss : List (List Finfo)) (d : Jdump) (p k c i index : ℕ) (cc ci : Cinfo)
      (vs : List (Option Finfo))
      → get_elem? d.classes c ≡ some cc
      → cc.cfields ≤ i
      → Bases d.classes d.c_table p cc.super_id fss
      → get_elem? d.classes p ≡ some (record ci { values = replicate (total fss) ++ vs })
      → length fss ≤ k
      → fill_loop (suc k) (total fss) p (at_field c (total fss) i index) d
        ≡ ok (index + sizes_all d.identsz fss) (record d {
          classes = set d.classes p (record ci { values = laid d.identsz index fss ++ vs });
        })
  unfolding fill_loop steps
  fill_loop-Bases [] d p k c i index cc ci vs at_c end top e enough =
      rw (set-same d.classes p (record ci { values = vs }) e) (ap (λ n. ok n d) (omega arith))
  fill_loop-Bases (fs ∷ fss) d p k c i index cc ci vs at_c end (b, more) e enough =
      let copied = map some (copies d.identsz index fs) in
      let ci2 = record ci { values = replicate (total fss) ++ (copied ++ vs) } in
      let d2 = record d { classes = set d.classes p ci2 } in
      fill_loop-up d p fss fs k (length fs + total fss) c i index cc at_c end b more refl
        (omega (arith, enough))
      ∙ copy_block fs d p b.at k (total fss) (total fss) index ci b.class [] (replicate (total fss))
          vs b.apart b.here b.fields (omega (arith, b.count))
          (e ∙ ap (λ l. some (record ci { values = l })) (replicate-add (length fs) (total fss) vs))
          (omega (arith, length-replicate (total fss)))
      ∙ fill_loop-Bases fss d2 p k b.at (0 + length fs) (index + sizes d.identsz fs) b.class ci
          (copied ++ vs) (get_elem?-set_ne d.classes p b.at ci2 (λ z. b.apart (sym z)) ∙ b.here)
          (omega (arith, b.count)) (Bases-frame d.classes d.c_table p ci2 fss b.class.super_id more)
          (get_elem?-set_same d.classes p ci2 e) (omega (arith, enough))
      ∙ λ j. ok (plus_assoc index (sizes d.identsz fs) (sizes_all d.identsz fss) j) (record d {
        classes =
            (set-set d.classes p ci2 (record ci {
              values = laid d.identsz (index + sizes d.identsz fs) fss ++ (copied ++ vs);
            })
                ∙ ap (λ l. set d.classes p (record ci { values = l }))
                    (sym
                      (append_assoc (laid d.identsz (index + sizes d.identsz fs) fss) copied vs)))
              j;
      })

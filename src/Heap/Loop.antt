-- ===== src/Heap/Loop.antt =====
-- The loop of `readHeap` on the records of a heap dump, one after the other.
use phat.Base.{
  ℕ, suc, ◌+◌, ◌^◌, ◌<◌, ◌≡◌, refl, ap, ◌∙◌, some, List, [], ◌∷◌, ◌++◌, length, arith,
  length-append,
}
use mathlib.Core.List.{append_assoc}
use phat.Env.{Env}
use phat.Types.{Tally}
use phat.Stdio.{Rest, Rest-advance, getc, getc-Rest}
use phat.Reader.Reads.{Narrow, Narrow-skip}
use phat.Dump.{Jdump, ok, skip, on_file}
use phat.Heap.{heap_loop}
use phat.Heap.Items.{
  Item, item_tag, item_bytes, Allowed, after, tallied, after-Narrow, after-Rest, item_lem,
}

module _ ⦃env : Env⦄ where
  -- A record with its tag, and several of them.
  abbrev pub items_bytes : List Item → List ℕ
  items_bytes [] = []
  items_bytes (i ∷ is) = (item_tag i ∷ item_bytes i) ++ items_bytes is

  abbrev pub after_all : List Item → Jdump → Jdump
  after_all [] d = d
  after_all (i ∷ is) d = after_all is (after i (skip 1 d))

  -- Each is allowed in the state that those before it leave.
  abbrev pub AllAllowed : List Item → Jdump → Type 0
  AllAllowed [] d = Unit
  AllAllowed (i ∷ is) d = Allowed i (skip 1 d) × AllAllowed is (after i (skip 1 d))

  abbrev pub tallied_all : List Item → Tally → Tally
  tallied_all [] t = t
  tallied_all (i ∷ is) t = tallied_all is (tallied i t)

  suc_plus : (n k : ℕ) → suc n + k ≡ suc (n + k)
  suc_plus n k = omega arith

  pub tag_step :
      (d : Jdump) (x : ℕ) (xs : List ℕ)
      → Rest d.fin (x ∷ xs)
      → on_file getc d ≡ ok (some x) (skip 1 d)
  unfolding on_file
  tag_step d x xs rest = rw (getc-Rest d.fin x xs rest) refl

  -- A round of the loop takes one record.
  loop_step :
      (i : Item) (k more : ℕ) (t : Tally) (d : Jdump) (r : List ℕ)
      → Narrow d
      → Allowed i (skip 1 d)
      → Rest d.fin (item_tag i ∷ (item_bytes i ++ r))
      → length (item_bytes i) + more < 2 ^ 32
      → heap_loop (suc k) (suc (length (item_bytes i) + more)) t d
        ≡ heap_loop k more (tallied i t) (after i (skip 1 d))
  unfolding heap_loop
  loop_step i k more t d r w allowed rest lt =
      rw
        (
          tag_step d (item_tag i) _ rest,
          item_lem i (skip 1 d) t more r (Narrow-skip 1 w) allowed
              (Rest-advance d.fin (item_tag i ∷ []) (item_bytes i ++ r) rest) lt,
        )
        refl

  -- On a dump of version 1.0.1 or later with 4-byte identifiers that stands before the records
  -- `is`, the loop of `readHeap`, called with their length (below 2^32) and with a round of fuel or
  -- more for each, reads exactly these: it ends in the state that the records make one after the
  -- other, and has counted each under its kind. Each record is allowed in the state that those
  -- before it leave: its numbers are in range, its class is known, and that of an array has been
  -- made before; a class dump has no constant pool, and an instance belongs to a class with fewer
  -- than 49999 instances so far.
  pub heap_loop-records :
      (is : List Item) (k : ℕ) (t : Tally) (d : Jdump) (r : List ℕ)
      → Narrow d
      → AllAllowed is d
      → Rest d.fin (items_bytes is ++ r)
      → length (items_bytes is) < 2 ^ 32
      → heap_loop (length is + k) (length (items_bytes is)) t d
        ≡ ok (tallied_all is t) (after_all is d)
  unfolding heap_loop
  heap_loop-records [] k t d r w allowed rest lt = refl
  heap_loop-records (i ∷ is) k t d r w (one, others) rest lt =
      let n = length (item_bytes i) in
      let more = length (items_bytes is) in
      let total : length (items_bytes (i ∷ is)) ≡ suc (n + more) =
        omega (arith, length-append (item_bytes i) (items_bytes is)) in
      let rest' : Rest d.fin (item_tag i ∷ (item_bytes i ++ (items_bytes is ++ r))) =
        rest ∙ append_assoc (item_tag i ∷ item_bytes i) (items_bytes is) r in
      let behind : Rest (after i (skip 1 d)).fin (items_bytes is ++ r) =
        after-Rest i (skip 1 d) _ one
          (Rest-advance d.fin (item_tag i ∷ []) (item_bytes i ++ (items_bytes is ++ r)) rest') in
      ap (λ f. heap_loop f (length (items_bytes (i ∷ is))) t d) (suc_plus (length is) k)
      ∙ ap (λ h. heap_loop (suc (length is + k)) h t d) total
      ∙ loop_step i (length is + k) more t d (items_bytes is ++ r) w one rest'
          (omega (arith, lt, total))
      ∙ heap_loop-records is k (tallied i t) (after i (skip 1 d)) r
          (after-Narrow i (skip 1 d) (Narrow-skip 1 w)) others behind (omega (arith, lt, total))

  pub after_all-Narrow : (is : List Item) (d : Jdump) → Narrow d → Narrow (after_all is d)
  after_all-Narrow [] d w = w
  after_all-Narrow (i ∷ is) d w =
      after_all-Narrow is (after i (skip 1 d)) (after-Narrow i (skip 1 d) (Narrow-skip 1 w))

  item-Rest :
      (i : Item) (is : List Item) (d : Jdump) (r : List ℕ)
      → Allowed i (skip 1 d)
      → Rest d.fin (items_bytes (i ∷ is) ++ r)
      → Rest (after i (skip 1 d)).fin (items_bytes is ++ r)
  item-Rest i is d r one rest = after-Rest i (skip 1 d) _ one (
      Rest-advance d.fin (item_tag i ∷ []) (item_bytes i ++ (items_bytes is ++ r))
        (rest ∙ append_assoc (item_tag i ∷ item_bytes i) (items_bytes is) r))

  pub after_all-Rest :
      (is : List Item) (d : Jdump) (r : List ℕ)
      → AllAllowed is d
      → Rest d.fin (items_bytes is ++ r)
      → Rest (after_all is d).fin r
  after_all-Rest [] d r allowed rest = rest
  after_all-Rest (i ∷ is) d r (one, others) rest =
      after_all-Rest is (after i (skip 1 d)) r others (item-Rest i is d r one rest)

-- ===== src/ObjectPool/Race/Alone.antt =====
-- A thread that calls `add_block` while no other thread moves, against the sequential `place_block`.
use contention_prof.Base.{
  ℕ, zero, suc, ◌+◌, ◌*◌, ◌^◌, ◌≤◌, ◌<◌, ◌≡◌, refl, ◌∙◌, Bool, true, false, List, [], ◌∷◌, Option,
  none, some, arith, Bool-cases, length, inl, inr, ltb, le→ltb_false, eq→==, if◌then◌else◌, u64,
  sub64, ◌&&◌,
}
use native.Mathlib.Decide.{dec_lt}
use contention_prof.ObjectPool.{
  op_max_block_group_count, op_group_block_count, place_block, add_block_group,
}
use contention_prof.ObjectPool.Race.{
  Mem, Pc, reading, counted, fetching, undoing, locking, comparing, unlocking, failed, update,
  advance, System, Reach,
}
use contention_prof.ObjectPool.Race.Inv.{max_threads}
use contention_prof.ObjectPool.Race.Safety.{Reach-Inv, groups_sound}
use contention_prof.ObjectPool.Race.Loop.{
  counts, is_returned, finish, outcome, three, counts-update, counts-suc, length-counts,
  finish-returned, finish-advance, last_group, with_room, grown,
}

module _ (memory : Bool) where
  -- Alone, the thread returns with `result`.
  abbrev pub Returns : ℕ → Mem → Pc → Option (ℕ × List ℕ) → Type 0
  Returns f m p result =
      (outcome (finish f memory m p) ≡ result) × (is_returned (finish f memory m p).1 ≡ true)

  returned_of_eq :
      (f : ℕ) (m : Mem) (p : Pc) (m' : Mem) (p' : Pc) (result : Option (ℕ × List ℕ))
      → finish f memory m p ≡ (m', p')
      → outcome (m', p') ≡ result
      → is_returned p' ≡ true
      → Returns f m p result
  returned_of_eq f m p m' p' result e out ret = rw e (out, ret)

  new_group :
      (f n b : ℕ) (m : Mem)
      → m.group_count ≡ n
      → m.locked ≡ false
      → n < op_max_block_group_count
      → memory ≡ true
      → Returns
          (three (three (three f)))
          m
          (locking b n)
          (some (n * op_group_block_count, 1 ∷ counts m.block_count n))
  new_group f n b m e free room some_memory =
      let m' : Mem = record m {
        present = update m.present n true;
        block_count = update m.block_count n 0;
        blocks = update m.blocks n (λ _. none);
        group_count = n + 1;
      } in
      let zero_count : m'.block_count n ≡ 0 = ground arith in
      returned_of_eq (three (three (three f))) m (locking b n) _ _ _
        (grown memory (suc (suc (suc (suc f)))) n b m e free room some_memory
          ∙ last_group memory (suc (suc f)) n b m' (omega arith) (ground arith)
          ∙ with_room memory f n b m' (omega (arith, zero_count)))
        (let top : n + 1 ≡ suc n = omega arith in
          rw top (
            ground (
              arith,
              counts-suc (update m.block_count n 0) n 1,
              counts-update m.block_count n n 0,
            )))
        refl

  no_group :
      (f n b : ℕ) (m : Mem)
      → m.group_count ≡ n
      → m.locked ≡ false
      → (ltb n op_max_block_group_count && memory) ≡ false
      → Returns (three f) m (locking b n) none
  unfolding advance
  no_group f n b m e free no_room =
      let locked_mem : Mem = record m { locked = true } in
      returned_of_eq (three f) m (locking b n) _ _ _
        (finish-advance memory _ m (locking b n) locked_mem (comparing b n) refl (rw free refl)
          ∙ finish-advance memory _ locked_mem (comparing b n) locked_mem (unlocking b false) refl
              (rw (eq→== _ _ e, no_room) refl)
          ∙ finish-advance memory f locked_mem (unlocking b false) _ failed refl refl
          ∙ finish-returned f memory _ failed refl)
        refl refl

  full_group :
      (f g b : ℕ) (m : Mem) (result : Option (ℕ × List ℕ))
      → op_group_block_count ≤ m.block_count g
      → m.block_count g < 2 ^ 63
      → ((m' : Mem)
          → m'.group_count ≡ m.group_count
          → m'.locked ≡ m.locked
          → counts m'.block_count (suc g) ≡ counts m.block_count (suc g)
          → Returns f m' (locking b (suc g)) result)
      → Returns (suc (suc f)) m (fetching b g) result
  unfolding advance
  full_group f g b m result full small then_returns =
      let up : Mem = record m {
        block_count = update m.block_count g (u64 (m.block_count g + 1));
      } in
      let down : Mem = record m {
        block_count = update up.block_count g (sub64 (up.block_count g) 1);
      } in
      let e : finish (suc (suc f)) memory m (fetching b g)
          ≡ finish f memory down (locking b (suc g)) =
        finish-advance memory (suc f) m (fetching b g) up (undoing b g) refl
          (rw (le→ltb_false _ _ full) refl)
        ∙ finish-advance memory f up (undoing b g) down (locking b (suc g)) refl refl in
      let back : down.block_count g ≡ m.block_count g = ground arith in
      rw e (
        then_returns down refl refl (
          ground (
            arith,
            back,
            counts-update up.block_count g g (down.block_count g),
            counts-update m.block_count g g (up.block_count g),
          )))

  returned_trans :
      (f f' : ℕ) (m m' : Mem) (p p' : Pc) (result : Option (ℕ × List ℕ))
      → finish f memory m p ≡ finish f' memory m' p'
      → Returns f' m' p' result
      → Returns f m p result
  returned_trans f f' m m' p p' result e r = rw e r

  -- What `add_block` does once `add_block_group` has answered.
  abbrev grow : ℕ → List ℕ → Option (ℕ × List ℕ)
  grow n groups =
      if ltb n op_max_block_group_count && memory
      then some (n * op_group_block_count, 1 ∷ groups)
      else none

  grow_group :
      (f n b : ℕ) (m : Mem)
      → m.group_count ≡ n
      → m.locked ≡ false
      → Returns (three (three (three f))) m (locking b n) (grow n (counts m.block_count n))
  grow_group f n b m e free = elim (Bool-cases (ltb n op_max_block_group_count && memory)) [
    | inl room ↦ rw room (new_group f n b m e free (ground arith) (ground arith))
    | inr no_room ↦ rw no_room (no_group (three (three f)) n b m e free no_room)
  ]

  place_block-nil : place_block memory [] ≡ grow 0 []
  unfolding place_block add_block_group
  place_block-nil = ground arith

  place_block-room :
      (count g : ℕ) (groups : List ℕ)
      → length groups ≡ g
      → count < op_group_block_count
      → place_block memory (count ∷ groups)
        ≡ some (g * op_group_block_count + count, (count + 1) ∷ groups)
  unfolding place_block
  place_block-room count g groups e h = ground arith

  place_block-full :
      (count g : ℕ) (groups : List ℕ)
      → length groups ≡ g
      → op_group_block_count ≤ count
      → place_block memory (count ∷ groups) ≡ grow (suc g) (count ∷ groups)
  unfolding place_block add_block_group
  place_block-full count g groups e h = ground arith

  alone_groups :
      (n b : ℕ) (m : Mem)
      → m.group_count ≡ n
      → m.locked ≡ false
      → ((g : ℕ) → g < n → (m.present g ≡ true) × (m.block_count g < 2 ^ 63))
      → Returns 14 m (reading b) (place_block memory (counts m.block_count n))
  unfolding advance
  alone_groups zero b m e free sound = rw place_block-nil (
      returned_trans 14 12 m m (reading b) (locking b 0) (grow 0 [])
        (finish-advance memory 13 m (reading b) m (counted b 0) refl (rw e refl)
          ∙ finish-advance memory 12 m (counted b 0) m (locking b 0) refl refl)
        (grow_group 3 0 b m e free))
  alone_groups (suc g) b m e free sound =
      let start = last_group memory 12 g b m e (sound g (omega arith)).0 in
      elim (dec_lt (m.block_count g) op_group_block_count) [
        | yes room ↦
            returned_of_eq 14 m (reading b) _ _ _ (start ∙ with_room memory 10 g b m room)
              (ground (
                arith,
                counts-suc m.block_count g (m.block_count g + 1),
                place_block-room (m.block_count g) g (counts m.block_count g)
                    (length-counts m.block_count g),
              ))
              refl
        | no full ↦ returned_trans 14 12 m m (reading b) (fetching b g) _ start (
            full_group 10 g b m _ (omega arith) (sound g (omega arith)).1
              (λ m' same_count same_lock same_counts.
                rw
                  (place_block-full (m.block_count g) g (counts m.block_count g)
                    (length-counts m.block_count g) (omega arith))
                  (rw (← same_counts)
                    (grow_group 1 (suc g) b m' (same_count ∙ e) (same_lock ∙ free)))))
      ]

-- From every reachable state of at most 2^32 threads in which block_group_mutex_ is free, a
-- thread at the start of the loop of add_block that moves alone returns within 14 steps, with
-- the index and the groups that place_block of the sequential model gives, or with nullptr if
-- that gives none.
pub alone-place_block :
    {n : ℕ} {s : System} (memory : Bool) (b : ℕ)
    → n ≤ max_threads
    → Reach n s
    → s.mem.locked ≡ false
    → Returns memory 14 s.mem
        (reading b)
        (place_block memory (counts s.mem.block_count s.mem.group_count))
alone-place_block {n} {s} memory b few r free =
    let inv = Reach-Inv few r in
    alone_groups memory s.mem.group_count b s.mem refl free
      (λ g lt. (inv.there g lt, omega (arith, (groups_sound few r).1 g)))

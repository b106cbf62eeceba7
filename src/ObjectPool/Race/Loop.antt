-- ===== src/ObjectPool/Race/Loop.antt =====
-- The loop of `add_block` for a thread that moves alone, part by part.
use contention_prof.Base.{
  ℕ, zero, suc, ◌+◌, ◌*◌, ◌≤◌, ◌<◌, ◌≡◌, refl, sym, ◌∙◌, Bool, true, false, List, [], ◌∷◌, Option,
  none, some, arith, length, lt→ltb, eq→==, u64,
}
use contention_prof.ObjectPool.{op_max_block_group_count, op_group_block_count}
use contention_prof.ObjectPool.Race.{
  Mem, Pc, reading, counted, fetching, storing, locking, comparing, publishing, raising, unlocking,
  placed, failed, update, advance,
}

-- `block_count` of the groups, from the last
abbrev pub counts : (ℕ → ℕ) → ℕ → List ℕ
counts count zero = []
counts count (suc g) = count g ∷ counts count g

pub length-counts : (count : ℕ → ℕ) (n : ℕ) → length (counts count n) ≡ n
length-counts count zero = refl
length-counts count (suc n) = omega (arith, length-counts count n)

pub counts-update :
    (count : ℕ → ℕ) (n g v : ℕ) → n ≤ g → counts (update count g v) n ≡ counts count n
counts-update count zero g v h = refl
counts-update count (suc n) g v h = ground (arith, counts-update count n g v)

pub counts-suc : (count : ℕ → ℕ) (n v : ℕ) → counts (update count n v) (suc n) ≡ v ∷ counts count n
counts-suc count n v = ground (arith, counts-update count n n v)

abbrev pub is_returned : Pc → Bool
is_returned (placed b x) = true
is_returned failed = true
is_returned _ = false

-- The thread takes steps until it has returned.
pub finish : ℕ → Bool → Mem → Pc → Mem × Pc
finish zero memory m p = (m, p)
finish (suc fuel) memory m p = elim (is_returned p) [
  | true ↦ (m, p)
  | false ↦ finish fuel memory (advance memory m p).0 (advance memory m p).1
]

-- the index that it returned, and the groups then
abbrev pub outcome : Mem × Pc → Option (ℕ × List ℕ)
outcome (m, placed b x) = some (x, counts m.block_count m.group_count)
outcome (m, _) = none

pub finish-returned :
    (f : ℕ) (memory : Bool) (m : Mem) (p : Pc) → is_returned p ≡ true → finish f memory m p ≡ (m, p)
unfolding finish
finish-returned zero memory m p h = refl
finish-returned (suc f) memory m p h = rw (finish, h) refl

abbrev pub three : ℕ → ℕ
three f = suc (suc (suc f))

module _ (memory : Bool) where
  -- one step of a thread that has not returned
  pub finish-advance :
      (f : ℕ) (m : Mem) (p : Pc) (m' : Mem) (p' : Pc)
      → is_returned p ≡ false
      → advance memory m p ≡ (m', p')
      → finish (suc f) memory m p ≡ finish f memory m' p'
  unfolding finish
  finish-advance f m p m' p' h e = rw (finish, h, e) refl

  -- The loop's body for a thread alone, up to what `fetch_add` finds.
  pub last_group :
      (f g b : ℕ) (m : Mem)
      → m.group_count ≡ suc g
      → m.present g ≡ true
      → finish (suc (suc f)) memory m (reading b) ≡ finish f memory m (fetching b g)
  unfolding advance
  last_group f g b m e there =
      finish-advance (suc f) m (reading b) m (counted b (suc g)) refl (rw e refl)
      ∙ finish-advance f m (counted b (suc g)) m (fetching b g) refl (rw there refl)

  pub with_room :
      (f g b : ℕ) (m : Mem)
      → m.block_count g < op_group_block_count
      → finish (suc (suc f)) memory m (fetching b g) ≡ (
        record m {
          block_count = update m.block_count g (m.block_count g + 1);
          blocks = update m.blocks g (update (m.blocks g) (m.block_count g) (some b));
        },
        placed b (g * op_group_block_count + m.block_count g),
      )
  unfolding advance
  with_room f g b m h =
      let e : u64 (m.block_count g + 1) ≡ m.block_count g + 1 = omega arith in
      let m' : Mem = record m { block_count = update m.block_count g (m.block_count g + 1) } in
      finish-advance (suc f) m (fetching b g) m' (storing b g (m.block_count g)) refl
        (rw (e, lt→ltb _ _ h) refl)
      ∙ finish-advance f m' (storing b g (m.block_count g)) _ _ refl refl
      ∙ finish-returned f memory _ _ refl

  -- From `add_block_group` with the lock free to its return.
  pub grown :
      (f n b : ℕ) (m : Mem)
      → m.group_count ≡ n
      → m.locked ≡ false
      → n < op_max_block_group_count
      → memory ≡ true
      → finish (suc (suc (suc (suc (suc f))))) memory m (locking b n)
        ≡ finish f memory
            (record m {
              present = update m.present n true;
              block_count = update m.block_count n 0;
              blocks = update m.blocks n (λ _. none);
              group_count = n + 1;
            })
            (reading b)
  unfolding advance
  grown f n b m e free room some_memory =
      let locked_mem : Mem = record m { locked = true } in
      finish-advance _ m (locking b n) locked_mem (comparing b n) refl (rw free refl)
      ∙ finish-advance _ locked_mem (comparing b n) locked_mem (publishing b n) refl
          (rw (eq→== _ _ e, lt→ltb _ _ room, some_memory) refl)
      ∙ finish-advance _ locked_mem (publishing b n) _ _ refl refl
      ∙ finish-advance _ _ (raising b n) _ _ refl refl
      ∙ finish-advance f _ (unlocking b true) _ _ refl (rw (sym free) refl)

-- ===== src/ObjectPool/Race/Safety.antt =====
-- What holds for `add_block` whatever the threads do.
use contention_prof.Base.{
  ℕ, zero, ◌+◌, ◌/◌, ◌%◌, ◌≤◌, ◌<◌, ◌≡◌, refl, ◌≢◌, ◌↔◌, inl, inr, Bool, true, false, none, some,
  arith,
}
use contention_prof.ObjectPool.{op_max_block_group_count, op_group_block_count}
use contention_prof.ObjectPool.Race.{
  Mem, Pc, idle, counted, storing, undoing, placed, failed, fault, advance, System, no_groups,
  Steps, here, later, Reach,
}
use contention_prof.ObjectPool.Race.Family.{total, total-eq-zero, total-le}
use contention_prof.ObjectPool.Race.Inv.{over, stores, holds, block_of, Fits, max_threads, Inv}
use contention_prof.ObjectPool.Race.Moves.{advance-Inv}

start-Inv : (n : ℕ) → n ≤ max_threads → Inv n no_groups (λ _. idle)
unfolding stores holds block_of
start-Inv n few = record {
  few = few;
  groups = omega arith;
  fits = λ g. omega arith;
  full = λ g h. absurd (omega (arith, none_over g));
  calm = λ g h. none_over g;
  there = λ g h. absurd (omega arith);
  stored = λ g k b h. cc;
  local = λ i. omega arith;
  unique = λ g k i j h. cc;
  filled = λ g k hg. absurd (omega arith);
  alone = λ i j h. cc;
  locked = λ i h. cc;
  held = λ h. cc;
  made = λ i b h. cc;
  own = λ i j b h. cc;
}
  where
    none_over : (g : ℕ) → total (over g) n (λ _. idle) ≡ 0
    none_over g = total-eq-zero (over g) n (λ _. idle) (λ _. refl)

Steps-Inv : {n : ℕ} {s t : System} → Inv n s.mem s.pc → Steps n s t → Inv n t.mem t.pc
Steps-Inv inv here = inv
Steps-Inv inv (later memory i lt r) = advance-Inv (Steps-Inv inv r) memory i lt

pub Reach-Inv : {n : ℕ} {s : System} → n ≤ max_threads → Reach n s → Inv n s.mem s.pc
Reach-Inv {n} few r = Steps-Inv (start-Inv n few) r

advance-keeps :
    (m : Mem) (memory : Bool) (p : Pc)
    → Fits m p
    → (g k b : ℕ) → g < m.group_count
    → m.blocks g k ≡ some b
    → (advance memory m p).0.blocks g k ≡ some b
unfolding advance
advance-keeps m memory idle f g k b h e = ground arith
advance-keeps m memory (counted c zero) f g k b h e = e
advance-keeps m memory p f g k b h e = ground arith

Steps-keeps :
    {n : ℕ} {s t : System}
    → Inv n s.mem s.pc
    → Steps n s t
    → (g k b : ℕ) → s.mem.blocks g k ≡ some b
    → t.mem.blocks g k ≡ some b
Steps-keeps inv here g k b e = e
Steps-keeps inv (later {t} memory i lt r) g k b e =
    let now = Steps-Inv inv r in
    let before = Steps-keeps inv r g k b e in
    advance-keeps t.mem memory (t.pc i) (now.local i) g k b (now.stored g k b before).group before

-- With at most 2^32 threads in add_block, whatever their order: if a thread has returned with
-- block b and index x, then from then on blocks of the group holds b at that index, no thread is
-- ever about to store there, any thread that has returned with x has the block b, and at the
-- moment of the return no other thread has returned with x.
pub index_once :
    {n i b x : ℕ} {s t : System}
    → n ≤ max_threads
    → Reach n s
    → s.pc i ≡ placed b x
    → Steps n s t
    → (t.mem.blocks (x / op_group_block_count) (x % op_group_block_count) ≡ some b)
      × ((j c : ℕ) → t.pc j ≡ placed c x → c ≡ b)
      × ((j c : ℕ) → t.pc j ≢ storing c (x / op_group_block_count) (x % op_group_block_count))
      × ((j c : ℕ) → s.pc j ≡ placed c x → j ≡ i)
unfolding block_of
index_once {n} {i} {b} {x} {s} {t} few r e steps =
    let first = Reach-Inv few r in
    (
      now,
      λ j c h. ground (arith, inv.local j, now),
      λ j c h. ground (arith, inv.local j, now),
      λ j c h. ground (arith, first.local i, first.local j, first.own j i b),
    )
  where
    inv : Inv n t.mem t.pc
    inv = Steps-Inv (Reach-Inv few r) steps

    now : t.mem.blocks (x / op_group_block_count) (x % op_group_block_count) ≡ some b
    now =
        Steps-keeps (Reach-Inv few r) steps (x / op_group_block_count) (x % op_group_block_count) b
          (ground (arith, (Reach-Inv few r).local i))

-- With at most 2^32 threads in add_block, whatever their order: a thread that is about to store
-- its block has a group below group_count, which is at most OP_MAX_BLOCK_GROUP_COUNT, an index
-- below OP_GROUP_BLOCK_COUNT, finds no block there, and no other thread is about to store at the
-- same place.
pub store_place :
    {n i b g k : ℕ} {s : System}
    → n ≤ max_threads
    → Reach n s
    → s.pc i ≡ storing b g k
    → (g < s.mem.group_count)
      × (s.mem.group_count ≤ op_max_block_group_count)
      × (k < op_group_block_count)
      × (s.mem.blocks g k ≡ none)
      × ((j c : ℕ) → s.pc j ≡ storing c g k → j ≡ i)
unfolding stores
store_place {n} {i} {b} {g} {k} {s} few r e =
    let inv = Reach-Inv few r in
    let at_i : (g < s.mem.group_count) × (k < op_group_block_count) × (s.mem.blocks g k ≡ none) =
      ground (arith, inv.local i) in
    (at_i.0, inv.groups, at_i.1, at_i.2, λ j c h. ground (arith, inv.unique g k j i))

-- whether a thread is in no call of `add_block`
abbrev pub is_outside : Pc → Bool
is_outside idle = true
is_outside (placed b x) = true
is_outside failed = true
is_outside _ = false

over-outside : (g : ℕ) (p : Pc) → is_outside p ≡ true → over g p ≡ 0
over-outside g idle h = refl
over-outside g (undoing b k) h = cc
over-outside g p h = refl

stores-outside : (g k : ℕ) (p : Pc) → is_outside p ≡ true → stores g k p ≡ false
unfolding stores
stores-outside g k idle h = refl
stores-outside g k (storing b g' k') h = cc
stores-outside g k p h = refl

-- With at most 2^32 threads, in every reachable state with no thread inside add_block:
-- block_count of each group is at most OP_GROUP_BLOCK_COUNT, and exactly the places below it
-- hold a block.
pub quiet_groups :
    {n : ℕ} {s : System}
    → n ≤ max_threads
    → Reach n s
    → ((i : ℕ) → is_outside (s.pc i) ≡ true)
    → (g : ℕ) → g < s.mem.group_count
    → (s.mem.block_count g ≤ op_group_block_count)
      × ((k : ℕ) → (k < s.mem.block_count g) ↔ ((b : ℕ) × (s.mem.blocks g k ≡ some b)))
quiet_groups {n} {s} few r outside g lt =
    (most, λ k. (λ below. there k below, λ (b, e). (inv.stored g k b e).count))
  where
    inv : Inv n s.mem s.pc
    inv = Reach-Inv few r

    most : s.mem.block_count g ≤ op_group_block_count
    most = omega (
      arith,
      inv.fits g,
      total-eq-zero (over g) n s.pc (λ i. over-outside g (s.pc i) (outside i)),
    )

    there : (k : ℕ) → k < s.mem.block_count g → (b : ℕ) × (s.mem.blocks g k ≡ some b)
    there k below = elim (inv.filled g k lt (omega (arith, most)) below) [
      | inl found ↦ found
      | inr (i, e) ↦ absurd (ground (arith, stores-outside g k (s.pc i) (outside i)))
    ]

-- With n threads in add_block, at most 2^32, whatever their order: no thread finds a null group,
-- block_count of a group is at most n more than OP_GROUP_BLOCK_COUNT, and two threads are never
-- between the lock and the unlock of block_group_mutex_.
pub groups_sound :
    {n : ℕ} {s : System}
    → n ≤ max_threads
    → Reach n s
    → ((i : ℕ) → s.pc i ≢ fault)
      × ((g : ℕ) → s.mem.block_count g ≤ op_group_block_count + n)
      × ((i j : ℕ) → holds (s.pc i) ≡ true → holds (s.pc j) ≡ true → i ≡ j)
groups_sound {n} {s} few r = (
  λ i h. ground (arith, inv.local i),
  λ g. omega (arith, inv.fits g, total-le (over g) (λ p. ground arith) n s.pc),
  inv.alone,
)
  where
    inv : Inv n s.mem s.pc
    inv = Reach-Inv few r

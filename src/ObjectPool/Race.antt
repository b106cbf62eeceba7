-- ===== src/ObjectPool/Race.antt =====
-- src/common/object_pool_inl.h: `add_block` and `add_block_group` called by many threads at once, a
-- shared access at a time. A block is the number of its `new`, a group is its index in
-- `block_groups_`. Each `new` may give nullptr. The atomics are read and written one after the
-- other, as if each access were sequentially consistent.
use contention_prof.Base.{
  ℕ, zero, suc, ◌+◌, ◌*◌, ◌<◌, Bool, true, false, ◌&&◌, Option, none, some, ltb, ◌==◌,
  if◌then◌else◌, u64, sub64,
}
use contention_prof.ObjectPool.{op_max_block_group_count, op_group_block_count}
pub mod Family
pub mod Inv
pub mod Advance
pub mod Moves
pub mod Safety
pub mod Loop
pub mod Alone
mod Tests

-- `group_count_`, whether an entry of `block_groups_` is set, `block_count` and `blocks` of each
-- group, whether `block_group_mutex_` is locked, and how many blocks were made
pub record Mem : Type 0 where
  pub group_count : ℕ
  pub present : ℕ → Bool
  pub block_count : ℕ → ℕ
  pub blocks : ℕ → ℕ → Option ℕ
  pub locked : Bool
  pub made : ℕ

-- Where a thread stands in `add_block` with its new block, and the locals that are live there. From
-- `locking` to `unlocking` it is in `add_block_group`.
pub data Pc : Type 0 where
  idle : Pc  -- not in `add_block`
  reading : (b : ℕ) → Pc  -- before the load of `group_count_`
  counted : (b group_count : ℕ) → Pc  -- before the load of the last group
  fetching : (b g : ℕ) → Pc  -- before `fetch_add`
  storing : (b g k : ℕ) → Pc  -- before the store of the block at `k`
  undoing : (b g : ℕ) → Pc  -- before `fetch_sub`
  locking : (b old_group_count : ℕ) → Pc
  comparing : (b old_group_count : ℕ) → Pc
  publishing : (b group_count : ℕ) → Pc  -- before the store of the new group
  raising : (b group_count : ℕ) → Pc  -- before the store of `group_count_`
  unlocking : (b : ℕ) (result : Bool) → Pc
  placed : (b index : ℕ) → Pc  -- returned with the block
  failed : Pc  -- returned nullptr
  fault : Pc  -- a group was nullptr

abbrev pub update {ℓ} : {A : Type ℓ} → (ℕ → A) → ℕ → A → ℕ → A
update f i a j = if i == j then a else f j

-- `memory` is what `new` answers, where the step has one
unfoldable pub advance : (memory : Bool) → Mem → Pc → Mem × Pc
advance memory m idle =
    if memory then (record m { made = m.made + 1 }, reading m.made) else (m, failed)
advance memory m (reading b) = (m, counted b m.group_count)
advance memory m (counted b zero) = (m, locking b 0)
advance memory m (counted b (suc g)) = (m, if m.present g then fetching b g else fault)
advance memory m (fetching b g) = (
  record m { block_count = update m.block_count g (u64 (m.block_count g + 1)) },
  if ltb (m.block_count g) op_group_block_count then storing b g (m.block_count g) else undoing b g,
)
advance memory m (storing b g k) = (
  record m { blocks = update m.blocks g (update (m.blocks g) k (some b)) },
  placed b (g * op_group_block_count + k),
)
advance memory m (undoing b g) = (
  record m { block_count = update m.block_count g (sub64 (m.block_count g) 1) },
  locking b (suc g),
)
advance memory m (locking b n) =
    if m.locked then (m, locking b n) else (record m { locked = true }, comparing b n)
advance memory m (comparing b n) = (
  m,
  if m.group_count == n
      then (if ltb n op_max_block_group_count && memory then publishing b n else unlocking b false)
      else unlocking b true,
)
advance memory m (publishing b n) = (
  record m {
    present = update m.present n true;
    block_count = update m.block_count n 0;
    blocks = update m.blocks n (λ _. none);
  },
  raising b n,
)
advance memory m (raising b n) = (record m { group_count = n + 1 }, unlocking b true)
advance memory m (unlocking b result) =
    (record m { locked = false }, if result then reading b else failed)
advance memory m (placed b index) = (m, idle)
advance memory m failed = (m, idle)
advance memory m fault = (m, fault)

-- Threads in any order. An index from `n` on names no thread, and stays `idle`.
pub record System : Type 0 where
  pub mem : Mem
  pub pc : ℕ → Pc

abbrev pub no_groups : Mem
no_groups = record {
  group_count = 0;
  present = λ _. false;
  block_count = λ _. 0;
  blocks = λ _ _. none;
  locked = false;
  made = 0;
}

abbrev pub start_system : System
start_system = record { mem = no_groups; pc = λ _. idle }

abbrev pub run_thread : Bool → ℕ → System → System
run_thread memory i s =
    let (m, p) = advance memory s.mem (s.pc i) in record { mem = m; pc = update s.pc i p }

-- any number of steps of the first `n` threads
pub data Steps (n : ℕ) (s : System) : System → Type 0 where
  here : Steps n s s
  later :
      {t : System} (memory : Bool) (i : ℕ) → i < n → Steps n s t → Steps n s (run_thread memory i t)

abbrev pub Reach : ℕ → System → Type 0
Reach n = Steps n start_system

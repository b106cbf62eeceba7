-- ===== src/ObjectPool/Race/Inv.antt =====
-- The state of the groups while threads are in `add_block`.
use contention_prof.Base.{
  ℕ, ◌+◌, ◌/◌, ◌%◌, ◌^◌, ◌≤◌, ◌<◌, ◌≡◌, ◌⊎◌, Bool, true, false, ◌&&◌, Option, none, some, ◌==◌,
  if◌then◌else◌,
}
use contention_prof.ObjectPool.{op_max_block_group_count, op_group_block_count}
use contention_prof.ObjectPool.Race.{
  Mem, Pc, idle, reading, counted, fetching, storing, undoing, locking, comparing, publishing,
  raising, unlocking, placed, failed, fault,
}
use contention_prof.ObjectPool.Race.Family.{total}

-- 1 for a thread whose `fetch_add` on the full group `g` is not taken back yet
abbrev pub over : ℕ → Pc → ℕ
over g (undoing b h) = if g == h then 1 else 0
over g _ = 0

-- whether a thread has index `k` of group `g`, and has not stored its block there yet
unfoldable pub stores : ℕ → ℕ → Pc → Bool
stores g k (storing b h j) = g == h && k == j
stores g k _ = false

-- whether a thread has `block_group_mutex_`
unfoldable pub holds : Pc → Bool
holds (comparing _ _) = true
holds (publishing _ _) = true
holds (raising _ _) = true
holds (unlocking _ _) = true
holds _ = false

unfoldable pub block_of : Pc → Option ℕ
block_of idle = none
block_of (reading b) = some b
block_of (counted b n) = some b
block_of (fetching b g) = some b
block_of (storing b g k) = some b
block_of (undoing b g) = some b
block_of (locking b n) = some b
block_of (comparing b n) = some b
block_of (publishing b n) = some b
block_of (raising b n) = some b
block_of (unlocking b r) = some b
block_of (placed b x) = some b
block_of failed = none
block_of fault = none

-- What the locals of a thread say about the shared memory.
abbrev pub Fits : Mem → Pc → Type 0
Fits m (counted b n) = n ≤ m.group_count
Fits m (fetching b g) = g < m.group_count
Fits m (storing b g k) =
    (g < m.group_count) × (k < op_group_block_count) × (k < m.block_count g) × (m.blocks g k ≡ none)
Fits m (undoing b g) = g < m.group_count
Fits m (locking b n) = n ≤ m.group_count
Fits m (comparing b n) = n ≤ m.group_count
Fits m (publishing b n) = (m.group_count ≡ n) × (n < op_max_block_group_count)
Fits m (raising b n) =
    (m.group_count ≡ n)
    × (n < op_max_block_group_count)
    × (m.present n ≡ true)
    × (m.block_count n ≡ 0)
Fits m (placed b x) =
    (x / op_group_block_count < m.group_count)
    × (m.blocks (x / op_group_block_count) (x % op_group_block_count) ≡ some b)
Fits m fault = 0 < 0
Fits m _ = 0 ≤ 0

-- `blocks[k]` of group `g` has a block, or a thread is about to store one there.
abbrev pub Filled : Mem → (ℕ → Pc) → ℕ → ℕ → Type 0
Filled m pc g k = ((b : ℕ) × (m.blocks g k ≡ some b)) ⊎ ((i : ℕ) × (stores g k (pc i) ≡ true))

pub record Stored (m : Mem) (g k b : ℕ) : Type 0 where
  pub group : g < m.group_count
  pub below : k < op_group_block_count
  pub count : k < m.block_count g

abbrev pub max_threads : ℕ
max_threads = 2 ^ 32

pub record Inv (n : ℕ) (m : Mem) (pc : ℕ → Pc) : Type 0 where
  pub few : n ≤ max_threads
  pub groups : m.group_count ≤ op_max_block_group_count
  pub fits : (g : ℕ) → m.block_count g ≤ op_group_block_count + total (over g) n pc
  pub full :
      (g : ℕ)
      → 0 < total (over g) n pc
      → m.block_count g ≡ op_group_block_count + total (over g) n pc
  pub calm : (g : ℕ) → m.group_count ≤ g → total (over g) n pc ≡ 0
  pub there : (g : ℕ) → g < m.group_count → m.present g ≡ true
  pub stored : (g k b : ℕ) → m.blocks g k ≡ some b → Stored m g k b
  pub local : (i : ℕ) → Fits m (pc i)
  pub unique : (g k i j : ℕ) → stores g k (pc i) ≡ true → stores g k (pc j) ≡ true → i ≡ j
  pub filled :
      (g k : ℕ)
      → g < m.group_count
      → k < op_group_block_count
      → k < m.block_count g
      → Filled m pc g k
  pub alone : (i j : ℕ) → holds (pc i) ≡ true → holds (pc j) ≡ true → i ≡ j
  pub locked : (i : ℕ) → holds (pc i) ≡ true → m.locked ≡ true
  pub held : m.locked ≡ true → (i : ℕ) × (holds (pc i) ≡ true)
  pub made : (i b : ℕ) → block_of (pc i) ≡ some b → b < m.made
  pub own : (i j b : ℕ) → block_of (pc i) ≡ some b → block_of (pc j) ≡ some b → i ≡ j

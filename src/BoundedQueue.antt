-- ===== src/BoundedQueue.antt =====
-- src/common/bounded_queue.h: a ring of at most `_cap` items in storage that may be the caller's.
-- An address inside the storage is the index of its slot; a slot is `none` while no item lives in
-- it. Touching a slot outside the storage, or reading one with no item, is a `fault`; the loop of
-- `_mod` spins at capacity 0. `uint32_t` arithmetic wraps.
pub mod Wrap
pub mod View
pub mod Update
pub mod Ends
pub mod Deque
pub mod Refine
pub mod Index
pub mod Clear
pub mod Bottom
pub mod Contract
mod Tests
use contention_prof.Base.{
  ℕ, zero, suc, ◌+◌, ◌-◌, ◌*◌, ◌/◌, ◌^◌, Bool, true, false, List, [], Option, none, some, Outcome,
  ok, fault, spin, ◌>>=◌, expect, get_elem?, set, length, ltb, leb, ◌==◌, if◌then◌else◌, u32, u64,
  sub32, sub64,
}

pub data StorageOwnership : Type 0 where
  owns_storage not_own_storage : StorageOwnership

-- The fields of the class; `_items` is `none` for NULL.
pub record BoundedQueue {ℓ} (A : Type ℓ) : Type ℓ where
  pub count : ℕ
  pub cap : ℕ
  pub start : ℕ
  pub ownership : StorageOwnership
  pub items : Option (List (Option A))

-- `while (off >= cap) off -= cap;`
mod_cap_loop : ℕ → ℕ → ℕ → Outcome ℕ
mod_cap_loop zero off cap = spin
mod_cap_loop (suc fuel) off cap = elim (leb cap off) [
  | true ↦ mod_cap_loop fuel (sub32 off cap) cap
  | false ↦ ok off
]

-- Each round takes at least 1 off `off` unless `cap` is 0, so `off + 1` rounds are enough.
unfoldable pub mod_cap : ℕ → ℕ → Outcome ℕ
unfolding mod_cap_loop
mod_cap off cap = mod_cap_loop (off + 1) off cap

module _ {ℓ} {A : Type ℓ} where
  -- The constructor over `memsize` bytes at `mem`, which holds `memsize / sizeof(T)` raw slots.
  unfoldable pub from_storage : List (Option A) → ℕ → ℕ → StorageOwnership → BoundedQueue A
  from_storage mem memsize size_of ownership = record {
    count = 0;
    cap = u32 (memsize / size_of);
    start = 0;
    ownership = ownership;
    items = some mem;
  }

  -- The constructor that allocates; `malloc` answers with raw storage or NULL.
  pub with_capacity : Option (List (Option A)) → ℕ → BoundedQueue A
  with_capacity malloced capacity = record {
    count = 0;
    cap = u32 capacity;
    start = 0;
    ownership = StorageOwnership.owns_storage;
    items = malloced;
  }

  abbrev pub default_queue : BoundedQueue A
  default_queue = record {
    count = 0;
    cap = 0;
    start = 0;
    ownership = StorageOwnership.not_own_storage;
    items = none;
  }

  abbrev pub slots : BoundedQueue A → List (Option A)
  slots q = elim q.items [ none ↦ [] | some s ↦ s ]

  abbrev pub with_slots : BoundedQueue A → List (Option A) → BoundedQueue A
  with_slots q s = record q { items = elim q.items [ none ↦ none | some _ ↦ some s ] }

  -- `new ((T*)_items + i) T(item)`
  unfoldable pub construct : BoundedQueue A → ℕ → A → Outcome (BoundedQueue A)
  construct q i item =
      if ltb i (length (slots q)) then ok (with_slots q (set (slots q) i (some item))) else fault

  -- the item at an address
  unfoldable pub load : BoundedQueue A → ℕ → Outcome A
  load q i = do s ← expect (get_elem? (slots q) i); expect s

  -- `((T*)_items)[i] = item`, on an item that lives
  unfoldable pub assign : BoundedQueue A → ℕ → A → Outcome (BoundedQueue A)
  assign q i item = do _ ← load q i; ok (with_slots q (set (slots q) i (some item)))

  -- `((T*)_items + i)->~T()`
  unfoldable pub destroy : BoundedQueue A → ℕ → Outcome (BoundedQueue A)
  destroy q i = do _ ← load q i; ok (with_slots q (set (slots q) i none))

  unfoldable pub push : BoundedQueue A → A → Outcome (Bool × BoundedQueue A)
  push q item =
      if ltb q.count q.cap
      then (do
        i ← mod_cap (u32 (q.start + q.count)) q.cap
        q' ← construct q i item
        ok (true, record q' { count = u32 (q'.count + 1) }))
      else ok (false, q)

  unfoldable pub elim_push : BoundedQueue A → A → Outcome (BoundedQueue A)
  elim_push q item =
      if ltb q.count q.cap
      then (do
        i ← mod_cap (u32 (q.start + q.count)) q.cap
        q' ← construct q i item
        ok (record q' { count = u32 (q'.count + 1) }))
      else (do
        q' ← assign q q.start item
        s ← mod_cap (u32 (q'.start + 1)) q'.cap
        ok (record q' { start = s }))

  -- `T* push()`: the address of a default-constructed item, or NULL
  unfoldable pub push_default : BoundedQueue A → A → Outcome (Option ℕ × BoundedQueue A)
  push_default q default =
      if ltb q.count q.cap
      then (do
        i ← mod_cap (u32 (q.start + q.count)) q.cap
        q' ← construct (record q { count = u32 (q.count + 1) }) i default
        ok (some i, q'))
      else ok (none, q)

  -- `_start ? (_start - 1) : (_cap - 1)`
  unfoldable pub before_start : BoundedQueue A → ℕ
  before_start q = if q.start == 0 then sub32 q.cap 1 else q.start - 1

  unfoldable pub push_top : BoundedQueue A → A → Outcome (Bool × BoundedQueue A)
  unfolding before_start
  push_top q item =
      if ltb q.count q.cap
      then (do
        let q₁ = record q { start = before_start q; count = u32 (q.count + 1) }
        q' ← construct q₁ q₁.start item
        ok (true, q'))
      else ok (false, q)

  -- `T* push_top()`
  unfoldable pub push_top_default : BoundedQueue A → A → Outcome (Option ℕ × BoundedQueue A)
  unfolding before_start
  push_top_default q default =
      if ltb q.count q.cap
      then (do
        let q₁ = record q { start = before_start q; count = u32 (q.count + 1) }
        q' ← construct q₁ q₁.start default
        ok (some q₁.start, q'))
      else ok (none, q)

  unfoldable pub pop : BoundedQueue A → Outcome (Bool × BoundedQueue A)
  pop q = if q.count == 0 then ok (false, q) else (do
    q' ← destroy (record q { count = q.count - 1 }) q.start
    s ← mod_cap (u32 (q'.start + 1)) q'.cap
    ok (true, record q' { start = s }))

  -- `bool pop(T* item)`; the option is what goes through `item`
  unfoldable pub pop_into : BoundedQueue A → Outcome ((Bool × Option A) × BoundedQueue A)
  pop_into q = if q.count == 0 then ok ((false, none), q) else (do
    let q₁ = record q { count = q.count - 1 }
    item ← load q₁ q₁.start
    q' ← destroy q₁ q₁.start
    s ← mod_cap (u32 (q'.start + 1)) q'.cap
    ok ((true, some item), record q' { start = s }))

  -- `_items + _start + _count` is an address: no `_mod`, as in the source.
  unfoldable pub pop_bottom : BoundedQueue A → Outcome (Bool × BoundedQueue A)
  pop_bottom q = if q.count == 0 then ok (false, q) else (do
    let q₁ = record q { count = q.count - 1 }
    q' ← destroy q₁ (q₁.start + q₁.count)
    ok (true, q'))

  -- `bool pop_bottom(T* item)`; `_start + _count` is `uint32_t` here
  unfoldable pub pop_bottom_into : BoundedQueue A → Outcome ((Bool × Option A) × BoundedQueue A)
  pop_bottom_into q = if q.count == 0 then ok ((false, none), q) else (do
    let q₁ = record q { count = q.count - 1 }
    item ← load q₁ (u32 (q₁.start + q₁.count))
    q' ← destroy q₁ (u32 (q₁.start + q₁.count))
    ok ((true, some item), q'))

  clear_from : ℕ → ℕ → BoundedQueue A → Outcome (BoundedQueue A)
  clear_from zero i q = ok q
  clear_from (suc n) i q = do
    j ← mod_cap (u32 (q.start + i)) q.cap
    q' ← destroy q j
    clear_from n (i + 1) q'

  -- `for (i = 0; i < _count; ++i)` makes `_count` rounds.
  unfoldable pub clear : BoundedQueue A → Outcome (BoundedQueue A)
  unfolding clear_from
  clear q = do q' ← clear_from q.count 0 q; ok (record q' { count = 0; start = 0 })

  unfoldable pub top : BoundedQueue A → Option ℕ
  top q = if q.count == 0 then none else some q.start

  -- `top(index)`, with `index` a `size_t`; the sum is cut to the `uint32_t` that `_mod` takes
  unfoldable pub top_at : BoundedQueue A → ℕ → Outcome (Option ℕ)
  top_at q index =
      if ltb index q.count
      then (do i ← mod_cap (u32 (u64 (q.start + index))) q.cap; ok (some i))
      else ok none

  unfoldable pub bottom : BoundedQueue A → Outcome (Option ℕ)
  bottom q =
      if q.count == 0
      then ok none
      else (do i ← mod_cap (sub32 (u32 (q.start + q.count)) 1) q.cap; ok (some i))

  -- `bottom(index)`: `_start + _count` is `uint32_t`, the rest `size_t`, cut for `_mod`
  unfoldable pub bottom_at : BoundedQueue A → ℕ → Outcome (Option ℕ)
  bottom_at q index =
      if ltb index q.count
      then (do
        i ← mod_cap (u32 (sub64 (sub64 (u32 (q.start + q.count)) index) 1)) q.cap
        ok (some i))
      else ok none

  -- what a caller reads through an address that it was given; NULL gives nothing
  abbrev pub peek : BoundedQueue A → Option ℕ → Outcome (Option A)
  peek q none = ok none
  peek q (some i) = do item ← load q i; ok (some item)

  unfoldable pub empty : BoundedQueue A → Bool
  empty q = q.count == 0

  unfoldable pub full : BoundedQueue A → Bool
  full q = q.cap == q.count

  abbrev pub size : BoundedQueue A → ℕ
  size q = q.count

  abbrev pub capacity : BoundedQueue A → ℕ
  capacity q = q.cap

  -- `(1UL << (sizeof(_cap) * 8)) - 1`
  abbrev pub max_capacity : BoundedQueue A → ℕ
  max_capacity q = 1 * 2 ^ (4 * 8) - 1

  unfoldable pub initialized : BoundedQueue A → Bool
  initialized q = elim q.items [ none ↦ false | some _ ↦ true ]

  -- both queues with their fields exchanged
  abbrev pub swap : BoundedQueue A → BoundedQueue A → BoundedQueue A × BoundedQueue A
  swap q rhs = (
    record {
      count = rhs.count;
      cap = rhs.cap;
      start = rhs.start;
      ownership = rhs.ownership;
      items = rhs.items;
    },
    record {
      count = q.count;
      cap = q.cap;
      start = q.start;
      ownership = q.ownership;
      items = q.items;
    },
  )

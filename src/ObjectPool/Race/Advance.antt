-- ===== src/ObjectPool/Race/Advance.antt =====
-- What one step of a thread does to the lock, the places and the blocks.
use contention_prof.Base.{ℕ, zero, suc, ◌+◌, ◌≤◌, ◌<◌, ◌≡◌, ◌⊎◌, Bool, true, false, some, arith}
use contention_prof.ObjectPool.{op_group_block_count}
use contention_prof.ObjectPool.Race.{Mem, Pc, idle, counted, storing, advance}
use contention_prof.ObjectPool.Race.Inv.{stores, holds, block_of, Fits}

-- What the next step of a thread at `p` starts.
module _ (m : Mem) where
  pub Fits-stores : (g k : ℕ) (p : Pc) → stores g k p ≡ true → Fits m p → k < m.block_count g
  unfolding stores
  Fits-stores g k (storing b h j) e f = ground arith
  Fits-stores g k idle e f = cc
  Fits-stores g k p e f = cc

  pub advance-stores :
      (memory : Bool) (g k : ℕ) (p : Pc)
      → stores g k (advance memory m p).1 ≡ true
      → (k ≡ m.block_count g) × (k < op_group_block_count)
  unfolding advance stores
  advance-stores memory g k idle e = ground arith
  advance-stores memory g k (counted b zero) e = cc
  advance-stores memory g k (counted b (suc h)) e = ground arith
  advance-stores memory g k p e = ground arith

  pub advance-holds :
      (memory : Bool) (p : Pc)
      → holds (advance memory m p).1 ≡ true
      → ((holds p ≡ true) ⊎ (m.locked ≡ false))
        × (((advance memory m p).0.locked ≡ true)
            ⊎ (((advance memory m p).0.locked ≡ m.locked) × (holds p ≡ true)))
  unfolding advance holds
  advance-holds memory idle e = ground arith
  advance-holds memory (counted b zero) e = cc
  advance-holds memory (counted b (suc h)) e = ground arith
  advance-holds memory p e = ground arith

  pub advance-locked :
      (memory : Bool) (p : Pc)
      → holds p ≡ false
      → m.locked ≡ true
      → (advance memory m p).0.locked ≡ true
  unfolding advance holds
  advance-locked memory idle e h = ground arith
  advance-locked memory (counted b zero) e h = h
  advance-locked memory p e h = ground arith

  pub advance-block_of :
      (memory : Bool) (p : Pc) (b : ℕ)
      → block_of (advance memory m p).1 ≡ some b
      → (block_of p ≡ some b) ⊎ ((b ≡ m.made) × ((advance memory m p).0.made ≡ m.made + 1))
  unfolding advance block_of
  advance-block_of memory idle b e = ground arith
  advance-block_of memory (counted c zero) b e = ground arith
  advance-block_of memory p b e = ground arith

  pub made-le : (memory : Bool) (p : Pc) → m.made ≤ (advance memory m p).0.made
  unfolding advance
  made-le memory idle = ground arith
  made-le memory (counted c zero) = ground arith
  made-le memory p = ground arith

  pub advance-held :
      (memory : Bool) (p : Pc)
      → (advance memory m p).0.locked ≡ true
      → (holds (advance memory m p).1 ≡ true) ⊎ ((holds p ≡ false) × (m.locked ≡ true))
  unfolding advance holds
  advance-held memory idle e = ground arith
  advance-held memory (counted b zero) e = ground arith
  advance-held memory p e = ground arith

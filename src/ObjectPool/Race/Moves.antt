-- ===== src/ObjectPool/Race/Moves.antt =====
-- A step of thread `i`, and each field of `Inv`.
use contention_prof.Base.{
  ℕ, zero, suc, ◌+◌, ◌≤◌, ◌<◌, ◌≡◌, refl, ◌∙◌, inl, inr, Bool, true, false, none, some, arith,
  Option-cases, Bool-cases, ◌==◌, ◌&&◌,
}
use native.Mathlib.Decide.{dec_lt}
use contention_prof.ObjectPool.{op_max_block_group_count, op_group_block_count}
use contention_prof.ObjectPool.Race.{
  Mem, Pc, idle, counted, fetching, storing, undoing, publishing, raising, update, advance,
}
use contention_prof.ObjectPool.Race.Family.{total, total-update, total-le}
use contention_prof.ObjectPool.Race.Inv.{
  over, stores, holds, block_of, Fits, Filled, Stored, max_threads, Inv,
}
use contention_prof.ObjectPool.Race.Advance.{
  Fits-stores, advance-stores, advance-holds, advance-locked, advance-block_of, made-le,
  advance-held,
}

total-over-le : (g n : ℕ) (pc : ℕ → Pc) → total (over g) n pc ≤ n
total-over-le g = total-le (over g) (λ p. ground arith)

module _ {n : ℕ} {m : Mem} {pc : ℕ → Pc} (inv : Inv n m pc) (memory : Bool) (i : ℕ) where
  open inv use {
    few, groups, fits, full, calm, there, stored, local, unique, filled, alone, locked, held, made,
    own,
  }

  abbrev mem_after : Pc → Mem
  mem_after p = (advance memory m p).0

  abbrev pc_after : Pc → ℕ → Pc
  pc_after p = update pc i (advance memory m p).1

  -- Thread `i` stands at `p`.
  record Mover (p : Pc) : Type 0 where
    here : pc i ≡ p
    fit : Fits m p
    overs :
        (g : ℕ)
        → total (over g) n (pc_after p) + over g p
          ≡ total (over g) n pc + over g (advance memory m p).1
    room :
        (g : ℕ)
        → (total (over g) n pc ≤ max_threads) × (total (over g) n (pc_after p) ≤ max_threads)

  mover : i < n → Mover (pc i)
  mover lt = record {
    here = refl;
    fit = local i;
    overs = λ g. total-update (over g) n pc i (advance memory m (pc i)).1 lt;
    room = λ g. (
      omega (arith, total-over-le g n pc, few),
      omega (arith, total-over-le g n (pc_after (pc i)), few),
    );
  }

  groups_after : (p : Pc) → Mover p → (mem_after p).group_count ≤ op_max_block_group_count
  unfolding advance
  groups_after idle f = ground arith
  groups_after p f = ground arith

  fits_after :
      (p : Pc)
      → Mover p
      → (g : ℕ) → (mem_after p).block_count g ≤ op_group_block_count + total (over g) n (pc_after p)
  unfolding advance
  fits_after idle f g = ground (arith, fits g, full g, f.overs g, f.room g)
  fits_after p f g = ground (arith, fits g, full g, f.overs g, f.room g)

  full_after :
      (p : Pc)
      → Mover p
      → (g : ℕ) → 0 < total (over g) n (pc_after p)
      → (mem_after p).block_count g ≡ op_group_block_count + total (over g) n (pc_after p)
  unfolding advance
  full_after idle f g h = ground (arith, fits g, full g, calm g, f.overs g, f.room g)
  full_after p f g h = ground (arith, fits g, full g, calm g, f.overs g, f.room g)

  calm_after :
      (p : Pc)
      → Mover p
      → (g : ℕ) → (mem_after p).group_count ≤ g
      → total (over g) n (pc_after p) ≡ 0
  unfolding advance
  calm_after idle f g h = ground (arith, calm g, f.overs g)
  calm_after p f g h = ground (arith, calm g, f.overs g)

  there_after :
      (p : Pc) → Mover p → (g : ℕ) → g < (mem_after p).group_count → (mem_after p).present g ≡ true
  unfolding advance
  there_after idle f g h = ground (arith, there g)
  there_after p f g h = ground (arith, there g)

  places_after :
      (p : Pc)
      → Mover p
      → (g k b : ℕ) → (mem_after p).blocks g k ≡ some b
      → Stored (mem_after p) g k b
  unfolding advance
  places_after idle f g k b h = ground (arith, stored g k b)
  places_after p f g k b h = ground (arith, stored g k b, fits g, full g, f.overs g, f.room g)

  empty : (g k : ℕ) → m.block_count g ≤ k → m.blocks g k ≡ none
  empty g k h = elim (Option-cases (m.blocks g k)) [
    | inl none_there ↦ none_there
    | inr (b, some_there) ↦ absurd (omega (arith, (stored g k b some_there).count))
  ]

  stores-below : (g k j : ℕ) → stores g k (pc j) ≡ true → k < m.block_count g
  stores-below g k j h = Fits-stores m g k (pc j) h (local j)

  locals_after : (p : Pc) → Mover p → (j : ℕ) → Fits (mem_after p) (pc_after p j)
  unfolding advance stores holds
  locals_after idle f j = ground (arith, local j)
  locals_after (counted b zero) f j = ground (arith, local j)
  locals_after (counted b (suc g)) f j = ground (arith, local j, there g)
  locals_after (fetching b g) f j =
      ground (arith, local j, fits g, full g, f.room g, empty g (m.block_count g))
  locals_after (storing b g k) f j = ground (arith, local j, unique g k i j)
  locals_after (undoing b g) f j = ground (arith, local j, full g, f.overs g, f.room g)
  locals_after p f j = ground (arith, local j, alone i j)

  unique_after :
      (p : Pc)
      → Mover p
      → (g k a b : ℕ) → stores g k (pc_after p a) ≡ true
      → stores g k (pc_after p b) ≡ true
      → a ≡ b
  unique_after p f g k a b ha hb =
      ground (
        arith,
        unique g k a b,
        advance-stores m memory g k p,
        stores-below g k a,
        stores-below g k b,
      )

  alone_after :
      (p : Pc)
      → Mover p
      → (a b : ℕ) → holds (pc_after p a) ≡ true
      → holds (pc_after p b) ≡ true
      → a ≡ b
  alone_after p f a b ha hb =
      ground (arith, alone a b, alone i a, alone i b, locked a, locked b, advance-holds m memory p)

  locked_after :
      (p : Pc) → Mover p → (a : ℕ) → holds (pc_after p a) ≡ true → (mem_after p).locked ≡ true
  locked_after p f a h = elim (Bool-cases (holds p)) [
    | inl mine ↦ ground (arith, alone i a, locked a, locked i, advance-holds m memory p)
    | inr other ↦ ground (arith, locked a, advance-holds m memory p, advance-locked m memory p)
  ]

  made_after :
      (p : Pc) → Mover p → (a b : ℕ) → block_of (pc_after p a) ≡ some b → b < (mem_after p).made
  made_after p f a b h =
      ground (arith, made a b, made i b, made-le m memory p, advance-block_of m memory p b)

  own_after :
      (p : Pc)
      → Mover p
      → (a c b : ℕ) → block_of (pc_after p a) ≡ some b
      → block_of (pc_after p c) ≡ some b
      → a ≡ c
  own_after p f a c b ha hc =
      ground
        (arith, own a c b, own i a b, own i c b, made a b, made c b, advance-block_of m memory p b)

  held_after :
      (p : Pc) → Mover p → (mem_after p).locked ≡ true → (a : ℕ) × (holds (pc_after p a) ≡ true)
  held_after p f h = elim (advance-held m memory p h) [
    | inl mine ↦ (i, ground arith)
    | inr (other, before) ↦ let (j, has) = held before in (j, ground arith)
  ]

  -- A place that thread `i` does not store is still filled.
  Filled_after :
      (p : Pc)
      → Mover p
      → (g k : ℕ) → stores g k p ≡ false
      → (mem_after p).blocks g k ≡ m.blocks g k
      → Filled m pc g k
      → Filled (mem_after p) (pc_after p) g k
  Filled_after p f g k e same (inl (b, there_before)) = inl (b, same ∙ there_before)
  Filled_after p f g k e same (inr (j, storing_before)) = inr (j, ground arith)

  filled_after :
      (p : Pc)
      → Mover p
      → (g k : ℕ) → g < (mem_after p).group_count
      → k < op_group_block_count
      → k < (mem_after p).block_count g
      → Filled (mem_after p) (pc_after p) g k
  unfolding advance stores
  filled_after idle f g k hg hk hc =
      Filled_after idle f g k refl (ground arith) (filled g k (ground arith) hk (ground arith))
  filled_after (counted b zero) f g k hg hk hc =
      Filled_after (counted b zero) f g k refl refl (filled g k hg hk hc)
  filled_after (fetching b h) f g k hg hk hc = elim (dec_lt k (m.block_count g)) [
    | yes old ↦ Filled_after (fetching b h) f g k refl refl (filled g k hg hk old)
    | no new ↦ inr (i, ground (arith, fits g, full g, f.room g))
  ]
  filled_after (storing b h l) f g k hg hk hc = elim (Bool-cases (g == h && k == l)) [
    | inl here ↦ inl (b, ground arith)
    | inr other ↦ Filled_after (storing b h l) f g k other (ground arith) (filled g k hg hk hc)
  ]
  filled_after (undoing b h) f g k hg hk hc =
      Filled_after (undoing b h) f g k refl refl
        (filled g k hg hk (ground (arith, full g, f.overs g, f.room g)))
  filled_after (publishing b h) f g k hg hk hc =
      Filled_after (publishing b h) f g k refl (ground arith) (filled g k hg hk (ground arith))
  filled_after (raising b h) f g k hg hk hc =
      Filled_after (raising b h) f g k refl refl (filled g k (ground arith) hk hc)
  filled_after p f g k hg hk hc =
      Filled_after p f g k refl (ground arith) (filled g k (ground arith) hk (ground arith))

  pub advance-Inv :
      i < n → Inv n (advance memory m (pc i)).0 (update pc i (advance memory m (pc i)).1)
  advance-Inv lt = record {
    few = few;
    groups = groups_after (pc i) f;
    fits = fits_after (pc i) f;
    full = full_after (pc i) f;
    calm = calm_after (pc i) f;
    there = there_after (pc i) f;
    stored = places_after (pc i) f;
    local = locals_after (pc i) f;
    unique = unique_after (pc i) f;
    filled = filled_after (pc i) f;
    alone = alone_after (pc i) f;
    locked = locked_after (pc i) f;
    held = held_after (pc i) f;
    made = made_after (pc i) f;
    own = own_after (pc i) f;
  }
    where
      f : Mover (pc i)
      f = mover lt

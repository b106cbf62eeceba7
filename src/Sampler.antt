-- ===== src/Sampler.antt =====
-- src/common/sampler.h: the samples of a reducer, one for each second, in a queue that grows with
-- the largest window asked for. What the reducer, the clock and malloc answer are arguments.
use contention_prof.Base.{
  ℕ, zero, suc, ◌+◌, ◌*◌, Bool, true, false, ◌||◌, List, Option, none, some, Outcome, ok, fault,
  spin, ◌>>=◌, ltb, ◌==◌, if◌then◌else◌, replicate,
}
use contention_prof.Base.Int.{ℤ}
use contention_prof.BoundedQueue.{
  BoundedQueue, StorageOwnership, from_storage, push, pop_into, elim_push,
}
pub mod Grow
pub mod Window
pub mod Rounds
mod Tests

-- `Sample`
pub record Sample (A : Type 0) : Type 0 where
  pub data_value : A
  pub time_us : ℤ

-- `ReducerSampler`: `_window_size` and `_q`
pub record ReducerSampler (A : Type 0) : Type 0 where
  pub window_size : ℕ
  pub q : BoundedQueue (Sample A)

abbrev pub max_seconds_limit : ℕ
max_seconds_limit = 3600

-- `std::max(_q.capacity() * 2, (size_t)_window_size + 1)`
abbrev pub new_capacity : ℕ → ℕ → ℕ
new_capacity cap window = if ltb (cap * 2) (window + 1) then window + 1 else cap * 2

module _ {A : Type 0} where
  -- `while (_q.pop(&tmp)) { new_q.push(tmp); }`; every round takes one item, so one round more than
  -- there are items is enough
  unfoldable pub move_all :
      ℕ → BoundedQueue A → BoundedQueue A → Outcome (BoundedQueue A × BoundedQueue A)
  move_all zero old new = spin
  move_all (suc fuel) old new = pop_into old >>= (λ ((more, item), old'). elim item [
    | none ↦ ok (old', new)
    | some x ↦ push new x >>= (λ (done, new'). move_all fuel old' new')
  ])

  -- The queue with room for the window, or none when there is no memory. `size_of` is the size of a
  -- sample.
  unfoldable pub make_ready :
      (memory : Bool) (size_of window : ℕ) → BoundedQueue A → Outcome (Option (BoundedQueue A))
  unfolding move_all
  make_ready memory size_of window q =
      if ltb q.cap (window + 1)
      then (if memory
          then (let n = new_capacity q.cap window in
              move_all (q.count + 1) q (
                from_storage (replicate n none) (size_of * n) size_of StorageOwnership.owns_storage)
              >>= (λ (old, new). ok (some new)))
          else ok none)
      else ok (some q)

-- `take_sample`, where `value` is what the reducer answers and `now` the time of the day
unfoldable pub take_sample :
    {A : Type 0}
    → (memory : Bool) (size_of : ℕ) → A
    → ℤ
    → ReducerSampler A
    → Outcome (ReducerSampler A)
unfolding make_ready
take_sample memory size_of value now s = make_ready memory size_of s.window_size s.q >>= (λ ready.
    elim ready [
      | none ↦ ok s
      | some q ↦
          elim_push q (record { data_value = value; time_us = now })
          >>= (λ q'. ok (record s { q = q' }))
    ])

-- `set_window_size` for a window that is not negative: whether it returns 0
unfoldable pub set_window_size : {A : Type 0} → ℕ → ReducerSampler A → Bool × ReducerSampler A
set_window_size window s =
    if (window == 0) || ltb max_seconds_limit window
    then (false, s)
    else (true, if ltb s.window_size window then record s { window_size = window } else s)

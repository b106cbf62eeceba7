-- ===== src/ObjectPool/Locals.antt =====
-- src/common/object_pool_inl.h: the local pool of each thread from its construction to its deletion,
-- which `thread_atexit` of src/common/thread_local.cpp brings about, and `local_count_`.
-- A local pool is the number of its `new`. `deleter` is the address of `delete_local_pool`.
-- What the destructor gives back to the shared chunks is in ObjectPool.delete_local_pool. Exit
-- functions other than `deleter` do not call the pool.
use contention_prof.Base.{
  ℕ, zero, suc, ◌+◌, ◌<◌, ◌≡◌, Bool, true, false, List, [], ◌∷◌, Option, none, some, ◌==◌,
  if◌then◌else◌,
}
use contention_prof.Base.Int.{ℤ, pos, ◌+ℤ◌, ◌-ℤ◌}
use contention_prof.ThreadExit.{Pair, thread_atexit, thread_atexit_cancel, helper_exit}
use contention_prof.ObjectPool.Race.{update}
pub mod Registered
pub mod Count
mod Tests

-- `local_pool_` of each thread, what `thread_atexit_key` gives in it, and `local_count_`
pub record LocalPools : Type 0 where
  pub local_pool : ℕ → Option ℕ
  pub helper : ℕ → Option (List Pair)
  pub local_count : ℤ
  pub made : ℕ

abbrev pub no_local_pools : LocalPools
no_local_pools = record {
  local_pool = λ t. none;
  helper = λ t. none;
  local_count = pos 0;
  made = 0;
}

module _ (deleter : ℕ) where
  -- `get_or_new_local_pool`: the pool, or null when there is no memory
  unfoldable pub get_or_new_local_pool :
      (memory : Bool) (thread : ℕ) → LocalPools → Option ℕ × LocalPools
  unfolding thread_atexit
  get_or_new_local_pool memory thread s = elim (s.local_pool thread) [
    | some lp ↦ (some lp, s)
    | none ↦
        if memory
        then (
          some s.made,
          record {
            local_pool = update s.local_pool thread (some s.made);
            helper = update s.helper thread (thread_atexit deleter s.made (s.helper thread)).1;
            local_count = s.local_count +ℤ pos 1;
            made = s.made + 1;
          },
        )
        else (none, s)
  ]

  -- `clear_from_destructor_of_local_pool`, at the end of the destructor
  unfoldable pub clear_from_destructor_of_local_pool : (thread : ℕ) → LocalPools → LocalPools
  clear_from_destructor_of_local_pool thread s = record s {
    local_pool = update s.local_pool thread none;
    local_count = s.local_count -ℤ pos 1;
  }

  -- `clear_objects`
  unfoldable pub clear_objects : (thread : ℕ) → LocalPools → LocalPools
  unfolding clear_from_destructor_of_local_pool thread_atexit_cancel
  clear_objects thread s = elim (s.local_pool thread) [
    | none ↦ s
    | some lp ↦ clear_from_destructor_of_local_pool thread (record s {
      local_pool = update s.local_pool thread none;
      helper = update s.helper thread (thread_atexit_cancel deleter lp (s.helper thread));
    })
  ]

  -- what the functions that run at the end of a thread do to the pools: `delete_local_pool`
  unfoldable pub run_pairs : (thread : ℕ) → List Pair → LocalPools → LocalPools
  unfolding clear_from_destructor_of_local_pool
  run_pairs thread [] s = s
  run_pairs thread (p ∷ l) s =
      run_pairs thread l
        (if p.fn == deleter then clear_from_destructor_of_local_pool thread s else s)

  -- the end of a thread
  unfoldable pub exit_thread : (thread : ℕ) → LocalPools → LocalPools
  unfolding run_pairs helper_exit
  exit_thread thread s =
      let (calls, helper) = helper_exit (s.helper thread) in
      run_pairs thread calls (record s { helper = update s.helper thread helper })

  -- Calls of the first `n` threads in any order. A thread may register other functions.
  pub data Reach (n : ℕ) : LocalPools → Type 0 where
    start : Reach n no_local_pools
    gets :
        {s : LocalPools} (memory : Bool) (thread : ℕ)
        → thread < n
        → Reach n s
        → Reach n (get_or_new_local_pool memory thread s).1
    clears :
        {s : LocalPools} (thread : ℕ) → thread < n → Reach n s → Reach n (clear_objects thread s)
    registers :
        {s : LocalPools} (thread fn arg : ℕ)
        → thread < n
        → (fn == deleter) ≡ false
        → Reach n s
        → Reach n (record s {
          helper = update s.helper thread (thread_atexit fn arg (s.helper thread)).1;
        })
    exits : {s : LocalPools} (thread : ℕ) → thread < n → Reach n s → Reach n (exit_thread thread s)

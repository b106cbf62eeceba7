-- ===== src/ObjectPool/Locals/Tests.antt =====
-- A thread that makes a local pool, registers another function and exits.
use contention_prof.Base.{arith, ℕ, ◌≡◌, refl, true, none}
use contention_prof.Base.Int.{pos, ◌+ℤ◌, ◌-ℤ◌}
use contention_prof.ObjectPool.Race.Family.{total}
use contention_prof.ObjectPool.Locals.{
  LocalPools, no_local_pools, get_or_new_local_pool, exit_thread, Reach,
}
use contention_prof.ObjectPool.Locals.Registered.{registered, pairs_of, alone, has_pool}
use contention_prof.ObjectPool.Locals.Count.{local_count-Reach}

abbrev one_pool : LocalPools
one_pool = (get_or_new_local_pool 100 true 1 no_local_pools).1

one_pool-Reach : Reach 100 2 one_pool
one_pool-Reach = Reach.gets true 1 (omega arith) Reach.start

one_pool_count : (one_pool.local_count ≡ pos 1) × ((exit_thread 100 1 one_pool).local_count ≡ pos 0)
unfolding get_or_new_local_pool exit_thread ◌+ℤ◌ ◌-ℤ◌
one_pool_count = (refl, refl)

local_count-Reach_example :
    (one_pool.local_count ≡ pos (total has_pool 2 one_pool.local_pool))
    × ((t : ℕ) → registered 100 (pairs_of (one_pool.helper t)) ≡ alone (one_pool.local_pool t))
    × ((t : ℕ) → (exit_thread 100 t one_pool).local_pool t ≡ none)
local_count-Reach_example = local_count-Reach 100 refl one_pool-Reach

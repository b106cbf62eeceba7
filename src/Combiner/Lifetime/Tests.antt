-- ===== src/Combiner/Lifetime/Tests.antt =====
-- A combiner that is destroyed, and the next one.
use contention_prof.Base.{ℕ, ◌≡◌, refl, List, [], ◌∷◌, none, some, ◌==◌, if◌then◌else◌}
use contention_prof.Combiner.Conserve.{total}
use contention_prof.Combiner.Tests.{plus, plus-IsCommutativeMonoid}
use contention_prof.AgentGroup.{create_new_agent, destroy_agent}
use contention_prof.Combiner.Lifetime.{
  LiveCombiner, Agents, no_combiners, construct, add_value, get_or_create_tls_agent,
  combine_threads, reset_all_agents, store_all, destroy, delete_agent, Reach,
}
use contention_prof.Combiner.Lifetime.Refine.{delete_agent-total, combine_threads-total}

abbrev with_one : Agents ℕ
with_one = construct plus 0 0 (no_combiners plus 0 0)

abbrev fresh_combiner : LiveCombiner ℕ
fresh_combiner = record { id = 0; global_result = 0; threads = [] }

abbrev used_combiner : LiveCombiner ℕ
used_combiner = record { id = 0; global_result = 0; threads = 7 ∷ [] }

-- thread 7 adds 5 to combiner 0, which is destroyed
abbrev destroyed : Agents ℕ
destroyed = destroy plus 0 0 0 used_combiner (add_value plus 0 0 7 0 5 fresh_combiner with_one)

-- thread 7 adds 3 to combiner 1, which has the same id
abbrev reused : Agents ℕ
reused = add_value plus 0 0 7 1 3 fresh_combiner (construct plus 0 0 destroyed)

abbrev values : ℕ → List ℕ
values d = if d == 1 then 3 ∷ (if d == 0 then 5 ∷ [] else []) else (if d == 0 then 5 ∷ [] else [])

reused-Reach : Reach plus 0 0 values reused
unfolding construct add_value get_or_create_tls_agent create_new_agent destroy destroy_agent
    store_all
reused-Reach = Reach.adds 7 1 3 fresh_combiner refl (
    Reach.constructs (
      Reach.destroys 0 used_combiner refl
        (Reach.adds 7 0 5 fresh_combiner refl (Reach.constructs Reach.start))))

delete_agent-total_example :
    (w' : Agents ℕ) × (delete_agent plus 0 0 7 0 reused ≡ some w')
    × ((w'.agent 7 0).combiner ≡ none)
delete_agent-total_example = delete_agent-total plus 0 0 reused-Reach 7 0

combine_threads-total_example :
    (combine_threads plus 0 0 0 0 reused.agent (7 ∷ []) ≡ total plus 0 (3 ∷ []))
    × ((reset_all_agents plus 0 0 1 used_combiner reused).0 ≡ total plus 0 (3 ∷ []))
unfolding construct add_value get_or_create_tls_agent create_new_agent destroy destroy_agent
    store_all
combine_threads-total_example =
    combine_threads-total plus 0 0 plus-IsCommutativeMonoid reused-Reach 1 used_combiner refl

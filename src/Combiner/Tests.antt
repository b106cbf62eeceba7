-- ===== src/Combiner/Tests.antt =====
-- A sum over two threads.
use contention_prof.Base.{ℕ, ◌+◌, ◌≡◌, refl, [], ◌∷◌, arith}
use contention_prof.Combiner.{
  AgentCombiner, IsCommutativeMonoid, new_combiner, add_value, commit_and_erase, combine_agents,
  reset_all_agents, Reach,
}
use contention_prof.Combiner.Conserve.{total, Reach-total}

abbrev pub plus : ℕ → ℕ → ℕ
plus a b = a + b

pub plus-IsCommutativeMonoid : IsCommutativeMonoid plus 0
plus-IsCommutativeMonoid = record {
  assoc = λ a b c. omega arith;
  comm = λ a b. omega arith;
  unit = λ a. omega arith;
}

-- thread 1 adds 5 and 7 and exits, thread 2 adds 20
abbrev two_threads : AgentCombiner ℕ
two_threads =
    commit_and_erase plus 0 1
      (add_value plus 0 1 7 (add_value plus 0 2 20 (add_value plus 0 1 5 (new_combiner plus 0))))

two_threads-Reach : Reach plus 0 (7 ∷ 20 ∷ 5 ∷ []) two_threads
two_threads-Reach = Reach.exits 1 (Reach.adds 1 7 (Reach.adds 2 20 (Reach.adds 1 5 Reach.start)))

two_threads_global : two_threads.global_result ≡ 12
unfolding commit_and_erase add_value new_combiner
two_threads_global = refl

Reach-total_example :
    let (result, t) = reset_all_agents plus 0 two_threads in
    (combine_agents plus 0 two_threads ≡ total plus 0 (7 ∷ 20 ∷ 5 ∷ []))
    × (result ≡ total plus 0 (7 ∷ 20 ∷ 5 ∷ []))
    × (combine_agents plus 0 t ≡ 0)
Reach-total_example = Reach-total plus 0 plus-IsCommutativeMonoid two_threads-Reach

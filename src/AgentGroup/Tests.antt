-- ===== src/AgentGroup/Tests.antt =====
-- Ids and blocks of one thread.
use contention_prof.Base.{ℕ, [], ◌∷◌, ◌+◌, ◌-◌, ◌≡◌, ◌==◌, refl, ltb, arith, none, some}
use contention_prof.AgentGroup.{
  IdTable, create_new_agent, destroy_agent, TlsBlocks, AgentAddress, get_tls_agent,
  get_or_create_tls_agent, grow,
}
use contention_prof.AgentGroup.Apart.{get_all, get_all-agents}
use contention_prof.AgentGroup.Blocks.{get_or_create_tls_agent_lem}
use contention_prof.AgentGroup.Ids.{no_ids, one_if, occurrences, Reach, Reach-once}

-- two agents are created, the first is destroyed
abbrev after_three : IdTable
after_three = (destroy_agent 0 (create_new_agent (create_new_agent no_ids).1).1).1

first_id_again : (create_new_agent after_three).0 ≡ 0
unfolding create_new_agent destroy_agent
first_id_again = refl

after_three-Reach : Reach (λ x. 0 + one_if (x == 0) + one_if (x == 1) - one_if (x == 0)) after_three
unfolding create_new_agent destroy_agent
after_three-Reach = Reach.destroys 0 (omega arith) (Reach.creates (Reach.creates Reach.start))

Reach-once_example :
    0 + one_if (1 == 0) + one_if (1 == 1) - one_if (1 == 0) + occurrences 1 after_three.free_ids
    ≡ one_if (ltb 1 after_three.agent_kinds)
Reach-once_example = Reach-once after_three-Reach 1

abbrev new_thread : TlsBlocks
new_thread = record { blocks = none; made = 0 }

-- agent 90 of blocks of 40 is the eleventh of its block
agent_90 : (get_or_create_tls_agent 40 90 new_thread).0 ≡ some (record { block = 0; offset = 10 })
unfolding get_or_create_tls_agent grow
agent_90 = refl

get_or_create_tls_agent_lem_example :
    let (agent, s') = get_or_create_tls_agent 40 90 new_thread in
    (a : AgentAddress) × (agent ≡ some a) × (get_tls_agent 40 90 s' ≡ some a)
get_or_create_tls_agent_lem_example = get_or_create_tls_agent_lem 40 90 new_thread

get_all-agents_example :
    let s = get_all 40 (90 ∷ 3 ∷ []) new_thread in
    ((i j : ℕ) (a : AgentAddress)
      → get_tls_agent 40 i s ≡ some a
      → get_tls_agent 40 j s ≡ some a
      → i ≡ j)
    × ((id : ℕ)
        → let (agent, s') = get_or_create_tls_agent 40 id s in
          (a : AgentAddress) × (agent ≡ some a)
          × (get_tls_agent 40 id (get_all 40 (7 ∷ []) s') ≡ some a))
get_all-agents_example = get_all-agents 40 (90 ∷ 3 ∷ []) (7 ∷ [])

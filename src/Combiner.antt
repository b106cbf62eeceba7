-- ===== src/Combiner.antt =====
-- src/common/combiner.h and the `Reducer` of src/common/reducer.h: one value for each thread, which
-- is combined on demand. A call holds the locks of what it reads and writes, so it is one step.
-- The operator is an argument. An agent is known by its thread.
use contention_prof.Base.{
  ℕ, zero, suc, ◌+◌, ◌≡◌, Bool, true, false, List, [], ◌∷◌, ◌==◌, if◌then◌else◌,
}
pub mod Conserve
pub mod Lifetime
mod Tests

-- `Agent`, linked into the list of its combiner
pub record Agent {ℓ} (A : Type ℓ) : Type ℓ where
  pub thread : ℕ
  pub element : A

-- `AgentCombiner`: the fields that change, and the list of agents from head to tail
pub record AgentCombiner {ℓ} (A : Type ℓ) : Type ℓ where
  pub global_result : A
  pub agents : List (Agent A)

-- the laws of the operator and its identity that the callers rely on
pub record IsCommutativeMonoid {ℓ} {A : Type ℓ} (op : A → A → A) (identity : A) : Type ℓ where
  pub assoc : (a b c : A) → op (op a b) c ≡ op a (op b c)
  pub comm : (a b : A) → op a b ≡ op b a
  pub unit : (a : A) → op a identity ≡ a

module _ {ℓ} {A : Type ℓ} (op : A → A → A) (identity : A) where
  -- the constructor
  unfoldable pub new_combiner : AgentCombiner A
  new_combiner = record { global_result = identity; agents = [] }

  -- the loop of `combine_agents`
  unfoldable pub combine_from : A → List (Agent A) → A
  combine_from ret [] = ret
  combine_from ret (a ∷ l) = combine_from (op ret a.element) l

  unfoldable pub combine_agents : AgentCombiner A → A
  unfolding combine_from
  combine_agents s = combine_from s.global_result s.agents

  -- what the loop of `reset_all_agents` leaves of the agents
  unfoldable pub exchange_all : List (Agent A) → List (Agent A)
  exchange_all [] = []
  exchange_all (a ∷ l) = record a { element = identity } ∷ exchange_all l

  unfoldable pub reset_all_agents : AgentCombiner A → A × AgentCombiner A
  unfolding combine_from exchange_all
  reset_all_agents s = (
    combine_from s.global_result s.agents,
    record { global_result = identity; agents = exchange_all s.agents },
  )

  -- `agent->combiner`: whether the agent of the thread is in the list
  unfoldable pub has_agent : ℕ → List (Agent A) → Bool
  has_agent thread [] = false
  has_agent thread (a ∷ l) = if a.thread == thread then true else has_agent thread l

  -- `agents_.Append(agent)`
  abbrev append : List (Agent A) → Agent A → List (Agent A)
  append [] x = x ∷ []
  append (a ∷ l) x = a ∷ append l x

  unfoldable pub get_or_create_tls_agent : ℕ → AgentCombiner A → AgentCombiner A
  unfolding has_agent
  get_or_create_tls_agent thread s =
      if has_agent thread s.agents
      then s
      else record s { agents = append s.agents (record { thread = thread; element = identity }) }

  -- `agent->element.modify(op, value)` on the agent of a thread
  unfoldable pub modify_in : ℕ → A → List (Agent A) → List (Agent A)
  modify_in thread value [] = []
  modify_in thread value (a ∷ l) =
      let rest = modify_in thread value l in
      if a.thread == thread then record a { element = op a.element value } ∷ l else a ∷ rest

  -- `Reducer::operator<<`
  unfoldable pub add_value : ℕ → A → AgentCombiner A → AgentCombiner A
  unfolding get_or_create_tls_agent modify_in
  add_value thread value s =
      let t = get_or_create_tls_agent thread s in
      record t { agents = modify_in thread value t.agents }

  -- the list without the agent of a thread
  unfoldable pub remove_agent : ℕ → List (Agent A) → List (Agent A)
  remove_agent thread [] = []
  remove_agent thread (a ∷ l) =
      let rest = remove_agent thread l in if a.thread == thread then l else a ∷ rest

  -- the value of the agent of a thread; the identity stands for an agent that is not there
  unfoldable pub element_of : ℕ → List (Agent A) → A
  element_of thread [] = identity
  element_of thread (a ∷ l) =
      let rest = element_of thread l in if a.thread == thread then a.element else rest

  -- `commit_and_erase`, which the destructor of a linked agent calls
  unfoldable pub commit_and_erase : ℕ → AgentCombiner A → AgentCombiner A
  unfolding has_agent element_of remove_agent
  commit_and_erase thread s =
      if has_agent thread s.agents
      then record {
        global_result = op s.global_result (element_of thread s.agents);
        agents = remove_agent thread s.agents;
      }
      else s

  -- What has happened to a combiner, with the values added since the last reset, the latest first.
  pub data Reach : List A → AgentCombiner A → Type ℓ where
    start : Reach [] new_combiner
    adds :
        {vs : List A} {s : AgentCombiner A} (thread : ℕ) (value : A)
        → Reach vs s
        → Reach (value ∷ vs) (add_value thread value s)
    exits :
        {vs : List A} {s : AgentCombiner A} (thread : ℕ)
        → Reach vs s
        → Reach vs (commit_and_erase thread s)
    resets : {vs : List A} {s : AgentCombiner A} → Reach vs s → Reach [] (reset_all_agents s).1

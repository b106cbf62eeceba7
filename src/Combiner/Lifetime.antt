-- ===== src/Combiner/Lifetime.antt =====
-- src/common/combiner.h with the ids of src/common/agent_group.h: combiners that are constructed and
-- destroyed while threads have agents, so that an id is used again. A combiner is the number of its
-- construction. Each thread has an agent for each id, which an id finds again when it is reused. A
-- call holds the locks of what it reads and writes, so it is one step.
use contention_prof.Base.{
  ℕ, zero, suc, ◌+◌, ◌≡◌, Bool, true, false, List, [], ◌∷◌, ◌++◌, Option, none, some, ◌==◌, ◌&&◌,
  if◌then◌else◌,
}
use contention_prof.AgentGroup.{IdTable, create_new_agent, destroy_agent}
use contention_prof.AgentGroup.Ids.{no_ids}
pub mod Lists
pub mod Steps
pub mod Adds
pub mod Clears
pub mod Creates
pub mod Refine
mod Tests

-- `Agent`: its combiner, if the pointer is not null, and `value_` of its element
pub record TlsAgent {ℓ} (A : Type ℓ) : Type ℓ where
  pub combiner : Option ℕ
  pub element : A

-- `AgentCombiner`: `id_`, `global_result_`, and the threads of `agents_` from head to tail
pub record LiveCombiner {ℓ} (A : Type ℓ) : Type ℓ where
  pub id : ℕ
  pub global_result : A
  pub threads : List ℕ

-- the ids, the combiners, how many were constructed, and the agent of each thread for each id
pub record Agents {ℓ} (A : Type ℓ) : Type ℓ where
  pub ids : IdTable
  pub combiners : ℕ → Option (LiveCombiner A)
  pub made : ℕ
  pub agent : ℕ → ℕ → TlsAgent A

-- the list without the node of a thread, for `remove_from_list`
unfoldable pub without : ℕ → List ℕ → List ℕ
without thread [] = []
without thread (t ∷ l) = let rest = without thread l in if t == thread then l else t ∷ rest

module _ {ℓ} {A : Type ℓ} where
  abbrev pub put_combiner :
      ℕ → Option (LiveCombiner A) → (ℕ → Option (LiveCombiner A)) → ℕ → Option (LiveCombiner A)
  put_combiner c new combiners d = if d == c then new else combiners d

  abbrev pub put_agent : (thread id : ℕ) → TlsAgent A → (ℕ → ℕ → TlsAgent A) → ℕ → ℕ → TlsAgent A
  put_agent thread id new agent t i = if t == thread && i == id then new else agent t i

-- `default` is `ElementTp()`
module _ {ℓ} {A : Type ℓ} (op : A → A → A) (identity default : A) where
  abbrev pub no_combiners : Agents A
  no_combiners = record {
    ids = no_ids;
    combiners = λ c. none;
    made = 0;
    agent = λ t id. record { combiner = none; element = default };
  }

  -- the constructor
  unfoldable pub construct : Agents A → Agents A
  construct w =
      let (id, ids) = create_new_agent w.ids in
      let c : LiveCombiner A = record { id = id; global_result = identity; threads = [] } in
      record w {
        ids = ids;
        combiners = put_combiner w.made (some c) w.combiners;
        made = w.made + 1;
      }

  -- `get_or_create_tls_agent` of the combiner `c`, whose agent is in the thread's table
  unfoldable pub get_or_create_tls_agent : (thread c : ℕ) → LiveCombiner A → Agents A → Agents A
  get_or_create_tls_agent thread c s w = elim (w.agent thread s.id).combiner [
    | some _ ↦ w
    | none ↦ record w {
      combiners =
          put_combiner c (some (record s { threads = s.threads ++ (thread ∷ []) })) w.combiners;
      agent = put_agent thread s.id (record { combiner = some c; element = identity }) w.agent;
    }
  ]

  -- `Reducer::operator<<`
  unfoldable pub add_value : (thread c : ℕ) → A → LiveCombiner A → Agents A → Agents A
  unfolding get_or_create_tls_agent
  add_value thread c value s w =
      let w' = get_or_create_tls_agent thread c s w in
      let a = w'.agent thread s.id in
      record w' {
        agent = put_agent thread s.id (record a { element = op a.element value }) w'.agent;
      }

  -- the loop of `combine_agents`
  unfoldable pub combine_threads : A → (id : ℕ) → (ℕ → ℕ → TlsAgent A) → List ℕ → A
  combine_threads ret id agent [] = ret
  combine_threads ret id agent (t ∷ l) = combine_threads (op ret (agent t id).element) id agent l

  -- what the loops of `reset_all_agents` and `clear_all_agents` leave of the agents
  unfoldable pub store_all :
      (TlsAgent A → TlsAgent A) → (id : ℕ) → List ℕ → (ℕ → ℕ → TlsAgent A) → ℕ → ℕ → TlsAgent A
  store_all f id [] agent = agent
  store_all f id (t ∷ l) agent = store_all f id l (put_agent t id (f (agent t id)) agent)

  -- `reset_all_agents`
  unfoldable pub reset_all_agents : (c : ℕ) → LiveCombiner A → Agents A → A × Agents A
  unfolding combine_threads store_all
  reset_all_agents c s w = (
    combine_threads s.global_result s.id w.agent s.threads,
    record w {
      combiners = put_combiner c (some (record s { global_result = identity })) w.combiners;
      agent = store_all (λ a. record a { element = identity }) s.id s.threads w.agent;
    },
  )

  -- the destructor: `clear_all_agents` and `destroy_agent`
  unfoldable pub destroy : (c : ℕ) → LiveCombiner A → Agents A → Agents A
  unfolding store_all
  destroy c s w = record w {
    ids = (destroy_agent s.id w.ids).1;
    combiners = put_combiner c none w.combiners;
    agent = store_all (λ a. record { combiner = none; element = default }) s.id s.threads w.agent;
  }

  -- The destructor of an agent at the end of its thread, with `commit_and_erase` of its combiner.
  -- `none`: the combiner was destroyed.
  unfoldable pub delete_agent : (thread id : ℕ) → Agents A → Option (Agents A)
  unfolding without
  delete_agent thread id w = elim (w.agent thread id).combiner [
    | none ↦ some w
    | some c ↦ elim (w.combiners c) [
      | none ↦ none
      | some s ↦ some (record w {
        combiners =
            put_combiner c
              (some (record s {
                global_result = op s.global_result (w.agent thread id).element;
                threads = without thread s.threads;
              }))
              w.combiners;
        agent = put_agent thread id (record (w.agent thread id) { combiner = none }) w.agent;
      })
    ]
  ]

  -- What has happened, with the values added to each combiner since its construction or its last
  -- reset, the latest first.
  pub data Reach : (ℕ → List A) → Agents A → Type ℓ where
    start : Reach (λ c. []) no_combiners
    constructs : {vs : ℕ → List A} {w : Agents A} → Reach vs w → Reach vs (construct w)
    adds :
        {vs : ℕ → List A} {w : Agents A} (thread c : ℕ) (value : A) (s : LiveCombiner A)
        → w.combiners c ≡ some s
        → Reach vs w
        → Reach (λ d. if d == c then value ∷ vs d else vs d) (add_value thread c value s w)
    resets :
        {vs : ℕ → List A} {w : Agents A} (c : ℕ) (s : LiveCombiner A)
        → w.combiners c ≡ some s
        → Reach vs w
        → Reach (λ d. if d == c then [] else vs d) (reset_all_agents c s w).1
    destroys :
        {vs : ℕ → List A} {w : Agents A} (c : ℕ) (s : LiveCombiner A)
        → w.combiners c ≡ some s
        → Reach vs w
        → Reach vs (destroy c s w)
    exits :
        {vs : ℕ → List A} {w w' : Agents A} (thread id : ℕ)
        → delete_agent thread id w ≡ some w'
        → Reach vs w
        → Reach vs w'

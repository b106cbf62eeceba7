-- ===== src/Reducer.antt =====
-- src/common/reducer.h: a combiner and the sampler of its value. The operator, the identity and the
-- inverse operator (none for `VoidOp`) are arguments, as are memory and the clock.
-- `series_sampler_` is never set in the sources, so it is NULL.
use contention_prof.Base.{
  ℕ, suc, ◌+◌, ◌≡◌, Bool, true, false, List, [], ◌∷◌, ◌++◌, Option, none, some, Outcome, ok, fault,
  spin, ◌>>=◌, map, reverse,
}
use contention_prof.Base.Int.{ℤ}
use contention_prof.BoundedQueue.{default_queue}
use contention_prof.Combiner
use contention_prof.Combiner.{
  AgentCombiner, new_combiner, combine_agents, reset_all_agents, add_value, commit_and_erase,
}
use contention_prof.Sampler.{ReducerSampler, take_sample, set_window_size}
use contention_prof.Sampler.Window.{get_value}
pub mod Latest
pub mod Windows
pub mod Total
mod Tests

-- `Reducer`
pub record Reducer (A : Type 0) : Type 0 where
  pub combiner : AgentCombiner A
  pub sampler : Option (ReducerSampler A)

module _ {A : Type 0} (op : A → A → A) (identity : A) (inv_op : Option (A → A → A)) where
  -- the constructor
  unfoldable pub new_reducer : Reducer A
  unfolding new_combiner
  new_reducer = record { combiner = new_combiner op identity; sampler = none }

  -- `get_value`
  unfoldable pub value_of : Reducer A → A
  unfolding combine_agents
  value_of r = combine_agents op identity r.combiner

  -- `reset`
  unfoldable pub reset : Reducer A → A × Reducer A
  unfolding reset_all_agents
  reset r =
      let (result, c) = reset_all_agents op identity r.combiner in
      (result, record r { combiner = c })

  -- `operator<<` of a thread
  unfoldable pub add : ℕ → A → Reducer A → Reducer A
  unfolding add_value
  add thread value r = record r { combiner = add_value op identity thread value r.combiner }

  -- What a sample reads: the value, which is taken out when there is no inverse operator.
  unfoldable pub read_sample : Reducer A → A × Reducer A
  unfolding reset value_of
  read_sample r = elim inv_op [ none ↦ reset r | some inverse ↦ (value_of r, r) ]

  -- `take_sample` of a sampler of the reducer, with memory to be had
  unfoldable pub sample_once :
      (size_of : ℕ) → ℤ → ReducerSampler A → Reducer A → Outcome (ReducerSampler A × Reducer A)
  unfolding read_sample take_sample
  sample_once size_of now s r =
      let (value, r') = read_sample r in
      take_sample true size_of value now s >>= (λ s'. ok (s', r'))

  -- `ReducerSampler(R*)`
  unfoldable pub new_sampler :
      (size_of : ℕ) → ℤ → Reducer A → Outcome (ReducerSampler A × Reducer A)
  unfolding sample_once
  new_sampler size_of now r =
      sample_once size_of now (record { window_size = 1; q = default_queue }) r

  -- `get_sampler`; the new sampler is then scheduled
  unfoldable pub get_sampler :
      (size_of : ℕ) → ℤ → Reducer A → Outcome (ReducerSampler A × Reducer A)
  unfolding new_sampler
  get_sampler size_of now r = elim r.sampler [
    | some s ↦ ok (s, r)
    | none ↦ new_sampler size_of now r >>= (λ (s, r'). ok (s, record r' { sampler = some s }))
  ]

  -- `describe_series`: its result, 1 for a series that is not there
  unfoldable pub describe_series : (has_series : Bool) → ℕ
  describe_series false = 1
  describe_series true = 0

  -- The threads of a reducer whose sampler runs, with the values added since the last sample and
  -- those of each sample before, the latest first. A sample of `size_of` bytes is taken at any time.
  pub data Reach (size_of : ℕ)
      : List A → List (List A) → ReducerSampler A → Reducer A → Type 0 where
    starts :
        {vs : List A} {c : AgentCombiner A} {s : ReducerSampler A} {r : Reducer A} (now : ℤ)
        → Combiner.Reach op identity vs c
        → new_sampler size_of now (record { combiner = c; sampler = none }) ≡ ok (s, r)
        → Reach size_of [] (vs ∷ []) s r
    adds :
        {vs : List A} {past : List (List A)} {s : ReducerSampler A} {r : Reducer A} (thread : ℕ)
        (value : A)
        → Reach size_of vs past s r
        → Reach size_of (value ∷ vs) past s (add thread value r)
    exits :
        {vs : List A} {past : List (List A)} {s : ReducerSampler A} {r : Reducer A} (thread : ℕ)
        → Reach size_of vs past s r
        → Reach size_of vs past s
            (record r { combiner = commit_and_erase op identity thread r.combiner })
    widens :
        {vs : List A} {past : List (List A)} {s : ReducerSampler A} {r : Reducer A} (window : ℕ)
        → Reach size_of vs past s r
        → Reach size_of vs past (set_window_size window s).1 r
    samples :
        {vs : List A} {past : List (List A)} {s s' : ReducerSampler A} {r r' : Reducer A} (now : ℤ)
        → sample_once size_of now s r ≡ ok (s', r')
        → Reach size_of vs past s r
        → Reach size_of [] (vs ∷ past) s' r'

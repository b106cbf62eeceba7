-- ===== src/Reducer/Tests.antt =====
-- A sum whose values are put into two samples.
use contention_prof.Base.{
  ℕ, ◌+◌, ◌-◌, ◌≡◌, refl, List, [], ◌∷◌, Option, none, some, ok, arith, ltb, if◌then◌else◌, take,
}
use contention_prof.Base.Int.{pos}
use contention_prof.BoundedQueue.{
  StorageOwnership, pop_into, elim_push, from_storage, mod_cap, construct,
}
use contention_prof.Combiner
use contention_prof.Combiner.{
  AgentCombiner, IsCommutativeMonoid, new_combiner, add_value, exchange_all,
}
use contention_prof.Combiner.Conserve.{total}
use contention_prof.Sampler.{Sample, ReducerSampler}
use contention_prof.Sampler.Window.{get_value}
use contention_prof.Reducer.{Reducer, add, read_sample, new_sampler, sample_once, Reach}
use contention_prof.Reducer.Windows.{concat}
use contention_prof.Reducer.Total.{get_value-total}

abbrev plus : ℕ → ℕ → ℕ
plus a b = a + b

plus-IsCommutativeMonoid : IsCommutativeMonoid plus 0
plus-IsCommutativeMonoid = record {
  assoc = λ a b c. omega arith;
  comm = λ a b. omega arith;
  unit = λ a. omega arith;
}

abbrev sample : ℕ → ℕ → Sample ℕ
sample value time = record { data_value = value; time_us = pos time }

abbrev sampler : (count cap : ℕ) → List (Option (Sample ℕ)) → ReducerSampler ℕ
sampler count cap l = record {
  window_size = 1;
  q = record {
    count = count;
    cap = cap;
    start = 0;
    ownership = StorageOwnership.owns_storage;
    items = some l;
  };
}

abbrev reducer : AgentCombiner ℕ → Reducer ℕ
reducer c = record { combiner = c; sampler = none }

abbrev started : Reducer ℕ
started = reducer (new_combiner plus 0)

-- threads 1 and 2 add 5 and 7
abbrev two_values : Reducer ℕ
two_values = add plus 0 none 2 7 (add plus 0 none 1 5 started)

abbrev values_taken : Reducer ℕ
values_taken = (read_sample plus 0 none two_values).1

first_sample :
    new_sampler plus 0 none 16 (pos 1) started
    ≡ ok (sampler 1 2 (some (sample 0 1) ∷ none ∷ []), started)
unfolding new_sampler new_combiner pop_into elim_push from_storage mod_cap construct
first_sample = refl

second_sample :
    sample_once plus 0 none 16 (pos 3) (sampler 1 2 (some (sample 0 1) ∷ none ∷ [])) two_values
    ≡ ok (sampler 2 2 (some (sample 0 1) ∷ some (sample 12 3) ∷ []), values_taken)
unfolding sample_once new_combiner add elim_push mod_cap construct exchange_all add_value
    read_sample
second_sample = refl

two_values-Reach :
    Reach plus 0 none 16
      (7 ∷ 5 ∷ [])
      ([] ∷ [])
      (sampler 1 2 (some (sample 0 1) ∷ none ∷ []))
      two_values
two_values-Reach =
    Reach.adds 2 7 (Reach.adds 1 5 (Reach.starts (pos 1) Combiner.Reach.start first_sample))

sampled-Reach :
    Reach plus 0 none 16 []
      ((7 ∷ 5 ∷ []) ∷ [] ∷ [])
      (sampler 2 2 (some (sample 0 1) ∷ some (sample 12 3) ∷ []))
      values_taken
sampled-Reach = Reach.samples (pos 3) second_sample two_values-Reach

get_value-total_example :
    let s = sampler 2 2 (some (sample 0 1) ∷ some (sample 12 3) ∷ []) in
    let k = if ltb 1 s.q.count then 1 else s.q.count - 1 in
    (sample : Sample ℕ) × (get_value plus none 1 s ≡ ok (some sample))
    × (sample.data_value ≡ total plus 0 (concat (take k ((7 ∷ 5 ∷ []) ∷ [] ∷ []))))
get_value-total_example =
    get_value-total plus 0 none plus-IsCommutativeMonoid 1 tt (omega arith) sampled-Reach
      (omega arith) (omega arith)

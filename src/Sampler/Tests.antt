-- ===== src/Sampler/Tests.antt =====
-- The first two samples of a reducer.
use contention_prof.Base.{
  ℕ, ◌+◌, ◌-◌, ◌≤◌, ◌≡◌, refl, none, some, ok, [], ◌∷◌, true, false, arith, get_elem?, ◌<◌, zero,
  suc,
}
use contention_prof.Base.Int.{pos, ◌-ℤ◌}
use contention_prof.BoundedQueue.{BoundedQueue, StorageOwnership, slots}
use contention_prof.BoundedQueue.Wrap.{slot}
use contention_prof.BoundedQueue.Deque
use contention_prof.BoundedQueue.View.{IsQueue}
use contention_prof.Sampler.{Sample, ReducerSampler, take_sample, set_window_size}
use contention_prof.Sampler.Window.{get_value}
use contention_prof.Sampler.Window.Value.{get_value_lem}
use contention_prof.Sampler.Grow.{take_sample_lem}

abbrev sample : ℕ → ℕ → Sample ℕ
sample value time = record { data_value = value; time_us = pos time }

-- a sampler whose queue holds one sample in two slots, after a window of 3 was asked for
abbrev small : BoundedQueue (Sample ℕ)
small = record {
  count = 1;
  cap = 2;
  start = 0;
  ownership = StorageOwnership.owns_storage;
  items = some (some (sample 5 100) ∷ none ∷ []);
}

abbrev wider : ReducerSampler ℕ
wider = record { window_size = 3; q = small }

too_wide : (set_window_size 3601 wider).0 ≡ false
unfolding set_window_size
too_wide = refl

small-IsQueue : IsQueue small (sample 5 100 ∷ [])
small-IsQueue = record {
  counted = refl;
  fits = omega arith;
  small = omega arith;
  start_in = omega arith;
  storage = omega arith;
  holds = λ i lt. places i lt;
}
  where
    places :
        (i : ℕ)
        → i < 1
        → get_elem? (slots small) (slot 2 0 i) ≡ some (get_elem? (sample 5 100 ∷ []) i)
    places zero h = refl
    places (suc i) h = absurd (omega arith)

take_sample_lem_example :
    (s' : ReducerSampler ℕ) × (take_sample true 24 9 (pos 200) wider ≡ ok s')
    × (s'.window_size ≡ 3)
    × (3 + 1 ≤ s'.q.cap)
    × IsQueue s'.q (Deque.elim_push s'.q.cap (sample 5 100 ∷ []) (sample 9 200))
take_sample_lem_example =
    take_sample_lem 24 9 (pos 200) wider (sample 5 100 ∷ []) small-IsQueue (omega arith)
      (omega arith)

-- a sampler that holds two samples
abbrev two_samples : ReducerSampler ℕ
two_samples = record {
  window_size = 1;
  q = record {
    count = 2;
    cap = 2;
    start = 1;
    ownership = StorageOwnership.owns_storage;
    items = some (some (sample 9 200) ∷ some (sample 5 100) ∷ []);
  };
}

two_samples-IsQueue : IsQueue two_samples.q (sample 5 100 ∷ sample 9 200 ∷ [])
two_samples-IsQueue = record {
  counted = refl;
  fits = omega arith;
  small = omega arith;
  start_in = omega arith;
  storage = omega arith;
  holds = λ i lt. places i lt;
}
  where
    places :
        (i : ℕ)
        → i < 2
        → get_elem? (slots two_samples.q) (slot 2 1 i)
          ≡ some (get_elem? (sample 5 100 ∷ sample 9 200 ∷ []) i)
    places zero h = refl
    places (suc zero) h = refl
    places (suc (suc i)) h = absurd (omega arith)

get_value_lem_example :
    (oldest : Sample ℕ) × (get_elem? (sample 9 200 ∷ sample 5 100 ∷ []) 1 ≡ some oldest)
    × (get_value (λ a b. a + b) none 7 two_samples
        ≡ ok (some (record { data_value = 9; time_us = pos 200 -ℤ oldest.time_us })))
    × (get_value (λ a b. a + b) (some (λ a b. a - b)) 7 two_samples
        ≡ ok (
            some
              (record { data_value = 9 - oldest.data_value; time_us = pos 200 -ℤ oldest.time_us })))
get_value_lem_example =
    get_value_lem 7 two_samples (sample 9 200) (sample 5 100 ∷ []) two_samples-IsQueue (omega arith)
      (omega arith) (λ a b. a + b) (λ a b. a - b)

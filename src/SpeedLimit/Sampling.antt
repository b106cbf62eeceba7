-- ===== src/SpeedLimit/Sampling.antt =====
-- Which events `is_collectable` samples.
use contention_prof.Base.{
  ℕ, zero, suc, ◌+◌, ◌%◌, ◌^◌, ◌≤◌, ◌<◌, ◌≡◌, refl, ◌∙◌, ap, true, false, arith, ltb, leb, ◌==◌,
  if◌then◌else◌, List, [], ◌∷◌, length,
}
use contention_prof.Base.Int.{pos}
use contention_prof.SpeedLimit.{
  SpeedLimit, initial, sampling_base, is_collectable, is_collectable_before_first_time_grabbed,
}
use contention_prof.SpeedLimit.Range.{IsValid}

module _ (expected monotonic_us : ℕ) (sl : SpeedLimit) where
  -- how many of the random words 0, …, n - 1 are sampled
  pub accepted : ℕ → ℕ
  accepted zero = 0
  accepted (suc n) =
      accepted n + (if (is_collectable expected monotonic_us n sl).range == 0 then 0 else 1)

  accepted_below :
      (n : ℕ)
      → sl.ever_grabbed ≡ true
      → IsValid sl
      → n ≤ sampling_base
      → accepted n ≡ (if ltb n sl.sampling_range then n else sl.sampling_range)
  unfolding is_collectable accepted
  accepted_below zero grabbed v h = ground (arith, v.above_zero)
  accepted_below (suc n) grabbed v h =
      ground (arith, accepted_below n grabbed v (omega arith), v.above_zero, grabbed)

  -- Once a limit with a range between 1 and the base was grabbed, exactly sampling_range of the
  -- 16384 values of the random bits are sampled.
  pub accepted_lem :
      sl.ever_grabbed ≡ true → IsValid sl → accepted sampling_base ≡ sl.sampling_range
  accepted_lem grabbed v = ground (arith, accepted_below sampling_base grabbed v, v.within)

  -- The answer depends on the low 14 bits of the random word alone.
  pub is_collectable-mod :
      (random : ℕ)
      → is_collectable expected monotonic_us random sl
        ≡ is_collectable expected monotonic_us (random % sampling_base) sl
  unfolding is_collectable
  is_collectable-mod random =
      ap
        (λ n.
          if sl.ever_grabbed
          then record {
            range = if leb sl.sampling_range n then 0 else sl.sampling_range;
            limit = sl;
            wakes = false;
          }
          else is_collectable_before_first_time_grabbed expected monotonic_us sl)
        (omega arith)

-- The limit after events at the given times, none of them after a grab.
pub calls : (expected : ℕ) → List ℕ → SpeedLimit → SpeedLimit
calls expected [] sl = sl
calls expected (t ∷ ts) sl = calls expected ts (is_collectable expected t 0 sl).limit

calls_later :
    (expected : ℕ) (ts : List ℕ) (sl : SpeedLimit) (n : ℕ)
    → sl.ever_grabbed ≡ false
    → sl.count_before_grabbed ≡ n
    → 0 < n
    → n + length ts < 2 ^ 32
    → calls expected ts sl ≡ record sl { count_before_grabbed = n + length ts }
unfolding calls is_collectable is_collectable_before_first_time_grabbed
calls_later expected [] sl n fresh count some_before small = ground arith
calls_later expected (t ∷ ts) sl n fresh count some_before small =
    let next = record sl { count_before_grabbed = n + 1 } in
    let now : (is_collectable expected t 0 sl).limit ≡ next = ground (arith) in
    ap (calls expected ts) now
    ∙ calls_later expected ts next (n + 1) fresh refl (omega arith) (omega arith)
    ∙ ap (λ k. record sl { count_before_grabbed = k }) (omega arith)

-- Events before the first grab, fewer than 2 ^ 32 of them, are counted, the time of the first is
-- kept and the range stays the base.
pub calls_before_grab :
    (expected t : ℕ) (ts : List ℕ)
    → length ts + 1 < 2 ^ 32
    → calls expected (t ∷ ts) initial
      ≡ record initial { count_before_grabbed = 1 + length ts; first_sample_real_us = pos t }
unfolding calls is_collectable is_collectable_before_first_time_grabbed
calls_before_grab expected t ts small =
    calls_later expected ts
      (record initial { count_before_grabbed = 1; first_sample_real_us = pos t }) 1 refl refl
      (omega arith) (omega arith)

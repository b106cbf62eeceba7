-- ===== src/SpeedLimit/Tests.antt =====
-- The rate control at concrete rounds.
use contention_prof.Base.{◌≤◌, ◌≡◌, ◌≢◌, refl, true, arith, [], ◌∷◌, ◌⊎◌, sub64}
use contention_prof.Base.Int.{pos, ◌-ℤ◌}
use contention_prof.SpeedLimit.{
  SpeedLimit, initial, sampling_base, update_speed_limit, next_range, first_range, clamp_range,
}
use contention_prof.SpeedLimit.Range.{
  IsValid, update_speed_limit_cases, next_range_between, next_range_steady,
}
use contention_prof.SpeedLimit.Sampling.{accepted, accepted_lem, calls, calls_before_grab}

-- sampled at a quarter, after a first grab
abbrev quarter : SpeedLimit
quarter = record {
  sampling_range = 4096;
  ever_grabbed = true;
  count_before_grabbed = 12;
  first_sample_real_us = pos 1000;
}

-- 400 samples in a tenth of a second, where 100 were wanted
busy_round :
    (update_speed_limit 1000 quarter 600 1000 (pos 100_000) (pos 0)).0.sampling_range ≡ 3788
unfolding update_speed_limit next_range clamp_range
busy_round = refl

-- The first sample's time is monotonic and the other clock is the wall clock: the difference is
-- half a century.
first_round_wraps :
    first_range 1000 1
      (pos 100_000)
      (pos 1_700_000_000_000_000)
      (record initial { first_sample_real_us = pos 5_000_000 })
    ≡ 16_663_110_852_286
unfolding first_range ◌-ℤ◌
first_round_wraps = refl

update_speed_limit_cases_example :
    let (sl', last') = update_speed_limit 1000 quarter 600 1000 (pos 100_000) (pos 0) in
    ((sub64 1000 600 ≡ 0) × (sl' ≡ quarter) × (last' ≡ 600))
    ⊎ ((sub64 1000 600 ≢ 0)
        × IsValid sl'
        × (sl'.ever_grabbed ≡ true)
        × (sl'.count_before_grabbed ≡ 12)
        × (sl'.first_sample_real_us ≡ pos 1000)
        × (last' ≡ 1000))
update_speed_limit_cases_example =
    update_speed_limit_cases 1000 quarter 600 1000 (pos 100_000) (pos 0)

next_range_between_example :
    (1024 ≤ next_range 1000 400 100_000 4096) × (next_range 1000 400 100_000 4096 ≤ 4096)
next_range_between_example =
    next_range_between 1000 400 100_000 4096 1024 4096 (omega arith) (omega arith) (omega arith)
      (omega arith) (omega arith) (omega arith) (omega arith) (omega arith) (omega arith)
      (omega arith)

next_range_steady_example : next_range 1000 100 100_000 4096 ≡ 4096
next_range_steady_example =
    next_range_steady 1000 100 100_000 4096 (omega arith) (omega arith) refl (omega arith)
      (omega arith)

quarter-IsValid : IsValid quarter
quarter-IsValid = omega arith

accepted_lem_example : accepted 1000 5 quarter sampling_base ≡ 4096
accepted_lem_example = accepted_lem 1000 5 quarter refl quarter-IsValid

calls_before_grab_example :
    calls 1000 (70 ∷ 80 ∷ 90 ∷ []) initial
    ≡ record initial { count_before_grabbed = 3; first_sample_real_us = pos 70 }
calls_before_grab_example = calls_before_grab 1000 70 (80 ∷ 90 ∷ []) (omega arith)

-- ===== src/SpeedLimit.antt =====
-- src/collector.{h,cpp}: the rate control of the collector. `CollectorSpeedLimit`, the update of
-- its sampling range after each round of the grab thread, and the test whether to sample.
-- The two flags are arguments (`int32` values, not negative). Clock readings and random words are
-- arguments as well. `size_t` products wrap; an `int64_t` is an integer.
pub mod Range
pub mod Sampling
mod Tests
use contention_prof.Base.{
  ℕ, ◌+◌, ◌-◌, ◌*◌, ◌/◌, ◌%◌, ◌^◌, Bool, true, false, ltb, leb, ◌==◌, if◌then◌else◌, not, ◌&&◌, u32,
  u64, sub64,
}
use contention_prof.Base.Int.{ℤ, pos, negsuc, pos_part, neg_part, ◌-ℤ◌, ltb_ℤ}

-- COLLECTOR_SAMPLING_BASE
abbrev pub sampling_base : ℕ
sampling_base = 16384

-- `count_before_grabbed` is the bit pattern of an `int`.
pub record SpeedLimit : Type 0 where
  pub sampling_range : ℕ
  pub ever_grabbed : Bool
  pub count_before_grabbed : ℕ
  pub first_sample_real_us : ℤ

-- The constructor of `CollectorSpeedLimit`.
abbrev pub initial : SpeedLimit
initial = record {
  sampling_range = sampling_base;
  ever_grabbed = false;
  count_before_grabbed = 0;
  first_sample_real_us = pos 0;
}

-- `if (interval_us < 0) interval_us = 0;`
abbrev pub at_least_zero : ℤ → ℕ
at_least_zero a = if ltb_ℤ a (pos 0) then 0 else pos_part a

abbrev pub is_zero : ℤ → Bool
is_zero (pos n) = n == 0
is_zero (negsuc n) = false

-- `expected * interval_us * range / (1000000L * round_grab_count)`
abbrev pub scaled : (expected interval_us range round_grab_count : ℕ) → ℕ
scaled expected interval_us range round_grab_count =
    u64 (u64 (expected * interval_us) * range) / u64 (1000000 * round_grab_count)

-- `new_sampling_range` for a limit that was never grabbed before
unfoldable pub first_range :
    (expected round_grab_count : ℕ) → (interval_us wall_us : ℤ) → SpeedLimit → ℕ
first_range expected round_grab_count interval_us wall_us sl =
    let interval =
      if is_zero sl.first_sample_real_us
      then at_least_zero interval_us
      else at_least_zero (wall_us -ℤ sl.first_sample_real_us) in
    scaled expected interval sampling_base round_grab_count

-- `new_sampling_range` for one that was
unfoldable pub next_range : (expected round_grab_count interval_us old : ℕ) → ℕ
next_range expected round_grab_count interval_us old =
    let target = scaled expected interval_us old round_grab_count in
    if ltb interval_us 1000000
    then u64 (u64 (target * interval_us) + u64 (old * (1000000 - interval_us))) / 1000000
    else target

-- the bounds of the new range
unfoldable pub clamp_range : ℕ → ℕ
clamp_range new = if new == 0 then 1 else if ltb sampling_base new then sampling_base else new

-- `update_speed_limit`: the limit and `*last_grab_count` after the call. `wall_us` is what
-- `gettimeofday_us` returns.
unfoldable pub update_speed_limit :
    (expected : ℕ)
    → SpeedLimit
    → (last_grab_count cur_grab_count : ℕ) → (interval_us wall_us : ℤ) → SpeedLimit × ℕ
update_speed_limit expected sl last_grab_count cur_grab_count interval_us wall_us =
    let round_grab_count = sub64 cur_grab_count last_grab_count in
    if round_grab_count == 0
    then (sl, last_grab_count)
    else (let new = clamp_range (
          if not sl.ever_grabbed
          then first_range expected round_grab_count interval_us wall_us sl
          else next_range expected round_grab_count (at_least_zero interval_us)
              sl.sampling_range) in
        (
          record sl {
            sampling_range = if new == sl.sampling_range then sl.sampling_range else new;
            ever_grabbed = true;
          },
          cur_grab_count,
        ))

pub record Answer : Type 0 where
  pub range : ℕ
  pub limit : SpeedLimit
  pub wakes : Bool

-- `is_collectable_before_first_time_grabbed`: `wakes` says whether it wakes the grab thread, and
-- `monotonic_us` is what `get_monotonic_time_us` returns. The comparison with the flag is signed.
unfoldable pub is_collectable_before_first_time_grabbed :
    (expected monotonic_us : ℕ) → SpeedLimit → Answer
is_collectable_before_first_time_grabbed expected monotonic_us sl =
    if sl.ever_grabbed
    then record { range = sl.sampling_range; limit = sl; wakes = false }
    else (let before_add = sl.count_before_grabbed in
        let counted = record sl { count_before_grabbed = u32 (before_add + 1) } in
        if before_add == 0
        then record {
          range = sl.sampling_range;
          limit = record counted { first_sample_real_us = pos monotonic_us };
          wakes = false;
        }
        else record {
          range = sl.sampling_range;
          limit = counted;
          wakes = ltb before_add (2 ^ 31) && leb expected before_add;
        })

-- `is_collectable`: `random` is what `fast_rand` returns, and its low 14 bits are kept.
unfoldable pub is_collectable : (expected monotonic_us random : ℕ) → SpeedLimit → Answer
is_collectable expected monotonic_us random sl =
    if sl.ever_grabbed
    then record {
      range = if leb sl.sampling_range (random % sampling_base) then 0 else sl.sampling_range;
      limit = sl;
      wakes = false;
    }
    else is_collectable_before_first_time_grabbed expected monotonic_us sl

-- ===== src/Timespec.antt =====
-- src/common/time.h: times in seconds and nanoseconds. An `int64_t` is an integer.
use contention_prof.Base.{ℕ, zero, suc, ◌+◌, ◌-◌, ◌*◌, ◌/◌, ◌≡◌, ltb, leb, if◌then◌else◌}
use contention_prof.Base.Int.{ℤ, pos, negsuc, sub_ℕ, ◌+ℤ◌, ◌-ℤ◌}
pub mod Normal
mod Tests

-- `timespec`
pub record Timespec : Type 0 where
  pub tv_sec : ℤ
  pub tv_nsec : ℤ

abbrev pub second : ℕ
second = 1000000000

-- `timespec_normalize` for a given `tv_nsec`. A division of a negative number is cut towards 0, so
-- `(-(n + 1) - 999999999) / 1000000000` is the negative of `(n + 1000000000) / 1000000000`.
abbrev pub normalize_by : ℤ → ℤ → Timespec
normalize_by sec (pos n) =
    if leb second n
    then record { tv_sec = sec +ℤ pos (n / second); tv_nsec = pos n -ℤ pos (n / second * second) }
    else record { tv_sec = sec; tv_nsec = pos n }
normalize_by sec (negsuc n) =
    let back = (n + second) / second in
    record { tv_sec = sec -ℤ pos back; tv_nsec = negsuc n +ℤ pos (back * second) }

unfoldable pub timespec_normalize : Timespec → Timespec
timespec_normalize tm = normalize_by tm.tv_sec tm.tv_nsec

-- `nanoseconds_from`
unfoldable pub nanoseconds_from : Timespec → ℤ → Timespec
unfolding timespec_normalize
nanoseconds_from start_time nanoseconds =
    timespec_normalize (record start_time { tv_nsec = start_time.tv_nsec +ℤ nanoseconds })

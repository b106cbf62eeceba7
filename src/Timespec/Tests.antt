-- ===== src/Timespec/Tests.antt =====
-- Half a second before one second.
use contention_prof.Base.{◌≡◌, refl}
use contention_prof.Base.Int.{pos, negsuc, ◌+ℤ◌, ◌-ℤ◌}
use contention_prof.Timespec.{Timespec, timespec_normalize, nanoseconds_from}
use contention_prof.Timespec.Normal.{IsNormal, IsSameTime, timespec_normalize_lem}

abbrev early : Timespec
early = record { tv_sec = pos 1; tv_nsec = negsuc 499_999_999 }

half : timespec_normalize early ≡ record { tv_sec = pos 0; tv_nsec = pos 500_000_000 }
unfolding timespec_normalize ◌+ℤ◌ ◌-ℤ◌
half = refl

half_later :
    nanoseconds_from early (pos 1_700_000_000)
    ≡ record { tv_sec = pos 2; tv_nsec = pos 200_000_000 }
unfolding nanoseconds_from ◌+ℤ◌ ◌-ℤ◌
half_later = refl

timespec_normalize_lem_example : let n = timespec_normalize early in IsNormal n × IsSameTime n early
timespec_normalize_lem_example = timespec_normalize_lem early

-- ===== src/Series/Tests.antt =====
-- A series of sums.
use contention_prof.Base.{ℕ, ◌+◌, ◌≡◌, refl, List, replicate, length}
use contention_prof.Series.{SeriesBase, append_all, append_second, append_minute, sum_from}
use contention_prof.Series.Cascade.{IsAt, append_all-IsAt}

abbrev plus : ℕ → ℕ → ℕ
plus a b = a + b

abbrev blank : SeriesBase ℕ
blank = record { nsecond = 0; nminute = 0; nhour = 0; nday = 0; data_array = λ i. 0 }

-- a minute of twos
abbrev minute : List ℕ
minute = replicate 60 2

minute_sum : (append_all plus minute blank).data_array 60 ≡ 120
unfolding append_second append_minute sum_from
minute_sum = refl

append_all-IsAt_example : IsAt (0 + length minute) (append_all plus minute blank)
append_all-IsAt_example = append_all-IsAt plus minute blank 0 (refl, refl, refl, refl)

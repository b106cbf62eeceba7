-- ===== src/Collector/Limits/Tests.antt =====
-- A round with one sample whose limit has the address 7.
use contention_prof.Base.{[], ◌∷◌, List}
use contention_prof.Base.Int.{pos}
use contention_prof.SpeedLimit
use contention_prof.Collector
use contention_prof.Collector.{Collected, grab_round}
use contention_prof.Collector.Limits.{Grabber, grab_turn}

abbrev fresh : Grabber
fresh = record {
  groups = [];
  state = Collector.initial;
  limits = record { limits = λ a. SpeedLimit.initial; last_counts = [] };
  last_before_update = pos 0;
}

abbrev one_sample : List Collected
one_sample = record { address = 1; preprocessor = 0; speed_limit = 7 } ∷ []

abbrev after : Grabber
after = grab_turn 99 1000 1000 (λ k l. l) (pos 100_000) (λ a. pos 0) one_sample fresh

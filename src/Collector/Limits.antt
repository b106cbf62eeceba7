-- ===== src/Collector/Limits.antt =====
-- src/collector.cpp: how a round of `grab_thread` ends, the update of the speed limits, and the whole
-- body of its loop but for the sleep.
use contention_prof.Base.{ℕ, ◌==◌, List, [], ◌∷◌, if◌then◌else◌}
use contention_prof.Base.Int.{ℤ, ◌-ℤ◌}
use contention_prof.SpeedLimit.{SpeedLimit, update_speed_limit}
use contention_prof.Collector.{Collected, State, grab_round}
use contention_prof.Collector.Ordered.{Keyed, alter, at}
pub mod Updates
pub mod Counts
mod Tests

-- The limits by their address, and `last_grab_count_map`.
pub record Limits : Type 0 where
  pub limits : ℕ → SpeedLimit
  pub last_counts : Keyed ℕ

-- `update_speed_limit(it->first, &last_grab_count_map[it->first], it->second, interval)`
unfoldable pub update_one :
    (expected : ℕ) (interval_us : ℤ) (wall_us : ℕ → ℤ) → (address count : ℕ) → Limits → Limits
unfolding alter at update_speed_limit
update_one expected interval_us wall_us address count l =
    let (sl, last) =
      update_speed_limit expected (l.limits address) (at address 0 l.last_counts) count interval_us
        (wall_us address) in
    record {
      limits = λ a. if a == address then sl else l.limits a;
      last_counts = alter address 0 (λ _. last) l.last_counts;
    }

-- the loop over `grab_count_map`; `wall_us` is what the clock answers in the update of each limit
unfoldable pub update_all :
    (expected : ℕ) (interval_us : ℤ) (wall_us : ℕ → ℤ) → Keyed ℕ → Limits → Limits
unfolding update_one
update_all expected interval_us wall_us [] l = l
update_all expected interval_us wall_us ((address, count) ∷ m) l =
    update_all expected interval_us wall_us m
      (update_one expected interval_us wall_us address count l)

-- what the loop of the grab thread keeps
pub record Grabber : Type 0 where
  pub groups : Keyed (List Collected)
  pub state : State
  pub limits : Limits
  pub last_before_update : ℤ

-- One round, at the time `now` of the update.
unfoldable pub grab_turn :
    (null_speed_limit max_pending_samples expected : ℕ)
    (process : ℕ → List Collected → List Collected)
    → (now : ℤ) (wall_us : ℕ → ℤ) (head : List Collected) → Grabber
    → Grabber
unfolding grab_round update_all
grab_turn null_speed_limit max_pending_samples expected process now wall_us head g =
    let (groups, state) =
      grab_round null_speed_limit max_pending_samples process head (g.groups, g.state) in
    record {
      groups = groups;
      state = state;
      limits = update_all expected (now -ℤ g.last_before_update) wall_us state.grab_counts g.limits;
      last_before_update = now;
    }

-- ===== src/Collector/Limits/Counts.antt =====
-- The counts of grabbed samples, and the update of the speed limits by them.
use contention_prof.Base.{ℕ, ◌≡◌, ◌≤◌}
use contention_prof.Collector.{State}
use contention_prof.Collector.Ordered.{at}
use contention_prof.Collector.Classify.{IsOrdered}
use contention_prof.Collector.Limits.{Grabber}

-- What the rate control knows after a round.
pub record Settled (g : Grabber) : Type 0 where
  pub ordered : IsOrdered g.state.grab_counts
  pub last_ordered : IsOrdered g.limits.last_counts
  pub seen : (a : ℕ) → at a 0 g.limits.last_counts ≡ at a 0 g.state.grab_counts
  pub counted : (a : ℕ) → at a 0 g.state.grab_counts ≤ g.state.grab_count

-- the counts of a later state
abbrev Grown : State → State → Type 0
Grown s t =
    IsOrdered t.grab_counts
    × ((a : ℕ) → at a 0 s.grab_counts ≤ at a 0 t.grab_counts)
    × ((a : ℕ) → at a 0 t.grab_counts ≤ t.grab_count)

-- ===== src/Collector/Shutdown/Tests.antt =====
-- A destructor that is called before the dump thread locks, and one that is called while it waits.
use contention_prof.Base.{◌≡◌, ◌≤◌, ◌⊎◌, refl, true, false, List, [], ◌∷◌, some, none}
use contention_prof.Collector.Shutdown.{
  Threads, Thread, GrabPoint, DumpPoint, DestructorPoint, Action, constructed, step, run, Reach,
}
use contention_prof.Collector.Shutdown.Locks.{Inv, Reach-Inv, is_called, is_returned}
use contention_prof.Collector.Shutdown.Progress.{is_deadlocked, CanStep}
use contention_prof.Collector.Shutdown.Ends.{run-ends, run-Reach}
use contention_prof.Collector.Shutdown.Deadlock.{deadlock-stuck, returned-owner}

-- the dump thread is behind its test of `stop_` when the destructor is called
abbrev called : Threads
called = record constructed {
  stop = true;
  grab = GrabPoint.testing;
  dump = DumpPoint.locking;
  destructor = DestructorPoint.joining;
}

called-Reach : Reach called
unfolding step
called-Reach =
    Reach.steps Action.destroy refl
      (Reach.steps Action.dump refl (Reach.steps (Action.grab 0) refl Reach.starts))

abbrev to_deadlock : List Action
to_deadlock = Action.dump ∷ Action.dump ∷ Action.dump ∷ Action.grab 0 ∷ []

abbrev deadlocked : Threads
deadlocked = record called {
  owner = some Thread.dumper;
  grab = GrabPoint.last_locking;
  dump = DumpPoint.broken_off;
}

called-deadlocked : run to_deadlock called ≡ some deadlocked
unfolding run
called-deadlocked = refl

run-ends_example :
    (4 ≤ 28)
    × ((is_returned DestructorPoint.joining ≡ true)
        ⊎ (is_deadlocked deadlocked ≡ true)
        ⊎ CanStep deadlocked)
run-ends_example = run-ends to_deadlock called deadlocked called-Reach refl called-deadlocked

deadlocked-Reach : Reach deadlocked
deadlocked-Reach = run-Reach to_deadlock called deadlocked called-deadlocked called-Reach

Reach-Inv_example : Inv deadlocked
Reach-Inv_example = Reach-Inv deadlocked-Reach

deadlock-stuck_example :
    (is_called DestructorPoint.joining ≡ true)
    × (is_returned DestructorPoint.joining ≡ false)
    × ((a : Action) → step a deadlocked ≡ none)
deadlock-stuck_example = deadlock-stuck deadlocked deadlocked-Reach refl

-- the destructor is called while the dump thread waits
abbrev to_return : List Action
to_return =
    Action.grab 0
    ∷ Action.dump
    ∷ Action.dump
    ∷ Action.dump
    ∷ Action.destroy
    ∷ Action.grab 0
    ∷ Action.grab 0
    ∷ Action.grab 0
    ∷ Action.grab 0
    ∷ Action.grab 0
    ∷ Action.dump
    ∷ Action.dump
    ∷ Action.dump
    ∷ Action.grab 0
    ∷ Action.destroy
    ∷ []

abbrev destroyed : Threads
destroyed = record constructed {
  stop = true;
  owner = some Thread.dumper;
  grab = GrabPoint.ended;
  dump = DumpPoint.broken_off;
  destructor = DestructorPoint.returned;
}

constructed-destroyed : run to_return constructed ≡ some destroyed
unfolding run
constructed-destroyed = refl

returned-owner_example :
    (GrabPoint.ended ≡ GrabPoint.ended)
    × (((DumpPoint.broken_off ≡ DumpPoint.ended) × (some Thread.dumper ≡ none))
        ⊎ ((DumpPoint.broken_off ≡ DumpPoint.broken_off)
            × (some Thread.dumper ≡ some Thread.dumper)))
returned-owner_example =
    returned-owner destroyed
      (run-Reach to_return constructed destroyed constructed-destroyed Reach.starts) refl

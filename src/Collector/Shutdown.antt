-- ===== src/Collector/Shutdown.antt =====
-- src/collector.cpp: how the destructor of the collector stops its two threads, with each lock,
-- wait, signal and read of `stop_` as one step. Both threads are created without an error. A wait
-- of `sleep_cond_` ends by itself, by its timeout, so it is one step.
use contention_prof.Base.{
  ℕ, ◌+◌, ◌-◌, ◌≡◌, Bool, true, false, not, ◌&&◌, ◌||◌, List, [], ◌∷◌, Option, none, some, ◌==◌,
  if◌then◌else◌,
}
pub mod Locks
pub mod Rank
pub mod Progress
pub mod Ends
pub mod Deadlock
mod Tests

-- the two threads, as owners of `dump_thread_mutex_`
pub data Thread : Type 0 where
  grabber dumper : Thread

-- Where `grab_thread` is: at its start, the loop's test, the round up to the lock, the lock (with
-- the samples for the other thread), the insertion, the signal, the unlock, the sleep, the same
-- four steps behind the loop, the join, behind it.
pub data GrabPoint : Type 0 where
  starting testing working : GrabPoint
  locking inserting : ℕ → GrabPoint
  signalling unlocking sleeping : GrabPoint
  last_locking last_stopping last_signalling last_unlocking joining ended : GrabPoint

-- Where `dump_thread` is: not created, the outer loop's test, the lock, the inner loop's test, the
-- wait, the lock behind it, the test of `stop_`, the taking of the chain, the unlock, the loop over
-- the chain, behind the outer loop's test, behind the break.
pub data DumpPoint : Type 0 where
  unborn testing locking checking waiting woken deciding taking unlocking dumping ended broken_off :
      DumpPoint

-- where `~Collector` is: not called, the join, behind it
pub data DestructorPoint : Type 0 where
  uncalled joining returned : DestructorPoint

-- `waiting_samples` are those in dump_root_, `taken` those of the dump thread's own chain
pub record Threads : Type 0 where
  pub stop : Bool
  pub owner : Option Thread
  pub waiting_samples : ℕ
  pub taken : ℕ
  pub grab : GrabPoint
  pub dump : DumpPoint
  pub destructor : DestructorPoint

abbrev pub constructed : Threads
constructed = record {
  stop = false;
  owner = none;
  waiting_samples = 0;
  taken = 0;
  grab = GrabPoint.starting;
  dump = DumpPoint.unborn;
  destructor = DestructorPoint.uncalled;
}

-- `pthread_mutex_lock`: no step while a thread has the mutex
abbrev lock : Thread → Threads → Threads → Option Threads
lock me s t = elim s.owner [ none ↦ some (record t { owner = some me }) | some other ↦ none ]

-- `pthread_cond_signal`
abbrev pub signal : DumpPoint → DumpPoint
signal DumpPoint.waiting = DumpPoint.woken
signal d = d

-- `grab_thread`; a round leaves `samples` in the chain for the other thread
abbrev pub grab_at : GrabPoint → (samples : ℕ) → Threads → Option Threads
grab_at GrabPoint.starting n s =
    some (record s { grab = GrabPoint.testing; dump = DumpPoint.testing })
grab_at GrabPoint.testing n s =
    some (record s { grab = if s.stop then GrabPoint.last_locking else GrabPoint.working })
grab_at GrabPoint.working n s =
    some (record s { grab = if n == 0 then GrabPoint.sleeping else GrabPoint.locking n })
grab_at (GrabPoint.locking k) n s =
    lock Thread.grabber s (record s { grab = GrabPoint.inserting k })
grab_at (GrabPoint.inserting k) n s =
    some (record s { waiting_samples = s.waiting_samples + k; grab = GrabPoint.signalling })
grab_at GrabPoint.signalling n s =
    some (record s { dump = signal s.dump; grab = GrabPoint.unlocking })
grab_at GrabPoint.unlocking n s = some (record s { owner = none; grab = GrabPoint.sleeping })
grab_at GrabPoint.sleeping n s = some (record s { grab = GrabPoint.testing })
grab_at GrabPoint.last_locking n s =
    lock Thread.grabber s (record s { grab = GrabPoint.last_stopping })
grab_at GrabPoint.last_stopping n s =
    some (record s { stop = true; grab = GrabPoint.last_signalling })
grab_at GrabPoint.last_signalling n s =
    some (record s { dump = signal s.dump; grab = GrabPoint.last_unlocking })
grab_at GrabPoint.last_unlocking n s = some (record s { owner = none; grab = GrabPoint.joining })
grab_at GrabPoint.joining n s = elim s.dump [
  | DumpPoint.ended ↦ some (record s { grab = GrabPoint.ended })
  | DumpPoint.broken_off ↦ some (record s { grab = GrabPoint.ended })
  | _ ↦ none
]
grab_at GrabPoint.ended n s = none

-- `dump_thread`
abbrev pub dump_at : DumpPoint → Threads → Option Threads
dump_at DumpPoint.unborn s = none
dump_at DumpPoint.testing s =
    some (record s { dump = if s.stop then DumpPoint.ended else DumpPoint.locking })
dump_at DumpPoint.locking s = lock Thread.dumper s (record s { dump = DumpPoint.checking })
dump_at DumpPoint.checking s =
    if not s.stop && (s.waiting_samples == 0)
    then some (record s { owner = none; dump = DumpPoint.waiting })
    else some (record s { dump = DumpPoint.deciding })
dump_at DumpPoint.waiting s = none
dump_at DumpPoint.woken s = lock Thread.dumper s (record s { dump = DumpPoint.checking })
dump_at DumpPoint.deciding s =
    some (record s { dump = if s.stop then DumpPoint.broken_off else DumpPoint.taking })
dump_at DumpPoint.taking s =
    some (record s { taken = s.waiting_samples; waiting_samples = 0; dump = DumpPoint.unlocking })
dump_at DumpPoint.unlocking s = some (record s { owner = none; dump = DumpPoint.dumping })
dump_at DumpPoint.dumping s =
    if s.stop || (s.taken == 0)
    then some (record s { dump = DumpPoint.testing })
    else some (record s { taken = s.taken - 1 })
dump_at DumpPoint.ended s = none
dump_at DumpPoint.broken_off s = none

-- `~Collector`
abbrev pub destructor_at : DestructorPoint → Threads → Option Threads
destructor_at DestructorPoint.uncalled s =
    some (record s { stop = true; destructor = DestructorPoint.joining })
destructor_at DestructorPoint.joining s = elim s.grab [
  | GrabPoint.ended ↦ some (record s { destructor = DestructorPoint.returned })
  | _ ↦ none
]
destructor_at DestructorPoint.returned s = none

-- what can happen next; `wake` ends a wait without a signal
pub data Action : Type 0 where
  grab : (samples : ℕ) → Action
  dump wake destroy : Action

-- One step, none where the thread must wait or has ended.
unfoldable pub step : Action → Threads → Option Threads
step (Action.grab n) s = grab_at s.grab n s
step Action.dump s = dump_at s.dump s
step Action.wake s = elim s.dump [
  | DumpPoint.waiting ↦ some (record s { dump = DumpPoint.woken })
  | _ ↦ none
]
step Action.destroy s = destructor_at s.destructor s

pub data Reach : Threads → Type 0 where
  starts : Reach constructed
  steps : {s t : Threads} (a : Action) → step a s ≡ some t → Reach s → Reach t

-- the actions in order, none as soon as one is not possible
unfoldable pub run : List Action → Threads → Option Threads
unfolding step
run [] s = some s
run (a ∷ l) s = elim (step a s) [ none ↦ none | some t ↦ run l t ]

-- ===== src/Collector/Shutdown/Locks.antt =====
-- What holds in every state of the shutdown: who has the mutex, and why a thread waits.
use contention_prof.Base.{arith, ℕ, ◌≡◌, refl, Bool, true, false, ◌&&◌, ◌||◌, Option, none, some}
use contention_prof.Collector.Shutdown.{
  Thread, GrabPoint, DumpPoint, DestructorPoint, Threads, Action, grab_at, dump_at, destructor_at,
  step, Reach,
}

-- between the lock and the unlock
abbrev pub grab_holds : GrabPoint → Bool
grab_holds (GrabPoint.inserting k) = true
grab_holds GrabPoint.signalling = true
grab_holds GrabPoint.unlocking = true
grab_holds GrabPoint.last_stopping = true
grab_holds GrabPoint.last_signalling = true
grab_holds GrabPoint.last_unlocking = true
grab_holds _ = false

-- and behind the break, which does not unlock
abbrev pub dump_holds : DumpPoint → Bool
dump_holds DumpPoint.checking = true
dump_holds DumpPoint.deciding = true
dump_holds DumpPoint.taking = true
dump_holds DumpPoint.unlocking = true
dump_holds DumpPoint.broken_off = true
dump_holds _ = false

-- behind the loop
abbrev pub grab_left : GrabPoint → Bool
grab_left GrabPoint.last_locking = true
grab_left GrabPoint.last_stopping = true
grab_left GrabPoint.last_signalling = true
grab_left GrabPoint.last_unlocking = true
grab_left GrabPoint.joining = true
grab_left GrabPoint.ended = true
grab_left _ = false

-- behind the last signal
abbrev pub grab_signalled : GrabPoint → Bool
grab_signalled GrabPoint.last_unlocking = true
grab_signalled GrabPoint.joining = true
grab_signalled GrabPoint.ended = true
grab_signalled _ = false

abbrev pub dump_left : DumpPoint → Bool
dump_left DumpPoint.ended = true
dump_left DumpPoint.broken_off = true
dump_left _ = false

abbrev pub is_waiting : DumpPoint → Bool
is_waiting DumpPoint.waiting = true
is_waiting _ = false

abbrev pub is_unborn : DumpPoint → Bool
is_unborn DumpPoint.unborn = true
is_unborn _ = false

abbrev pub is_starting : GrabPoint → Bool
is_starting GrabPoint.starting = true
is_starting _ = false

abbrev pub is_ended : GrabPoint → Bool
is_ended GrabPoint.ended = true
is_ended _ = false

abbrev pub is_signalling : GrabPoint → Bool
is_signalling GrabPoint.signalling = true
is_signalling _ = false

abbrev pub is_called : DestructorPoint → Bool
is_called DestructorPoint.uncalled = false
is_called _ = true

abbrev pub is_returned : DestructorPoint → Bool
is_returned DestructorPoint.returned = true
is_returned _ = false

abbrev pub owner_of : (grabber dumper : Bool) → Option Thread
owner_of true _ = some Thread.grabber
owner_of false true = some Thread.dumper
owner_of false false = none

pub record Inv (s : Threads) : Type 0 where
  -- the mutex has the owner that the threads say, and never two
  pub owned : s.owner ≡ owner_of (grab_holds s.grab) (dump_holds s.dump)
  pub apart : (grab_holds s.grab && dump_holds s.dump) ≡ false
  -- who left because of `stop_` has seen it
  pub stopped :
      (is_called s.destructor || grab_left s.grab || dump_left s.dump) ≡ true → s.stop ≡ true
  -- only the destructor makes it true at first
  pub called : s.stop ≡ true → is_called s.destructor ≡ true
  -- no signal is lost
  pub awake : is_waiting s.dump ≡ true → is_signalling s.grab ≡ false → s.waiting_samples ≡ 0
  pub warned : is_waiting s.dump ≡ true → grab_signalled s.grab ≡ false
  pub born : is_unborn s.dump ≡ is_starting s.grab
  pub joined : is_ended s.grab ≡ true → dump_left s.dump ≡ true
  pub returned : is_returned s.destructor ≡ true → is_ended s.grab ≡ true

grab_at-Inv :
    (p : GrabPoint) (n : ℕ) (s t : Threads) → s.grab ≡ p → grab_at p n s ≡ some t → Inv s → Inv t
grab_at-Inv GrabPoint.starting n s t here e v = ground arith
grab_at-Inv GrabPoint.testing n s t here e v = ground arith
grab_at-Inv GrabPoint.working n s t here e v = ground arith
grab_at-Inv (GrabPoint.locking k) n s t here e v = ground arith
grab_at-Inv (GrabPoint.inserting k) n s t here e v = ground arith
grab_at-Inv GrabPoint.signalling n s t here e v = ground arith
grab_at-Inv GrabPoint.unlocking n s t here e v = ground arith
grab_at-Inv GrabPoint.sleeping n s t here e v = ground arith
grab_at-Inv GrabPoint.last_locking n s t here e v = ground arith
grab_at-Inv GrabPoint.last_stopping n s t here e v = ground arith
grab_at-Inv GrabPoint.last_signalling n s t here e v = ground arith
grab_at-Inv GrabPoint.last_unlocking n s t here e v = ground arith
grab_at-Inv GrabPoint.joining n s t here e v = ground arith
grab_at-Inv GrabPoint.ended n s t here e v = ground arith

dump_at-Inv : (p : DumpPoint) (s t : Threads) → s.dump ≡ p → dump_at p s ≡ some t → Inv s → Inv t
dump_at-Inv DumpPoint.unborn s t here e v = ground arith
dump_at-Inv DumpPoint.testing s t here e v = ground arith
dump_at-Inv DumpPoint.locking s t here e v = ground arith
dump_at-Inv DumpPoint.checking s t here e v = ground arith
dump_at-Inv DumpPoint.waiting s t here e v = ground arith
dump_at-Inv DumpPoint.woken s t here e v = ground arith
dump_at-Inv DumpPoint.deciding s t here e v = ground arith
dump_at-Inv DumpPoint.taking s t here e v = ground arith
dump_at-Inv DumpPoint.unlocking s t here e v = ground arith
dump_at-Inv DumpPoint.dumping s t here e v = ground arith
dump_at-Inv DumpPoint.ended s t here e v = ground arith
dump_at-Inv DumpPoint.broken_off s t here e v = ground arith

destructor_at-Inv :
    (p : DestructorPoint) (s t : Threads)
    → s.destructor ≡ p
    → destructor_at p s ≡ some t
    → Inv s
    → Inv t
destructor_at-Inv DestructorPoint.uncalled s t here e v = ground arith
destructor_at-Inv DestructorPoint.joining s t here e v = ground arith
destructor_at-Inv DestructorPoint.returned s t here e v = ground arith

step-Inv : (a : Action) (s t : Threads) → step a s ≡ some t → Inv s → Inv t
unfolding step
step-Inv (Action.grab n) s t e v = grab_at-Inv s.grab n s t refl e v
step-Inv Action.dump s t e v = dump_at-Inv s.dump s t refl e v
step-Inv Action.wake s t e v = ground arith
step-Inv Action.destroy s t e v = destructor_at-Inv s.destructor s t refl e v

-- In every reachable state of the shutdown the mutex has exactly the owner that the threads say,
-- never two; a thread has left its loop only if stop_ is true; the dump thread waits with no
-- signal under way only if no sample waits for it, and it does not wait behind the last signal;
-- stop_ is true only if the destructor was called; the grab thread has ended only if the dump
-- thread has, and the destructor has returned only if the grab thread has ended.
pub Reach-Inv : {s : Threads} → Reach s → Inv s
Reach-Inv Reach.starts = ground arith
Reach-Inv (Reach.steps {s} {t} a e h) = step-Inv a s t e (Reach-Inv h)

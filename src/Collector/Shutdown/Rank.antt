-- ===== src/Collector/Shutdown/Rank.antt =====
-- The steps of each thread that are left once `stop_` is true, by where it is.
use contention_prof.Base.{arith, ℕ, ◌+◌, ◌≤◌, ◌<◌, ◌≡◌, refl, true, some}
use contention_prof.Collector.Shutdown.{
  GrabPoint, DumpPoint, DestructorPoint, Threads, Action, grab_at, dump_at, destructor_at, step,
}
use contention_prof.Collector.Shutdown.Locks.{Inv, is_called}

-- how many steps of a thread are left once `stop_` is true
abbrev grab_rank : GrabPoint → ℕ
grab_rank GrabPoint.starting = 21
grab_rank GrabPoint.working = 13
grab_rank (GrabPoint.locking k) = 12
grab_rank (GrabPoint.inserting k) = 11
grab_rank GrabPoint.signalling = 10
grab_rank GrabPoint.unlocking = 9
grab_rank GrabPoint.sleeping = 8
grab_rank GrabPoint.testing = 7
grab_rank GrabPoint.last_locking = 6
grab_rank GrabPoint.last_stopping = 5
grab_rank GrabPoint.last_signalling = 4
grab_rank GrabPoint.last_unlocking = 3
grab_rank GrabPoint.joining = 2
grab_rank GrabPoint.ended = 1

abbrev dump_rank : DumpPoint → ℕ
dump_rank DumpPoint.unborn = 0
dump_rank DumpPoint.taking = 5
dump_rank DumpPoint.unlocking = 4
dump_rank DumpPoint.dumping = 3
dump_rank DumpPoint.testing = 2
dump_rank DumpPoint.waiting = 5
dump_rank DumpPoint.locking = 4
dump_rank DumpPoint.woken = 4
dump_rank DumpPoint.checking = 3
dump_rank DumpPoint.deciding = 2
dump_rank DumpPoint.ended = 1
dump_rank DumpPoint.broken_off = 1

abbrev destructor_rank : DestructorPoint → ℕ
destructor_rank DestructorPoint.uncalled = 2
destructor_rank DestructorPoint.joining = 1
destructor_rank DestructorPoint.returned = 0

abbrev pub steps_left : Threads → ℕ
steps_left s = grab_rank s.grab + dump_rank s.dump + destructor_rank s.destructor

grab_at-steps_left :
    (p : GrabPoint) (n : ℕ) (s t : Threads)
    → s.grab ≡ p
    → grab_at p n s ≡ some t
    → Inv s
    → s.stop ≡ true
    → is_called s.destructor ≡ true
    → (is_called t.destructor ≡ true) × (steps_left t < steps_left s)
grab_at-steps_left GrabPoint.starting n s t here e v stop c = ground arith
grab_at-steps_left GrabPoint.testing n s t here e v stop c = ground arith
grab_at-steps_left GrabPoint.working n s t here e v stop c = ground arith
grab_at-steps_left (GrabPoint.locking k) n s t here e v stop c = ground arith
grab_at-steps_left (GrabPoint.inserting k) n s t here e v stop c = ground arith
grab_at-steps_left GrabPoint.signalling n s t here e v stop c = ground arith
grab_at-steps_left GrabPoint.unlocking n s t here e v stop c = ground arith
grab_at-steps_left GrabPoint.sleeping n s t here e v stop c = ground arith
grab_at-steps_left GrabPoint.last_locking n s t here e v stop c = ground arith
grab_at-steps_left GrabPoint.last_stopping n s t here e v stop c = ground arith
grab_at-steps_left GrabPoint.last_signalling n s t here e v stop c = ground arith
grab_at-steps_left GrabPoint.last_unlocking n s t here e v stop c = ground arith
grab_at-steps_left GrabPoint.joining n s t here e v stop c = ground arith
grab_at-steps_left GrabPoint.ended n s t here e v stop c = ground arith

dump_at-steps_left :
    (p : DumpPoint) (s t : Threads)
    → s.dump ≡ p
    → dump_at p s ≡ some t
    → s.stop ≡ true
    → is_called s.destructor ≡ true
    → (is_called t.destructor ≡ true) × (steps_left t < steps_left s)
dump_at-steps_left DumpPoint.unborn s t here e stop c = ground arith
dump_at-steps_left DumpPoint.testing s t here e stop c = ground arith
dump_at-steps_left DumpPoint.locking s t here e stop c = ground arith
dump_at-steps_left DumpPoint.checking s t here e stop c = ground arith
dump_at-steps_left DumpPoint.waiting s t here e stop c = ground arith
dump_at-steps_left DumpPoint.woken s t here e stop c = ground arith
dump_at-steps_left DumpPoint.deciding s t here e stop c = ground arith
dump_at-steps_left DumpPoint.taking s t here e stop c = ground arith
dump_at-steps_left DumpPoint.unlocking s t here e stop c = ground arith
dump_at-steps_left DumpPoint.dumping s t here e stop c = ground arith
dump_at-steps_left DumpPoint.ended s t here e stop c = ground arith
dump_at-steps_left DumpPoint.broken_off s t here e stop c = ground arith

destructor_at-steps_left :
    (p : DestructorPoint) (s t : Threads)
    → s.destructor ≡ p
    → destructor_at p s ≡ some t
    → s.stop ≡ true
    → is_called s.destructor ≡ true
    → (is_called t.destructor ≡ true) × (steps_left t < steps_left s)
destructor_at-steps_left DestructorPoint.uncalled s t here e stop c = ground arith
destructor_at-steps_left DestructorPoint.joining s t here e stop c = ground arith
destructor_at-steps_left DestructorPoint.returned s t here e stop c = ground arith

pub step-steps_left :
    (a : Action) (s t : Threads)
    → step a s ≡ some t
    → Inv s
    → s.stop ≡ true
    → is_called s.destructor ≡ true
    → (is_called t.destructor ≡ true) × (steps_left t < steps_left s)
unfolding step
step-steps_left (Action.grab n) s t e v stop c = grab_at-steps_left s.grab n s t refl e v stop c
step-steps_left Action.dump s t e v stop c = dump_at-steps_left s.dump s t refl e stop c
step-steps_left Action.wake s t e v stop c = ground arith
step-steps_left Action.destroy s t e v stop c =
    destructor_at-steps_left s.destructor s t refl e stop c

grab_rank-most : (p : GrabPoint) → grab_rank p ≤ 21
grab_rank-most GrabPoint.starting = omega arith
grab_rank-most GrabPoint.testing = omega arith
grab_rank-most GrabPoint.working = omega arith
grab_rank-most (GrabPoint.locking k) = omega arith
grab_rank-most (GrabPoint.inserting k) = omega arith
grab_rank-most GrabPoint.signalling = omega arith
grab_rank-most GrabPoint.unlocking = omega arith
grab_rank-most GrabPoint.sleeping = omega arith
grab_rank-most GrabPoint.last_locking = omega arith
grab_rank-most GrabPoint.last_stopping = omega arith
grab_rank-most GrabPoint.last_signalling = omega arith
grab_rank-most GrabPoint.last_unlocking = omega arith
grab_rank-most GrabPoint.joining = omega arith
grab_rank-most GrabPoint.ended = omega arith

dump_rank-most : (p : DumpPoint) → dump_rank p ≤ 5
dump_rank-most DumpPoint.unborn = omega arith
dump_rank-most DumpPoint.testing = omega arith
dump_rank-most DumpPoint.locking = omega arith
dump_rank-most DumpPoint.checking = omega arith
dump_rank-most DumpPoint.waiting = omega arith
dump_rank-most DumpPoint.woken = omega arith
dump_rank-most DumpPoint.deciding = omega arith
dump_rank-most DumpPoint.taking = omega arith
dump_rank-most DumpPoint.unlocking = omega arith
dump_rank-most DumpPoint.dumping = omega arith
dump_rank-most DumpPoint.ended = omega arith
dump_rank-most DumpPoint.broken_off = omega arith

destructor_rank-most : (p : DestructorPoint) → destructor_rank p ≤ 2
destructor_rank-most DestructorPoint.uncalled = omega arith
destructor_rank-most DestructorPoint.joining = omega arith
destructor_rank-most DestructorPoint.returned = omega arith

pub most_steps : (s : Threads) → steps_left s ≤ 28
most_steps s =
    omega (arith, grab_rank-most s.grab, dump_rank-most s.dump, destructor_rank-most s.destructor)

-- ===== src/Collector/Shutdown/Deadlock.antt =====
-- What the break out of the dump thread's loop, which does not unlock, leads to.
use contention_prof.Base.{arith, ℕ, ◌≡◌, ◌⊎◌, refl, true, false, none, some, inl, inr}
use contention_prof.Collector.Shutdown.{
  Thread, GrabPoint, DumpPoint, DestructorPoint, Threads, Action, grab_at, dump_at, destructor_at,
  step, Reach,
}
use contention_prof.Collector.Shutdown.Locks.{
  Inv, Reach-Inv, is_called, dump_holds, grab_holds, dump_left, is_ended, is_returned,
}
use contention_prof.Collector.Shutdown.Progress.{is_broken_off, is_locking, is_deadlocked}

is_broken_off-holds :
    (p : DumpPoint) → is_broken_off p ≡ true → (dump_holds p ≡ true) × (dump_left p ≡ true)
is_broken_off-holds DumpPoint.unborn h = absurd (ground arith)
is_broken_off-holds DumpPoint.testing h = absurd (ground arith)
is_broken_off-holds DumpPoint.locking h = absurd (ground arith)
is_broken_off-holds DumpPoint.checking h = absurd (ground arith)
is_broken_off-holds DumpPoint.waiting h = absurd (ground arith)
is_broken_off-holds DumpPoint.woken h = absurd (ground arith)
is_broken_off-holds DumpPoint.deciding h = absurd (ground arith)
is_broken_off-holds DumpPoint.taking h = absurd (ground arith)
is_broken_off-holds DumpPoint.unlocking h = absurd (ground arith)
is_broken_off-holds DumpPoint.dumping h = absurd (ground arith)
is_broken_off-holds DumpPoint.ended h = absurd (ground arith)
is_broken_off-holds DumpPoint.broken_off h = (refl, refl)

is_locking-away :
    (p : GrabPoint) → is_locking p ≡ true → (grab_holds p ≡ false) × (is_ended p ≡ false)
is_locking-away GrabPoint.starting h = absurd (ground arith)
is_locking-away GrabPoint.testing h = absurd (ground arith)
is_locking-away GrabPoint.working h = absurd (ground arith)
is_locking-away (GrabPoint.locking k) h = (refl, refl)
is_locking-away (GrabPoint.inserting k) h = absurd (ground arith)
is_locking-away GrabPoint.signalling h = absurd (ground arith)
is_locking-away GrabPoint.unlocking h = absurd (ground arith)
is_locking-away GrabPoint.sleeping h = absurd (ground arith)
is_locking-away GrabPoint.last_locking h = (refl, refl)
is_locking-away GrabPoint.last_stopping h = absurd (ground arith)
is_locking-away GrabPoint.last_signalling h = absurd (ground arith)
is_locking-away GrabPoint.last_unlocking h = absurd (ground arith)
is_locking-away GrabPoint.joining h = absurd (ground arith)
is_locking-away GrabPoint.ended h = absurd (ground arith)

deadlock-owner :
    (s : Threads)
    → Inv s
    → is_deadlocked s ≡ true
    → (s.owner ≡ some Thread.dumper) × (is_returned s.destructor ≡ false)
deadlock-owner s v dead =
    let broken : is_broken_off s.dump ≡ true = ground arith in
    let locks : is_locking s.grab ≡ true = ground arith in
    let (holds, left) = is_broken_off-holds s.dump broken in
    let (away, here) = is_locking-away s.grab locks in (ground arith, ground arith)

grab_at-stuck :
    (p : GrabPoint) (n : ℕ) (s : Threads)
    → is_locking p ≡ true
    → s.owner ≡ some Thread.dumper
    → grab_at p n s ≡ none
grab_at-stuck GrabPoint.starting n s h o = ground arith
grab_at-stuck GrabPoint.testing n s h o = ground arith
grab_at-stuck GrabPoint.working n s h o = ground arith
grab_at-stuck (GrabPoint.locking k) n s h o = ground arith
grab_at-stuck (GrabPoint.inserting k) n s h o = ground arith
grab_at-stuck GrabPoint.signalling n s h o = ground arith
grab_at-stuck GrabPoint.unlocking n s h o = ground arith
grab_at-stuck GrabPoint.sleeping n s h o = ground arith
grab_at-stuck GrabPoint.last_locking n s h o = ground arith
grab_at-stuck GrabPoint.last_stopping n s h o = ground arith
grab_at-stuck GrabPoint.last_signalling n s h o = ground arith
grab_at-stuck GrabPoint.last_unlocking n s h o = ground arith
grab_at-stuck GrabPoint.joining n s h o = ground arith
grab_at-stuck GrabPoint.ended n s h o = ground arith

dump_at-stuck : (p : DumpPoint) (s : Threads) → is_broken_off p ≡ true → dump_at p s ≡ none
dump_at-stuck DumpPoint.unborn s h = ground arith
dump_at-stuck DumpPoint.testing s h = ground arith
dump_at-stuck DumpPoint.locking s h = ground arith
dump_at-stuck DumpPoint.checking s h = ground arith
dump_at-stuck DumpPoint.waiting s h = ground arith
dump_at-stuck DumpPoint.woken s h = ground arith
dump_at-stuck DumpPoint.deciding s h = ground arith
dump_at-stuck DumpPoint.taking s h = ground arith
dump_at-stuck DumpPoint.unlocking s h = ground arith
dump_at-stuck DumpPoint.dumping s h = ground arith
dump_at-stuck DumpPoint.ended s h = ground arith
dump_at-stuck DumpPoint.broken_off s h = ground arith

wake-stuck :
    (p : DumpPoint) (s : Threads) → s.dump ≡ p → is_broken_off p ≡ true → step Action.wake s ≡ none
unfolding step
wake-stuck DumpPoint.unborn s here h = ground arith
wake-stuck DumpPoint.testing s here h = ground arith
wake-stuck DumpPoint.locking s here h = ground arith
wake-stuck DumpPoint.checking s here h = ground arith
wake-stuck DumpPoint.waiting s here h = ground arith
wake-stuck DumpPoint.woken s here h = ground arith
wake-stuck DumpPoint.deciding s here h = ground arith
wake-stuck DumpPoint.taking s here h = ground arith
wake-stuck DumpPoint.unlocking s here h = ground arith
wake-stuck DumpPoint.dumping s here h = ground arith
wake-stuck DumpPoint.ended s here h = ground arith
wake-stuck DumpPoint.broken_off s here h = ground arith

join-stuck :
    (p : GrabPoint) (s : Threads)
    → s.grab ≡ p
    → is_ended p ≡ false
    → destructor_at DestructorPoint.joining s ≡ none
join-stuck GrabPoint.starting s here h = ground arith
join-stuck GrabPoint.testing s here h = ground arith
join-stuck GrabPoint.working s here h = ground arith
join-stuck (GrabPoint.locking k) s here h = ground arith
join-stuck (GrabPoint.inserting k) s here h = ground arith
join-stuck GrabPoint.signalling s here h = ground arith
join-stuck GrabPoint.unlocking s here h = ground arith
join-stuck GrabPoint.sleeping s here h = ground arith
join-stuck GrabPoint.last_locking s here h = ground arith
join-stuck GrabPoint.last_stopping s here h = ground arith
join-stuck GrabPoint.last_signalling s here h = ground arith
join-stuck GrabPoint.last_unlocking s here h = ground arith
join-stuck GrabPoint.joining s here h = ground arith
join-stuck GrabPoint.ended s here h = ground arith

destructor_at-stuck :
    (p : DestructorPoint) (s : Threads)
    → is_called p ≡ true
    → is_returned p ≡ false
    → is_ended s.grab ≡ false
    → destructor_at p s ≡ none
destructor_at-stuck DestructorPoint.uncalled s c r h = ground arith
destructor_at-stuck DestructorPoint.joining s c r h = join-stuck s.grab s refl h
destructor_at-stuck DestructorPoint.returned s c r h = ground arith

step-stuck :
    (a : Action) (s : Threads)
    → is_broken_off s.dump ≡ true
    → is_locking s.grab ≡ true
    → s.owner ≡ some Thread.dumper
    → is_called s.destructor ≡ true
    → is_returned s.destructor ≡ false
    → is_ended s.grab ≡ false
    → step a s ≡ none
unfolding step
step-stuck (Action.grab n) s broken locks owner called running inside =
    grab_at-stuck s.grab n s locks owner
step-stuck Action.dump s broken locks owner called running inside = dump_at-stuck s.dump s broken
step-stuck Action.wake s broken locks owner called running inside = wake-stuck s.dump s refl broken
step-stuck Action.destroy s broken locks owner called running inside =
    destructor_at-stuck s.destructor s called running inside

-- In a reachable state in which the grab thread waits for the mutex that the dump thread left
-- with, the destructor was called and has not returned, and nothing can happen any more: neither
-- thread nor the destructor can take a step.
pub deadlock-stuck :
    (s : Threads)
    → Reach s
    → is_deadlocked s ≡ true
    → (is_called s.destructor ≡ true)
      × (is_returned s.destructor ≡ false)
      × ((a : Action) → step a s ≡ none)
deadlock-stuck s h dead =
    let v = Reach-Inv h in
    let broken : is_broken_off s.dump ≡ true = ground arith in
    let locks : is_locking s.grab ≡ true = ground arith in
    let (owner, running) = deadlock-owner s v dead in
    let (away, inside) = is_locking-away s.grab locks in
    let (holds, left) = is_broken_off-holds s.dump broken in
    let called : is_called s.destructor ≡ true = v.called (v.stopped (ground arith)) in
    (called, running, λ a. step-stuck a s broken locks owner called running inside)

is_ended-point : (p : GrabPoint) → is_ended p ≡ true → p ≡ GrabPoint.ended
is_ended-point GrabPoint.starting h = absurd (ground arith)
is_ended-point GrabPoint.testing h = absurd (ground arith)
is_ended-point GrabPoint.working h = absurd (ground arith)
is_ended-point (GrabPoint.locking k) h = absurd (ground arith)
is_ended-point (GrabPoint.inserting k) h = absurd (ground arith)
is_ended-point GrabPoint.signalling h = absurd (ground arith)
is_ended-point GrabPoint.unlocking h = absurd (ground arith)
is_ended-point GrabPoint.sleeping h = absurd (ground arith)
is_ended-point GrabPoint.last_locking h = absurd (ground arith)
is_ended-point GrabPoint.last_stopping h = absurd (ground arith)
is_ended-point GrabPoint.last_signalling h = absurd (ground arith)
is_ended-point GrabPoint.last_unlocking h = absurd (ground arith)
is_ended-point GrabPoint.joining h = absurd (ground arith)
is_ended-point GrabPoint.ended h = refl

dump_left-point :
    (p : DumpPoint) → dump_left p ≡ true → (p ≡ DumpPoint.ended) ⊎ (p ≡ DumpPoint.broken_off)
dump_left-point DumpPoint.unborn h = absurd (ground arith)
dump_left-point DumpPoint.testing h = absurd (ground arith)
dump_left-point DumpPoint.locking h = absurd (ground arith)
dump_left-point DumpPoint.checking h = absurd (ground arith)
dump_left-point DumpPoint.waiting h = absurd (ground arith)
dump_left-point DumpPoint.woken h = absurd (ground arith)
dump_left-point DumpPoint.deciding h = absurd (ground arith)
dump_left-point DumpPoint.taking h = absurd (ground arith)
dump_left-point DumpPoint.unlocking h = absurd (ground arith)
dump_left-point DumpPoint.dumping h = absurd (ground arith)
dump_left-point DumpPoint.ended h = inl refl
dump_left-point DumpPoint.broken_off h = inr refl

-- When the destructor has returned, both threads have ended, and the mutex that it destroys is
-- free, or locked by the dump thread, which broke off.
pub returned-owner :
    (s : Threads)
    → Reach s
    → s.destructor ≡ DestructorPoint.returned
    → (s.grab ≡ GrabPoint.ended)
      × (((s.dump ≡ DumpPoint.ended) × (s.owner ≡ none))
          ⊎ ((s.dump ≡ DumpPoint.broken_off) × (s.owner ≡ some Thread.dumper)))
returned-owner s h r =
    let v = Reach-Inv h in
    let over = v.returned (rw r refl) in
    let grab = is_ended-point s.grab over in
    elim (dump_left-point s.dump (v.joined over)) [
      | inl ended ↦ (grab, inl (ended, ground arith))
      | inr broken ↦ (grab, inr (broken, ground arith))
    ]

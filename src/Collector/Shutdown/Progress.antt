-- ===== src/Collector/Shutdown/Progress.antt =====
-- Which thread goes on once the destructor was called.
use contention_prof.Base.{
  arith, ℕ, ◌≡◌, ◌≢◌, ◌⊎◌, refl, Bool, true, false, ◌&&◌, none, some, inl, inr, Bool-cases,
  Option-cases,
}
use contention_prof.Collector.Shutdown.{
  GrabPoint, DumpPoint, DestructorPoint, Threads, Action, dump_at, step,
}
use contention_prof.Collector.Shutdown.Locks.{
  Inv, dump_holds, grab_holds, dump_left, is_waiting, is_unborn, is_called, is_returned,
}

abbrev pub is_broken_off : DumpPoint → Bool
is_broken_off DumpPoint.broken_off = true
is_broken_off _ = false

abbrev pub is_locking : GrabPoint → Bool
is_locking (GrabPoint.locking k) = true
is_locking GrabPoint.last_locking = true
is_locking _ = false

-- The dump thread left with the mutex, and the grab thread locks it.
abbrev pub is_deadlocked : Threads → Bool
is_deadlocked s = is_broken_off s.dump && is_locking s.grab

-- the end of a wait that no thread signalled
abbrev pub is_wake : Action → Bool
is_wake Action.wake = true
is_wake _ = false

-- A thread that can go on. A waiting thread cannot, though its wait may end without a signal.
abbrev pub CanStep : Threads → Type 0
CanStep s = (a : Action) × (t : Threads) × (is_wake a ≡ false) × (step a s ≡ some t)

goes-CanStep : (a : Action) (s : Threads) → is_wake a ≡ false → step a s ≢ none → CanStep s
goes-CanStep a s own goes = elim (Option-cases (step a s)) [
  | inl stuck ↦ absurd (goes stuck)
  | inr (t, e) ↦ (a, t, own, e)
]

dump_at-goes :
    (p : DumpPoint) (s : Threads)
    → s.dump ≡ p
    → Inv s
    → grab_holds s.grab ≡ false
    → is_waiting p ≡ false
    → is_unborn p ≡ false
    → dump_left p ≡ false
    → dump_at p s ≢ none
dump_at-goes DumpPoint.unborn s here v free w u l e = ground arith
dump_at-goes DumpPoint.testing s here v free w u l e = ground arith
dump_at-goes DumpPoint.locking s here v free w u l e = ground arith
dump_at-goes DumpPoint.checking s here v free w u l e = ground arith
dump_at-goes DumpPoint.waiting s here v free w u l e = ground arith
dump_at-goes DumpPoint.woken s here v free w u l e = ground arith
dump_at-goes DumpPoint.deciding s here v free w u l e = ground arith
dump_at-goes DumpPoint.taking s here v free w u l e = ground arith
dump_at-goes DumpPoint.unlocking s here v free w u l e = ground arith
dump_at-goes DumpPoint.dumping s here v free w u l e = ground arith
dump_at-goes DumpPoint.ended s here v free w u l e = ground arith
dump_at-goes DumpPoint.broken_off s here v free w u l e = ground arith

-- The holder of the mutex goes on, unless it broke off.
holder-goes :
    (p : DumpPoint) (s : Threads)
    → s.dump ≡ p
    → dump_holds p ≡ true
    → is_broken_off p ≡ false
    → step Action.dump s ≢ none
unfolding step
holder-goes DumpPoint.unborn s here h b e = ground arith
holder-goes DumpPoint.testing s here h b e = ground arith
holder-goes DumpPoint.locking s here h b e = ground arith
holder-goes DumpPoint.checking s here h b e = ground arith
holder-goes DumpPoint.waiting s here h b e = ground arith
holder-goes DumpPoint.woken s here h b e = ground arith
holder-goes DumpPoint.deciding s here h b e = ground arith
holder-goes DumpPoint.taking s here h b e = ground arith
holder-goes DumpPoint.unlocking s here h b e = ground arith
holder-goes DumpPoint.dumping s here h b e = ground arith
holder-goes DumpPoint.ended s here h b e = ground arith
holder-goes DumpPoint.broken_off s here h b e = ground arith

-- A thread that waits for the mutex gets it, or its holder goes on, or the holder broke off.
lock-CanStep :
    (n : ℕ) (s : Threads)
    → Inv s
    → grab_holds s.grab ≡ false
    → is_locking s.grab ≡ true
    → (s.owner ≡ none → step (Action.grab n) s ≢ none)
    → (is_deadlocked s ≡ true) ⊎ CanStep s
lock-CanStep n s v away locks goes = elim (Bool-cases (dump_holds s.dump)) [
  | inl holds ↦ elim (Bool-cases (is_broken_off s.dump)) [
    | inl broken ↦ inl (rw (broken, locks) refl)
    | inr alive ↦ inr (goes-CanStep Action.dump s refl (holder-goes s.dump s refl holds alive))
  ]
  | inr none_holds ↦
      let free : s.owner ≡ none = ground (arith, v.owned) in
      inr (goes-CanStep (Action.grab n) s refl (goes free))
]

join-goes :
    (p : DumpPoint) (s : Threads)
    → s.dump ≡ p
    → s.grab ≡ GrabPoint.joining
    → dump_left p ≡ true
    → step (Action.grab 0) s ≢ none
unfolding step
join-goes DumpPoint.unborn s here j l e = ground arith
join-goes DumpPoint.testing s here j l e = ground arith
join-goes DumpPoint.locking s here j l e = ground arith
join-goes DumpPoint.checking s here j l e = ground arith
join-goes DumpPoint.waiting s here j l e = ground arith
join-goes DumpPoint.woken s here j l e = ground arith
join-goes DumpPoint.deciding s here j l e = ground arith
join-goes DumpPoint.taking s here j l e = ground arith
join-goes DumpPoint.unlocking s here j l e = ground arith
join-goes DumpPoint.dumping s here j l e = ground arith
join-goes DumpPoint.ended s here j l e = ground arith
join-goes DumpPoint.broken_off s here j l e = ground arith

-- The join ends, or the dump thread goes on.
join-CanStep : (s : Threads) → s.grab ≡ GrabPoint.joining → Inv s → CanStep s
unfolding step
join-CanStep s here v = elim (Bool-cases (dump_left s.dump)) [
  | inl left ↦ goes-CanStep (Action.grab 0) s refl (join-goes s.dump s refl here left)
  | inr stays ↦
      goes-CanStep Action.dump s refl
        (dump_at-goes s.dump s refl v (ground arith) (ground arith) (ground arith) stays)
]

destroy-goes :
    (p : DestructorPoint) (s : Threads)
    → s.destructor ≡ p
    → s.grab ≡ GrabPoint.ended
    → is_called p ≡ true
    → is_returned p ≡ false
    → step Action.destroy s ≢ none
unfolding step
destroy-goes DestructorPoint.uncalled s here over c r e = ground arith
destroy-goes DestructorPoint.joining s here over c r e = ground arith
destroy-goes DestructorPoint.returned s here over c r e = ground arith

pub called-CanStep :
    (p : GrabPoint) (s : Threads)
    → s.grab ≡ p
    → Inv s
    → is_called s.destructor ≡ true
    → (is_returned s.destructor ≡ true) ⊎ (is_deadlocked s ≡ true) ⊎ CanStep s
unfolding step
called-CanStep GrabPoint.starting s here v c =
    inr (inr (goes-CanStep (Action.grab 0) s refl (λ e. ground arith)))
called-CanStep GrabPoint.testing s here v c =
    inr (inr (goes-CanStep (Action.grab 0) s refl (λ e. ground arith)))
called-CanStep GrabPoint.working s here v c =
    inr (inr (goes-CanStep (Action.grab 0) s refl (λ e. ground arith)))
called-CanStep (GrabPoint.inserting k) s here v c =
    inr (inr (goes-CanStep (Action.grab 0) s refl (λ e. ground arith)))
called-CanStep GrabPoint.signalling s here v c =
    inr (inr (goes-CanStep (Action.grab 0) s refl (λ e. ground arith)))
called-CanStep GrabPoint.unlocking s here v c =
    inr (inr (goes-CanStep (Action.grab 0) s refl (λ e. ground arith)))
called-CanStep GrabPoint.sleeping s here v c =
    inr (inr (goes-CanStep (Action.grab 0) s refl (λ e. ground arith)))
called-CanStep GrabPoint.last_stopping s here v c =
    inr (inr (goes-CanStep (Action.grab 0) s refl (λ e. ground arith)))
called-CanStep GrabPoint.last_signalling s here v c =
    inr (inr (goes-CanStep (Action.grab 0) s refl (λ e. ground arith)))
called-CanStep GrabPoint.last_unlocking s here v c =
    inr (inr (goes-CanStep (Action.grab 0) s refl (λ e. ground arith)))
called-CanStep (GrabPoint.locking k) s here v c =
    inr (lock-CanStep 0 s v (ground arith) (ground arith) (λ free e. ground arith))
called-CanStep GrabPoint.last_locking s here v c =
    inr (lock-CanStep 0 s v (ground arith) (ground arith) (λ free e. ground arith))
called-CanStep GrabPoint.joining s here v c = inr (inr (join-CanStep s here v))
called-CanStep GrabPoint.ended s here v c = elim (Bool-cases (is_returned s.destructor)) [
  | inl done ↦ inl done
  | inr running ↦
      inr
        (inr (goes-CanStep Action.destroy s refl (destroy-goes s.destructor s refl here c running)))
]

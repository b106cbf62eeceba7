-- ===== src/Sampler/Rounds/Pauses.antt =====
-- The pause between two rounds.
use contention_prof.Base.{
  arith, ℕ, ◌+◌, ◌*◌, ◌<◌, ◌≤◌, ◌≡◌, refl, Bool, true, false, ◌||◌, List, [], ◌∷◌, some, ltb,
  if◌then◌else◌, inl, inr, Bool-cases, ltb_false→le,
}
use contention_prof.Sampler.Rounds.{
  Samplers, pause, count_nosleep, Clock, visit_all, run_round, warn_nosleep_threshold,
}

-- whether a reading of the clock is at or behind a time
abbrev pub reaches : ℕ → List ℕ → Bool
reaches abstime [] = false
reaches abstime (t ∷ later) = if ltb t abstime then reaches abstime later else true

pause_lem :
    (abstime : ℕ) (slept : Bool) (now : ℕ) (later : List ℕ)
    → reaches abstime (now ∷ later) ≡ true
    → (end : ℕ) × (pause abstime slept now later ≡ some (slept || ltb now abstime, end))
      × (abstime ≤ end)
unfolding pause
pause_lem abstime slept now [] h = (now, ground arith, ground arith)
pause_lem abstime slept now (t ∷ later) h = elim (Bool-cases (ltb now abstime)) [
  | inl early ↦
      let (end, done, late) = pause_lem abstime true t later (ground arith) in
      (end, ground arith, late)
  | inr late ↦ (now, ground arith, ltb_false→le now abstime late)
]

nosleep_lem :
    (slept : Bool) (s : Samplers)
    → s.consecutive_nosleep < warn_nosleep_threshold
    → ((count_nosleep slept s).consecutive_nosleep < warn_nosleep_threshold)
      × (2 * (count_nosleep slept s).warnings + (count_nosleep slept s).consecutive_nosleep
          ≡ (if slept then 2 * s.warnings else 2 * s.warnings + s.consecutive_nosleep + 1))
unfolding count_nosleep
nosleep_lem true s few = (omega arith, omega arith)
nosleep_lem false s few = (ground arith, ground arith)

-- If the clock, read behind the visits and after each sleep, gets to one second after the start
-- of the round, the round ends, not before that time. It has made the visits and slept just when
-- the visits took less than a second. consecutive_nosleep stays below the threshold of the
-- warning, and twice the warnings and consecutive_nosleep grow by one together in a round with
-- no sleep, while a round with a sleep only resets consecutive_nosleep.
pub run_round_lem :
    (clock : Clock) (s : Samplers)
    → s.consecutive_nosleep < warn_nosleep_threshold
    → reaches (clock.start + 1_000_000) (clock.now ∷ clock.later) ≡ true
    → let slept = ltb clock.now (clock.start + 1_000_000) in
      (end : ℕ) × (s' : Samplers) × (run_round clock s ≡ some (end, s'))
      × (clock.start + 1_000_000 ≤ end)
      × (s' ≡ count_nosleep slept (visit_all clock s))
      × (s'.consecutive_nosleep < warn_nosleep_threshold)
      × (2 * s'.warnings + s'.consecutive_nosleep
          ≡ (if slept then 2 * s.warnings else 2 * s.warnings + s.consecutive_nosleep + 1))
unfolding run_round visit_all
run_round_lem clock s few ends =
    let slept = ltb clock.now (clock.start + 1_000_000) in
    let (end, done, late) = pause_lem (clock.start + 1_000_000) false clock.now clock.later ends in
    (
      end,
      count_nosleep slept (visit_all clock s),
      rw (run_round, done) refl,
      late,
      refl,
      (nosleep_lem slept (visit_all clock s) few).0,
      (nosleep_lem slept (visit_all clock s) few).1,
    )

-- ===== src/Collector/Shutdown/Ends.antt =====
-- Runs of the threads once the destructor was called.
use mathlib.Core.Path.{subst}
use contention_prof.Base.{
  arith, suc, ◌+◌, ◌≤◌, ◌≡◌, ◌⊎◌, refl, true, List, [], ◌∷◌, length, some, inl, inr, Option-cases,
}
use contention_prof.Collector.Shutdown.{Threads, Action, step, run, Reach}
use contention_prof.Collector.Shutdown.Locks.{Reach-Inv, is_called, is_returned}
use contention_prof.Collector.Shutdown.Rank.{steps_left, step-steps_left, most_steps}
use contention_prof.Collector.Shutdown.Progress.{is_deadlocked, CanStep, called-CanStep}

pub run-cons :
    (a : Action) (l : List Action) (s t : Threads)
    → run (a ∷ l) s ≡ some t
    → (m : Threads) × (step a s ≡ some m) × (run l m ≡ some t)
unfolding run
run-cons a l s t e = elim (Option-cases (step a s)) [
  | inl stuck ↦ absurd (ground (arith, stuck, e))
  | inr (m, one) ↦ (m, one, rw (one, run) at e)
]

pub run-Reach : (l : List Action) (s t : Threads) → run l s ≡ some t → Reach s → Reach t
unfolding run
run-Reach [] s t e h = let same : s ≡ t = ground (arith, e) in subst Reach same h
run-Reach (a ∷ l) s t e h =
    let (m, one, more) = run-cons a l s t e in run-Reach l m t more (Reach.steps a one h)

-- A run is as long as the steps left say, at most.
run-steps_left :
    (l : List Action) (s t : Threads)
    → run l s ≡ some t
    → Reach s
    → is_called s.destructor ≡ true
    → (is_called t.destructor ≡ true) × (length l + steps_left t ≤ steps_left s)
unfolding run
run-steps_left [] s t e h c =
    let same : s ≡ t = ground (arith, e) in
    subst (λ (t : Threads). (is_called t.destructor ≡ true) × (0 + steps_left t ≤ steps_left s))
      same (c, omega arith)
run-steps_left (a ∷ l) s t e h c =
    let (m, one, more) = run-cons a l s t e in
    let v = Reach-Inv h in
    let (called, fewer) = step-steps_left a s m one v (v.stopped (ground arith)) c in
    let (d, rest) = run-steps_left l m t more (Reach.steps a one h) called in
    let all : suc (length l) + steps_left t ≤ steps_left s = omega (arith, rest, fewer) in (d, all)

-- Once the destructor was called the threads take 28 steps more at most, whatever their order.
-- Where none can go on, other than by a wait that ends without a signal, the destructor has
-- returned, or the grab thread waits for the mutex that the dump thread left with.
pub run-ends :
    (l : List Action) (s t : Threads)
    → Reach s
    → is_called s.destructor ≡ true
    → run l s ≡ some t
    → (length l ≤ 28) × ((is_returned t.destructor ≡ true) ⊎ (is_deadlocked t ≡ true) ⊎ CanStep t)
run-ends l s t h called e =
    let (c, bound) = run-steps_left l s t e h called in
    let r = run-Reach l s t e h in
    (omega (arith, bound, most_steps s), called-CanStep t.grab t refl (Reach-Inv r) c)

-- ===== src/Sampler/Rounds/Tests.antt =====
-- Two samplers, of which one is destroyed before the second round.
use contention_prof.Base.{
  arith, ℕ, ◌+◌, ◌*◌, ◌<◌, ◌≤◌, ◌≡◌, refl, true, false, [], ◌∷◌, some, ltb, ◌==◌, if◌then◌else◌,
}
use contention_prof.AgentGroup.Ids.{occurrences}
use contention_prof.Sampler.Rounds.{
  Samplers, no_samplers, schedule, destroy, visit, visit_all, count_nosleep, run_round, pause, run,
  construct, destruct, Clock, Reach, warn_nosleep_threshold,
}
use contention_prof.Sampler.Rounds.Life.{sampler_life}
use contention_prof.Sampler.Rounds.Pauses.{run_round_lem}

abbrev first_second : Clock
first_second = record { start = 5; now = 20; later = 700_000 ∷ 1_000_010 ∷ [] }

-- the visits take longer than the round
abbrev busy : Clock
busy = record { start = 5; now = 2_000_000; later = [] }

abbrev two_samplers : Samplers
two_samplers = schedule (schedule no_samplers)

abbrev one_destroyed : Samplers
one_destroyed = destroy 0 (visit_all first_second two_samplers)

one_destroyed-Reach : Reach 1 (λ p. if p == 1 then 0 else if p == 0 then 0 else 0) one_destroyed
unfolding schedule visit_all
one_destroyed-Reach =
    Reach.destroys 0 (omega arith)
      (Reach.visits first_second (Reach.schedules (Reach.schedules Reach.start)))

second_round :
    ((visit_all busy one_destroyed).deleted ≡ 0 ∷ [])
    × ((visit_all busy one_destroyed).root ≡ 1 ∷ [])
    × ((visit_all busy one_destroyed).samples 1 ≡ 2)
unfolding visit_all destroy schedule visit
second_round = (refl, refl, refl)

sampler_life_example :
    (occurrences 0 one_destroyed.waiting
        + occurrences 0 one_destroyed.root
        + occurrences 0 one_destroyed.deleted
      ≡ 1)
    × (one_destroyed.used 0 ≡ true
        → (occurrences 0 one_destroyed.deleted ≡ 0) × (one_destroyed.samples 0 + 0 ≡ 1))
    × (one_destroyed.used 0 ≡ false
        → (occurrences 0 (visit_all busy one_destroyed).deleted ≡ 1)
          × ((visit_all busy one_destroyed).samples 0 ≡ one_destroyed.samples 0))
unfolding schedule visit_all destroy
sampler_life_example = sampler_life one_destroyed-Reach 0 (omega arith) busy

run_round_lem_example :
    let slept = ltb 20 1_000_005 in
    (end : ℕ) × (s' : Samplers) × (run_round first_second two_samplers ≡ some (end, s'))
    × (1_000_005 ≤ end)
    × (s' ≡ count_nosleep slept (visit_all first_second two_samplers))
    × (s'.consecutive_nosleep < warn_nosleep_threshold)
    × (2 * s'.warnings + s'.consecutive_nosleep ≡ (
        if slept
        then 2 * two_samplers.warnings
        else 2 * two_samplers.warnings + two_samplers.consecutive_nosleep + 1))
unfolding schedule
run_round_lem_example = run_round_lem first_second two_samplers (omega arith) refl

two_rounds :
    (s : Samplers) × (run (first_second ∷ busy ∷ []) two_samplers ≡ some s) × (s.samples 1 ≡ 2)
unfolding run run_round schedule visit_all visit pause count_nosleep
two_rounds = (_, refl, refl)

stopped_in_time : (destruct (construct 0)).stop ≡ true
unfolding destruct construct
stopped_in_time = refl

-- ===== src/Sampler/Rounds.antt =====
-- src/common/sampler.cpp and `Sampler` of src/common/sampler.h: the samplers that are scheduled and
-- destroyed while the thread of `SamplerCollector` visits them round by round, with its pauses.
-- A sampler is the number of its construction. A list stands for the links, which Chains models. What
-- the clock says, in microseconds, and what `stop_` is at each test are arguments.
use contention_prof.Base.{
  ℕ, zero, suc, ◌+◌, ◌<◌, ◌≡◌, Bool, true, false, List, [], ◌∷◌, ◌++◌, Option, none, some, ltb, leb,
  ◌==◌, if◌then◌else◌,
}
use contention_prof.Base.Int.{ℤ, pos, sub_ℕ, ◌+ℤ◌}
pub mod Life
pub mod Pauses
mod Tests

abbrev pub warn_nosleep_threshold : ℕ
warn_nosleep_threshold = 2

-- `used_` of each sampler, those that wait in the reducer, those in the list of `root`, those that
-- were deleted, how many samples each took; then `cumulated_time_us_`, `consecutive_nosleep` and how
-- often it warned
pub record Samplers : Type 0 where
  pub used : ℕ → Bool
  pub made : ℕ
  pub waiting : List ℕ
  pub root : List ℕ
  pub deleted : List ℕ
  pub samples : ℕ → ℕ
  pub cumulated_time_us : ℤ
  pub consecutive_nosleep : ℕ
  pub warnings : ℕ

abbrev pub no_samplers : Samplers
no_samplers = record {
  used = λ p. false;
  made = 0;
  waiting = [];
  root = [];
  deleted = [];
  samples = λ p. 0;
  cumulated_time_us = pos 0;
  consecutive_nosleep = 0;
  warnings = 0;
}

-- `new ReducerSampler`, and its `schedule`
unfoldable pub schedule : Samplers → Samplers
schedule s = record s {
  used = λ p. if p == s.made then true else s.used p;
  made = s.made + 1;
  waiting = s.waiting ++ (s.made ∷ []);
}

-- `Sampler::destroy`
unfoldable pub destroy : ℕ → Samplers → Samplers
destroy p s = record s { used = λ q. if q == p then false else s.used q }

abbrev pub take_sample_of : ℕ → (ℕ → ℕ) → ℕ → ℕ
take_sample_of p samples q = if q == p then samples q + 1 else samples q

-- the loop of `run` over the list: what is left in it, what was deleted, and the samples
unfoldable pub visit :
    (ℕ → Bool) → List ℕ → (deleted : List ℕ) → (ℕ → ℕ) → List ℕ × List ℕ × (ℕ → ℕ)
visit used [] deleted samples = ([], deleted, samples)
visit used (p ∷ l) deleted samples =
    let (kept, gone, taken) =
      visit used l (if used p then deleted else p ∷ deleted)
        (if used p then take_sample_of p samples else samples) in
    (if used p then p ∷ kept else kept, gone, taken)

-- The pause up to `abstime`: whether it slept, and the time then. The list has what the clock says
-- after each `usleep`, `none` is a pause that goes on behind it.
unfoldable pub pause : (abstime : ℕ) (slept : Bool) (now : ℕ) → List ℕ → Option (Bool × ℕ)
pause abstime slept now [] = if ltb now abstime then none else some (slept, now)
pause abstime slept now (t ∷ later) =
    let rest = pause abstime true t later in if ltb now abstime then rest else some (slept, now)

-- from the test of `slept` on
unfoldable pub count_nosleep : Bool → Samplers → Samplers
count_nosleep slept s =
    if slept
    then record s { consecutive_nosleep = 0 }
    else if leb warn_nosleep_threshold (s.consecutive_nosleep + 1)
    then record s { consecutive_nosleep = 0; warnings = s.warnings + 1 }
    else record s { consecutive_nosleep = s.consecutive_nosleep + 1 }

-- what the clock says at the start of a round, behind the visits, and during the pause
pub record Clock : Type 0 where
  pub start : ℕ
  pub now : ℕ
  pub later : List ℕ

-- the visits of a round
unfoldable pub visit_all : Clock → Samplers → Samplers
unfolding visit
visit_all clock s =
    let (root, deleted, samples) = visit s.used (s.root ++ s.waiting) s.deleted s.samples in
    record s {
      waiting = [];
      root = root;
      deleted = deleted;
      samples = samples;
      cumulated_time_us = s.cumulated_time_us +ℤ sub_ℕ clock.now clock.start;
    }

-- one round of `run`: the time at its end, if the pause ends
unfoldable pub run_round : Clock → Samplers → Option (ℕ × Samplers)
unfolding visit_all pause count_nosleep
run_round clock s = elim (pause (clock.start + 1_000_000) false clock.now clock.later) [
  | none ↦ none
  | some (slept, end) ↦ some (end, count_nosleep slept (visit_all clock s))
]

-- `run`, with the rounds up to the test that finds `stop_` set; `none` is a round that goes on
unfoldable pub run : List Clock → Samplers → Option Samplers
unfolding run_round
run [] s = some s
run (clock ∷ l) s = elim (run_round clock s) [ none ↦ none | some (end, s') ↦ run l s' ]

-- `created_` and `stop_`
pub record SamplingThread : Type 0 where
  pub created : Bool
  pub stop : Bool

-- the constructor of `SamplerCollector`, with what `pthread_create` answers
unfoldable pub construct : (res : ℕ) → SamplingThread
construct res = record { created = res == 0; stop = false }

-- the destructor, which joins a thread that was created
unfoldable pub destruct : SamplingThread → SamplingThread
destruct t = if t.created then record { created = false; stop = true } else t

-- What has happened, with how many rounds there were, and how many before each sampler was made. Only
-- a sampler that was made is destroyed. A round counts from its visits on.
pub data Reach : (rounds : ℕ) → (ℕ → ℕ) → Samplers → Type 0 where
  start : Reach 0 (λ p. 0) no_samplers
  schedules :
      {n : ℕ} {born : ℕ → ℕ} {s : Samplers}
      → Reach n born s
      → Reach n (λ p. if p == s.made then n else born p) (schedule s)
  destroys :
      {n : ℕ} {born : ℕ → ℕ} {s : Samplers} (p : ℕ)
      → p < s.made
      → Reach n born s
      → Reach n born (destroy p s)
  visits :
      {n : ℕ} {born : ℕ → ℕ} {s : Samplers} (clock : Clock)
      → Reach n born s
      → Reach (suc n) born (visit_all clock s)
  pauses :
      {n : ℕ} {born : ℕ → ℕ} {s : Samplers} (slept : Bool)
      → Reach n born s
      → Reach n born (count_nosleep slept s)

-- ===== src/Profiler/Lifecycle.antt =====
-- src/profiler.cpp and `SampledContention` of src/collector.h: samples that meet the global profiler
-- while it is started and stopped. `g_cp` is read twice, the first time under no lock: `seen` is
-- whether the first read found it.
use mathlib.Core.Path.{subst}
use contention_prof.Base.{
  arith, ℕ, ◌+◌, ◌≡◌, refl, ◌∙◌, Bool, true, false, List, [], ◌∷◌, ◌++◌, Option, none, some, length,
  length-append,
}
use contention_prof.Profiler.{
  SampledContention, ContentionProfiler, new_profiler, init_if_needed, dump_and_destroy,
  destroy_profiler,
}
use contention_prof.Profiler.Cache.{
  Inv, new_profiler-Inv, dump_and_destroy-Inv, init_if_needed-Inv, init_if_needed_init,
  flush_lengths,
}

-- `g_cp`, and the samples that were given back to the pool, by a profiler that is deleted or with
-- no profiler
pub record World {ℓ} (C : Type ℓ) : Type ℓ where
  pub g_cp : Option (ContentionProfiler C)
  pub returned : List ℕ

pub data Event {ℓ} (C : Type ℓ) : Type ℓ where
  starts : Event C
  stops : (seen : Bool) → Event C
  comes : (seen : Bool) → SampledContention C → Event C

abbrev pub no_profiler {ℓ} : {C : Type ℓ} → World C
no_profiler = record { g_cp = none; returned = [] }

module _ {ℓ} {C : Type ℓ} (add : C → C → C) (ceil : C → ℕ) where
  -- `contention_profiler_start` with a file name
  unfoldable pub start : World C → World C
  start w = elim w.g_cp [ some p ↦ w | none ↦ record w { g_cp = some (new_profiler add ceil) } ]

  -- `contention_profiler_stop`
  unfoldable pub stop : (seen : Bool) → World C → World C
  unfolding init_if_needed destroy_profiler
  stop false w = w
  stop true w = elim w.g_cp [
    | none ↦ w
    | some p ↦
        let q = destroy_profiler add ceil (init_if_needed add ceil p) in
        record { g_cp = none; returned = w.returned ++ q.destroyed }
  ]

  -- `SampledContention::dump_and_destroy`
  unfoldable pub sample_dump_and_destroy : (seen : Bool) → SampledContention C → World C → World C
  unfolding dump_and_destroy
  sample_dump_and_destroy false c w = record w { returned = w.returned ++ (c.address ∷ []) }
  sample_dump_and_destroy true c w = elim w.g_cp [
    | none ↦ record w { returned = w.returned ++ (c.address ∷ []) }
    | some p ↦ record w { g_cp = some (dump_and_destroy add ceil c p) }
  ]

  unfoldable pub react : Event C → World C → World C
  unfolding start stop sample_dump_and_destroy
  react Event.starts w = start w
  react (Event.stops seen) w = stop seen w
  react (Event.comes seen c) w = sample_dump_and_destroy seen c w

  unfoldable pub react_all : List (Event C) → World C → World C
  unfolding react
  react_all [] w = w
  react_all (e ∷ l) w = react_all l (react e w)

  abbrev pub comes_in : Event C → ℕ
  comes_in (Event.comes seen c) = 1
  comes_in _ = 0

  abbrev pub samples_in : List (Event C) → ℕ
  samples_in [] = 0
  samples_in (e ∷ l) = comes_in e + samples_in l

  -- Of `n` samples each was given back or is with the profiler.
  abbrev Kept : ℕ → Option (ContentionProfiler C) → List ℕ → Type 0
  Kept n none returned = length returned ≡ n
  Kept n (some p) returned = (k : ℕ) × Inv add ceil k p × (length returned + k ≡ n)

  stop-Kept :
      (n : ℕ) (p : ContentionProfiler C) (returned : List ℕ)
      → Kept n (some p) returned
      → length (returned ++ (destroy_profiler add ceil (init_if_needed add ceil p)).destroyed) ≡ n
  unfolding destroy_profiler
  stop-Kept n p returned (k, v, sum) =
      let q = init_if_needed add ceil p in
      let w = init_if_needed-Inv add ceil k p v in
      let (written, destroyed, left) = flush_lengths add ceil true q in
      let on : q.init ≡ true = init_if_needed_init add ceil p in
      let all : length (destroy_profiler add ceil q).destroyed ≡ k =
        rw (destroy_profiler, on) (destroyed ∙ w.all) in
      length-append returned (destroy_profiler add ceil q).destroyed ∙ omega (arith, all, sum)

  returns-Kept :
      (n address : ℕ) (returned : List ℕ)
      → length returned ≡ n
      → length (returned ++ (address ∷ [])) ≡ n + 1
  returns-Kept n address returned h = length-append returned (address ∷ []) ∙ omega (arith, h)

  lone-Kept :
      (n address : ℕ) (g_cp : Option (ContentionProfiler C)) (returned : List ℕ)
      → Kept n g_cp returned
      → Kept (n + 1) g_cp (returned ++ (address ∷ []))
  lone-Kept n address none returned h = returns-Kept n address returned h
  lone-Kept n address (some p) returned (k, v, sum) =
      (k, v, omega (arith, sum, length-append returned (address ∷ [])))

  react-Kept :
      (e : Event C) (n : ℕ) (g_cp : Option (ContentionProfiler C)) (returned : List ℕ)
      → Kept n g_cp returned
      → let w = react e (record { g_cp = g_cp; returned = returned }) in
        Kept (n + comes_in e) w.g_cp w.returned
  unfolding react
  react-Kept Event.starts n none returned h = (0, new_profiler-Inv add ceil, omega (arith, h))
  react-Kept Event.starts n (some p) returned (k, v, sum) = (k, v, omega (arith, sum))
  react-Kept (Event.stops false) n none returned h = omega (arith, h)
  react-Kept (Event.stops false) n (some p) returned (k, v, sum) = (k, v, omega (arith, sum))
  react-Kept (Event.stops true) n none returned h = omega (arith, h)
  react-Kept (Event.stops true) n (some p) returned h = omega (arith, stop-Kept n p returned h)
  react-Kept (Event.comes false c) n g_cp returned h = lone-Kept n c.address g_cp returned h
  react-Kept (Event.comes true c) n none returned h = lone-Kept n c.address none returned h
  react-Kept (Event.comes true c) n (some p) returned (k, v, sum) =
      (k + 1, dump_and_destroy-Inv add ceil c k p v, omega (arith, sum))

  react_all-Kept :
      (l : List (Event C)) (n : ℕ) (w : World C)
      → Kept n w.g_cp w.returned
      → Kept (n + samples_in l) (react_all l w).g_cp (react_all l w).returned
  unfolding react_all
  react_all-Kept [] n w h = subst (λ m. Kept m w.g_cp w.returned) (omega arith) h
  react_all-Kept (e ∷ l) n w h =
      let w' = react e w in
      let rest = react_all-Kept l (n + comes_in e) w' (react-Kept e n w.g_cp w.returned h) in
      subst (λ m. Kept m (react_all l w').g_cp (react_all l w').returned) (omega arith) rest

  stop-returned :
      (n : ℕ) (g_cp : Option (ContentionProfiler C)) (returned : List ℕ)
      → Kept n g_cp returned
      → length (stop true (record { g_cp = g_cp; returned = returned })).returned ≡ n
  unfolding stop
  stop-returned n none returned h = h
  stop-returned n (some p) returned h = stop-Kept n p returned h

  -- Whatever samples come, and however often the profiler is started and stopped between them,
  -- also between the two reads of g_cp: after a stop exactly as many samples have been given
  -- back to the pool as came.
  pub react_all-stop :
      (l : List (Event C)) → length (stop true (react_all l no_profiler)).returned ≡ samples_in l
  react_all-stop l =
      let w = react_all l no_profiler in
      stop-returned (0 + samples_in l) w.g_cp w.returned (react_all-Kept l 0 no_profiler refl)
      ∙ omega arith

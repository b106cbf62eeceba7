-- ===== src/Reducer/Windows.antt =====
-- The window of a sampled reducer, from the threads that add values to what a reader is told.
use mathlib.Core.Path.{subst}
use mathlib.Core.List.{append-nil}
use contention_prof.BoundedQueue.{default_queue}
use contention_prof.Base.{
  arith, ℕ, zero, suc, ◌-◌, ◌≤◌, ◌<◌, ◌≡◌, ◌^◌, refl, sym, ap, ◌∙◌, List, [], ◌∷◌, ◌++◌, Option,
  none, some, Outcome, ok, ltb, length, take, reverse, inl, inr, Bool-cases,
}
use contention_prof.Base.Int.{ℤ}
use contention_prof.BoundedQueue.View.{IsQueue}
use contention_prof.Combiner
use contention_prof.Combiner.{
  AgentCombiner, IsCommutativeMonoid, combine_agents, reset_all_agents, add_value, commit_and_erase,
}
use contention_prof.Combiner.Conserve.{total, combine_agents-Reach, reset_all_agents-Reach}
use contention_prof.Sampler.{Sample, ReducerSampler, set_window_size}
use contention_prof.Sampler.Grow.{take_sample_lem}
use contention_prof.Sampler.Window.Value.{values}
use contention_prof.Reducer.Latest.{keep_latest, elim_push-reverse, take-take, length-take}
use contention_prof.Reducer.{
  Reducer, value_of, reset, add, read_sample, sample_once, new_sampler, Reach,
}

abbrev pub concat {ℓ} : {A : Type ℓ} → List (List A) → List A
concat [] = []
concat (l ∷ ls) = l ++ concat ls

-- the values that the combiner holds: those since the last sample, or all of them
abbrev pub since : {A : Type 0} → Option (A → A → A) → List A → List (List A) → List A
since none vs past = vs
since (some inverse) vs past = vs ++ concat past

abbrev ok_or {ℓ} : {A : Type ℓ} → Outcome A → A → A
ok_or (ok a) b = a
ok_or _ b = b

values-take-nothing :
    {A : Type 0} (n : ℕ) → let l : List (Sample A) = [] in values (take n l) ≡ take n (values l)
values-take-nothing zero = refl
values-take-nothing (suc n) = refl

module _ {A : Type 0} (op : A → A → A) (identity : A) (m : IsCommutativeMonoid op identity) where
  read_sample-total :
      (inv_op : Option (A → A → A)) (vs : List A) (past : List (List A)) (r : Reducer A)
      → Combiner.Reach op identity (since inv_op vs past) r.combiner
      → let (value, r') = read_sample op identity inv_op r in
        (value ≡ total op identity (since inv_op vs past))
        × Combiner.Reach op identity (since inv_op [] (vs ∷ past)) r'.combiner
  unfolding read_sample reset value_of
  read_sample-total none vs past r c =
      ((reset_all_agents-Reach op identity m c).0, Combiner.Reach.resets c)
  read_sample-total (some inverse) vs past r c = (combine_agents-Reach op identity m c, c)

module _ {A : Type 0} (op : A → A → A) (identity : A) (inv_op : Option (A → A → A))
    (m : IsCommutativeMonoid op identity) where
  -- what the samples read, the latest first
  abbrev pub readings : List (List A) → List A
  readings [] = []
  readings (vs ∷ past) = total op identity (since inv_op vs past) ∷ readings past

  -- The samples of the queue are the latest of all samples.
  pub record Inv (vs : List A) (past : List (List A)) (s : ReducerSampler A) (r : Reducer A)
      : Type 0 where
    pub combined : Combiner.Reach op identity (since inv_op vs past) r.combiner
    pub latest : List (Sample A)
    pub queued : IsQueue s.q (reverse latest)
    pub read : (n : ℕ) → n ≤ length latest → values (take n latest) ≡ take n (readings past)
    pub narrow : s.window_size < 2 ^ 30

  read-keep_latest :
      (cap : ℕ) (l : List (Sample A)) (x : Sample A) (past : List A)
      → ((n : ℕ) → n ≤ length l → values (take n l) ≡ take n past)
      → (n : ℕ) → n ≤ length (keep_latest cap l x)
      → values (take n (keep_latest cap l x)) ≡ take n (x.data_value ∷ past)
  read-keep_latest cap l x past old zero h = refl
  read-keep_latest cap l x past old (suc n) h = elim (Bool-cases (ltb (length l) cap)) [
    | inl room ↦
        let fits : n ≤ length l = ground arith in rw room (ap (λ t. x.data_value ∷ t) (old n fits))
    | inr full ↦
        let shape : keep_latest cap l x ≡ x ∷ take (length l - 1) l = rw full refl in
        let size : length (keep_latest cap l x) ≡ suc (length (take (length l - 1) l)) =
          ap length shape in
        let short : n ≤ length l - 1 = omega (arith, h, size, length-take (length l - 1) l) in
        rw (full, take-take n (length l - 1) l short)
          (ap (λ t. x.data_value ∷ t) (old n (omega arith)))
  ]

  sample_once-Inv :
      (size_of : ℕ) (now : ℤ) (vs : List A) (past : List (List A)) (s s' : ReducerSampler A)
      (r r' : Reducer A)
      → 0 < size_of
      → sample_once op identity inv_op size_of now s r ≡ ok (s', r')
      → Inv vs past s r
      → Inv [] (vs ∷ past) s' r'
  unfolding sample_once
  sample_once-Inv size_of now vs past s s' r r' sized e v =
      let (value, r₁) = read_sample op identity inv_op r in
      let (read, kept) = read_sample-total op identity m inv_op vs past r v.combined in
      let (s₁, taken, window, room, q₁) =
        take_sample_lem size_of value now s (reverse v.latest) v.queued sized v.narrow in
      let narrow : s₁.window_size < 2 ^ 30 = omega (arith, window, v.narrow) in
      let both : ok (s₁, r₁) ≡ ok (s', r') = rw taken at e in
      let pair : (s₁, r₁) ≡ (s', r') = ap (λ o. ok_or o (s', r')) both in
      let x : Sample A = record { data_value = value; time_us = now } in
      let w : Inv [] (vs ∷ past) s₁ r₁ = record {
        combined = kept;
        latest = keep_latest s₁.q.cap v.latest x;
        queued = subst (IsQueue s₁.q) (elim_push-reverse s₁.q.cap v.latest x) q₁;
        read = λ n h.
            read-keep_latest s₁.q.cap v.latest x (readings past) v.read n h
            ∙ ap (λ a. take n (a ∷ readings past)) read;
        narrow = narrow;
      } in
      subst (λ (p : ReducerSampler A × Reducer A). Inv [] (vs ∷ past) p.0 p.1) pair w

  since-cons :
      (inv : Option (A → A → A)) (v : A) (vs : List A) (past : List (List A))
      → since inv (v ∷ vs) past ≡ v ∷ since inv vs past
  since-cons none v vs past = refl
  since-cons (some inverse) v vs past = refl

  since-first : (inv : Option (A → A → A)) (vs : List A) → since inv vs [] ≡ vs
  since-first none vs = refl
  since-first (some inverse) vs = append-nil vs

  set_window_size-Inv :
      (window : ℕ) (vs : List A) (past : List (List A)) (s : ReducerSampler A) (r : Reducer A)
      → Inv vs past s r
      → Inv vs past (set_window_size window s).1 r
  unfolding set_window_size
  set_window_size-Inv window vs past s r v =
      let s' = (set_window_size window s).1 in
      let same : s'.q ≡ s.q = ground arith in
      record {
        combined = v.combined;
        latest = v.latest;
        queued = subst (λ q. IsQueue q (reverse v.latest)) (sym same) v.queued;
        read = v.read;
        narrow = ground (arith, v.narrow);
      }

  default_queue-IsQueue : IsQueue {A = Sample A} default_queue []
  default_queue-IsQueue = record {
    counted = refl;
    fits = omega arith;
    small = omega arith;
    start_in = omega arith;
    storage = omega arith;
    holds = λ i h. absurd (omega arith);
  }

  pub Reach-Inv :
      {size_of : ℕ} {vs : List A} {past : List (List A)} {s : ReducerSampler A} {r : Reducer A}
      → 0 < size_of
      → Reach op identity inv_op size_of vs past s r
      → Inv vs past s r
  unfolding new_sampler add
  Reach-Inv {size_of} sized (Reach.starts {vs} {c} {s} {r} now c-Reach e) =
      let s₀ : ReducerSampler A = record { window_size = 1; q = default_queue } in
      let r₀ : Reducer A = record { combiner = c; sampler = none } in
      let v : Inv vs [] s₀ r₀ = record {
        combined =
            subst (λ l. Combiner.Reach op identity l c) (sym (since-first inv_op vs)) c-Reach;
        latest = [];
        queued = default_queue-IsQueue;
        read = λ n h. values-take-nothing n;
        narrow = omega arith;
      } in
      sample_once-Inv size_of now vs [] s₀ s r₀ r sized e v
  Reach-Inv sized (Reach.adds {vs} {past} {s} {r} thread value h) =
      let v = Reach-Inv sized h in
      record {
        combined =
            subst
              (λ l. Combiner.Reach op identity l (add_value op identity thread value r.combiner))
              (sym (since-cons inv_op value vs past)) (Combiner.Reach.adds thread value v.combined);
        latest = v.latest;
        queued = v.queued;
        read = v.read;
        narrow = v.narrow;
      }
  Reach-Inv sized (Reach.exits {vs} {past} {s} {r} thread h) =
      let v = Reach-Inv sized h in
      record {
        combined = Combiner.Reach.exits thread v.combined;
        latest = v.latest;
        queued = v.queued;
        read = v.read;
        narrow = v.narrow;
      }
  Reach-Inv sized (Reach.widens {vs} {past} {s} {r} window h) =
      set_window_size-Inv window vs past s r (Reach-Inv sized h)
  Reach-Inv {size_of} sized (Reach.samples {vs} {past} {s} {s'} {r} {r'} now e h) =
      sample_once-Inv size_of now vs past s s' r r' sized e (Reach-Inv sized h)

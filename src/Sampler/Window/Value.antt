-- ===== src/Sampler/Window/Value.antt =====
-- The value of a window, by the samples of the queue.
use contention_prof.Base.{
  arith, ℕ, zero, suc, ◌+◌, ◌-◌, ◌≤◌, ◌<◌, ◌≡◌, refl, sym, ap, ◌∙◌, true, false, List, [], ◌∷◌,
  ◌++◌, none, some, ok, ltb, leb, ◌==◌, if◌then◌else◌, length, get_elem?, get_elem?-total, take,
  drop, map, foldl, reverse, drop-cons,
}
use mathlib.Core.List.{append-nil, append_assoc}
use contention_prof.Base.Int.{◌-ℤ◌}
use contention_prof.BoundedQueue.{BoundedQueue}
use contention_prof.BoundedQueue.View.{IsQueue}
use contention_prof.Sampler.{Sample, ReducerSampler}
use contention_prof.Sampler.Window.{find_oldest, visit_window, get_value, get_samples}
use contention_prof.Sampler.Window.Recent.{
  place, bottom-place, load-place, place-ne, bottom-first, find_oldest-place, count-length,
}

abbrev pub values : {A : Type 0} → List (Sample A) → List A
values l = map (λ s. s.data_value) l

module _ {A : Type 0} {R : Type 0} (visit : R → A → R) (q : BoundedQueue (Sample A))
    (l : List (Sample A)) (v : IsQueue q (reverse l)) where
  -- The loop visits the samples from `i` on, `n` of them, when the oldest is the one behind them.
  pub visit_window_lem :
      (n fuel i k : ℕ) (r : R)
      → n < fuel
      → i + n ≡ k
      → k < length l
      → visit_window visit q (some (place q l v k)) fuel i r
        ≡ ok (foldl visit r (values (take n (drop i l))))
  unfolding visit_window
  visit_window_lem n zero i k r lt sum h = absurd (omega arith)
  visit_window_lem zero (suc m) i k r lt sum h =
      let same : i ≡ k = omega arith in
      let stop : (place q l v k == place q l v k) ≡ true = ground arith in
      rw (same, bottom-place q l v k h, stop) refl
  visit_window_lem (suc n) (suc m) i k r lt sum h =
      let (x, here, cut) = drop-cons l i (omega arith) in
      let go_on : (place q l v i == place q l v k) ≡ false =
        place-ne q l v i k (omega arith) h (λ e. absurd (omega arith)) in
      let next : i + 1 ≡ suc i = omega arith in
      let rest =
        visit_window_lem n m (suc i) k (visit r x.data_value) (omega arith) (omega arith) h in
      rw
        (
          bottom-place q l v i (omega arith),
          go_on,
          load-place q l v i x here (omega arith),
          cut,
          next,
        )
        rest

foldl-append : {A : Type 0} (xs ys : List A) → foldl (λ t x. t ++ (x ∷ [])) xs ys ≡ xs ++ ys
foldl-append xs [] = sym (append-nil xs)
foldl-append xs (y ∷ ys) = foldl-append (xs ++ (y ∷ [])) ys ∙ append_assoc xs (y ∷ []) ys

-- how many samples before the oldest one a window has
abbrev pub span : {A : Type 0} → ℕ → List (Sample A) → ℕ
span window older = if ltb window (suc (length older)) then window else length older

module _ {A : Type 0} (window : ℕ) (s : ReducerSampler A) (latest : Sample A)
    (older : List (Sample A)) (v : IsQueue s.q (reverse (latest ∷ older)))
    (some_window : 0 < window) (enough : 0 < length older) where
  span-bounds : (0 < span window older) × (span window older ≤ length older)
  span-bounds = (ground arith, ground arith)

  oldest-found :
      find_oldest window s.q ≡ ok (some (place s.q (latest ∷ older) v (span window older)))
  oldest-found =
      let whole : suc (length older) - 1 ≡ length older = omega arith in
      find_oldest-place s.q (latest ∷ older) v window (omega arith)
      ∙ ap
          (λ n. ok (
            some (
              place s.q (latest ∷ older) v
                (if ltb window (suc (length older)) then window else n))))
          whole

  -- With two samples or more, get_value of a window that is not 0 is the operator over the
  -- samples from the latest to the one before the oldest of the window, or the inverse operator
  -- on the latest and the oldest one, over the time between these two. The oldest one is as many
  -- samples before the latest as the window says, or the first one.
  pub get_value_lem :
      (op : A → A → A) (inverse : A → A → A)
      → let k = span window older in
        (oldest : Sample A) × (get_elem? (latest ∷ older) k ≡ some oldest)
        × (get_value op none window s
            ≡ ok (
                some (record {
                  data_value = foldl op latest.data_value (values (take (k - 1) older));
                  time_us = latest.time_us -ℤ oldest.time_us;
                })))
        × (get_value op (some inverse) window s
            ≡ ok (
                some (record {
                  data_value = inverse latest.data_value oldest.data_value;
                  time_us = latest.time_us -ℤ oldest.time_us;
                })))
  unfolding get_value
  get_value_lem op inverse =
      let l = latest ∷ older in
      let k = span window older in
      let (pos, le) = span-bounds in
      let (oldest, at) = get_elem?-total l k (omega arith) in
      let n = count-length s.q l v in
      let open_window : (window == 0) ≡ false = ground arith in
      let many : leb s.q.count 1 ≡ false = ground arith in
      let loop =
        visit_window_lem op s.q l v (k - 1) s.q.count 1 k latest.data_value (omega arith)
          (omega arith) (omega arith) in
      (
        oldest,
        at,
        rw
            (
              open_window,
              many,
              oldest-found,
              bottom-first s.q l v (omega arith),
              load-place s.q l v 0 latest refl (omega arith),
              load-place s.q l v k oldest at (omega arith),
              loop,
            )
            refl,
        rw
            (
              open_window,
              many,
              oldest-found,
              bottom-first s.q l v (omega arith),
              load-place s.q l v 0 latest refl (omega arith),
              load-place s.q l v k oldest at (omega arith),
            )
            refl,
      )

  -- Under the same conditions get_samples adds the values of the samples behind the latest one up
  -- to the oldest of the window, that one left out.
  pub get_samples_lem :
      (samples : List A)
      → get_samples window s samples ≡ ok (samples ++ values (take (span window older - 1) older))
  unfolding get_samples
  get_samples_lem samples =
      let l = latest ∷ older in
      let k = span window older in
      let (pos, le) = span-bounds in
      let n = count-length s.q l v in
      let open_window : (window == 0) ≡ false = ground arith in
      let many : leb s.q.count 1 ≡ false = ground arith in
      let loop =
        visit_window_lem (λ t x. t ++ (x ∷ [])) s.q l v (k - 1) s.q.count 1 k samples (omega arith)
          (omega arith) (omega arith) in
      rw (open_window, many, oldest-found, loop)
        (ap ok (foldl-append samples (values (take (k - 1) older))))

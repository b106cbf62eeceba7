-- ===== src/Sampler/Window.antt =====
-- src/common/sampler.h: what a window of samples gives, `get_value` and `get_samples`.
-- A window is not negative.
use contention_prof.Base.{
  ℕ, zero, suc, ◌+◌, Bool, true, false, List, [], ◌∷◌, ◌++◌, Option, none, some, Outcome, ok, fault,
  spin, ◌>>=◌, leb, ◌==◌, if◌then◌else◌,
}
use contention_prof.Base.Int.{ℤ, ◌-ℤ◌}
use contention_prof.BoundedQueue.{BoundedQueue, bottom, bottom_at, top, load}
use contention_prof.Sampler.{Sample, ReducerSampler}
pub mod Recent
pub mod Value

-- `bottom(window_size)`, or `top()` if that is NULL
unfoldable pub find_oldest : {A : Type 0} → ℕ → BoundedQueue A → Outcome (Option ℕ)
find_oldest window q =
    bottom_at q window >>= (λ e. elim e [ none ↦ ok (top q) | some a ↦ ok (some a) ])

-- `*e` for a pointer that may be NULL
abbrev pub deref : {A : Type 0} → BoundedQueue A → Option ℕ → Outcome A
deref q none = fault
deref q (some a) = load q a

-- `e == oldest` on pointers
abbrev pub same_address : Option ℕ → Option ℕ → Bool
same_address none none = true
same_address none (some b) = false
same_address (some a) none = false
same_address (some a) (some b) = a == b

module _ {A : Type 0} {R : Type 0} where
  -- The loop from `i` on that stops at `oldest`; `visit` is its body. It runs at most once for each
  -- sample.
  unfoldable pub visit_window :
      (visit : R → A → R)
      → BoundedQueue (Sample A)
      → (oldest : Option ℕ) → (fuel i : ℕ) → R
      → Outcome R
  visit_window visit q oldest zero i r = spin
  visit_window visit q oldest (suc fuel) i r = bottom_at q i >>= (λ e.
      if same_address e oldest
      then ok r
      else (deref q e >>= (λ s. visit_window visit q oldest fuel (i + 1) (visit r s.data_value))))

module _ {A : Type 0} (op : A → A → A) (inv_op : Option (A → A → A)) where
  -- `get_value`: what goes through `result`, and none for false. `inv_op` is none when it is
  -- `VoidOp`.
  unfoldable pub get_value : ℕ → ReducerSampler A → Outcome (Option (Sample A))
  unfolding find_oldest visit_window
  get_value window s =
      if window == 0
      then ok none
      else if leb s.q.count 1
      then ok none
      else (find_oldest window s.q >>= (λ oldest_address. bottom s.q >>= (λ latest_address.
          deref s.q latest_address >>= (λ latest. deref s.q oldest_address >>= (λ oldest.
            (elim inv_op [
              | none ↦ visit_window op s.q oldest_address s.q.count 1 latest.data_value
              | some inverse ↦ ok (inverse latest.data_value oldest.data_value)
            ])
            >>= (λ data_value. ok (
                some (record {
                  data_value = data_value;
                  time_us = latest.time_us -ℤ oldest.time_us;
                }))))))))

-- `get_samples`: what is in `*samples` after it
unfoldable pub get_samples : {A : Type 0} → ℕ → ReducerSampler A → List A → Outcome (List A)
unfolding find_oldest visit_window
get_samples window s samples =
    if window == 0
    then ok samples
    else if leb s.q.count 1
    then ok samples
    else (find_oldest window s.q
        >>= (λ oldest. visit_window (λ l x. l ++ (x ∷ [])) s.q oldest s.q.count 1 samples))

-- ===== src/ObjectPool/Race/Family.antt =====
-- Sums over the first threads, and what the move of one thread does to them.
use contention_prof.Base.{
  arith, ℕ, zero, suc, ◌+◌, ◌≡◌, ◌≤◌, ◌<◌, refl, false, ◌==◌, inl, inr, Bool-cases, ==→eq, eq→==,
}
use contention_prof.ObjectPool.Race.{update}

pub sum_below : (ℕ → ℕ) → ℕ → ℕ
sum_below h zero = 0
sum_below h (suc k) = h k + sum_below h k

sum_below-agree :
    (h h' : ℕ → ℕ) (k : ℕ) → ((j : ℕ) → j < k → h j ≡ h' j) → sum_below h k ≡ sum_below h' k
unfolding sum_below
sum_below-agree h h' zero same = refl
sum_below-agree h h' (suc k) same =
    omega (arith, same k (omega arith), sum_below-agree h h' k (λ j lt. same j (omega arith)))

sum_below-change :
    (h h' : ℕ → ℕ) (i k : ℕ)
    → i < k
    → ((j : ℕ) → (i == j) ≡ false → h j ≡ h' j)
    → sum_below h' k + h i ≡ sum_below h k + h' i
unfolding sum_below
sum_below-change h h' i zero lt same = elim lt [ ]
sum_below-change h h' i (suc k) lt same = elim (Bool-cases (i == k)) [
  | inl last ↦
      ground (arith, ==→eq i k last, sum_below-agree h h' k (λ j below. same j (ground arith)))
  | inr earlier ↦ omega (arith, same k earlier, sum_below-change h h' i k (ground arith) same)
]

module _ {ℓ} {A : Type ℓ} (weight : A → ℕ) where
  -- the weights of what the threads below `n` have
  abbrev pub total : ℕ → (ℕ → A) → ℕ
  total n at = sum_below (λ i. weight (at i)) n

  pub total-update :
      (n : ℕ) (at : ℕ → A) (i : ℕ) (new : A)
      → i < n
      → total n (update at i new) + weight (at i) ≡ total n at + weight new
  total-update n at i new lt =
      let here : weight (update at i new i) ≡ weight new = rw (eq→== i i refl) refl in
      ground (
        arith,
        here,
        sum_below-change (λ j. weight (at j)) (λ j. weight (update at i new j)) i n lt
            (λ j away. rw away refl),
      )

  pub total-le : ((a : A) → weight a ≤ 1) → (n : ℕ) (at : ℕ → A) → total n at ≤ n
  unfolding sum_below
  total-le one zero at = omega arith
  total-le one (suc k) at = omega (arith, total-le one k at, one (at k))

  pub total-eq-zero : (n : ℕ) (at : ℕ → A) → ((i : ℕ) → weight (at i) ≡ 0) → total n at ≡ 0
  unfolding sum_below
  total-eq-zero zero at none_has = refl
  total-eq-zero (suc k) at none_has = omega (arith, none_has k, total-eq-zero k at none_has)

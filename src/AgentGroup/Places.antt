-- ===== src/AgentGroup/Places.antt =====
-- The places of a vector of blocks.
use contention_prof.Base.{
  arith, ℕ, zero, suc, ◌≡◌, ◌<◌, refl, List, [], ◌∷◌, ◌++◌, Option, none, some, ltb, if◌then◌else◌,
  length, get_elem?, set, replicate, inl, inr, Bool-cases, ◌==◌,
}
use contention_prof.AgentGroup.{grow}

pub absurd_none : {b : ℕ} → none ≡ some b → ⊥
absurd_none e = cc

-- the block of a place of the vector, if it has one
abbrev pub block_at : List (Option ℕ) → ℕ → Option ℕ
block_at [] i = none
block_at (x ∷ l) zero = x
block_at (x ∷ l) (suc i) = block_at l i

block_at-replicate : (k i : ℕ) → block_at (replicate k none) i ≡ none
block_at-replicate zero i = refl
block_at-replicate (suc k) zero = refl
block_at-replicate (suc k) (suc i) = block_at-replicate k i

block_at-append :
    (l : List (Option ℕ)) (k i : ℕ) → block_at (l ++ replicate k none) i ≡ block_at l i
block_at-append [] k i = block_at-replicate k i
block_at-append (x ∷ l) k zero = refl
block_at-append (x ∷ l) k (suc i) = block_at-append l k i

pub block_at-grow : (b : ℕ) (l : List (Option ℕ)) (i : ℕ) → block_at (grow b l) i ≡ block_at l i
unfolding grow
block_at-grow b l i = elim (Bool-cases (ltb b (length l))) [
  | inl inside ↦ rw inside refl
  | inr short ↦ rw short (block_at-append l _ i)
]

pub block_at-set :
    (l : List (Option ℕ)) (i v j : ℕ)
    → i < length l
    → block_at (set l i (some v)) j ≡ (if i == j then some v else block_at l j)
block_at-set [] i v j lt = absurd (omega arith)
block_at-set (x ∷ l) zero v zero lt = refl
block_at-set (x ∷ l) zero v (suc j) lt = ground arith
block_at-set (x ∷ l) (suc i) v zero lt = ground arith
block_at-set (x ∷ l) (suc i) v (suc j) lt = ground (arith, block_at-set l i v j)

pub get_elem?-block_at :
    (l : List (Option ℕ)) (i : ℕ) {x : Option ℕ} → get_elem? l i ≡ some x → block_at l i ≡ x
get_elem?-block_at [] i e = cc
get_elem?-block_at (y ∷ l) zero e = cc
get_elem?-block_at (y ∷ l) (suc i) e = get_elem?-block_at l i e

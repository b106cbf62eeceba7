-- ===== src/Base/Effect.antt =====
-- The outcome of code that may touch memory it must not (`fault`) or loop for ever (`spin`).
use mathlib.Core.Option.{Option, none, some}

pub data Outcome {ℓ} (A : Type ℓ) : Type ℓ where
  ok : A → Outcome A
  fault : Outcome A
  spin : Outcome A

infixl 5 ◌>>=◌
abbrev pub ◌>>=◌ {ℓ κ} : {A : Type ℓ} {B : Type κ} → Outcome A → (A → Outcome B) → Outcome B
ok a >>= f = f a
fault >>= f = fault
spin >>= f = spin

-- An access that must succeed.
abbrev pub expect {ℓ} : {A : Type ℓ} → Option A → Outcome A
expect none = fault
expect (some a) = ok a

-- ===== src/BoundedQueue/Deque.antt =====
-- What a `BoundedQueue` promises: a list of at most `cap` items, the top first.
use contention_prof.Base.{
  ℕ, Bool, true, false, List, [], ◌∷◌, ◌++◌, Option, none, some, length, drop, ltb, if◌then◌else◌,
}

module _ {A : Type 0} where
  unfoldable pub pop : List A → (Bool × Option A) × List A
  pop [] = ((false, none), [])
  pop (x ∷ xs) = ((true, some x), xs)

  module _ (cap : ℕ) where
    unfoldable pub push : List A → A → Bool × List A
    push xs x = if ltb (length xs) cap then (true, xs ++ (x ∷ [])) else (false, xs)

    -- A full queue loses its top item.
    unfoldable pub elim_push : List A → A → List A
    elim_push xs x = if ltb (length xs) cap then xs ++ (x ∷ []) else drop 1 xs ++ (x ∷ [])

    unfoldable pub push_top : List A → A → Bool × List A
    push_top xs x = if ltb (length xs) cap then (true, x ∷ xs) else (false, xs)

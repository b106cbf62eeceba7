-- ===== src/Collector/Ordered.antt =====
-- `std::map` from an address to a value: pairs in the order of the keys, which is the order of
-- iteration.
use contention_prof.Base.{ℕ, ◌+◌, List, [], ◌∷◌, ◌++◌, ltb, ◌==◌, if◌then◌else◌}

abbrev pub Keyed : Type 0 → Type 0
Keyed V = List (ℕ × V)

module _ {V : Type 0} where
  -- `f` of the value at the key, which is `fresh` where the key is new
  unfoldable pub alter : ℕ → V → (V → V) → Keyed V → Keyed V
  alter k fresh f [] = (k, f fresh) ∷ []
  alter k fresh f ((j, v) ∷ m) =
      if k == j
      then (j, f v) ∷ m
      else if ltb k j
      then (k, f fresh) ∷ (j, v) ∷ m
      else (j, v) ∷ alter k fresh f m

  -- `m[k]` as a value: `fresh` where there is none
  unfoldable pub at : ℕ → V → Keyed V → V
  at k fresh [] = fresh
  at k fresh ((j, v) ∷ m) = if k == j then v else at k fresh m

-- `m[k].push_back(x)`
unfoldable pub push_back : {A : Type 0} → ℕ → A → Keyed (List A) → Keyed (List A)
unfolding alter
push_back k x m = alter k [] (λ xs. xs ++ (x ∷ [])) m

-- `++m[k]`
unfoldable pub increment : ℕ → Keyed ℕ → Keyed ℕ
unfolding alter
increment k m = alter k 0 (λ n. n + 1) m

-- `it->second.clear()` for every entry
unfoldable pub clear_lists : {A : Type 0} → Keyed (List A) → Keyed (List A)
clear_lists [] = []
clear_lists ((k, xs) ∷ m) = (k, []) ∷ clear_lists m

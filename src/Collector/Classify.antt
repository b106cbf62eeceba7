-- ===== src/Collector/Classify.antt =====
-- How the grab thread sorts a chain of samples by preprocessor.
use mathlib.Core.List.{append_assoc, append-nil}
use contention_prof.Base.{
  ℕ, ◌≡◌, refl, sym, ◌∙◌, ap, true, false, arith, inl, inr, ltb, ◌==◌, if◌then◌else◌, Bool-cases,
  List, [], ◌∷◌, ◌++◌, ◌⊎◌, ==→eq,
}
use contention_prof.Collector.{Collected, classify}
use contention_prof.Collector.Ordered.{Keyed, alter, at, push_back}

-- every key of the map lies above `k`
abbrev pub Above : {V : Type 0} → ℕ → Keyed V → Type 0
Above k [] = Unit {0}
Above k ((j, v) ∷ m) = (ltb k j ≡ true) × Above k m

abbrev pub IsOrdered : {V : Type 0} → Keyed V → Type 0
IsOrdered [] = Unit {0}
IsOrdered ((j, v) ∷ m) = Above j m × IsOrdered m

module _ {V : Type 0} where
  pub at-Above : (k : ℕ) (fresh : V) (m : Keyed V) → Above k m → at k fresh m ≡ fresh
  unfolding at
  at-Above k fresh [] h = refl
  at-Above k fresh ((j, v) ∷ m) h = ground (arith, at-Above k fresh m h.1)

  Above-Above : (k j : ℕ) (m : Keyed V) → ltb k j ≡ true → Above j m → Above k m
  Above-Above k j [] lt h = tt
  Above-Above k j ((i, v) ∷ m) lt h = (ground arith, Above-Above k j m lt h.1)

  Above-alter :
      (k j : ℕ) (fresh : V) (f : V → V) (m : Keyed V)
      → ltb j k ≡ true
      → Above j m
      → Above j (alter k fresh f m)
  unfolding alter
  Above-alter k j fresh f [] lt h = (lt, tt)
  Above-alter k j fresh f ((i, v) ∷ m) lt h = ground (arith, Above-alter k j fresh f m lt h.1)

  -- A map stays in the order of its keys.
  pub alter-IsOrdered :
      (k : ℕ) (fresh : V) (f : V → V) (m : Keyed V) → IsOrdered m → IsOrdered (alter k fresh f m)
  unfolding alter
  alter-IsOrdered k fresh f [] h = (tt, tt)
  alter-IsOrdered k fresh f ((j, v) ∷ m) h =
      ground (arith, alter-IsOrdered k fresh f m h.1, Above-alter k j fresh f m, Above-Above k j m)

  pub at-alter :
      (k : ℕ) (fresh : V) (f : V → V) (m : Keyed V) (i : ℕ)
      → IsOrdered m
      → at i fresh (alter k fresh f m) ≡ (if i == k then f (at k fresh m) else at i fresh m)
  unfolding alter at
  at-alter k fresh f [] i h = ground arith
  at-alter k fresh f ((j, v) ∷ m) i h =
      ground (arith, at-alter k fresh f m i h.1, at-Above k fresh m, Above-Above k j m)

-- the samples of a chain with preprocessor `k`, in their order
abbrev pub of_preprocessor : ℕ → List Collected → List Collected
of_preprocessor k [] = []
of_preprocessor k (p ∷ ps) =
    if k == p.preprocessor then p ∷ of_preprocessor k ps else of_preprocessor k ps

-- Sorting a chain into a map whose keys are in order keeps them in order, and appends to the
-- list of every preprocessor exactly its samples, in the order of the chain.
pub classify_lem :
    (k : ℕ) (ps : List Collected) (m : Keyed (List Collected))
    → IsOrdered m
    → IsOrdered (classify ps m) × (at k [] (classify ps m) ≡ at k [] m ++ of_preprocessor k ps)
unfolding classify push_back
classify_lem k [] m h = (h, sym (append-nil (at k [] m)))
classify_lem k (p ∷ ps) m h =
    let m' = push_back p.preprocessor p m in
    let (ordered, rest) =
      classify_lem k ps m' (alter-IsOrdered p.preprocessor [] (λ xs. xs ++ (p ∷ [])) m h) in
    (ordered, rest ∙ here (Bool-cases (k == p.preprocessor)))
  where
    here :
        ((k == p.preprocessor) ≡ true) ⊎ ((k == p.preprocessor) ≡ false)
        → at k [] (push_back p.preprocessor p m) ++ of_preprocessor k ps
          ≡ at k [] m ++ of_preprocessor k (p ∷ ps)
    here (inl hit) =
        let one : k ≡ p.preprocessor = ==→eq k p.preprocessor hit in
        rw (at-alter p.preprocessor [] (λ xs. xs ++ (p ∷ [])) m k h, hit)
          (ap (λ j. (at j [] m ++ (p ∷ [])) ++ of_preprocessor k ps) (sym one)
            ∙ append_assoc (at k [] m) (p ∷ []) (of_preprocessor k ps))
    here (inr miss) = rw (at-alter p.preprocessor [] (λ xs. xs ++ (p ∷ [])) m k h, miss)

-- ===== src/Collector/Limits/Updates.antt =====
-- What the update of the speed limits after a round leaves.
use mathlib.Core.Path.{subst}
use contention_prof.Base.{
  ℕ, ◌≡◌, Bool, ◌||◌, ◌≤◌, ◌<◌, ◌^◌, ◌⊎◌, refl, sym, ◌∙◌, ap, true, false, arith, inl, inr, ◌==◌,
  Bool-cases, [], ◌∷◌, ==→eq,
}
use contention_prof.Base.Int.{ℤ}
use contention_prof.SpeedLimit.{SpeedLimit, update_speed_limit}
use contention_prof.SpeedLimit.Range.{IsValid, update_speed_limit_cases}
use contention_prof.Collector.Ordered.{Keyed, at}
use contention_prof.Collector.Classify.{IsOrdered, Above, alter-IsOrdered, at-alter}
use contention_prof.Collector.Limits.{Limits, update_one, update_all}

-- The limit before and after an update of its `count`, by whether a sample of it came.
abbrev pub Updated : (last count : ℕ) → (old new : SpeedLimit) → Type 0
Updated last count old new =
    ((last ≡ count) × (new ≡ old))
    ⊎ ((last < count)
        × IsValid new
        × (new.ever_grabbed ≡ true)
        × (new.count_before_grabbed ≡ old.count_before_grabbed)
        × (new.first_sample_real_us ≡ old.first_sample_real_us))

pub Updated-cong :
    {a a' b b' : ℕ} {old old' new new' : SpeedLimit}
    → a ≡ a'
    → b ≡ b'
    → old ≡ old'
    → new ≡ new'
    → Updated a b old new
    → Updated a' b' old' new'
Updated-cong p q r s u =
    subst (λ (x : ℕ × ℕ × SpeedLimit × SpeedLimit). Updated x.0 x.1 x.2 x.3)
      (λ i. (p i, q i, r i, s i)) u

update_speed_limit-Updated :
    (expected : ℕ) (sl : SpeedLimit) (last count : ℕ) (interval_us wall_us : ℤ)
    → last ≤ count
    → count < 2 ^ 64
    → let (sl', last') = update_speed_limit expected sl last count interval_us wall_us in
      (last' ≡ count) × Updated last count sl sl'
update_speed_limit-Updated expected sl last count interval wall le small =
    elim (update_speed_limit_cases expected sl last count interval wall) [
      | inl (none, kept, stays) ↦
          let same : last ≡ count = ground arith in (stays ∙ same, inl (same, kept))
      | inr (some_came, valid, grabbed, before, first, new) ↦
          let more : last < count = ground arith in (new, inr (more, valid, grabbed, before, first))
    ]

abbrev has_key : {V : Type 0} → ℕ → Keyed V → Bool
has_key a [] = false
has_key a ((j, v) ∷ m) = (a == j) || has_key a m

has_key-Above : {V : Type 0} (a : ℕ) (m : Keyed V) → Above a m → has_key a m ≡ false
has_key-Above a [] h = refl
has_key-Above a ((j, v) ∷ m) h = ground (arith, has_key-Above a m h.1)

at-has_key : (a : ℕ) (m : Keyed ℕ) → has_key a m ≡ false → at a 0 m ≡ 0
unfolding at
at-has_key a [] h = refl
at-has_key a ((j, v) ∷ m) h = ground (arith, at-has_key a m)

module _ (expected : ℕ) (interval_us : ℤ) (wall_us : ℕ → ℤ) where
  abbrev update : Keyed ℕ → Limits → Limits
  update m l = update_all expected interval_us wall_us m l

  update_one-IsOrdered :
      (j v : ℕ) (l : Limits)
      → IsOrdered l.last_counts
      → IsOrdered (update_one expected interval_us wall_us j v l).last_counts
  unfolding update_one
  update_one-IsOrdered j v l h =
      let (sl, last) =
        update_speed_limit expected (l.limits j) (at j 0 l.last_counts) v interval_us (wall_us j) in
      alter-IsOrdered j 0 (λ _. last) l.last_counts h

  -- one update leaves the others alone
  update_one-other :
      (a j v : ℕ) (l : Limits)
      → (a == j) ≡ false
      → IsOrdered l.last_counts
      → let l' = update_one expected interval_us wall_us j v l in
        (at a 0 l'.last_counts ≡ at a 0 l.last_counts) × (l'.limits a ≡ l.limits a)
  unfolding update_one
  update_one-other a j v l other h =
      let (sl, last) =
        update_speed_limit expected (l.limits j) (at j 0 l.last_counts) v interval_us (wall_us j) in
      (at-alter j 0 (λ _. last) l.last_counts a h ∙ rw other refl, rw other refl)

  update_one-own :
      (j v : ℕ) (l : Limits)
      → IsOrdered l.last_counts
      → at j 0 l.last_counts ≤ v
      → v < 2 ^ 64
      → let l' = update_one expected interval_us wall_us j v l in
        (at j 0 l'.last_counts ≡ v) × Updated (at j 0 l.last_counts) v (l.limits j) (l'.limits j)
  unfolding update_one
  update_one-own j v l h le small =
      let (sl, last) =
        update_speed_limit expected (l.limits j) (at j 0 l.last_counts) v interval_us (wall_us j) in
      let (new, updated) =
        update_speed_limit-Updated expected (l.limits j) (at j 0 l.last_counts) v interval_us
          (wall_us j) le small in
      let here : (j == j) ≡ true = ground arith in
      (at-alter j 0 (λ _. last) l.last_counts j h ∙ rw here new, rw here updated)

  update_all-other :
      (a : ℕ) (m : Keyed ℕ) (l : Limits)
      → has_key a m ≡ false
      → IsOrdered l.last_counts
      → (at a 0 (update m l).last_counts ≡ at a 0 l.last_counts)
        × ((update m l).limits a ≡ l.limits a)
        × IsOrdered (update m l).last_counts
  unfolding update_all
  update_all-other a [] l out h = (refl, refl, h)
  update_all-other a ((j, v) ∷ m) l out h =
      let l' = update_one expected interval_us wall_us j v l in
      let (same, still) = update_one-other a j v l (ground arith) h in
      let (same', still', ordered) =
        update_all-other a m l' (ground arith) (update_one-IsOrdered j v l h) in
      (same' ∙ same, still' ∙ still, ordered)

  update_all-own :
      (a : ℕ) (m : Keyed ℕ) (l : Limits)
      → has_key a m ≡ true
      → IsOrdered m
      → IsOrdered l.last_counts
      → at a 0 l.last_counts ≤ at a 0 m
      → at a 0 m < 2 ^ 64
      → (at a 0 (update m l).last_counts ≡ at a 0 m)
        × Updated (at a 0 l.last_counts) (at a 0 m) (l.limits a) ((update m l).limits a)
  unfolding update_all at
  update_all-own a [] l key o h le small = absurd (ground arith)
  update_all-own a ((j, v) ∷ m) l key (above, o) h le small =
      let l' = update_one expected interval_us wall_us j v l in
      let h' = update_one-IsOrdered j v l h in
      elim (Bool-cases (a == j)) [
        | inl here ↦
            let e : a ≡ j = ==→eq a j here in
            let value : at a 0 ((j, v) ∷ m) ≡ v = rw here refl in
            let out : has_key a m ≡ false = ground (arith, has_key-Above j m above) in
            let (same, still, _) = update_all-other a m l' out h' in
            let le_v : at j 0 l.last_counts ≤ v =
              subst (λ x. at x 0 l.last_counts ≤ v) e (omega (arith, le, value)) in
            let (own, updated) = update_one-own j v l h le_v (omega (arith, small, value)) in
            let back = sym e in
            (
              same ∙ ap (λ x. at x 0 l'.last_counts) e ∙ own ∙ sym value,
              Updated-cong (ap (λ x. at x 0 l.last_counts) back) (sym value) (ap l.limits back)
                  (ap l'.limits back ∙ sym still) updated,
            )
        | inr other ↦
            let value : at a 0 ((j, v) ∷ m) ≡ at a 0 m = rw other refl in
            let (same, still) = update_one-other a j v l other h in
            let (last, updated) =
              update_all-own a m l' (ground arith) o h' (omega (arith, le, same, value))
                (omega (arith, small, value)) in
            (last ∙ sym value, Updated-cong same (sym value) still refl updated)
      ]

  pub update_all-IsOrdered :
      (m : Keyed ℕ) (l : Limits) → IsOrdered l.last_counts → IsOrdered (update m l).last_counts
  unfolding update_all
  update_all-IsOrdered [] l h = h
  update_all-IsOrdered ((j, v) ∷ m) l h =
      update_all-IsOrdered m (update_one expected interval_us wall_us j v l)
        (update_one-IsOrdered j v l h)

  -- When the counts of the map are not below those of the last update, and below 2 ^ 64, the update
  -- leaves each limit with its count as the last one. The limit is as it was when its count is the
  -- last one, and grabbed with a range between 1 and the base when its count is larger.
  pub update_all_lem :
      (m : Keyed ℕ) (l : Limits)
      → IsOrdered m
      → IsOrdered l.last_counts
      → ((a : ℕ) → at a 0 l.last_counts ≤ at a 0 m)
      → ((a : ℕ) → at a 0 m < 2 ^ 64)
      → (a : ℕ)
      → (at a 0 (update m l).last_counts ≡ at a 0 m)
        × Updated (at a 0 l.last_counts) (at a 0 m) (l.limits a) ((update m l).limits a)
  update_all_lem m l o h le small a = elim (Bool-cases (has_key a m)) [
    | inl key ↦ update_all-own a m l key o h (le a) (small a)
    | inr out ↦
        let (same, still, _) = update_all-other a m l out h in
        let zero : at a 0 m ≡ 0 = at-has_key a m out in
        let first : at a 0 l.last_counts ≡ at a 0 m = omega (arith, le a, zero) in
        (same ∙ first, inl (first, still))
  ]

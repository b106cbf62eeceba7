-- ===== src/SpeedLimit/Range.antt =====
-- Where `update_speed_limit` can take the sampling range.
use native.Mathlib.Nat.{mod-eq_of_lt, mul-div_cancel_left}
use contention_prof.Base.{
  ℕ, ◌+◌, ◌-◌, ◌*◌, ◌/◌, ◌^◌, ◌≤◌, ◌<◌, ◌≡◌, ◌≢◌, refl, ◌∙◌, ap, true, arith, inl, inr, ltb, ◌==◌,
  if◌then◌else◌, Bool-cases, u64, sub64, not, ltb→lt, lt→ltb, ◌⊎◌,
}
use contention_prof.Base.Int.{ℤ}
use contention_prof.SpeedLimit.{
  SpeedLimit, sampling_base, scaled, first_range, next_range, clamp_range, update_speed_limit,
  at_least_zero,
}

-- The range is one that can be sampled with and divided by.
pub record IsValid (sl : SpeedLimit) : Type 0 where
  pub above_zero : 1 ≤ sl.sampling_range
  pub within : sl.sampling_range ≤ sampling_base

pub clamp_bounds : (n : ℕ) → (1 ≤ clamp_range n) × (clamp_range n ≤ sampling_base)
unfolding clamp_range
clamp_bounds n = ground arith

-- Whatever the clocks and counts say, either nothing was grabbed and neither the limit nor the
-- count changes, or something was, and the new range lies between 1 and the base, the limit is marked as grabbed, the
-- new count is stored and the other fields stay.
pub update_speed_limit_cases :
    (expected : ℕ) (sl : SpeedLimit) (last_grab_count cur_grab_count : ℕ) (interval_us wall_us : ℤ)
    → let (sl', last') =
        update_speed_limit expected sl last_grab_count cur_grab_count interval_us wall_us in
      ((sub64 cur_grab_count last_grab_count ≡ 0) × (sl' ≡ sl) × (last' ≡ last_grab_count))
      ⊎ ((sub64 cur_grab_count last_grab_count ≢ 0)
          × IsValid sl'
          × (sl'.ever_grabbed ≡ true)
          × (sl'.count_before_grabbed ≡ sl.count_before_grabbed)
          × (sl'.first_sample_real_us ≡ sl.first_sample_real_us)
          × (last' ≡ cur_grab_count))
unfolding update_speed_limit
update_speed_limit_cases expected sl last cur interval wall =
    elim (Bool-cases (sub64 cur last == 0)) [
      | inl same ↦ rw same (inl (ground arith, refl, refl))
      | inr grabbed ↦ rw grabbed (
          inr (
            (λ e. ground arith),
            bounds (
                if not sl.ever_grabbed
                then first_range expected (sub64 cur last) interval wall sl
                else next_range expected (sub64 cur last) (at_least_zero interval)
                    sl.sampling_range),
            refl,
            refl,
            refl,
            refl,
          ))
    ]
  where
    bounds :
        (n : ℕ)
        → IsValid (record sl {
          sampling_range =
              if clamp_range n == sl.sampling_range then sl.sampling_range else clamp_range n;
          ever_grabbed = true;
        })
    bounds n = ground (arith, clamp_bounds n)

mul_mono : (a b k : ℕ) → a ≤ b → a * k ≤ b * k
mul_mono a b k h = grind arith

-- A weighted mean of `t` and `o` lies between any bounds of both.
weighted_mean :
    (lo hi t o i j : ℕ)
    → i + j ≡ 1000000
    → lo ≤ t
    → t ≤ hi
    → lo ≤ o
    → o ≤ hi
    → (lo ≤ (t * i + o * j) / 1000000) × ((t * i + o * j) / 1000000 ≤ hi)
weighted_mean lo hi t o i j e a b c d =
    let low : lo * 1000000 ≤ t * i + o * j =
      omega (arith, mul_mono lo t i a, mul_mono lo o j c, ap (λ (n : ℕ). lo * n) e) in
    let high : t * i + o * j ≤ hi * 1000000 =
      omega (arith, mul_mono t hi i b, mul_mono o hi j d, ap (λ (n : ℕ). hi * n) e) in
    (omega arith, omega arith)

-- `expected * interval * old` fits, so the target is the exact quotient.
target_exact :
    (expected round interval old : ℕ)
    → expected * interval < 2 ^ 64
    → expected * interval * old < 2 ^ 64
    → 1000000 * round < 2 ^ 64
    → scaled expected interval old round ≡ expected * interval * old / (1000000 * round)
target_exact expected round interval old f₀ f₁ f₂ =
    rw (mod-eq_of_lt f₀, mod-eq_of_lt f₁, mod-eq_of_lt f₂)

mix_exact :
    (target interval old : ℕ)
    → target < 2 ^ 44
    → interval < 1000000
    → old ≤ sampling_base
    → u64 (u64 (target * interval) + u64 (old * (1000000 - interval)))
      ≡ target * interval + old * (1000000 - interval)
mix_exact target interval old h short old_in =
    let left : target * interval ≤ 2 ^ 44 * interval =
      mul_mono target (2 ^ 44) interval (omega arith) in
    let right : old * (1000000 - interval) ≤ 16384 * (1000000 - interval) =
      mul_mono old 16384 (1000000 - interval) old_in in
    rw (
      mod-eq_of_lt (let p : target * interval < 2 ^ 64 = omega arith in p),
      mod-eq_of_lt (let p : old * (1000000 - interval) < 2 ^ 64 = omega arith in p),
      mod-eq_of_lt
          (let p : target * interval + old * (1000000 - interval) < 2 ^ 64 = omega arith in p),
    )

-- Without a wrap the next range is a weighted mean, by the length of the round.
next_range-mean :
    (expected round interval old : ℕ)
    → interval < 1000000
    → old ≤ sampling_base
    → expected * interval < 2 ^ 64
    → expected * interval * old < 2 ^ 64
    → 1000000 * round < 2 ^ 64
    → let target = expected * interval * old / (1000000 * round) in
      target < 2 ^ 44
      → next_range expected round interval old
        ≡ (target * interval + old * (1000000 - interval)) / 1000000
unfolding next_range
next_range-mean expected round interval old short old_in f₀ f₁ f₂ small =
    let target = expected * interval * old / (1000000 * round) in
    let exact : scaled expected interval old round ≡ target =
      target_exact expected round interval old f₀ f₁ f₂ in
    rw (lt→ltb interval 1000000 short, exact, mix_exact target interval old small short old_in)

-- In a round shorter than a second whose products stay below 2 ^ 44 the next range lies between
-- any bounds of the old range and of the target expected * interval * old / (1000000 * round).
pub next_range_between :
    (expected round_grab_count interval_us old lo hi : ℕ)
    → interval_us < 1000000
    → old ≤ sampling_base
    → expected * interval_us < 2 ^ 44
    → expected * interval_us * old < 2 ^ 44
    → 1000000 * round_grab_count < 2 ^ 64
    → 0 < round_grab_count
    → let target = expected * interval_us * old / (1000000 * round_grab_count) in
      lo ≤ target
      → target ≤ hi
      → lo ≤ old
      → old ≤ hi
      → (lo ≤ next_range expected round_grab_count interval_us old)
        × (next_range expected round_grab_count interval_us old ≤ hi)
unfolding next_range
next_range_between expected round interval old lo hi short old_in f₀ f₁ f₂ some_grabbed a b c d =
    let target = expected * interval * old / (1000000 * round) in
    let small : target < 2 ^ 44 = omega arith in
    rw
      (next_range-mean expected round interval old short old_in (omega arith) (omega arith) f₂
        small)
      (weighted_mean lo hi target old interval (1000000 - interval) (omega arith) a b c d)

whole : (o i j : ℕ) → i + j ≡ 1000000 → (o * i + o * j) / 1000000 ≡ o
whole o i j e = omega (arith, ap (λ (n : ℕ). o * n) e)

-- When a round grabs at exactly the expected rate, the range stays as it is.
pub next_range_steady :
    (expected round_grab_count interval_us old : ℕ)
    → old ≤ sampling_base
    → expected * interval_us * old < 2 ^ 64
    → expected * interval_us ≡ 1000000 * round_grab_count
    → 0 < round_grab_count
    → 1000000 * round_grab_count < 2 ^ 64
    → next_range expected round_grab_count interval_us old ≡ old
unfolding next_range
next_range_steady expected round interval old old_in f₁ rate some_grabbed f₂ =
    let target = expected * interval * old / (1000000 * round) in
    let same : target ≡ old =
      ap (λ (n : ℕ). n * old / (1000000 * round)) rate
      ∙ mul-div_cancel_left old (let p : 0 < 1000000 * round = omega arith in p) in
    let f₀ : expected * interval < 2 ^ 64 = omega arith in
    elim (Bool-cases (ltb interval 1000000)) [
      | inl short ↦
          let i : interval < 1000000 = ltb→lt _ _ short in
          next_range-mean expected round interval old i old_in f₀ f₁ f₂ (omega arith)
          ∙ ap (λ (n : ℕ). (n * interval + old * (1000000 - interval)) / 1000000) same
          ∙ whole old interval (1000000 - interval) (omega arith)
      | inr long ↦ rw long (target_exact expected round interval old f₀ f₁ f₂ ∙ same)
    ]

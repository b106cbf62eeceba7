-- ===== src/Timespec/Normal.antt =====
-- What a normalised time stands for.
use contention_prof.Base.{
  arith, ℕ, suc, ◌+◌, ◌*◌, ◌/◌, ◌≡◌, ◌<◌, ◌≤◌, refl, leb, inl, inr, Bool-cases,
}
use contention_prof.Base.Int.{ℤ, pos, negsuc, pos_part, neg_part, sub_ℕ, ◌+ℤ◌, ◌-ℤ◌}
use contention_prof.Timespec.{Timespec, second, timespec_normalize, normalize_by}

-- `a` is `b` nanoseconds in all, with both sides moved to where they are not negative.
abbrev pub IsSameTime : Timespec → Timespec → Type 0
IsSameTime a b =
    pos_part a.tv_sec * second
      + pos_part a.tv_nsec
      + neg_part b.tv_sec * second
      + neg_part b.tv_nsec
    ≡ pos_part b.tv_sec * second
      + pos_part b.tv_nsec
      + neg_part a.tv_sec * second
      + neg_part a.tv_nsec

-- The nanoseconds are between 0 and 999999999.
abbrev pub IsNormal : Timespec → Type 0
IsNormal t = (neg_part t.tv_nsec ≡ 0) × (pos_part t.tv_nsec < second)

parts-sub_ℕ : (a b : ℕ) → pos_part (sub_ℕ a b) + b ≡ a + neg_part (sub_ℕ a b)
parts-sub_ℕ a b = ground arith

neg-sub_ℕ : (a b : ℕ) → b ≤ a → neg_part (sub_ℕ a b) ≡ 0
neg-sub_ℕ a b le = ground arith

normalize_by_lem :
    (sec nsec : ℤ)
    → let n = normalize_by sec nsec in
      IsNormal n × IsSameTime n (record { tv_sec = sec; tv_nsec = nsec })
unfolding ◌+ℤ◌ ◌-ℤ◌
normalize_by_lem s (pos n) = elim (Bool-cases (leb second n)) [
  | inl over ↦
      let added = parts-sub_ℕ (pos_part s + n / second) (neg_part s + 0) in
      let rest = parts-sub_ℕ (n + 0) (0 + n / second * second) in
      let up = neg-sub_ℕ (n + 0) (0 + n / second * second) (omega arith) in
      rw over ((up, omega (arith, up, rest)), omega (arith, up, rest, added))
  | inr under ↦ rw under ((refl, ground arith), refl)
]
normalize_by_lem s (negsuc n) =
    let k = (n + second) / second in
    let added = parts-sub_ℕ (pos_part s + 0) (neg_part s + k) in
    let rest = parts-sub_ℕ (0 + k * second) (suc n + 0) in
    let up = neg-sub_ℕ (0 + k * second) (suc n + 0) (omega arith) in
    ((up, omega (arith, up, rest)), omega (arith, up, rest, added))

-- timespec_normalize leaves the same time, with nanoseconds between 0 and 999999999, for every
-- time.
pub timespec_normalize_lem :
    (t : Timespec) → let n = timespec_normalize t in IsNormal n × IsSameTime n t
unfolding timespec_normalize
timespec_normalize_lem t = normalize_by_lem t.tv_sec t.tv_nsec

-- ===== src/FastRand/Bounds.antt =====
-- Where the numbers lie, and how likely each is.
use contention_prof.Base.{
  ◌⊎◌, arith, ℕ, zero, suc, ◌+◌, ◌-◌, ◌*◌, ◌/◌, ◌^◌, ◌==◌, ◌≡◌, ◌≤◌, ◌<◌, ◌↔◌, ltb, if◌then◌else◌,
  u64, Option, none, some, Bool-cases, Option-cases, inl, inr,
}
use contention_prof.FastRand.{
  FastRandSeed, xorshift128_next, bucket, fast_rand_impl, draw_between, fast_rand_in_u64, ready,
}

pub xorshift128_next-lt : (seed : FastRandSeed) → (xorshift128_next seed).0 < 2 ^ 64
unfolding xorshift128_next
xorshift128_next-lt seed = omega arith

-- A number that the loop returns is below the range.
pub fast_rand_impl-lt :
    (fuel range r : ℕ) (seed seed' : FastRandSeed)
    → fast_rand_impl fuel range seed ≡ some (r, seed')
    → r < range
unfolding fast_rand_impl
fast_rand_impl-lt zero range r seed seed' h = ground arith
fast_rand_impl-lt (suc fuel) range r seed seed' h =
    let (x, next) = xorshift128_next seed in
    elim (Bool-cases (ltb (x / bucket range) range)) [
      | inl hit ↦ ground arith
      | inr miss ↦ fast_rand_impl-lt fuel range r next seed' (ground arith)
    ]

draw_between-IsBetween :
    (fuel min max r : ℕ) (seed seed' : FastRandSeed)
    → min ≤ max
    → max < 2 ^ 64
    → draw_between fuel min max seed ≡ some (r, seed')
    → (min ≤ r) × (r ≤ max)
unfolding draw_between
draw_between-IsBetween fuel min max r seed seed' le top h =
    let range = u64 (max - min + 1) in
    elim (Bool-cases (range == 0)) [
      | inl all ↦
          let lt : (xorshift128_next seed).0 < 2 ^ 64 = xorshift128_next-lt seed in ground arith
      | inr part ↦ elim (Option-cases (fast_rand_impl fuel range seed)) [
        | inl out ↦ ground arith
        | inr ((k, next), drawn) ↦
            let lt : k < range = fast_rand_impl-lt fuel range k seed next drawn in ground arith
      ]
    ]

-- A number that fast_rand_in_u64 returns lies between its bounds, in either order, both
-- included.
pub fast_rand_in_u64-IsBetween :
    (fuel now min max r : ℕ) (seed seed' : FastRandSeed)
    → min < 2 ^ 64
    → max < 2 ^ 64
    → fast_rand_in_u64 fuel now min max seed ≡ some (r, seed')
    → ((min ≤ r) × (r ≤ max)) ⊎ ((max ≤ r) × (r ≤ min))
unfolding fast_rand_in_u64
fast_rand_in_u64-IsBetween fuel now min max r seed seed' hmin hmax h =
    elim (Bool-cases (min == max)) [
      | inl same ↦ inl (ground arith, ground arith)
      | inr other ↦ elim (Bool-cases (ltb max min)) [
        | inl swapped ↦ inr (
            draw_between-IsBetween fuel max min r (ready now seed) seed' (ground arith) hmin
              (ground arith))
        | inr ordered ↦ inl (
            draw_between-IsBetween fuel min max r (ready now seed) seed' (ground arith) hmax
              (ground arith))
      ]
    ]

drawn_lem :
    (x q range r : ℕ) (next : FastRandSeed)
    → 0 < q
    → let out : Option (ℕ × FastRandSeed) =
        if◌then◌else◌ {A = Option (ℕ × FastRandSeed)}
          (ltb (x / q) range)
          (some (x / q, next))
          none in
      (out ≡ some (r, next)) ↔ ((r < range) × (r * q ≤ x) × (x < r * q + q))
drawn_lem x q range r next pos = (
  λ h. (grind arith, grind arith, grind arith),
  λ (lt, low, high). let e : x / q ≡ r = grind arith in ground arith,
)

-- For a range between 1 and 2 ^ 64 - 1, r is returned from the first draw exactly when r is
-- below the range and the draw is one of the bucket range numbers from r * bucket range on, the
-- same count of them for every r.
pub fast_rand_impl_uniform :
    (range r : ℕ) (seed : FastRandSeed)
    → 0 < range
    → range < 2 ^ 64
    → let (x, seed') = xorshift128_next seed in
      (fast_rand_impl 1 range seed ≡ some (r, seed'))
      ↔ ((r < range) × (r * bucket range ≤ x) × (x < r * bucket range + bucket range))
unfolding fast_rand_impl
fast_rand_impl_uniform range r seed pos small =
    drawn_lem (xorshift128_next seed).0 (bucket range) range r (xorshift128_next seed).1
      (grind arith)

-- ===== src/FastRand/Signed.antt =====
-- Where the numbers of both functions with two bounds lie.
use mathlib.Core.Path.{subst}
use contention_prof.Base.{
  ◌⊎◌, ==→eq, arith, ℕ, ◌+◌, ◌-◌, ◌^◌, ◌==◌, ◌≡◌, ◌≤◌, ◌<◌, ltb, u64, sub64, some, Bool-cases,
  Option-cases, inl, inr, ltb→lt, ltb_false→le,
}
use contention_prof.FastRand.{
  FastRandSeed, fast_rand_impl, raised, draw_between_64, fast_rand_in_64, fast_rand_in_u64, ready,
}
use contention_prof.FastRand.Bounds.{fast_rand_impl-lt, fast_rand_in_u64-IsBetween}

raised-whole :
    (min max : ℕ)
    → min < 2 ^ 64
    → max < 2 ^ 64
    → raised min ≤ raised max
    → u64 (sub64 max min + 1) ≡ 0
    → (raised min ≡ 0) × (raised max ≡ 2 ^ 64 - 1)
raised-whole min max hmin hmax le e = (omega arith, omega arith)

raised-sum :
    (min max r : ℕ)
    → min < 2 ^ 64
    → max < 2 ^ 64
    → raised min ≤ raised max
    → r < u64 (sub64 max min + 1)
    → (raised min ≤ raised (u64 (min + r))) × (raised (u64 (min + r)) ≤ raised max)
raised-sum min max r hmin hmax le lt = (omega arith, omega arith)

draw_between_64-IsBetween :
    (fuel min max r : ℕ) (seed seed' : FastRandSeed)
    → min < 2 ^ 64
    → max < 2 ^ 64
    → raised min ≤ raised max
    → draw_between_64 fuel min max seed ≡ some (r, seed')
    → (raised min ≤ raised r) × (raised r ≤ raised max)
unfolding draw_between_64
draw_between_64-IsBetween fuel min max r seed seed' hmin hmax le h =
    let range = u64 (sub64 max min + 1) in
    elim (Bool-cases (range == 0)) [
      | inl all ↦
          let zero : range ≡ 0 = ==→eq range 0 all in
          let (low, high) = raised-whole min max hmin hmax le zero in
          (omega (arith, low), omega (arith, high))
      | inr part ↦ elim (Option-cases (fast_rand_impl fuel range seed)) [
        | inl out ↦ absurd (ground arith)
        | inr ((k, next), drawn) ↦
            let lt : k < range = fast_rand_impl-lt fuel range k seed next drawn in
            let sum : u64 (min + k) ≡ r = ground arith in
            subst (λ x. (raised min ≤ raised x) × (raised x ≤ raised max)) sum
              (raised-sum min max k hmin hmax le lt)
      ]
    ]

fast_rand_in_64-IsBetween :
    (fuel now min max r : ℕ) (seed seed' : FastRandSeed)
    → min < 2 ^ 64
    → max < 2 ^ 64
    → fast_rand_in_64 fuel now min max seed ≡ some (r, seed')
    → ((raised min ≤ raised r) × (raised r ≤ raised max))
      ⊎ ((raised max ≤ raised r) × (raised r ≤ raised min))
unfolding fast_rand_in_64
fast_rand_in_64-IsBetween fuel now min max r seed seed' hmin hmax h =
    let start = ready now seed in
    elim (Bool-cases (min == max)) [
      | inl same ↦
          let e : min ≡ max = ==→eq min max same in
          let here : min ≡ r = ground arith in inl (omega (arith, here), omega (arith, here, e))
      | inr other ↦ elim (Bool-cases (ltb (raised max) (raised min))) [
        | inl swapped ↦
            let lt : raised max < raised min = ltb→lt _ _ swapped in
            inr (
              draw_between_64-IsBetween fuel max min r start seed' hmax hmin (omega (arith, lt))
                (ground arith))
        | inr ordered ↦
            let le : raised min ≤ raised max = ltb_false→le _ _ ordered in
            inl (draw_between_64-IsBetween fuel min max r start seed' hmin hmax le (ground arith))
      ]
    ]

-- A number that fast_rand_in_u64 or fast_rand_in_64 returns lies between its bounds, as the type
-- orders them, in either order, both included.
pub fast_rand_in-IsBetween :
    (fuel now min max r r' : ℕ) (seed seed₁ seed₂ : FastRandSeed)
    → min < 2 ^ 64
    → max < 2 ^ 64
    → fast_rand_in_u64 fuel now min max seed ≡ some (r, seed₁)
    → fast_rand_in_64 fuel now min max seed ≡ some (r', seed₂)
    → (((min ≤ r) × (r ≤ max)) ⊎ ((max ≤ r) × (r ≤ min)))
      × (((raised min ≤ raised r') × (raised r' ≤ raised max))
          ⊎ ((raised max ≤ raised r') × (raised r' ≤ raised min)))
fast_rand_in-IsBetween fuel now min max r r' seed seed₁ seed₂ hmin hmax h h' = (
  fast_rand_in_u64-IsBetween fuel now min max r seed seed₁ hmin hmax h,
  fast_rand_in_64-IsBetween fuel now min max r' seed seed₂ hmin hmax h',
)

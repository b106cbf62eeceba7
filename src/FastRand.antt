-- ===== src/FastRand.antt =====
-- src/common/fast_rand.cpp: a pseudo-random generator, and numbers below a bound or between two.
use Prim.Native.Nat.{bit_xor}
use contention_prof.Base.{
  ℕ, zero, suc, ◌+◌, ◌-◌, ◌*◌, ◌/◌, ◌%◌, ◌^◌, ◌==◌, Bool, true, false, ◌&&◌, ltb, leb,
  if◌then◌else◌, u64, sub64, Option, none, some,
}
pub mod Bounds
pub mod Signed
mod Tests

-- `FastRandSeed`
pub record FastRandSeed : Type 0 where
  pub s0 : ℕ
  pub s1 : ℕ

-- `splitmix64_next`: the number and the next seed
unfoldable pub splitmix64_next : ℕ → ℕ × ℕ
splitmix64_next seed =
    let z₀ = u64 (seed + 0x9E3779B97F4A7C15) in
    let z₁ = u64 (bit_xor z₀ (z₀ / 2 ^ 30) * 0xBF58476D1CE4E5B9) in
    let z₂ = u64 (bit_xor z₁ (z₁ / 2 ^ 27) * 0x94D049BB133111EB) in (bit_xor z₂ (z₂ / 2 ^ 31), z₀)

-- `xorshift128_next`
unfoldable pub xorshift128_next : FastRandSeed → ℕ × FastRandSeed
xorshift128_next seed =
    let s1 = bit_xor seed.s0 (u64 (seed.s0 * 2 ^ 23)) in
    let s0 = seed.s1 in
    let next = bit_xor (bit_xor (bit_xor s1 s0) (s1 / 2 ^ 18)) (s0 / 2 ^ 5) in
    (u64 (next + s0), record { s0 = s0; s1 = next })

-- `init_fast_rand_seed` at a time of the day
unfoldable pub init_fast_rand_seed : ℕ → FastRandSeed
unfolding splitmix64_next
init_fast_rand_seed now =
    let (a, seed) = splitmix64_next (u64 now) in
    let (b, rest) = splitmix64_next seed in record { s0 = a; s1 = b }

unfoldable pub need_init : FastRandSeed → Bool
need_init seed = (seed.s0 == 0) && (seed.s1 == 0)

-- `if (need_init(tls_seed_)) { init_fast_rand_seed(&tls_seed_); }`
unfoldable pub ready : ℕ → FastRandSeed → FastRandSeed
unfolding need_init init_fast_rand_seed
ready now seed = if need_init seed then init_fast_rand_seed now else seed

-- `fast_rand`
unfoldable pub fast_rand : ℕ → FastRandSeed → ℕ × FastRandSeed
unfolding ready xorshift128_next
fast_rand now seed = xorshift128_next (ready now seed)

-- The size of the `range` buckets.
abbrev pub bucket : ℕ → ℕ
bucket range = (2 ^ 64 - 1) / range

-- The loop of `fast_rand_impl`, with at most `fuel` numbers drawn; it may draw any number of them,
-- and `none` is a run that is not over.
unfoldable pub fast_rand_impl : (fuel range : ℕ) → FastRandSeed → Option (ℕ × FastRandSeed)
unfolding xorshift128_next
fast_rand_impl zero range seed = none
fast_rand_impl (suc fuel) range seed =
    let (x, seed') = xorshift128_next seed in
    let again = fast_rand_impl fuel range seed' in
    if ltb (x / bucket range) range then some (x / bucket range, seed') else again

-- `fast_rand_less_than`
unfoldable pub fast_rand_less_than : (fuel now range : ℕ) → FastRandSeed → Option (ℕ × FastRandSeed)
unfolding ready fast_rand_impl
fast_rand_less_than fuel now range seed =
    if range == 0 then some (0, seed) else fast_rand_impl fuel range (ready now seed)

-- From the test for an empty range on, when `min <= max`.
unfoldable pub draw_between : (fuel min max : ℕ) → FastRandSeed → Option (ℕ × FastRandSeed)
unfolding xorshift128_next fast_rand_impl
draw_between fuel min max seed =
    let range = u64 (max - min + 1) in
    if range == 0 then some (xorshift128_next seed) else elim (fast_rand_impl fuel range seed) [
      | none ↦ none
      | some (r, seed') ↦ some (u64 (min + r), seed')
    ]

-- `fast_rand_in_u64`
unfoldable pub fast_rand_in_u64 : (fuel now min max : ℕ) → FastRandSeed → Option (ℕ × FastRandSeed)
unfolding ready draw_between
fast_rand_in_u64 fuel now min max seed₀ =
    let seed = ready now seed₀ in
    if min == max
    then some (min, seed)
    else if ltb max min
    then draw_between fuel max min seed
    else draw_between fuel min max seed

-- The value of an `int64_t` with these bits, raised by 2 ^ 63: `<` of the values is `<` of these.
abbrev pub raised : ℕ → ℕ
raised bits = u64 (bits + 2 ^ 63)

-- From the test for an empty range on, when `min <= max`, on the bits of an `int64_t`. The
-- difference of the bounds wraps.
unfoldable pub draw_between_64 : (fuel min max : ℕ) → FastRandSeed → Option (ℕ × FastRandSeed)
unfolding xorshift128_next fast_rand_impl
draw_between_64 fuel min max seed =
    let range = u64 (sub64 max min + 1) in
    if range == 0 then some (xorshift128_next seed) else elim (fast_rand_impl fuel range seed) [
      | none ↦ none
      | some (r, seed') ↦ some (u64 (min + r), seed')
    ]

-- `fast_rand_in_64` on the bits of its bounds
unfoldable pub fast_rand_in_64 : (fuel now min max : ℕ) → FastRandSeed → Option (ℕ × FastRandSeed)
unfolding ready draw_between_64
fast_rand_in_64 fuel now min max seed₀ =
    let seed = ready now seed₀ in
    if min == max
    then some (min, seed)
    else if ltb (raised max) (raised min)
    then draw_between_64 fuel max min seed
    else draw_between_64 fuel min max seed

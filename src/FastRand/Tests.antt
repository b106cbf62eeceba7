-- ===== src/FastRand/Tests.antt =====
-- Numbers from a seed.
use contention_prof.Base.{ℕ, ◌+◌, ◌*◌, ◌≡◌, ◌≤◌, ◌<◌, ◌⊎◌, ◌↔◌, refl, some, arith}
use contention_prof.FastRand.{
  FastRandSeed, xorshift128_next, bucket, fast_rand_impl, fast_rand_in_u64, fast_rand_in_64, raised,
  ready, need_init, draw_between, draw_between_64,
}
use contention_prof.FastRand.Bounds.{fast_rand_impl_uniform}
use contention_prof.FastRand.Signed.{fast_rand_in-IsBetween}

abbrev seed : FastRandSeed
seed = record { s0 = 1; s1 = 2 }

abbrev next : FastRandSeed
next = (xorshift128_next seed).1

first_number : (xorshift128_next seed).0 ≡ 8388645
unfolding xorshift128_next
first_number = refl

drawn : fast_rand_in_u64 1 0 100 50 seed ≡ some (50, next)
unfolding fast_rand_in_u64 ready need_init draw_between fast_rand_impl
drawn = refl

-- the bits of -1
abbrev minus_one : ℕ
minus_one = 0xffff_ffff_ffff_ffff

drawn_unsigned : fast_rand_in_u64 1 0 1 minus_one seed ≡ some (8388646, next)
unfolding fast_rand_in_u64 ready need_init draw_between fast_rand_impl
drawn_unsigned = refl

-- between -1 and 1
drawn_signed : fast_rand_in_64 1 0 1 minus_one seed ≡ some (minus_one, next)
unfolding fast_rand_in_64 ready need_init draw_between_64 fast_rand_impl
drawn_signed = refl

fast_rand_in-IsBetween_example :
    (((1 ≤ 8388646) × (8388646 ≤ minus_one)) ⊎ ((minus_one ≤ 8388646) × (8388646 ≤ 1)))
    × (((raised 1 ≤ raised minus_one) × (raised minus_one ≤ raised minus_one))
        ⊎ ((raised minus_one ≤ raised minus_one) × (raised minus_one ≤ raised 1)))
fast_rand_in-IsBetween_example =
    fast_rand_in-IsBetween 1 0 1 minus_one 8388646 minus_one seed next next (omega arith)
      (omega arith) drawn_unsigned drawn_signed

fast_rand_impl_uniform_example :
    let (x, seed') = xorshift128_next seed in
    (fast_rand_impl 1 51 seed ≡ some (0, seed'))
    ↔ ((0 < 51) × (0 * bucket 51 ≤ x) × (x < 0 * bucket 51 + bucket 51))
fast_rand_impl_uniform_example = fast_rand_impl_uniform 51 0 seed (omega arith) (omega arith)

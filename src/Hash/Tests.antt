-- ===== src/Hash/Tests.antt =====
-- Published values of the hash.
use contention_prof.Base.{◌≡◌, refl, [], ◌∷◌, ◌<◌, ◌^◌, arith}
use contention_prof.Hash.Mix.{unmix64, unmix64-fmix64}
use contention_prof.Hash.{fmix64, murmur_hash3_x86_32}

empty_seed_zero : murmur_hash3_x86_32 [] 0 ≡ 0
unfolding murmur_hash3_x86_32
empty_seed_zero = refl

empty_seed_one : murmur_hash3_x86_32 [] 1 ≡ 0x514e28b7
unfolding murmur_hash3_x86_32
empty_seed_one = refl

test_seed_zero : murmur_hash3_x86_32 (b't' ∷ b'e' ∷ b's' ∷ b't' ∷ []) 0 ≡ 0xba6bd213
unfolding murmur_hash3_x86_32
test_seed_zero = refl

hello_world :
    murmur_hash3_x86_32
      (b'H' ∷ b'e' ∷ b'l' ∷ b'l' ∷ b'o' ∷ b',' ∷ 32 ∷ b'w' ∷ b'o' ∷ b'r' ∷ b'l' ∷ b'd' ∷ b'!' ∷ [])
      0x9747b28c
    ≡ 0x24884cba
unfolding murmur_hash3_x86_32
hello_world = refl

unmix64-fmix64_example : (fmix64 12345 < 2 ^ 64) × (unmix64 (fmix64 12345) ≡ 12345)
unmix64-fmix64_example = unmix64-fmix64 12345 (omega arith)

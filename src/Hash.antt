-- ===== src/Hash.antt =====
-- src/common/common.cpp and src/common/murmurhash3.cpp: the mixers and the hash of stack frames.
-- Words are numbers below 2 ^ 32 or 2 ^ 64; `>>` is division and `<<` is multiplication by a power
-- of two, cut to the width.
use Prim.Native.Nat.{bit_and, bit_or, bit_xor}
use contention_prof.Base.{
  ℕ, zero, suc, ◌+◌, ◌-◌, ◌*◌, ◌/◌, ◌%◌, ◌^◌, List, [], ◌∷◌, ◌++◌, u32, u64, length,
}
pub mod Bits
pub mod Mix
pub mod Range
mod Tests

-- `Util::fmix64`
unfoldable pub fmix64 : ℕ → ℕ
fmix64 k =
    let k₁ = bit_xor k (k / 2 ^ 33) in
    let k₂ = u64 (k₁ * 0xff51afd7ed558ccd) in
    let k₃ = bit_xor k₂ (k₂ / 2 ^ 33) in
    let k₄ = u64 (k₃ * 0xc4ceb9fe1a85ec53) in bit_xor k₄ (k₄ / 2 ^ 33)

unfoldable pub rotl32 : ℕ → ℕ → ℕ
rotl32 x r = bit_or (u32 (x * 2 ^ r)) (x / 2 ^ (32 - r))

unfoldable pub fmix32 : ℕ → ℕ
fmix32 h =
    let h₁ = bit_xor h (h / 2 ^ 16) in
    let h₂ = u32 (h₁ * 0x85ebca6b) in
    let h₃ = bit_xor h₂ (h₂ / 2 ^ 13) in let h₄ = u32 (h₃ * 0xc2b2ae35) in bit_xor h₄ (h₄ / 2 ^ 16)

-- `k1 *= c1; k1 = ROTL32(k1, 15); k1 *= c2;`
unfoldable pub scramble : ℕ → ℕ
unfolding rotl32
scramble k1 = u32 (rotl32 (u32 (k1 * 0xcc9e2d51)) 15 * 0x1b873593)

-- the body of the loop over the blocks
unfoldable pub mix_block : ℕ → ℕ → ℕ
unfolding scramble
mix_block k1 h1 = u32 (rotl32 (bit_xor h1 (scramble k1)) 13 * 5 + 0xe6546b64)

-- `getblock32` on a little-endian machine
abbrev pub getblock32 : ℕ → ℕ → ℕ → ℕ → ℕ
getblock32 a b c d = a + b * 2 ^ 8 + c * 2 ^ 16 + d * 2 ^ 24

-- the blocks of four bytes in order, then the tail of up to three
unfoldable pub murmur_loop : ℕ → List ℕ → ℕ
unfolding mix_block
murmur_loop h1 [] = h1
murmur_loop h1 (a ∷ []) = bit_xor h1 (scramble a)
murmur_loop h1 (a ∷ b ∷ []) = bit_xor h1 (scramble (bit_xor (b * 2 ^ 8) a))
murmur_loop h1 (a ∷ b ∷ c ∷ []) =
    bit_xor h1 (scramble (bit_xor (bit_xor (c * 2 ^ 16) (b * 2 ^ 8)) a))
murmur_loop h1 (a ∷ b ∷ c ∷ d ∷ rest) = murmur_loop (mix_block (getblock32 a b c d) h1) rest

-- `MurmurHash3_x86_32` of the bytes `key`
unfoldable pub murmur_hash3_x86_32 : List ℕ → ℕ → ℕ
unfolding murmur_loop fmix32
murmur_hash3_x86_32 key seed = fmix32 (bit_xor (murmur_loop seed key) (u32 (length key)))

-- the bytes of a frame's address, on a little-endian machine of 64 bits
abbrev pub frame_bytes : (size frame : ℕ) → List ℕ
frame_bytes zero frame = []
frame_bytes (suc n) frame = frame % 2 ^ 8 ∷ frame_bytes n (frame / 2 ^ 8)

abbrev pub stack_bytes : List ℕ → List ℕ
stack_bytes [] = []
stack_bytes (frame ∷ stack) = frame_bytes 8 frame ++ stack_bytes stack

-- `SampledContention::hash_code` of src/collector.h, of the first `frames_count` frames
unfoldable pub hash_code : List ℕ → ℕ
unfolding murmur_hash3_x86_32
hash_code [] = 0
hash_code (frame ∷ stack) =
    murmur_hash3_x86_32 (stack_bytes (frame ∷ stack)) (u32 (length (frame ∷ stack)))

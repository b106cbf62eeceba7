-- ===== src/Hash/Range.antt =====
-- The width of the hash of a stack.
use Prim.Native.Nat.{bit_xor}
use contention_prof.Base.{arith, ℕ, ◌*◌, ◌/◌, ◌^◌, ◌<◌, List, [], ◌∷◌, u32, length}
use contention_prof.Hash.{
  fmix32, scramble, mix_block, getblock32, murmur_loop, murmur_hash3_x86_32, stack_bytes, hash_code,
}
use contention_prof.Hash.Bits.{bit_xor-lt}

u32-lt : (a : ℕ) → u32 a < 2 ^ 32
u32-lt a = omega arith

fmix32-lt : (h : ℕ) → h < 2 ^ 32 → fmix32 h < 2 ^ 32
unfolding fmix32
fmix32-lt h small =
    let h₁ = bit_xor h (h / 2 ^ 16) in
    let h₂ = u32 (h₁ * 0x85ebca6b) in
    let h₃ = bit_xor h₂ (h₂ / 2 ^ 13) in
    let h₄ = u32 (h₃ * 0xc2b2ae35) in bit_xor-lt 32 h₄ (h₄ / 2 ^ 16) (omega arith) (omega arith)

scramble-lt : (k : ℕ) → scramble k < 2 ^ 32
unfolding scramble
scramble-lt k = omega arith

mix_block-lt : (k h : ℕ) → mix_block k h < 2 ^ 32
unfolding mix_block
mix_block-lt k h = omega arith

murmur_loop-lt : (h : ℕ) (key : List ℕ) → h < 2 ^ 32 → murmur_loop h key < 2 ^ 32
unfolding murmur_loop
murmur_loop-lt h [] small = small
murmur_loop-lt h (a ∷ []) small = bit_xor-lt 32 h (scramble a) small (scramble-lt a)
murmur_loop-lt h (a ∷ b ∷ []) small = bit_xor-lt 32 h _ small (scramble-lt _)
murmur_loop-lt h (a ∷ b ∷ c ∷ []) small = bit_xor-lt 32 h _ small (scramble-lt _)
murmur_loop-lt h (a ∷ b ∷ c ∷ d ∷ rest) small =
    murmur_loop-lt (mix_block (getblock32 a b c d) h) rest (mix_block-lt (getblock32 a b c d) h)

murmur_hash3-lt : (key : List ℕ) (seed : ℕ) → seed < 2 ^ 32 → murmur_hash3_x86_32 key seed < 2 ^ 32
unfolding murmur_hash3_x86_32
murmur_hash3-lt key seed small = fmix32-lt (bit_xor (murmur_loop seed key) (u32 (length key))) (
    bit_xor-lt 32 (murmur_loop seed key) (u32 (length key)) (murmur_loop-lt seed key small)
      (u32-lt (length key)))

-- x
pub hash-lt :
    (key stack : List ℕ) (seed : ℕ)
    → seed < 2 ^ 32
    → (murmur_hash3_x86_32 key seed < 2 ^ 32) × (hash_code stack < 2 ^ 32)
unfolding murmur_hash3_x86_32 hash_code
hash-lt key [] seed small = (murmur_hash3-lt key seed small, omega arith)
hash-lt key (frame ∷ stack) seed small = (
  murmur_hash3-lt key seed small,
  murmur_hash3-lt (stack_bytes (frame ∷ stack)) (u32 (length (frame ∷ stack))) (u32-lt _),
)

-- ===== src/Hash/Mix.antt =====
-- The mixer `fmix64`, and its inverse.
use Prim.Native.Nat.{bit_xor}
use contention_prof.Base.{ℕ, ◌*◌, ◌/◌, ◌^◌, ◌<◌, ◌≡◌, sym, ◌∙◌, ap, arith, u64}
use contention_prof.Hash.{fmix64}
use contention_prof.Hash.Bits.{bit_xor_assoc, bit_xor_self, bit_xor_zero, bit_xor-div, bit_xor-lt}

-- `k ^= k >> 33`
abbrev fold : ℕ → ℕ
fold k = bit_xor k (k / 2 ^ 33)

fold-lt : (k : ℕ) → k < 2 ^ 64 → fold k < 2 ^ 64
fold-lt k h = bit_xor-lt 64 k (k / 2 ^ 33) h (omega arith)

-- Folding twice gives the word back, since a second shift by 33 leaves nothing of it.
fold-fold : (k : ℕ) → k < 2 ^ 64 → fold (fold k) ≡ k
fold-fold k h =
    let gone : k / 2 ^ 33 / 2 ^ 33 ≡ 0 = omega arith in
    let shifted : fold k / 2 ^ 33 ≡ k / 2 ^ 33 =
      bit_xor-div 33 k (k / 2 ^ 33) ∙ ap (bit_xor (k / 2 ^ 33)) gone ∙ bit_xor_zero (k / 2 ^ 33) in
    ap (bit_xor (fold k)) shifted
    ∙ sym (bit_xor_assoc k (k / 2 ^ 33) (k / 2 ^ 33))
    ∙ ap (bit_xor k) (bit_xor_self (k / 2 ^ 33))
    ∙ bit_xor_zero k

-- The two multipliers with their inverses modulo 2 ^ 64.
undo_first : (k : ℕ) → k < 2 ^ 64 → u64 (u64 (k * 0xff51afd7ed558ccd) * 0x4f74430c22a54005) ≡ k
undo_first k h = omega arith

undo_second : (k : ℕ) → k < 2 ^ 64 → u64 (u64 (k * 0xc4ceb9fe1a85ec53) * 0x9cb4b2f8129337db) ≡ k
undo_second k h = omega arith

-- the inverse of `fmix64`
pub unmix64 : ℕ → ℕ
unmix64 h = fold (u64 (fold (u64 (fold h * 0x9cb4b2f8129337db)) * 0x4f74430c22a54005))

-- fmix64 of a 64-bit word is a 64-bit word, from which the word can be had again.
pub unmix64-fmix64 : (k : ℕ) → k < 2 ^ 64 → (fmix64 k < 2 ^ 64) × (unmix64 (fmix64 k) ≡ k)
unfolding fmix64 unmix64
unmix64-fmix64 k h =
    let k₂ = u64 (fold k * 0xff51afd7ed558ccd) in
    let k₄ = u64 (fold k₂ * 0xc4ceb9fe1a85ec53) in
    let in₂ : k₂ < 2 ^ 64 = omega arith in
    let in₄ : k₄ < 2 ^ 64 = omega arith in
    (
      fold-lt k₄ in₄,
      ap (λ n. fold (u64 (fold (u64 (n * 0x9cb4b2f8129337db)) * 0x4f74430c22a54005)))
            (fold-fold k₄ in₄)
          ∙ ap (λ n. fold (u64 (fold n * 0x4f74430c22a54005)))
              (undo_second (fold k₂) (fold-lt k₂ in₂))
          ∙ ap (λ n. fold (u64 (n * 0x4f74430c22a54005))) (fold-fold k₂ in₂)
          ∙ ap fold (undo_first (fold k) (fold-lt k h))
          ∙ fold-fold k h,
    )

-- ===== src/Hash/Bits.antt =====
-- Laws of exclusive or, and of `|` on fields that do not overlap, at every width.
use Prim.Native.Nat.{bit_or, bit_xor, digits, differ, max, bit_or-bitwise, bit_xor-bitwise}
use native.Mathlib.Nat.{
  pow-suc, div-div-eq-div-mul, div-eq_of_lt, div-one, lt-div-mul-add, one-le-pow, pow-zero,
}
use contention_prof.Base.{
  ℕ, zero, suc, ◌+◌, ◌*◌, ◌/◌, ◌%◌, ◌^◌, ◌≤◌, ◌<◌, ◌≡◌, refl, sym, ◌∙◌, ap, ap₂, arith,
}

module _ (z : ℕ → ℕ) (f : ℕ → ℕ → ℕ) where
  -- Any two amounts of fuel that are large enough give the same digits.
  same_digits : (a n m b : ℕ) → a ≤ n → a ≤ m → digits z f n a b ≡ digits z f m a b
  same_digits a zero zero b p q = refl
  same_digits zero zero (suc m) b p q = refl
  same_digits (suc a) zero m b p q = absurd (omega arith)
  same_digits zero (suc n) zero b p q = refl
  same_digits (suc a) (suc n) zero b p q = absurd (omega arith)
  same_digits zero (suc n) (suc m) b p q = refl
  same_digits (suc a) (suc n) (suc m) b p q =
      ap (λ k. k * 2 + f (suc a % 2) (b % 2))
        (same_digits (suc a / 2) n m (b / 2) (omega arith) (omega arith))

bit_or_zero_left : (b : ℕ) → bit_or 0 b ≡ b
bit_or_zero_left b = bit_or-bitwise 0 b

bit_xor_zero_left : (b : ℕ) → bit_xor 0 b ≡ b
bit_xor_zero_left b = bit_xor-bitwise 0 b

differ_digits : (x y : ℕ) → x < 2 → y < 2 → differ x y ≡ (x + y) % 2
differ_digits zero y p q = omega arith
differ_digits (suc zero) zero p q = refl
differ_digits (suc zero) (suc zero) p q = refl
differ_digits (suc zero) (suc (suc y)) p q = absurd (omega arith)
differ_digits (suc (suc x)) y p q = absurd (omega arith)

-- the lowest digit of an exclusive or, and the rest
pub bit_xor_step : (a b : ℕ) → bit_xor a b ≡ bit_xor (a / 2) (b / 2) * 2 + (a + b) % 2
bit_xor_step zero b =
    let half = bit_xor_zero_left (b / 2) in bit_xor_zero_left b ∙ omega (arith, half)
bit_xor_step (suc a) b =
    let low : differ (suc a % 2) (b % 2) ≡ (suc a + b) % 2 =
      differ_digits (suc a % 2) (b % 2) (omega arith) (omega arith) ∙ omega arith in
    let rest : digits (λ y. y) differ a (suc a / 2) (b / 2) ≡ bit_xor (suc a / 2) (b / 2) =
      same_digits (λ y. y) differ (suc a / 2) a (suc a / 2) (b / 2) (omega arith) (omega arith)
      ∙ sym (bit_xor-bitwise (suc a / 2) (b / 2)) in
    bit_xor-bitwise (suc a) b ∙ ap₂ (λ x y. x * 2 + y) rest low

bit_or_step : (a b : ℕ) → bit_or a b ≡ bit_or (a / 2) (b / 2) * 2 + max (a % 2) (b % 2)
bit_or_step zero b = let half = bit_or_zero_left (b / 2) in bit_or_zero_left b ∙ omega (arith, half)
bit_or_step (suc a) b =
    let rest : digits (λ y. y) max a (suc a / 2) (b / 2) ≡ bit_or (suc a / 2) (b / 2) =
      same_digits (λ y. y) max (suc a / 2) a (suc a / 2) (b / 2) (omega arith) (omega arith)
      ∙ sym (bit_or-bitwise (suc a / 2) (b / 2)) in
    bit_or-bitwise (suc a) b ∙ ap (λ x. x * 2 + max (suc a % 2) (b % 2)) rest

bit_xor-half : (a b : ℕ) → bit_xor a b / 2 ≡ bit_xor (a / 2) (b / 2)
bit_xor-half a b = omega (arith, bit_xor_step a b)

bit_xor-parity : (a b : ℕ) → bit_xor a b % 2 ≡ (a + b) % 2
bit_xor-parity a b = omega (arith, bit_xor_step a b)

-- the laws, for numbers below a bound
assoc_below : (n a b c : ℕ) → a ≤ n → bit_xor a (bit_xor b c) ≡ bit_xor (bit_xor a b) c
assoc_below n zero b c h =
    bit_xor_zero_left (bit_xor b c) ∙ ap (λ x. bit_xor x c) (sym (bit_xor_zero_left b))
assoc_below zero (suc a) b c h = absurd (omega arith)
assoc_below (suc n) (suc a) b c h =
    let left : bit_xor (suc a / 2) (bit_xor b c / 2)
        ≡ bit_xor (suc a / 2) (bit_xor (b / 2) (c / 2)) =
      ap (bit_xor (suc a / 2)) (bit_xor-half b c) in
    let right : bit_xor (bit_xor (suc a) b / 2) (c / 2)
        ≡ bit_xor (bit_xor (suc a / 2) (b / 2)) (c / 2) =
      ap (λ x. bit_xor x (c / 2)) (bit_xor-half (suc a) b) in
    let ih = assoc_below n (suc a / 2) (b / 2) (c / 2) (omega arith) in
    omega (
      arith,
      bit_xor_step (suc a) (bit_xor b c),
      bit_xor_step (bit_xor (suc a) b) c,
      left,
      right,
      ih,
      bit_xor-parity b c,
      bit_xor-parity (suc a) b,
    )

self_below : (n a : ℕ) → a ≤ n → bit_xor a a ≡ 0
self_below n zero h = bit_xor_zero_left 0
self_below zero (suc a) h = absurd (omega arith)
self_below (suc n) (suc a) h =
    omega (arith, bit_xor_step (suc a) (suc a), self_below n (suc a / 2) (omega arith))

zero_right_below : (n a : ℕ) → a ≤ n → bit_xor a 0 ≡ a
zero_right_below n zero h = bit_xor_zero_left 0
zero_right_below zero (suc a) h = absurd (omega arith)
zero_right_below (suc n) (suc a) h =
    omega (arith, bit_xor_step (suc a) 0, zero_right_below n (suc a / 2) (omega arith))

pub bit_xor_assoc : (a b c : ℕ) → bit_xor a (bit_xor b c) ≡ bit_xor (bit_xor a b) c
bit_xor_assoc a b c = assoc_below a a b c (omega arith)

pub bit_xor_self : (a : ℕ) → bit_xor a a ≡ 0
bit_xor_self a = self_below a a (omega arith)

pub bit_xor_zero : (a : ℕ) → bit_xor a 0 ≡ a
bit_xor_zero a = zero_right_below a a (omega arith)

pub bit_xor-div : (k a b : ℕ) → bit_xor a b / 2 ^ k ≡ bit_xor (a / 2 ^ k) (b / 2 ^ k)
bit_xor-div zero a b = div-one (bit_xor a b) ∙ sym (ap₂ bit_xor (div-one a) (div-one b))
bit_xor-div (suc k) a b =
    shift (bit_xor a b)
    ∙ ap (λ n. n / 2 ^ k) (bit_xor-half a b)
    ∙ bit_xor-div k (a / 2) (b / 2)
    ∙ sym (ap₂ bit_xor (shift a) (shift b))
  where
    shift : (n : ℕ) → n / 2 ^ suc k ≡ n / 2 / 2 ^ k
    shift n = ap (λ d. n / d) (omega (arith, pow-suc 2 k)) ∙ sym (div-div-eq-div-mul n 2 (2 ^ k))

-- An exclusive or of words of `k` bits is one.
pub bit_xor-lt : (k a b : ℕ) → a < 2 ^ k → b < 2 ^ k → bit_xor a b < 2 ^ k
bit_xor-lt k a b ha hb =
    let none_above : bit_xor a b / 2 ^ k ≡ 0 =
      bit_xor-div k a b ∙ ap₂ bit_xor (div-eq_of_lt ha) (div-eq_of_lt hb) ∙ bit_xor_zero_left 0 in
    let one_more : bit_xor a b < bit_xor a b / 2 ^ k * 2 ^ k + 2 ^ k =
      lt-div-mul-add (one-le-pow k 2 (omega arith)) in
    omega (arith, ap (λ (n : ℕ). n * 2 ^ k) none_above)

or_zero_right_below : (n a : ℕ) → a ≤ n → bit_or a 0 ≡ a
or_zero_right_below n zero h = bit_or_zero_left 0
or_zero_right_below zero (suc a) h = absurd (omega arith)
or_zero_right_below (suc n) (suc a) h =
    omega (arith, bit_or_step (suc a) 0, or_zero_right_below n (suc a / 2) (omega arith))

-- `(q << k) | r` is a sum when `r` fits in `k` bits.
pub bit_or_shifted : (k q r : ℕ) → r < 2 ^ k → bit_or (q * 2 ^ k) r ≡ q * 2 ^ k + r
bit_or_shifted zero q r h =
    let r_zero : r ≡ 0 = omega (arith, pow-zero 2) in
    ap (bit_or (q * 2 ^ 0)) r_zero
    ∙ or_zero_right_below (q * 2 ^ 0) (q * 2 ^ 0) (omega arith)
    ∙ omega arith
bit_or_shifted (suc k) q r h =
    let double : q * 2 ^ suc k ≡ q * 2 ^ k * 2 =
      omega (arith, ap (λ (n : ℕ). q * n) (pow-suc 2 k)) in
    let half : bit_or (q * 2 ^ suc k / 2) (r / 2) ≡ bit_or (q * 2 ^ k) (r / 2) =
      ap (λ n. bit_or n (r / 2)) (omega (arith, double)) in
    omega (
      arith,
      bit_or_step (q * 2 ^ suc k) r,
      half,
      double,
      bit_or_shifted k q (r / 2) (omega (arith, pow-suc 2 k)),
    )

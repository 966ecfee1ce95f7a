-- ===== src/RateBucket/Words.antt =====
-- One word of the bitmap of crates/fusd-math/src/rate_bucket.rs.
use Prim.Native.Nat.{bit_and, bit_or}
use native.Mathlib.Nat.{pow-suc, pow-le-pow_right, one-le-pow}
use fusion_core.Prelude.{
  ℕ, zero, suc, ◌-◌, ◌*◌, ◌/◌, ◌%◌, ◌^◌, ◌<◌, ◌≡◌, ◌≢◌, ap, ◌∙◌, min, true, false, not, arith, ◌==◌,
  ltb, if◌then◌else◌, Bool-cases, inl, inr, u64_max,
}
use fusion_core.Bits.{
  bit, bit-lt, bit-bit_and, bit-bit_or, bit-pow, bit-not, bit_below, no_digits, digit_ne_zero,
  bit_and-lt,
}
use fusion_core.RateBucket.{trailing_zeros_from}

pub power-lt : (j : ℕ) → j < 64 → 2 ^ j < 2 ^ 64
power-lt j h = omega (arith, pow-le-pow_right {n = 2} (omega arith) {i = j} {j = 63} (omega arith))

-- `w | 1 << j`
pub bit-set : (k j w : ℕ) → bit k (bit_or w (2 ^ j)) ≡ (if k == j then 1 else bit k w)
bit-set k j w = bit-bit_or k w (2 ^ j) ∙ rw (bit-pow k j) (ground (arith, bit-lt k w))

-- `w & !(1 << j)`
pub bit-clear :
    (k j w : ℕ)
    → k < 64
    → j < 64
    → bit k (bit_and w (u64_max - 2 ^ j)) ≡ (if k == j then 0 else bit k w)
bit-clear k j w hk hj =
    bit-bit_and k w (u64_max - 2 ^ j)
    ∙ ap (min (bit k w))
        (bit-not k 64 (2 ^ j) hk (power-lt j hj) ∙ ap (λ (x : ℕ). 1 - x) (bit-pow k j))
    ∙ ground (arith, bit-lt k w)

==→eq : (k j : ℕ) → (k == j) ≡ true → k ≡ j
==→eq k j h = ground arith

==_refl : (k : ℕ) → (k == k) ≡ true
==_refl k = ground arith

only_bit : (k j w : ℕ) → bit k (bit_and w (2 ^ j)) ≡ (if k == j then bit j w else 0)
only_bit k j w = elim (Bool-cases (k == j)) [
  | inl same ↦ rw (same, ==→eq k j same, bit-bit_and, bit-pow, ==_refl) (omega (arith, bit-lt j w))
  | inr other ↦ rw (other, bit-bit_and, bit-pow, other) (omega arith)
]

-- `w & 1 << j != 0`
pub bit-test : (j w : ℕ) → j < 64 → w < 2 ^ 64 → not (bit_and w (2 ^ j) == 0) ≡ (bit j w == 1)
bit-test j w hj hw = elim (Bool-cases (bit j w == 1)) [
  | inl one ↦ ground (arith, digit_ne_zero j (bit_and w (2 ^ j)) (only_bit j j w ∙ ground arith))
  | inr other ↦ ground (
    arith,
    no_digits 64 (bit_and w (2 ^ j)) (bit_and-lt 64 w (2 ^ j) hw (power-lt j hj))
        (λ k hk. only_bit k j w ∙ off k other),
  )
]
  where
    off : (k : ℕ) → (bit j w == 1) ≡ false → (if k == j then bit j w else 0) ≡ 0
    off k h = ground (arith, bit-lt j w)

-- `w & u64::MAX << j`
pub mask_above : (j : ℕ) → j < 64 → u64_max * 2 ^ j % 2 ^ 64 ≡ 2 ^ 64 - 2 ^ j
mask_above j hj = omega (arith, power-lt j hj, one-le-pow j 2 (omega arith))

pub bit-above :
    (k j w : ℕ)
    → k < 64
    → j < 64
    → bit k (bit_and w (u64_max * 2 ^ j % 2 ^ 64)) ≡ (if ltb k j then 0 else bit k w)
bit-above k j w hk hj =
    bit-bit_and k w (u64_max * 2 ^ j % 2 ^ 64)
    ∙ ap (min (bit k w)) (
        ap (bit k) (mask_above j hj ∙ omega (arith, power-lt j hj, one-le-pow j 2 (omega arith)))
        ∙ bit-not k 64 (2 ^ j - 1) hk (omega (arith, power-lt j hj))
        ∙ ap (λ (x : ℕ). 1 - x) (bit_below k j))
    ∙ ground (arith, bit-lt k w)

-- What `trailing_zeros` finds: the lowest digit of a word that is not zero.
pub record LowestDigit (n w t : ℕ) : Type 0 where
  pub within : t < n
  pub digit : bit t w ≡ 1
  pub lowest : (k : ℕ) → k < t → bit k w ≡ 0

pub trailing_zeros_from-LowestDigit :
    (n w : ℕ) → w < 2 ^ n → w ≢ 0 → LowestDigit n w (trailing_zeros_from n w)
unfolding trailing_zeros_from
trailing_zeros_from-LowestDigit zero w lt h = absurd (omega arith)
trailing_zeros_from-LowestDigit (suc n) w lt h = elim (Bool-cases (w % 2 == 1)) [
  | inl odd ↦
      rw odd (record { within = omega arith; digit = ground arith; lowest = λ k hk. elim hk [ ] })
  | inr even ↦
      let r =
        trailing_zeros_from-LowestDigit n (w / 2) (omega (arith, pow-suc 2 n)) (ground arith) in
      rw even (record {
        within = omega (arith, r.within);
        digit = r.digit;
        lowest = elim [ zero ↦ λ hk. ground arith | suc k ↦ λ hk. r.lowest k (omega arith) ];
      })
]

-- ===== src/Bits.antt =====
-- The binary digits of a natural number, and what `|`, `&`, `!` and shifts do to them.
use Prim.Native.Nat.{bit_and, bit_or, bit_and-bitwise, bit_or-bitwise, digits}
use native.Mathlib.Nat.{pow-suc, one-le-pow}
use fusion_core.Prelude.{
  ℕ, zero, suc, ◌-◌, ◌/◌, ◌%◌, ◌^◌, ◌≤◌, ◌<◌, ◌≡◌, ◌≢◌, refl, ap, ◌∙◌, min, max, arith, ◌==◌, ltb,
  if◌then◌else◌,
}

-- The digit of weight `2 ^ k`.
abbrev pub bit : ℕ → ℕ → ℕ
bit zero x = x % 2
bit (suc k) x = bit k (x / 2)

pub bit-lt : (k x : ℕ) → bit k x < 2
bit-lt zero x = omega arith
bit-lt (suc k) x = bit-lt k (x / 2)

pub bit-zero : (k : ℕ) → bit k 0 ≡ 0
bit-zero zero = refl
bit-zero (suc k) = bit-zero k

-- `digits` combines digit by digit.
module _ (z : ℕ → ℕ) (f : ℕ → ℕ → ℕ) (f_digit : (x y : ℕ) → x < 2 → y < 2 → f x y < 2)
    (z_digit : (k b : ℕ) → bit k (z b) ≡ f 0 (bit k b)) where
  bit-digits : (n a b k : ℕ) → a ≤ n → bit k (digits z f n a b) ≡ f (bit k a) (bit k b)
  bit-digits zero zero b k h = rw (bit-zero k) (z_digit k b)
  bit-digits zero (suc a) b k h = absurd (omega arith)
  bit-digits (suc n) zero b k h = rw (bit-zero k) (z_digit k b)
  bit-digits (suc n) (suc a) b zero h =
      omega (arith, f_digit (suc a % 2) (b % 2) (omega arith) (omega arith))
  bit-digits (suc n) (suc a) b (suc k) h =
      ap (bit k) (omega (arith, f_digit (suc a % 2) (b % 2) (omega arith) (omega arith)))
      ∙ bit-digits n (suc a / 2) (b / 2) k (omega arith)

  digits-lt :
      ((b : ℕ) → z b ≤ b) → (k n a b : ℕ) → a ≤ n → a < 2 ^ k → b < 2 ^ k → digits z f n a b < 2 ^ k
  digits-lt hz k zero zero b h la lb = omega (arith, hz b)
  digits-lt hz k zero (suc a) b h la lb = absurd (omega arith)
  digits-lt hz k (suc n) zero b h la lb = omega (arith, hz b)
  digits-lt hz zero (suc n) (suc a) b h la lb = absurd (omega arith)
  digits-lt hz (suc k) (suc n) (suc a) b h la lb = omega (
    arith,
    pow-suc 2 k,
    f_digit (suc a % 2) (b % 2) (omega arith) (omega arith),
    digits-lt hz k n (suc a / 2) (b / 2) (omega arith) (omega (arith, pow-suc 2 k))
        (omega (arith, pow-suc 2 k)),
  )

pub bit_and-lt : (k a b : ℕ) → a < 2 ^ k → b < 2 ^ k → bit_and a b < 2 ^ k
bit_and-lt k a b ha hb = rw bit_and-bitwise (
    digits-lt (λ b. 0) min (λ x y h h'. omega arith) (λ k b. bit-zero k ∙ omega arith)
      (λ b. omega arith) k a a b (omega arith) ha hb)

pub bit_or-lt : (k a b : ℕ) → a < 2 ^ k → b < 2 ^ k → bit_or a b < 2 ^ k
bit_or-lt k a b ha hb = rw bit_or-bitwise (
    digits-lt (λ b. b) max (λ x y h h'. omega arith) (λ k b. omega arith) (λ b. omega arith) k a a b
      (omega arith) ha hb)

pub bit-bit_and : (k a b : ℕ) → bit k (bit_and a b) ≡ min (bit k a) (bit k b)
bit-bit_and k a b =
    ap (bit k) (bit_and-bitwise a b)
    ∙ bit-digits (λ b. 0) min (λ x y h h'. omega arith) (λ k b. bit-zero k ∙ omega arith) a a b k
        (omega arith)

pub bit-bit_or : (k a b : ℕ) → bit k (bit_or a b) ≡ max (bit k a) (bit k b)
bit-bit_or k a b =
    ap (bit k) (bit_or-bitwise a b)
    ∙ bit-digits (λ b. b) max (λ x y h h'. omega arith) (λ k b. omega arith) a a b k (omega arith)

pub bit-pow : (k j : ℕ) → bit k (2 ^ j) ≡ (if k == j then 1 else 0)
bit-pow zero zero = refl
bit-pow (suc k) zero = bit-zero k ∙ ground arith
bit-pow zero (suc j) = rw (pow-suc 2 j) (ground arith)
bit-pow (suc k) (suc j) = ap (bit k) (omega (arith, pow-suc 2 j)) ∙ bit-pow k j ∙ ground arith

-- `!x` in `n` digits
pub bit-not : (k n x : ℕ) → k < n → x < 2 ^ n → bit k (2 ^ n - 1 - x) ≡ 1 - bit k x
bit-not k zero x h lt = elim h [ ]
bit-not zero (suc n) x h lt = omega (arith, pow-suc 2 n)
bit-not (suc k) (suc n) x h lt =
    ap (bit k) (omega (arith, pow-suc 2 n))
    ∙ bit-not k n (x / 2) (omega arith) (omega (arith, pow-suc 2 n))

-- all digits below `j`
pub bit_below : (k j : ℕ) → bit k (2 ^ j - 1) ≡ (if ltb k j then 1 else 0)
bit_below k zero = bit-zero k ∙ ground arith
bit_below zero (suc j) = ground (arith, pow-suc 2 j, one-le-pow j 2 (omega arith))
bit_below (suc k) (suc j) =
    ap (bit k) (omega (arith, pow-suc 2 j, one-le-pow j 2 (omega arith)))
    ∙ bit_below k j
    ∙ ground arith

-- A number below `2 ^ n` with no digit is zero.
pub no_digits : (n x : ℕ) → x < 2 ^ n → ((k : ℕ) → k < n → bit k x ≡ 0) → x ≡ 0
no_digits zero x lt h = omega arith
no_digits (suc n) x lt h = omega (
  arith,
  h 0 (omega arith),
  no_digits n (x / 2) (omega (arith, pow-suc 2 n)) (λ k hk. h (suc k) (omega arith)),
)

pub digit_ne_zero : (k x : ℕ) → bit k x ≡ 1 → x ≢ 0
digit_ne_zero k x h e = omega (arith, ap (bit k) e, bit-zero k)

-- ===== src/Prelude/Division.antt =====
-- Rounding division of natural numbers.
use Prim.Native.Nat.{ℕ, ◌+◌, ◌-◌, ◌*◌, ◌/◌, ◌≤◌, ◌<◌}
use native.Mathlib.Nat.{le-div_iff_mul-le, div-lt_iff_lt-mul}
use native.Mathlib.Nat.{mul-le-mul_right}
use native.Mathlib.Decide.{dec_le}
use native.Mathlib.Omega.{arith}

-- A quotient is a lower bound on the fraction, short by less than one.
pub div_bounds : (n d : ℕ) → 0 < d → (n / d * d ≤ n) × (n < n / d * d + d)
div_bounds n d h = omega arith

pub le_div : (x n d : ℕ) → 0 < d → x * d ≤ n → x ≤ n / d
le_div x n d h p = (le-div_iff_mul-le h).1 p

pub div_lt : (x n d : ℕ) → 0 < d → n < x * d → n / d < x
div_lt x n d h p = (div-lt_iff_lt-mul h).1 p

pub div_mono : (m n d : ℕ) → 0 < d → m ≤ n → m / d ≤ n / d
div_mono m n d h p = le_div (m / d) n d h (omega arith)

-- Two floors lose no more than the floor of the sum.
pub div_add : (m n d : ℕ) → 0 < d → m / d + n / d ≤ (m + n) / d
div_add m n d h = le_div (m / d + n / d) (m + n) d h (omega arith)

-- The quotient rounded up.
abbrev pub div_ceil : ℕ → ℕ → ℕ
div_ceil n d = (n + (d - 1)) / d

pub div_ceil_bounds : (n d : ℕ) → 0 < d → (n ≤ div_ceil n d * d) × (div_ceil n d * d < n + d)
div_ceil_bounds n d h = omega arith

-- The least multiple that covers.
pub div_ceil_le : (x n d : ℕ) → 0 < d → n ≤ x * d → div_ceil n d ≤ x
div_ceil_le x n d h p = omega (arith, div_lt (x + 1) (n + (d - 1)) d h (omega arith))

pub div-le-div_ceil : (n d : ℕ) → 0 < d → n / d ≤ div_ceil n d
div-le-div_ceil n d h = div_mono n (n + (d - 1)) d h (omega arith)

pub le_of_mul_le : (x y d : ℕ) → 0 < d → x * d ≤ y * d → x ≤ y
le_of_mul_le x y d h p = elim (dec_le x y) [
  | yes q ↦ q
  | no q ↦ absurd (omega (arith, mul-le-mul_right {m = y + 1} {n = x} d (omega arith)))
]

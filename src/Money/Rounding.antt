-- ===== src/Money/Rounding.antt =====
-- What `mul_div_floor` and `mul_div_ceil` of crates/fusd-math/src/lib.rs compute: the exact rounded
-- quotient, or nothing where the denominator is zero or the quotient needs more than 128 bits.
use native.Mathlib.Nat.{mul-le-mul, div-eq_of_lt-le}
use native.Mathlib.Decide.{dec_lt}
use mathlib.Core.Path.{ap₂, ◌∙◌}
use fusion_core.Prelude.{
  ℕ, zero, suc, sym, ap, narrow-eq_some, ◌+◌, ◌*◌, ◌/◌, ◌%◌, ◌≤◌, ◌<◌, ◌≡◌, refl, false, none, some,
  arith, ltb, ◌==◌, if◌then◌else◌, u128_max, narrow, checked_add, bind_some, div_ceil, div_bounds,
  div_ceil_bounds,
}
use fusion_core.Wide.{Wide, u256_max}
use fusion_core.Money.{wide_mul_div, mul_div_floor, mul_div_ceil}

pub product_fits : (a b : ℕ) → a ≤ u128_max → b ≤ u128_max → a * b ≤ u256_max
product_fits a b ha hb = omega (arith, mul-le-mul ha hb)

pub ne_zero : (d : ℕ) → 0 < d → (d == 0) ≡ false
ne_zero d h = ground arith

-- the remainder decides between the two quotients
div_ceil_exact : (n d : ℕ) → 0 < d → n % d ≡ 0 → div_ceil n d ≡ n / d
div_ceil_exact n d h e = div-eq_of_lt-le d (omega arith) (omega arith)

div_ceil_inexact : (n d : ℕ) → 0 < d → 0 < n % d → div_ceil n d ≡ n / d + 1
div_ceil_inexact n d h e = div-eq_of_lt-le d (omega arith) (omega arith)

-- `has_rem` picks the quotient rounded up, and the width test may be made after it.
round_up :
    (n d : ℕ)
    → 0 < d
    → bind_some
        (narrow u128_max (n / d))
        (λ q. if ltb 0 (n % d) then checked_add u128_max q 1 else some q)
      ≡ narrow u128_max (div_ceil n d)
round_up n d h = elim (dec_lt 0 (n % d)) [
  | yes p ↦ rw (div_ceil_inexact n d h p) (ground arith)
  | no p ↦ rw (div_ceil_exact n d h (omega arith)) (ground arith)
]

module _ ⦃w : Wide⦄ where
  -- A zero denominator is refused.
  pub mul_div_zero : (a b : ℕ) → (mul_div_floor a b 0 ≡ none) × (mul_div_ceil a b 0 ≡ none)
  unfolding mul_div_floor mul_div_ceil
  mul_div_zero a b = (refl, refl)

  pub mul_div_floor_pos : (a b d : ℕ) {q : ℕ} → mul_div_floor a b d ≡ some q → 0 < d
  mul_div_floor_pos a b zero e = absurd (cc (mul_div_zero a b).0)
  mul_div_floor_pos a b (suc d) e = omega arith

  pub mul_div_ceil_pos : (a b d : ℕ) {q : ℕ} → mul_div_ceil a b d ≡ some q → 0 < d
  mul_div_ceil_pos a b zero e = absurd (cc (mul_div_zero a b).1)
  mul_div_ceil_pos a b (suc d) e = omega arith

module _ ⦃w : Wide⦄ (a b d : ℕ) (ha : a ≤ u128_max) (hb : b ≤ u128_max) (hd : d ≤ u128_max) where
  value_product : w.value (w.mul (w.from a) (w.from b)) ≡ a * b
  value_product =
      w.value-mul (w.from a) (w.from b)
        (rw (w.value-from a ha, w.value-from b hb) (product_fits a b ha hb))
      ∙ ap₂ (λ (x y : ℕ). x * y) (w.value-from a ha) (w.value-from b hb)

  wide_quotient : 0 < d → w.value (w.div (w.mul (w.from a) (w.from b)) (w.from d)) ≡ a * b / d
  wide_quotient h =
      w.value-div (w.mul (w.from a) (w.from b)) (w.from d) (rw (w.value-from d hd) h)
      ∙ ap₂ (λ (x y : ℕ). x / y) value_product (w.value-from d hd)

  wide_remainder : 0 < d → w.value (w.rem (w.mul (w.from a) (w.from b)) (w.from d)) ≡ a * b % d
  wide_remainder h =
      w.value-rem (w.mul (w.from a) (w.from b)) (w.from d) (rw (w.value-from d hd) h)
      ∙ ap₂ (λ (x y : ℕ). x % y) value_product (w.value-from d hd)

  wide_mul_div_lem :
      0 < d
      → wide_mul_div a b d
        ≡ bind_some (narrow u128_max (a * b / d)) (λ q. some (q, ltb 0 (a * b % d)))
  unfolding wide_mul_div
  wide_mul_div_lem h = rw (
    ne_zero d h,
    w.to_u128_lem (w.div (w.mul (w.from a) (w.from b)) (w.from d)),
    w.is_nonzero_lem (w.rem (w.mul (w.from a) (w.from b)) (w.from d)),
    wide_quotient h,
    wide_remainder h,
  )

  -- For operands of 128 bits and a denominator that is not zero, `mul_div_floor` is the exact
  -- quotient rounded down, or `none` where that needs more than 128 bits.
  pub mul_div_floor_exact : 0 < d → mul_div_floor a b d ≡ narrow u128_max (a * b / d)
  unfolding mul_div_floor
  mul_div_floor_exact h = rw (wide_mul_div_lem h) (ground arith)

  -- For operands of 128 bits and a denominator that is not zero, `mul_div_ceil` is the exact
  -- quotient rounded up, or `none` where that needs more than 128 bits.
  pub mul_div_ceil_exact : 0 < d → mul_div_ceil a b d ≡ narrow u128_max (div_ceil (a * b) d)
  unfolding mul_div_ceil
  mul_div_ceil_exact h = rw (wide_mul_div_lem h) (ground (arith, round_up (a * b) d h))

  -- `mul_div_floor`, where it returns, brackets the exact fraction from below.
  pub mul_div_floor_bounds :
      {q : ℕ}
      → mul_div_floor a b d ≡ some q
      → (0 < d) × (q * d ≤ a * b) × (a * b < q * d + d) × (q ≤ u128_max)
  mul_div_floor_bounds {q} e =
      let h = mul_div_floor_pos a b d e in
      let p = narrow-eq_some u128_max (a * b / d) (sym (mul_div_floor_exact h) ∙ e) in
      omega (arith, div_bounds (a * b) d h, ap (λ (x : ℕ). x * d) p.0)

  -- `mul_div_ceil`, where it returns, is the least number that covers the exact fraction.
  pub mul_div_ceil_bounds :
      {q : ℕ}
      → mul_div_ceil a b d ≡ some q
      → (0 < d) × (a * b ≤ q * d) × (q * d < a * b + d) × (q ≤ u128_max)
  mul_div_ceil_bounds {q} e =
      let h = mul_div_ceil_pos a b d e in
      let p = narrow-eq_some u128_max (div_ceil (a * b) d) (sym (mul_div_ceil_exact h) ∙ e) in
      omega (arith, div_ceil_bounds (a * b) d h, ap (λ (x : ℕ). x * d) p.0)

-- ===== src/Redistribution/Accumulate.antt =====
-- `accumulate` of crates/fusd-math/src/redistribution.rs divides exactly: what it adds to the
-- accumulator, times the stakes, and the error that it carries make up what was fed in.
use mathlib.Core.Path.{ap₂}
use native.Mathlib.Nat.{mod-eq-sub-div-mul}
use fusion_core.Prelude.{
  ℕ, ◌+◌, ◌-◌, ◌*◌, ◌/◌, ◌%◌, ◌≤◌, ◌<◌, ◌≡◌, sym, ◌∙◌, some, ok, err, arith, leb, if◌then◌else◌,
  u128_max, bind_some, narrow_fits, div_bounds,
}
use fusion_core.Wide.{Wide, u256_max}
use fusion_core.Redistribution.{precision, RedistError, per_unit, accumulate}

module _ ⦃w : Wide⦄ (e t a : ℕ) (he : e ≤ u128_max) (pos : 0 < t) (ht : t ≤ u128_max)
    (ha : a ≤ u128_max) where
  -- The 256-bit numerator does not overflow.
  numerator_fits : a * precision + e ≤ u256_max
  numerator_fits = omega arith

  -- the numerator, as a 256-bit integer
  numerator :
      (z : w.U256) × (bind_some
          (w.checked_mul (w.from a) (w.from precision))
          (λ x. w.checked_add x (w.from e))
        ≡ some z)
      × (w.value z ≡ a * precision + e)
  numerator =
      let (x, ex, vx) =
        w.value-checked_mul (w.from a) (w.from precision)
          (rw (w.value-from a ha, w.value-from precision (omega arith)) (omega arith)) in
      let vx' : w.value x ≡ a * precision =
        vx ∙ ap₂ (λ (m n : ℕ). m * n) (w.value-from a ha) (w.value-from precision (omega arith)) in
      let (z, ez, vz) =
        w.value-checked_add x (w.from e) (rw (vx', w.value-from e he) numerator_fits) in
      (z, rw (ex, ez), vz ∙ ap₂ (λ (m n : ℕ). m + n) vx' (w.value-from e he))

  quotient :
      (z : w.U256)
      → w.value z ≡ a * precision + e
      → w.value (w.div z (w.from t)) ≡ (a * precision + e) / t
  quotient z v =
      w.value-div z (w.from t) (rw (w.value-from t ht) pos)
      ∙ ap₂ (λ (m n : ℕ). m / n) v (w.value-from t ht)

  product :
      (z : w.U256)
      → w.value z ≡ a * precision + e
      → w.value (w.mul (w.div z (w.from t)) (w.from t)) ≡ (a * precision + e) / t * t
  product z v =
      w.value-mul (w.div z (w.from t)) (w.from t) (
        rw (quotient z v, w.value-from t ht)
          (omega (arith, numerator_fits, div_bounds (a * precision + e) t pos)))
      ∙ ap₂ (λ (m n : ℕ). m * n) (quotient z v) (w.value-from t ht)

  remainder :
      (z : w.U256)
      → w.value z ≡ a * precision + e
      → w.value (w.sub z (w.mul (w.div z (w.from t)) (w.from t))) ≡ (a * precision + e) % t
  remainder z v =
      w.value-sub z (w.mul (w.div z (w.from t)) (w.from t))
        (rw (product z v, v) (div_bounds (a * precision + e) t pos).0)
      ∙ ap₂ (λ (m n : ℕ). m - n) v (product z v)
      ∙ sym (mod-eq-sub-div-mul (a * precision + e) t)

  per_unit_exact : per_unit e t a ≡ (
      if leb ((a * precision + e) / t) u128_max
      then ok ((a * precision + e) / t, (a * precision + e) % t)
      else err RedistError.accumulator_overflow)
  unfolding per_unit
  per_unit_exact =
      let (z, ez, vz) = numerator in
      rw
        (
          ez,
          w.to_u128_lem (w.sub z (w.mul (w.div z (w.from t)) (w.from t))),
          remainder z vz,
          narrow_fits u128_max ((a * precision + e) % t) (omega arith),
          w.to_u128_lem (w.div z (w.from t)),
          quotient z vz,
        )
        (ground arith)

  -- A call that succeeds adds the whole quotient and carries the remainder.
  pub accumulate-eq-ok :
      (l l' e' : ℕ)
      → accumulate l e t a ≡ (ok l', e')
      → (l' ≡ l + (a * precision + e) / t) × (e' ≡ (a * precision + e) % t) × (l' ≤ u128_max)
  unfolding accumulate
  accumulate-eq-ok l l' e' h = ground (arith, per_unit_exact)

  -- For a carried error, stakes above zero and an amount of 128 bits, a call whose new
  -- accumulator has 128 bits succeeds: it adds the whole quotient and carries the remainder.
  pub accumulate_ok :
      (l : ℕ)
      → l + (a * precision + e) / t ≤ u128_max
      → accumulate l e t a ≡ (ok (l + (a * precision + e) / t), (a * precision + e) % t)
  unfolding accumulate
  accumulate_ok l h = ground (arith, per_unit_exact)

  -- For a carried error, stakes above zero and an amount of 128 bits, a call whose new
  -- accumulator would need more than 128 bits is refused with an overflow of the accumulator.
  pub accumulate_overflow :
      (l : ℕ)
      → u128_max < l + (a * precision + e) / t
      → (accumulate l e t a).0 ≡ err RedistError.accumulator_overflow
  unfolding accumulate
  accumulate_overflow l h = ground (arith, per_unit_exact)

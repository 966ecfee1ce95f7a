-- ===== src/ReactorPool/Product.antt =====
-- `update_product` of crates/fusd-math/src/reactor_pool.rs: the product stays between the scale factor
-- and one.
use native.Mathlib.Nat.{mul-le-mul}
use fusion_core.Prelude.{
  ℕ, zero, suc, ◌+◌, ◌*◌, ◌/◌, ◌≤◌, ◌<◌, ◌≡◌, refl, ap, ◌∙◌, true, false, inl, inr, Bool-cases, ok,
  leb, arith, u128_max, narrow_fits,
}
use mathlib.Core.Path.{ap₂, subst}
use fusion_core.Wide.{Wide, u256_max}
use fusion_core.Money.Rounding.{product_fits}
use fusion_core.ReactorPool.{rescale, update_product, decimal_precision, scale_factor, or_math}

-- `n` scaled up `k` times.
abbrev pub scaled : ℕ → ℕ → ℕ
scaled zero n = n
scaled (suc k) n = scaled k (n * scale_factor)

-- A product brought back to its range, by at most `left` rescalings.
pub record Rescaled (n left bumps : ℕ) (r : ℕ × ℕ) : Type 0 where
  pub least : scale_factor ≤ r.0
  pub most : r.0 ≤ decimal_precision
  pub steps : ℕ
  pub steps_most : steps ≤ left
  pub bumped : r.1 ≡ bumps + steps
  pub exact : r.0 ≡ scaled steps n / decimal_precision

product_most :
    (p factor : ℕ)
    → p ≤ decimal_precision
    → factor ≤ decimal_precision
    → p * factor ≤ decimal_precision * decimal_precision
product_most p factor h h' = mul-le-mul h h'

product_least : (p factor : ℕ) → scale_factor ≤ p → 0 < factor → scale_factor ≤ p * factor
product_least p factor h h' = let q : scale_factor * 1 ≤ p * factor = mul-le-mul h h' in omega arith

module _ ⦃w : Wide⦄ where
  value_quotient :
      (num : w.U256)
      → w.value (w.div num (w.from decimal_precision)) ≡ w.value num / decimal_precision
  value_quotient num =
      w.value-div num (w.from decimal_precision)
        (rw (w.value-from decimal_precision (omega arith)) (omega arith))
      ∙ ap (λ (d : ℕ). w.value num / d) (w.value-from decimal_precision (omega arith))

  ge_threshold :
      (num : w.U256)
      → w.ge (w.div num (w.from decimal_precision)) (w.from scale_factor)
        ≡ leb scale_factor (w.value num / decimal_precision)
  ge_threshold num =
      w.ge_lem _ _ ∙ rw (w.value-from scale_factor (omega arith), value_quotient num) refl

  quotient_narrows :
      (num : w.U256)
      → w.value num ≤ decimal_precision * decimal_precision
      → or_math (w.to_u128 (w.div num (w.from decimal_precision)))
        ≡ ok (w.value num / decimal_precision)
  quotient_narrows num h = rw (
    w.to_u128_lem (w.div num (w.from decimal_precision)),
    value_quotient num,
    narrow_fits u128_max (w.value num / decimal_precision) (omega arith),
  )

  found :
      (num : w.U256) (left bumps : ℕ)
      → w.value num ≤ decimal_precision * decimal_precision
      → leb scale_factor (w.value num / decimal_precision) ≡ true
      → Rescaled (w.value num) left bumps (w.value num / decimal_precision, bumps)
  found num left bumps h enough = record {
    least = ground arith;
    most = omega arith;
    steps = 0;
    steps_most = omega arith;
    bumped = omega arith;
    exact = refl;
  }

  value_scaled :
      (num : w.U256)
      → leb scale_factor (w.value num / decimal_precision) ≡ false
      → w.value (w.mul num (w.from scale_factor)) ≡ w.value num * scale_factor
  value_scaled num small =
      w.value-mul num (w.from scale_factor)
        (rw (w.value-from scale_factor (omega arith)) (below (w.value num) small))
      ∙ ap (λ (d : ℕ). w.value num * d) (w.value-from scale_factor (omega arith))
    where
      below :
          (n : ℕ) → leb scale_factor (n / decimal_precision) ≡ false → n * scale_factor ≤ u256_max
      below n small = ground arith

  rescale-Rescaled :
      (left bumps : ℕ) (num : w.U256)
      → w.value num ≤ decimal_precision * decimal_precision
      → decimal_precision * scale_factor ≤ scaled left (w.value num)
      → (r : ℕ × ℕ) × (rescale left bumps num ≡ ok r) × Rescaled (w.value num) left bumps r
  unfolding rescale
  rescale-Rescaled zero bumps num h enough =
      let big : leb scale_factor (w.value num / decimal_precision) ≡ true = ground arith in
      (
        (w.value num / decimal_precision, bumps),
        rw (ge_threshold num, big, quotient_narrows num h),
        found num 0 bumps h big,
      )
  rescale-Rescaled (suc left) bumps num h enough =
      elim (Bool-cases (leb scale_factor (w.value num / decimal_precision))) [
        | inl big ↦ (
          (w.value num / decimal_precision, bumps),
          rw (ge_threshold num, big, quotient_narrows num h),
          found num (suc left) bumps h big,
        )
        | inr small ↦
            let e = value_scaled num small in
            let (r, eq, done) =
              rescale-Rescaled left (bumps + 1) (w.mul num (w.from scale_factor))
                (rw e (ground arith)) (rw e enough) in
            (
              r,
              rw (ge_threshold num, small, eq),
              record {
                least = done.least;
                most = done.most;
                steps = suc done.steps;
                steps_most = omega (arith, done.steps_most);
                bumped = omega (arith, done.bumped);
                exact = done.exact ∙ ap (λ (n : ℕ). scaled done.steps n / decimal_precision) e;
              },
            )
      ]

  value_start :
      (p factor : ℕ)
      → p ≤ decimal_precision
      → factor ≤ decimal_precision
      → w.value (w.mul (w.from p) (w.from factor)) ≡ p * factor
  value_start p factor h h' =
      let e = w.value-from p (omega arith) in
      let e' = w.value-from factor (omega arith) in
      w.value-mul (w.from p) (w.from factor)
        (rw (e, e') (product_fits p factor (omega arith) (omega arith)))
      ∙ ap₂ (λ (x y : ℕ). x * y) e e'

  -- From a product between the scale factor and one, and a factor above zero and at most one, the
  -- update returns a product between the scale factor and one: the exact one scaled up
  -- at most four times and rounded down. The loop never gives up.
  pub update_product-Rescaled :
      (p factor : ℕ)
      → scale_factor ≤ p
      → p ≤ decimal_precision
      → 0 < factor
      → factor ≤ decimal_precision
      → (r : ℕ × ℕ) × (update_product p factor ≡ ok r) × Rescaled (p * factor) 4 0 r
  unfolding update_product
  update_product-Rescaled p factor h1 h2 h3 h4 =
      let e = value_start p factor h2 h4 in
      subst (λ (n : ℕ). (r : ℕ × ℕ) × (update_product p factor ≡ ok r) × Rescaled n 4 0 r) e
        (rescale-Rescaled 4 0 (w.mul (w.from p) (w.from factor))
          (rw e (product_most p factor h2 h4)) (rw e (omega (arith, product_least p factor h1 h3))))

-- ===== src/Fusd/Cdp/Health.antt =====
-- The health tests of programs/fusd-core/src/cdp.rs against the exact collateral ratio.
use native.Mathlib.Nat.{mul-le-mul_right}
use fusion_core.Prelude.{
  ℕ, ◌+◌, ◌*◌, ◌/◌, ◌≤◌, ◌<◌, ◌≡◌, ◌∙◌, true, false, some, arith, u16_max, u64_max, u128_max,
  narrow_fits,
}
use fusion_core.Wide.{Wide}
use fusion_core.Money.{ray, ray_mul, mul_div_floor}
use fusion_core.Money.Rounding.{ne_zero, mul_div_floor_bounds, mul_div_floor_exact}
use fusion_core.Fusd.Cdp.{bps, collateral_value, max_debt, is_healthy, tcr_below}

-- From the two floors to the exact ratio.
two_floors_below :
    (x ratio value m debt : ℕ)
    → value * ray ≤ x
    → m * ratio ≤ value * bps
    → debt ≤ m
    → debt * ratio * ray ≤ x * bps
two_floors_below x ratio value m debt v f d =
    omega (arith, mul-le-mul_right (ratio * ray) d, mul-le-mul_right ray f)

two_floors_above :
    (x ratio value m debt : ℕ)
    → x < value * ray + ray
    → value * bps < m * ratio + ratio
    → m < debt
    → x * bps < debt * ratio * ray + bps * ray
two_floors_above x ratio value m debt v f d =
    omega (arith, mul-le-mul_right (ratio * ray) d, mul-le-mul_right ray f)

-- The debt `m` that a collateral of `coll` at `spot` may carry, between its two roundings.
record Limit (coll spot ratio m : ℕ) : Type 0 where
  value : ℕ
  below : value * ray ≤ coll * spot
  above : coll * spot < value * ray + ray
  limit_below : m * ratio ≤ value * bps
  limit_above : value * bps < m * ratio + ratio

div-le : (n d : ℕ) → 0 < d → n / d ≤ n
div-le n d h = omega arith

module _ ⦃w : Wide⦄ where
  max_debt-eq_some :
      (value ratio m : ℕ) → max_debt value ratio ≡ some m → mul_div_floor value bps ratio ≡ some m
  unfolding max_debt
  max_debt-eq_some value ratio m h = ground arith

  max_debt-Limit :
      (coll spot ratio value m : ℕ)
      → coll ≤ u128_max
      → spot ≤ u128_max
      → ratio ≤ u16_max
      → ray_mul coll spot ≡ some value
      → max_debt value ratio ≡ some m
      → Limit coll spot ratio m
  unfolding ray_mul
  max_debt-Limit coll spot ratio value m hc hs hr hv hm =
      let (_, vb, va, fits) = mul_div_floor_bounds coll spot ray hc hs (omega arith) hv in
      let (_, lb, la, _) =
        mul_div_floor_bounds value bps ratio fits (omega arith) (omega arith)
          (max_debt-eq_some value ratio m hm) in
      record { value = value; below = vb; above = va; limit_below = lb; limit_above = la }

  -- where nothing overflows the limit exists
  limit_exists :
      (coll spot ratio : ℕ)
      → coll ≤ u128_max
      → spot ≤ u128_max
      → ratio ≤ u16_max
      → 0 < ratio
      → coll * spot / ray * bps ≤ u128_max
      → (value m : ℕ) × (ray_mul coll spot ≡ some value) × (max_debt value ratio ≡ some m)
  unfolding ray_mul max_debt
  limit_exists coll spot ratio hc hs hr pos fits =
      let value = coll * spot / ray in
      (
        value,
        value * bps / ratio,
        mul_div_floor_exact coll spot ray hc hs (omega arith) (omega arith)
            ∙ narrow_fits u128_max value (omega arith),
        rw (ne_zero ratio pos) (
            mul_div_floor_exact value bps ratio (omega arith) (omega arith) (omega arith) pos
            ∙ narrow_fits u128_max (value * bps / ratio)
                (omega (arith, div-le (value * bps) ratio pos))),
      )

  is_healthy-eq_true :
      (ink debt spot mcr : ℕ)
      → is_healthy ink debt spot mcr ≡ true
      → (value m : ℕ) × (ray_mul ink spot ≡ some value) × (max_debt value mcr ≡ some m) × (debt ≤ m)
  unfolding is_healthy collateral_value
  is_healthy-eq_true ink debt spot mcr h = ground arith

  -- For operands within their widths, a position that passes the health test has a debt that its
  -- collateral covers at the exact minimum ratio: rounding never admits too much.
  pub is_healthy_sound :
      (ink debt spot mcr : ℕ)
      → ink ≤ u64_max
      → spot ≤ u128_max
      → mcr ≤ u16_max
      → is_healthy ink debt spot mcr ≡ true
      → debt * mcr * ray ≤ ink * spot * bps
  is_healthy_sound ink debt spot mcr hi hs hm h =
      let (value, m, ev, em, le) = is_healthy-eq_true ink debt spot mcr h in
      let l = max_debt-Limit ink spot mcr value m (omega arith) hs hm ev em in
      two_floors_below (ink * spot) mcr l.value m debt l.below l.limit_below le

  -- For operands within their widths, a position that fails the health test, at a ratio that is
  -- not zero and where the value of the collateral does not overflow, is short of the exact
  -- ratio by all but the rounding.
  pub is_healthy_complete :
      (ink debt spot mcr : ℕ)
      → ink ≤ u64_max
      → spot ≤ u128_max
      → mcr ≤ u16_max
      → 0 < mcr
      → ink * spot / ray * bps ≤ u128_max
      → is_healthy ink debt spot mcr ≡ false
      → ink * spot * bps < debt * mcr * ray + bps * ray
  unfolding is_healthy collateral_value
  is_healthy_complete ink debt spot mcr hi hs hm pos fits h =
      let (value, m, ev, em) = limit_exists ink spot mcr (omega arith) hs hm pos fits in
      let l = max_debt-Limit ink spot mcr value m (omega arith) hs hm ev em in
      two_floors_above (ink * spot) mcr l.value m debt l.above l.limit_above (ground arith)

  tcr_below-eq_true :
      (coll agg spot ratio : ℕ)
      → tcr_below coll agg spot ratio ≡ true
      → (value m : ℕ) × (ray_mul coll spot ≡ some value)
        × (max_debt value ratio ≡ some m)
        × (m < agg)
  unfolding tcr_below
  tcr_below-eq_true coll agg spot ratio h = ground arith

  -- For operands within their widths, a market is below a ratio only if it is short of it by all
  -- but the rounding, and one that is not below, where nothing overflows and the ratio is not
  -- zero, covers its debt at the ratio.
  pub tcr_below_bounds :
      (coll agg spot ratio : ℕ)
      → coll ≤ u128_max
      → spot ≤ u128_max
      → ratio ≤ u16_max
      → (tcr_below coll agg spot ratio ≡ true → coll * spot * bps < agg * ratio * ray + bps * ray)
        × (tcr_below coll agg spot ratio ≡ false
            → 0 < ratio
            → coll * spot / ray * bps ≤ u128_max
            → agg * ratio * ray ≤ coll * spot * bps)
  unfolding tcr_below
  tcr_below_bounds coll agg spot ratio hc hs hr = (
    (λ h.
        let (value, m, ev, em, lt) = tcr_below-eq_true coll agg spot ratio h in
        let l = max_debt-Limit coll spot ratio value m hc hs hr ev em in
        two_floors_above (coll * spot) ratio l.value m agg l.above l.limit_above lt),
    (λ h pos fits.
        let (value, m, ev, em) = limit_exists coll spot ratio hc hs hr pos fits in
        let l = max_debt-Limit coll spot ratio value m hc hs hr ev em in
        two_floors_below (coll * spot) ratio l.value m agg l.below l.limit_below (ground arith)),
  )

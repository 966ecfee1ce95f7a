-- ===== src/Fusd/Cdp/Collar.antt =====
-- The liquidation collar of programs/fusd-core/src/cdp.rs.
use native.Mathlib.Nat.{mul-le-mul_right}
use fusion_core.Prelude.{
  ℕ, ◌+◌, ◌-◌, ◌*◌, ◌≤◌, ◌<◌, ◌≡◌, ◌≢◌, ap, min, some, arith, u16_max, u128_max,
}
use fusion_core.Wide.{Wide}
use fusion_core.Money.{ray, mul_div_ceil}
use fusion_core.Money.Rounding.{mul_div_ceil_bounds}
use fusion_core.Fusd.Cdp.{bps, seize_collateral}

-- from the two roundings up to the exact values
covers :
    (debt bonus value coll spot : ℕ)
    → debt * (bps + bonus) ≤ value * bps
    → value * ray ≤ coll * spot
    → debt * (bps + bonus) * ray ≤ coll * spot * bps
covers debt bonus value coll spot h k =
    omega (arith, mul-le-mul_right ray h, mul-le-mul_right bps k)

tight :
    (debt bonus value coll spot : ℕ)
    → value * bps < debt * (bps + bonus) + bps
    → coll * spot < value * ray + spot
    → coll * spot * bps < debt * (bps + bonus) * ray + bps * ray + spot * bps
tight debt bonus value coll spot h k = omega (arith, mul-le-mul_right ray h, mul-le-mul_right bps k)

module _ ⦃w : Wide⦄ where
  seize-eq_some :
      (ink debt spot bonus seize surplus : ℕ)
      → bonus ≢ 0
      → seize_collateral ink debt spot bonus ≡ some (seize, surplus)
      → (value coll : ℕ) × (mul_div_ceil debt (bps + bonus) bps ≡ some value)
        × (mul_div_ceil value ray spot ≡ some coll)
        × (seize ≡ min coll ink)
        × (surplus ≡ ink - min coll ink)
  unfolding seize_collateral
  seize-eq_some ink debt spot bonus seize surplus hb h = ground arith

  -- What is seized and what is returned make up the collateral.
  pub seize_conserves :
      (ink debt spot bonus seize surplus : ℕ)
      → seize_collateral ink debt spot bonus ≡ some (seize, surplus)
      → seize + surplus ≡ ink
  unfolding seize_collateral
  seize_conserves ink debt spot bonus seize surplus h = ground arith

  seize_all :
      (ink debt spot bonus seize surplus : ℕ)
      → seize_collateral ink debt spot bonus ≡ some (seize, surplus)
      → bonus ≡ 0
      → surplus ≡ 0
  unfolding seize_collateral
  seize_all ink debt spot bonus seize surplus h e = ground arith

  -- For a debt, a price and a bonus within their widths, a collar that returns splits the
  -- collateral into what is seized and what is returned. With no bonus nothing is returned. With
  -- one, collateral is returned only if what is seized covers the debt and the bonus at the
  -- price, and it is worth less than one unit of fUSD and one unit of collateral more than that.
  pub seize_collateral_bounds :
      (ink debt spot bonus seize surplus : ℕ)
      → debt ≤ u128_max
      → spot ≤ u128_max
      → bonus ≤ u16_max
      → seize_collateral ink debt spot bonus ≡ some (seize, surplus)
      → (seize + surplus ≡ ink)
        × (bonus ≡ 0 → surplus ≡ 0)
        × (bonus ≢ 0
            → 0 < surplus
            → (debt * (bps + bonus) * ray ≤ seize * spot * bps)
              × (seize * spot * bps < debt * (bps + bonus) * ray + bps * ray + spot * bps))
  seize_collateral_bounds ink debt spot bonus seize surplus hd hs hb h = (
    seize_conserves ink debt spot bonus seize surplus h,
    seize_all ink debt spot bonus seize surplus h,
    (λ hn pos.
        let (value, coll, ev, ec, es, er) = seize-eq_some ink debt spot bonus seize surplus hn h in
        let (_, v_low, v_high, fits) =
          mul_div_ceil_bounds debt (bps + bonus) bps hd (omega arith) (omega arith) ev in
        let (_, c_low, c_high, _) = mul_div_ceil_bounds value ray spot fits (omega arith) hs ec in
        let same : seize ≡ coll = omega arith in
        let product : seize * spot ≡ coll * spot = ap (λ (n : ℕ). n * spot) same in
        (
          omega (arith, covers debt bonus value coll spot v_low c_low),
          omega (arith, tight debt bonus value coll spot v_high c_high),
        )),
  )

-- ===== src/Fusd/Cdp.antt =====
-- programs/fusd-core/src/cdp.rs: collateral value, health, the liquidation collar and the rate
-- limiter of new debt. Debts are rounded up and values down, against the borrower.
pub mod Health
pub mod Collar
pub mod RateLimit
mod Tests
use fusion_core.Prelude.{
  ℕ, ◌+◌, ◌-◌, ◌/◌, min, Bool, true, false, not, Option, none, some, ◌==◌, ltb, leb, if◌then◌else◌,
  u64_max, u128_max, narrow, checked_add, saturating_mul, bind_some, unwrap_or,
}
use fusion_core.Prelude.Int.{ℤ, pos, pos_part, leb_ℤ, saturating_sub}
use fusion_core.Wide.{Wide}
use fusion_core.Money.{ray, ray_mul, mul_div_floor, mul_div_ceil}

abbrev pub bps : ℕ
bps = 10_000

module _ ⦃w : Wide⦄ where
  unfoldable pub collateral_value : ℕ → ℕ → Option ℕ
  collateral_value ink spot = ray_mul ink spot

  unfoldable pub max_debt : ℕ → ℕ → Option ℕ
  max_debt collateral_value mcr_bps =
      if mcr_bps == 0 then none else mul_div_floor collateral_value bps mcr_bps

  -- The `as u64` keeps the value: it is at most `ink`, a `u64`.
  unfoldable pub seize_collateral : ℕ → ℕ → ℕ → ℕ → Option (ℕ × ℕ)
  seize_collateral ink debt spot bonus_bps =
      if bonus_bps == 0
      then some (ink, 0)
      else bind_some (mul_div_ceil debt (bps + bonus_bps) bps) (λ seize_value.
        bind_some (mul_div_ceil seize_value ray spot)
          (λ coll. let seize_coll = min coll ink in some (seize_coll, ink - seize_coll)))

  unfoldable pub is_healthy : ℕ → ℕ → ℕ → ℕ → Bool
  is_healthy ink recorded_debt spot mcr_bps = elim (collateral_value ink spot) [
    | none ↦ false
    | some value ↦ elim (max_debt value mcr_bps) [ none ↦ false | some m ↦ leb recorded_debt m ]
  ]

  unfoldable pub tcr_below : ℕ → ℕ → ℕ → ℕ → Bool
  tcr_below total_collateral agg_recorded_debt spot ratio_bps =
      if agg_recorded_debt == 0 then false else elim (ray_mul total_collateral spot) [
        | none ↦ false
        | some value ↦ elim (max_debt value ratio_bps) [
          | none ↦ false
          | some m ↦ ltb m agg_recorded_debt
        ]
      ]

-- Instants and the window are `i64`.
unfoldable pub ratelimit_decayed : ℕ → ℤ → ℤ → ℕ → ℤ → ℕ
ratelimit_decayed accrued last_update now cap window_secs =
    if leb_ℤ window_secs (pos 0)
    then accrued
    else let elapsed = pos_part (saturating_sub now last_update) in
      let restored = saturating_mul u128_max cap elapsed / pos_part window_secs in
      accrued - unwrap_or u64_max (narrow u64_max (min restored u64_max))

unfoldable pub ratelimit_consume : ℕ → ℤ → ℤ → ℕ → ℤ → ℕ → Option ℕ
ratelimit_consume accrued last_update now cap window_secs outflow =
    bind_some
      (checked_add u64_max (ratelimit_decayed accrued last_update now cap window_secs) outflow)
      (λ next. if ltb cap next then none else some next)

unfoldable pub ratelimit_restore : ℕ → ℤ → ℤ → ℕ → ℤ → ℕ → ℕ
ratelimit_restore accrued last_update now cap window_secs inflow =
    ratelimit_decayed accrued last_update now cap window_secs - inflow

-- ===== src/Redemption.antt =====
-- crates/fusd-math/src/redemption.rs: the base rate of the redemption fee. Rates are parts of a ray.
pub mod Fee
mod Tests
use fusion_core.Prelude.{
  ℕ, ◌+◌, ◌*◌, ◌/◌, min, ◌||◌, none, some, ◌==◌, if◌then◌else◌, u128_max, saturating_add, unwrap_or,
}
use fusion_core.Prelude.Int.{ℤ, pos_part}
use fusion_core.Wide.{Wide}
use fusion_core.Money.{ray, bps_denominator, mul_div_floor, ray_mul, ray_pow}

abbrev pub base_rate_decay_per_minute : ℕ
base_rate_decay_per_minute = 998_076_443_575_628_823_990_894_592

abbrev pub base_rate_beta : ℕ
base_rate_beta = 2

module _ ⦃w : Wide⦄ where
  -- The outer option of `ray_pow` is that of its fuel, which is enough.
  unfoldable pub decay_base_rate : ℕ → ℤ → ℕ
  decay_base_rate base_rate secs_elapsed =
      if base_rate == 0 || pos_part secs_elapsed == 0
      then base_rate
      else let minutes = pos_part secs_elapsed / 60 in
        if minutes == 0
        then base_rate
        else let factor =
            unwrap_or 0 (unwrap_or none (ray_pow base_rate_decay_per_minute minutes)) in
          unwrap_or 0 (ray_mul base_rate factor)

  unfoldable pub bump_base_rate : ℕ → ℕ → ℕ → ℕ
  bump_base_rate base_rate redeemed total_debt =
      if total_debt == 0 || (redeemed == 0 || base_rate_beta == 0)
      then base_rate
      else let frac = unwrap_or 0 (mul_div_floor redeemed ray total_debt) / base_rate_beta in
        min (saturating_add u128_max base_rate frac) ray

unfoldable pub effective_fee_bps : ℕ → ℕ → ℕ → ℕ → ℕ
effective_fee_bps base_rate floor_bps dynamic_max_bps cap_bps =
    let dyn_bps = base_rate / (ray / bps_denominator) in
    let dyn_capped = min dyn_bps dynamic_max_bps in min (floor_bps + dyn_capped) cap_bps

-- ===== src/Interest.antt =====
-- crates/fusd-math/src/interest.rs: the interest of one position and of a whole market.
pub mod Solvency
mod Tests
use fusion_core.Prelude.{ℕ, ◌*◌, Option, u128_max, checked_mul, bind_some}
use fusion_core.Wide.{Wide}
use fusion_core.Money.{mul_div_floor, mul_div_ceil}

abbrev pub seconds_per_year : ℕ
seconds_per_year = 31_536_000

abbrev pub interest_rate_denom : ℕ
interest_rate_denom = 10_000

abbrev pub interest_denom : ℕ
interest_denom = seconds_per_year * interest_rate_denom

unfoldable pub weighted_debt : ℕ → ℕ → Option ℕ
weighted_debt recorded_debt rate_bps = checked_mul u128_max recorded_debt rate_bps

module _ ⦃w : Wide⦄ where
  unfoldable pub pending_aggregate_interest : ℕ → ℕ → Option ℕ
  pending_aggregate_interest weighted_sum dt = mul_div_ceil weighted_sum dt interest_denom

  unfoldable pub accrued_interest : ℕ → ℕ → ℕ → Option ℕ
  accrued_interest recorded_debt rate_bps period =
      bind_some (weighted_debt recorded_debt rate_bps)
        (λ weighted. mul_div_floor weighted period interest_denom)

  unfoldable pub premature_adjustment_fee : ℕ → ℕ → ℕ → Option ℕ
  premature_adjustment_fee recorded_debt rate_bps period_secs =
      bind_some (weighted_debt recorded_debt rate_bps)
        (λ weighted. mul_div_ceil weighted period_secs interest_denom)

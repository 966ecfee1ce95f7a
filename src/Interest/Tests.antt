-- ===== src/Interest/Tests.antt =====
-- Inputs at which the theorems on crates/fusd-math/src/interest.rs apply.
use fusion_core.Prelude.{ℕ, ◌+◌, ◌≡◌, ◌≤◌, refl, some, List, [], ◌∷◌, arith, length, sum}
use fusion_core.Wide.{exact}
use fusion_core.Money.{mul_div_ceil, wide_mul_div}
use fusion_core.Interest.{pending_aggregate_interest, premature_adjustment_fee, weighted_debt}
use fusion_core.Interest.Solvency.{Loan, total_weight, accrue_each, accrue_each-le-aggregate}

-- 1000 fUSD at 5 percent and 2000 fUSD at 3 percent
abbrev two_loans : List Loan
two_loans = (1_000_000_000, 500) ∷ (2_000_000_000, 300) ∷ []

day_of_interest :
    pending_aggregate_interest ⦃w = exact⦄ (total_weight two_loans) 86_400 ≡ some 301_370
unfolding pending_aggregate_interest mul_div_ceil wide_mul_div
day_of_interest = refl

accrue_each-le-aggregate_example :
    (xs : List ℕ) × (accrue_each ⦃w = exact⦄ two_loans 86_400 ≡ some xs)
    × (sum xs ≤ 301_370)
    × (301_370 ≤ sum xs + length two_loans + 1)
accrue_each-le-aggregate_example =
    accrue_each-le-aggregate ⦃w = exact⦄ two_loans 86_400 301_370 (omega arith) (omega arith)
      day_of_interest

fee_of_a_week : premature_adjustment_fee ⦃w = exact⦄ 1_000_000_000 500 604_800 ≡ some 958_905
unfolding premature_adjustment_fee weighted_debt mul_div_ceil wide_mul_div
fee_of_a_week = refl

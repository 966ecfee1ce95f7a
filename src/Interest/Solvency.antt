-- ===== src/Interest/Solvency.antt =====
-- The rounding of crates/fusd-math/src/interest.rs: what a market is charged as a whole covers what
-- its positions are charged one by one.
use fusion_core.Prelude.{
  ℕ, ◌+◌, ◌*◌, ◌/◌, ◌≤◌, ◌≡◌, refl, ◌∙◌, Option, some, List, [], ◌∷◌, arith, length, sum, u64_max,
  u128_max, narrow, narrow_fits, bind_some,
}
use fusion_core.Wide.{Wide}
use fusion_core.Money.Rounding.{mul_div_floor_exact, mul_div_ceil_bounds}
use fusion_core.Interest.{
  interest_denom, weighted_debt, pending_aggregate_interest, accrued_interest,
  premature_adjustment_fee,
}

-- A position as the market's interest sees it: its debt and its rate.
abbrev pub Loan : Type 0
Loan = ℕ × ℕ

-- The sum that the market keeps.
abbrev pub total_weight : List Loan → ℕ
total_weight [] = 0
total_weight ((debt, rate) ∷ ls) = debt * rate + total_weight ls

module _ ⦃w : Wide⦄ where
  -- What each position is charged when all are touched after the same time.
  abbrev pub accrue_each : List Loan → ℕ → Option (List ℕ)
  accrue_each [] dt = some []
  accrue_each ((debt, rate) ∷ ls) dt =
      bind_some (accrued_interest debt rate dt)
        (λ x. bind_some (accrue_each ls dt) (λ xs. some (x ∷ xs)))

  pub accrued_interest_exact :
      (debt rate dt : ℕ)
      → debt * rate ≤ u128_max
      → dt ≤ u64_max
      → accrued_interest debt rate dt ≡ narrow u128_max (debt * rate * dt / interest_denom)
  unfolding accrued_interest weighted_debt
  accrued_interest_exact debt rate dt h t = rw (narrow_fits u128_max (debt * rate) h) (
      mul_div_floor_exact (debt * rate) dt interest_denom h (omega arith) (omega arith)
        (omega arith))

  -- The charges exist, and their sum is within one per position of the exact amount.
  accrue_each_bounds :
      (ls : List Loan) (dt m : ℕ)
      → total_weight ls ≤ u128_max
      → dt ≤ u64_max
      → m ≤ u128_max
      → total_weight ls * dt ≤ m * interest_denom
      → (xs : List ℕ) × (accrue_each ls dt ≡ some xs)
        × (sum xs * interest_denom ≤ total_weight ls * dt)
        × (total_weight ls * dt ≤ (sum xs + length ls) * interest_denom)
  accrue_each_bounds [] dt m hw ht hm cover = ([], refl, omega arith, omega arith)
  accrue_each_bounds ((debt, rate) ∷ ls) dt m hw ht hm cover =
      let q = debt * rate * dt / interest_denom in
      let (xs, e, low, high) = accrue_each_bounds ls dt m (omega arith) ht hm (omega arith) in
      let first : accrued_interest debt rate dt ≡ some q =
        accrued_interest_exact debt rate dt (omega arith) ht
        ∙ narrow_fits u128_max q (omega arith) in
      (q ∷ xs, rw (first, e), omega arith, omega arith)

  -- For a total weight of 128 bits and a time of 64 bits: if the market's interest is computed,
  -- then every position can be charged for the same time, the charges together are at most the
  -- market's, and the market's is at most one unit for each position above them, and one more.
  pub accrue_each-le-aggregate :
      (ls : List Loan) (dt m : ℕ)
      → total_weight ls ≤ u128_max
      → dt ≤ u64_max
      → pending_aggregate_interest (total_weight ls) dt ≡ some m
      → (xs : List ℕ) × (accrue_each ls dt ≡ some xs) × (sum xs ≤ m) × (m ≤ sum xs + length ls + 1)
  unfolding pending_aggregate_interest
  accrue_each-le-aggregate ls dt m hw ht e =
      let b =
        mul_div_ceil_bounds (total_weight ls) dt interest_denom hw (omega arith) (omega arith) e in
      let (xs, charged, low, high) = accrue_each_bounds ls dt m hw ht b.3 b.1 in
      (xs, charged, omega arith, omega arith)

  -- For a weighted debt of 128 bits and a period of 64 bits, the premature fee of a period,
  -- where it is computed, is the interest of the period or one unit more.
  pub premature_adjustment_fee_bounds :
      (debt rate period fee : ℕ)
      → debt * rate ≤ u128_max
      → period ≤ u64_max
      → premature_adjustment_fee debt rate period ≡ some fee
      → (x : ℕ) × (accrued_interest debt rate period ≡ some x) × (x ≤ fee) × (fee ≤ x + 1)
  unfolding premature_adjustment_fee weighted_debt
  premature_adjustment_fee_bounds debt rate period fee hw ht e =
      let b =
        mul_div_ceil_bounds (debt * rate) period interest_denom hw (omega arith) (omega arith)
          (rw (narrow_fits u128_max (debt * rate) hw) at e) in
      let q = debt * rate * period / interest_denom in
      (
        q,
        accrued_interest_exact debt rate period hw ht ∙ narrow_fits u128_max q (omega arith),
        omega arith,
        omega arith,
      )

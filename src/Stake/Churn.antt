-- ===== src/Stake/Churn.antt =====
-- crates/fusion-stake-math/src/churn.rs: which deviations are worth a move, and how much one action
-- may move.
use fusion_core.Prelude.{ℕ, Bool, not, ◌&&◌, ltb, if◌then◌else◌, min, max}
use fusion_core.Stake.{bps_of}

unfoldable pub hysteresis : ℕ → ℕ → ℕ → ℕ
hysteresis total min_abs bps = max min_abs (bps_of total bps)

unfoldable pub exceeds_hysteresis : ℕ → ℕ → Bool
exceeds_hysteresis deviation threshold = ltb threshold deviation

unfoldable pub global_churn_budget : ℕ → ℕ → ℕ
global_churn_budget total bps = bps_of total bps

unfoldable pub validator_move_cap : ℕ → ℕ → ℕ
validator_move_cap total bps = bps_of total bps

unfoldable pub action_amount : ℕ → ℕ → ℕ → ℕ → ℕ → Bool → ℕ
action_amount deviation remaining_budget move_cap source_capacity min_action full_drain =
    let amount = min (min (min deviation remaining_budget) move_cap) source_capacity in
    if ltb amount min_action && not full_drain then 0 else amount

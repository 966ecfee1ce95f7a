-- ===== src/Stake/Reserve.antt =====
-- crates/fusion-stake-math/src/reserve.rs and rewards.rs: the reserve of the pool, and what a crank
-- is paid.
use fusion_core.Prelude.{ℕ, ◌-◌, min, max}
use fusion_core.Stake.{bps_of}

unfoldable pub reserve_target : ℕ → ℕ → ℕ → ℕ
reserve_target total reserve_min bps = min total (max reserve_min (bps_of total bps))

unfoldable pub productive_lamports : ℕ → ℕ → ℕ
productive_lamports total reserve = total - reserve

unfoldable pub payout : ℕ → ℕ → ℕ → ℕ
payout task_reward epoch_budget_remaining vault_balance =
    min (min task_reward epoch_budget_remaining) vault_balance

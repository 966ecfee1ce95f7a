-- ===== src/Fusd/Error.antt =====
-- programs/fusd-core/src/errors.rs: the program's error codes, in the order of their ordinals.
use fusion_core.Prelude.{Option, Result, ok_or}
use fusion_core.Redistribution.{RedistError}

pub data FusdError : Type 0 where
  unauthorized param_out_of_bounds collateral_has_freeze_authority : FusdError
  oracle_unavailable stale_price below_min_collateral_ratio debt_ceiling_exceeded : FusdError
  zero_amount insufficient_collateral position_healthy reactor_pool_too_small : FusdError
  insufficient_reactor_deposit reactor_grid_exhausted math_overflow : FusdError
  no_redistribution_recipients redistribution_accumulator_overflow position_not_empty : FusdError
  nothing_to_redeem wrong_redemption_bucket duplicate_redemption_target : FusdError
  timelock_not_elapsed timelock_market_mismatch mint_frozen invalid_price_update : FusdError
  invalid_switchboard_feed invalid_clmm_pool twap_sample_rejected guardian_paused : FusdError
  market_shutdown market_not_shutdown shutdown_condition_not_met rate_limit_exceeded : FusdError
  ccr_restricted liquidation_grace_period interest_rate_out_of_bounds : FusdError
  no_collateral_surplus no_pending_authority debt_below_minimum : FusdError
  too_many_redemption_candidates insufficient_protocol_collateral collar_exceeds_mcr : FusdError
  param_combination_invalid vault_reconciliation_failed invalid_recipient : FusdError
  insufficient_backstop_excess oracle_divergent invalid_stake_pool : FusdError
  invalid_metadata_account liquidation_infra_not_ready : FusdError

-- `map_err` of programs/fusd-core/src/redist.rs
unfoldable pub redist_error : RedistError → FusdError
redist_error RedistError.no_stakes = FusdError.no_redistribution_recipients
redist_error RedistError.accumulator_overflow = FusdError.redistribution_accumulator_overflow
redist_error RedistError.math = FusdError.math_overflow

-- Why an instruction aborts: an error of the program, a panic (an index out of range), or a failed
-- call of another program. An aborted instruction leaves every account as it was.
pub data Abort : Type 0 where
  error : FusdError → Abort
  panic program_error : Abort

-- `o.ok_or(FusdError::MathOverflow)?`
abbrev pub or_overflow {ℓ} : {A : Type ℓ} → Option A → Result Abort A
or_overflow o = ok_or o (Abort.error FusdError.math_overflow)

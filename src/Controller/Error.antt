-- ===== src/Controller/Error.antt =====
-- programs/fusion-stake-controller/src/errors.rs: the error codes, in the order of their ordinals.
use fusion_core.Prelude.{Bool, Option, Result, ok_or, require}

pub data ControllerError : Type 0 where
  already_sealed invalid_config_address address_mismatch invalid_fusol_mint : ControllerError
  invalid_maintenance_vault invalid_vote_account zero_amount math_overflow : ControllerError
  pool_not_initialized validator_not_in_pool validator_cap_exceeded : ControllerError
  corrupt_validator_status invalid_stake_pool_account : ControllerError
  invalid_validator_list_entry not_yet_implemented wrong_phase : ControllerError
  epoch_not_advanced invalid_remaining_accounts stale_validator_record : ControllerError
  record_already_planned preference_window_closed preference_window_still_open : ControllerError
  preference_not_countable preference_change_limit preference_owner_mismatch : ControllerError
  invalid_position_account validator_not_eligible_for_preference : ControllerError
  directed_shares_exceed_supply plan_conservation_violated : ControllerError
  neutral_round_inconsistent rebalance_complete wrong_action_target : ControllerError
  epoch_not_finished position_still_open invalid_rent_recipient : ControllerError
  invalid_reward_recipient preference_change_limit2 invalid_user_stake_account : ControllerError
  stake_delegation_mismatch minimum_delegation_unavailable : ControllerError

-- Why an instruction fails: with an error of its own, in a panic of checked arithmetic, or in a call
-- of another program.
pub data Abort : Type 0 where
  error : ControllerError → Abort
  panic program_error : Abort

-- `require!(b, ControllerError::e)`
abbrev pub check : Bool → ControllerError → Result Abort (Unit {0})
check b e = require b (error e)

-- `o.ok_or(ControllerError::e)?`
abbrev pub or_error {ℓ} : {A : Type ℓ} → Option A → ControllerError → Result Abort A
or_error o e = ok_or o (error e)

-- `o.ok_or(ControllerError::MathOverflow)?`
abbrev pub or_overflow {ℓ} : {A : Type ℓ} → Option A → Result Abort A
or_overflow o = ok_or o (error math_overflow)

-- An operator of Rust, whose overflow panics in every profile of the workspace.
abbrev pub or_panic {ℓ} : {A : Type ℓ} → Option A → Result Abort A
or_panic o = ok_or o panic

-- A failed call aborts the instruction.
abbrev pub call {ℓ} : {A : Type ℓ} → Option A → Result Abort A
call o = ok_or o program_error

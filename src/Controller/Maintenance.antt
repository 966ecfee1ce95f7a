-- ===== src/Controller/Maintenance.antt =====
-- programs/fusion-stake-controller/src/maintenance.rs: what a crank is paid, out of the maintenance vault.
use fusion_core.Prelude.{ℕ, ◌-◌, not, ◌==◌, if◌then◌else◌, Result, ok, ◌>>=◌, checked_add, u64_max}
use fusion_core.Stake.Preference.{Address, same_bytes}
use fusion_core.Stake.Reserve.{payout}
use fusion_core.Controller.Constants.{crank_epoch_payout_budget}
use fusion_core.Controller.Error.{ControllerError, Abort, check, or_overflow, call}
use fusion_core.Controller.State.{EpochState}
use fusion_core.Controller.Cpi.{Accounts, Chain, transfer_reward}

-- The keys of the accounts that an instruction is given. Those of the pool are the recorded ones.
pub record Keys : Type 0 where
  pub stake_pool : Address
  pub pool_authority : Address
  pub pool_withdraw_authority : Address
  pub validator_list : Address
  pub reserve_stake : Address
  pub maintenance_vault : Address
  pub fusol_mint : Address
  pub token_program : Address
  pub crank_reward_account : Address

-- What the cranks change, beside the records of the validators.
pub record Crank : Type 0 where
  pub es : EpochState
  pub accounts : Accounts

module _ ⦃chain : Chain⦄ where
  -- Once the amount is known.
  unfoldable pub pay : ℕ → Crank → Result Abort Crank
  pay amount w =
      if amount == 0
      then ok w
      else call (transfer_reward amount w.accounts) >>= λ accounts.
          or_overflow (checked_add u64_max w.es.epoch_payout_budget_used amount) >>= λ used.
          ok (record { es = record w.es { epoch_payout_budget_used = used }; accounts = accounts })

  unfoldable pub pay_crank_reward : Keys → ℕ → Crank → Result Abort Crank
  pay_crank_reward keys task_reward w =
      check (not (same_bytes keys.crank_reward_account keys.maintenance_vault))
        ControllerError.invalid_reward_recipient
      >>= λ _.
          pay
            (payout task_reward (crank_epoch_payout_budget - w.es.epoch_payout_budget_used)
              w.accounts.maintenance_vault)
            w

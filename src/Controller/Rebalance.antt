-- ===== src/Controller/Rebalance.antt =====
-- programs/fusion-stake-controller/src/instructions/execute_next_action.rs: the next action of the
-- rebalancing, or the admission of a candidate.
use fusion_core.Prelude.{
  ℕ, ◌-◌, ◌*◌, ◌/◌, Bool, true, false, ◌&&◌, ◌||◌, ltb, leb, ◌==◌, if◌then◌else◌, Result, ok, ◌>>=◌,
  checked_add, saturating_add, u64_max,
}
use fusion_core.Stake.Churn.{hysteresis, validator_move_cap}
use fusion_core.Stake.Lifecycle.{ValidatorStatus, candidate, from_u8}
use fusion_core.Stake.Preference.{Address, same_bytes}
use fusion_core.StakeView.ValidatorList.{ValidatorEntry, entry_at}
use fusion_core.Controller.Constants.{
  min_activation_target_lamports, hysteresis_min_lamports, hysteresis_bps, validator_move_cap_bps,
  crank_reward_rebalance_action, validator_list_index_unset,
}
use fusion_core.Controller.Error.{
  ControllerError, Abort, check, or_error, or_overflow, or_panic, call,
}
use fusion_core.Controller.State.{EpochState, ValidatorRecord, phase_rebalance}
use fusion_core.Controller.Logic.{
  Action, skip, remove, decrease, increase, ActionInputs, decide_action, RebalanceSlot,
  rebalance_slot,
}
use fusion_core.Controller.Cpi.{
  Chain, invoke, derive_validator_stake, derive_transient_stake, effective_minimum_delegation,
}
use fusion_core.Controller.Cpi.Moves.{
  add_validator_to_pool, remove_validator_from_pool, increase_validator_stake,
  decrease_validator_stake_with_reserve,
}
use fusion_core.Controller.Maintenance.{Keys, Crank, pay_crank_reward}
use fusion_core.Controller.Cycle.{in_phase}
use fusion_core.Controller.PlanDirected.{shares_of, same_status, list_header}

-- The accounts of the validator that the instruction is given.
pub record Target : Type 0 where
  pub vote : Address
  pub validator_stake : Address
  pub transient_stake : Address

-- `churn_budget_used` after a move.
unfoldable pub spend : EpochState → ℕ → Result Abort EpochState
spend es amount = or_overflow (checked_add u64_max es.churn_budget_used amount) >>= λ used.
    ok (record es { churn_budget_used = used })

-- `rebalance_actions_done += 1`
unfoldable pub count_action : EpochState → Result Abort EpochState
count_action es = or_panic (checked_add u64_max es.rebalance_actions_done 1) >>= λ done.
    ok (record es { rebalance_actions_done = done })

-- May a candidate without a slot in the list be added?
unfoldable pub check_admission :
    EpochState → ValidatorRecord → ValidatorStatus → Result Abort (Unit {0})
check_admission es r status =
    check (same_status status candidate) ControllerError.wrong_action_target >>= λ _.
    check
      (r.observed_epoch == es.controller_epoch
        && r.observed_liveness_ok
        && r.observed_commission_ok)
      ControllerError.wrong_action_target
    >>= λ _. check (ltb 0 es.nav_fusol_supply) ControllerError.wrong_action_target >>= λ _.
        check
          (leb min_activation_target_lamports
            (es.productive_lamports * shares_of r es.controller_epoch / es.nav_fusol_supply))
          ControllerError.wrong_action_target

-- What the decision reads.
unfoldable pub inputs_for :
    EpochState
    → ValidatorRecord
    → ValidatorStatus
    → RebalanceSlot
    → ValidatorEntry
    → ℕ
    → ℕ
    → ℕ
    → ActionInputs
inputs_for es r status slot entry min_delegation stake_rent reserve_lamports = record {
  pass = slot.pass;
  status = status;
  active_lamports = entry.active_stake_lamports;
  transient_lamports = entry.transient_stake_lamports;
  final_target = r.final_target;
  drained_floor = saturating_add u64_max stake_rent min_delegation;
  hysteresis_threshold = hysteresis es.nav_total_lamports hysteresis_min_lamports hysteresis_bps;
  budget_remaining = es.churn_budget_total - es.churn_budget_used;
  validator_move_cap = validator_move_cap es.nav_total_lamports validator_move_cap_bps;
  reserve_available_for_increase = reserve_lamports - es.reserve_target - stake_rent;
  reserve_lamports = reserve_lamports;
  stake_rent = stake_rent;
  min_delegation = min_delegation;
  increases_allowed = r.observed_epoch == es.controller_epoch && r.observed_liveness_ok;
  acted_this_epoch =
      r.last_increase_epoch == es.controller_epoch || r.last_decrease_epoch == es.controller_epoch;
}

abbrev pub is_skip : Action → Bool
is_skip skip = true
is_skip _ = false

module _ ⦃chain : Chain⦄ where
  unfoldable pub check_pair : Keys → Target → ValidatorEntry → Result Abort (Unit {0})
  check_pair keys target entry =
      check
        (same_bytes target.validator_stake
            (derive_validator_stake target.vote keys.stake_pool entry.validator_seed_suffix)
          && same_bytes target.transient_stake
              (derive_transient_stake target.vote keys.stake_pool entry.transient_seed_suffix))
        ControllerError.address_mismatch

  -- An action's call, and what it writes to the state and the record.
  unfoldable pub perform :
      Keys
      → Target
      → ValidatorEntry
      → Action
      → Crank
      → ValidatorRecord
      → Result Abort (Crank × ValidatorRecord)
  perform keys target entry skip w r = ok (w, r)
  perform keys target entry remove w r =
      call (
        invoke
          (remove_validator_from_pool keys.stake_pool keys.pool_authority
            keys.pool_withdraw_authority keys.validator_list target.validator_stake
            target.transient_stake)
          w.accounts)
      >>= λ accounts. ok (record w { accounts = accounts }, record r { pool_entry_status = 3 })
  perform keys target entry (decrease amount) w r =
      call (
        invoke
          (decrease_validator_stake_with_reserve keys.stake_pool keys.pool_authority
            keys.pool_withdraw_authority keys.validator_list keys.reserve_stake
            target.validator_stake target.transient_stake amount entry.transient_seed_suffix)
          w.accounts)
      >>= λ accounts. spend w.es amount >>= λ es. ok (
        record { es = es; accounts = accounts },
        record r { last_decrease_epoch = w.es.controller_epoch },
      )
  perform keys target entry (increase amount) w r =
      call (
        invoke
          (increase_validator_stake keys.stake_pool keys.pool_authority keys.pool_withdraw_authority
            keys.validator_list keys.reserve_stake target.transient_stake target.validator_stake
            target.vote amount entry.transient_seed_suffix)
          w.accounts)
      >>= λ accounts. spend w.es amount >>= λ es. ok (
        record { es = es; accounts = accounts },
        record r { last_increase_epoch = w.es.controller_epoch },
      )

  -- The cursor advances whatever was done; only an action counts and is paid.
  unfoldable pub advance : Keys → Action → Crank → Result Abort Crank
  advance keys action w = or_panic (checked_add u64_max w.es.rebalance_cursor 1) >>= λ next.
      let moved = record w.es { rebalance_cursor = next } in
      if is_skip action
      then ok (record w { es = moved })
      else count_action moved >>= λ es.
          pay_crank_reward keys crank_reward_rebalance_action (record w { es = es })

  unfoldable pub admit_validator :
      Keys
      → Target
      → ValidatorStatus
      → Crank
      → ValidatorRecord
      → Result Abort (Crank × ValidatorRecord)
  admit_validator keys target status w r = check_admission w.es r status >>= λ _.
      let stake = derive_validator_stake target.vote keys.stake_pool 0 in
      check (same_bytes target.validator_stake stake) ControllerError.address_mismatch >>= λ _.
      list_header w.accounts.validator_list >>= λ header.
      call (
        invoke
          (add_validator_to_pool keys.stake_pool keys.pool_authority keys.reserve_stake
            keys.pool_withdraw_authority keys.validator_list stake target.vote 0)
          w.accounts)
      >>= λ accounts. count_action w.es >>= λ es.
          pay_crank_reward keys crank_reward_rebalance_action
            (record { es = es; accounts = accounts })
          >>= λ w'. ok (w', record r { validator_list_index = header.len; pool_entry_status = 0 })

  unfoldable pub visit_validator :
      Keys
      → Target
      → ℕ
      → ValidatorStatus
      → Crank
      → ValidatorRecord
      → Result Abort (Crank × ValidatorRecord)
  visit_validator keys target stake_rent status w r =
      or_error
        (rebalance_slot w.es.rebalance_cursor w.es.plan_directed_cursor w.es.controller_epoch)
        ControllerError.rebalance_complete
      >>= λ slot.
          check (r.validator_list_index == slot.index) ControllerError.wrong_action_target >>= λ _.
          or_error (entry_at w.accounts.validator_list r.validator_list_index)
            ControllerError.invalid_validator_list_entry
          >>= λ entry.
              check (same_bytes entry.vote_account_address target.vote)
                ControllerError.invalid_validator_list_entry
              >>= λ _. effective_minimum_delegation >>= λ min_delegation.
                  let action = decide_action (
                    inputs_for w.es r status slot entry min_delegation stake_rent
                      w.accounts.reserve_lamports) in
                  (if is_skip action then ok tt else check_pair keys target entry) >>= λ _.
                  perform keys target entry action w r >>= λ (w', r').
                  advance keys action w' >>= λ w''. ok (w'', r')

  -- `stake_rent` is the rent of a stake account. The record is that of the given vote account.
  unfoldable pub execute_next_action :
      Keys → Target → ℕ → Crank → ValidatorRecord → Result Abort (Crank × ValidatorRecord)
  execute_next_action keys target stake_rent w r = in_phase phase_rebalance w.es >>= λ _.
      check (r.plan_epoch == w.es.controller_epoch) ControllerError.stale_validator_record >>= λ _.
      or_error (from_u8 r.status) ControllerError.corrupt_validator_status >>= λ status.
      if r.validator_list_index == validator_list_index_unset
      then admit_validator keys target status w r
      else visit_validator keys target stake_rent status w r

-- ===== src/Controller/Cycle.antt =====
-- programs/fusion-stake-controller/src/instructions: `start_epoch`, `finalize_pool`,
-- `close_preference_window`, `finalize_plan` and `finish_epoch`, which move the cycle to its next phase.
-- The checks that Anchor makes of the accounts before a handler runs, and the events, are left out.
use fusion_core.Prelude.{
  ℕ, ◌-◌, ◌/◌, Bool, ◌||◌, Option, none, some, ltb, leb, ◌==◌, if◌then◌else◌, Result, ok, ◌>>=◌,
  checked_add, saturating_mul, u64_max, bind_some, List, map_err,
}
use fusion_core.Stake.Churn.{global_churn_budget}
use fusion_core.Stake.Reserve.{reserve_target, productive_lamports}
use fusion_core.StakeView.StakePool
use fusion_core.StakeView.StakePool.{StakePoolError, StakePoolView}
use fusion_core.Controller.Constants.{
  global_churn_cap_bps, reserve_minimum_lamports, reserve_target_bps,
  preference_window_slot_divisor, crank_reward_finalize_pool, crank_reward_plan_batch,
}
use fusion_core.Controller.Error.{ControllerError, Abort, check, or_overflow, call}
use fusion_core.Controller.State.{
  EpochState, reset_for_new_epoch, reset_plan_state, phase_idle, phase_reconcile, phase_finalize,
  phase_preferences, phase_plan_directed, phase_plan_finalize, phase_rebalance,
}
use fusion_core.Controller.Logic.{phase_transition_allowed}
use fusion_core.Controller.Cpi.{invoke, Accounts, Chain, effective_minimum_delegation}
use fusion_core.Controller.Cpi.Moves.{set_preferred_withdraw_validator}
use fusion_core.Controller.Cpi.Pool.{update_stake_pool_balance, cleanup_removed_validator_entries}
use fusion_core.Controller.Maintenance.{Keys, Crank, pay_crank_reward}

pub record Clock : Type 0 where
  pub slot : ℕ
  pub epoch : ℕ

-- `require!(phase_transition_allowed(es.phase, to), ..); es.phase = to;`
abbrev pub enter : ℕ → EpochState → Result Abort EpochState
enter to es = check (phase_transition_allowed es.phase to) ControllerError.wrong_phase >>= λ _.
    ok (record es { phase = to })

abbrev pub in_phase : ℕ → EpochState → Result Abort (Unit {0})
in_phase phase es = check (es.phase == phase) ControllerError.wrong_phase

unfoldable pub start_epoch : Clock → EpochState → Result Abort EpochState
start_epoch clock es =
    check (ltb es.controller_epoch clock.epoch) ControllerError.epoch_not_advanced >>= λ _.
    check (phase_transition_allowed es.phase phase_reconcile) ControllerError.wrong_phase >>= λ _.
    ok (record (reset_for_new_epoch es) {
      controller_epoch = clock.epoch;
      churn_budget_total = global_churn_budget es.nav_total_lamports global_churn_cap_bps;
      phase = phase_reconcile;
    })

unfoldable pub close_preference_window : Clock → EpochState → Result Abort EpochState
close_preference_window clock es = in_phase phase_preferences es >>= λ _.
    check (leb es.preference_window_close_slot clock.slot)
      ControllerError.preference_window_still_open
    >>= λ _.
        check (phase_transition_allowed es.phase phase_plan_directed) ControllerError.wrong_phase
        >>= λ _. ok (record (reset_plan_state es) { phase = phase_plan_directed })

-- The targets, the grants and the shortfall.
unfoldable pub assigned : EpochState → Option ℕ
assigned es =
    bind_some (checked_add u64_max es.sum_directed_targets es.neutral_granted_total)
      (λ v. checked_add u64_max v es.capacity_shortfall)

unfoldable pub check_conservation : EpochState → Result Abort (Unit {0})
check_conservation es = or_overflow (assigned es) >>= λ v.
    check (v == es.productive_lamports) ControllerError.plan_conservation_violated

-- The pool's bytes, or the error.
abbrev pub pool_view : List ℕ → Result Abort StakePoolView
pool_view bytes =
    map_err (λ _. Abort.error ControllerError.invalid_stake_pool_account) (StakePool.parse bytes)

-- The state after the new totals of the pool. The window closes at `close_slot`.
unfoldable pub snapshot_nav : ℕ → ℕ → ℕ → EpochState → EpochState
snapshot_nav new_total new_supply close_slot es =
    let reserve = reserve_target new_total reserve_minimum_lamports reserve_target_bps in
    record es {
      nav_total_lamports = new_total;
      nav_fusol_supply = new_supply;
      reserve_target = reserve;
      productive_lamports = productive_lamports new_total reserve;
      churn_budget_total = global_churn_budget new_total global_churn_cap_bps;
      preference_window_close_slot = close_slot;
    }

module _ ⦃chain : Chain⦄ where
  -- The two calls of `finalize_pool`.
  unfoldable pub update_pool : Keys → Accounts → Result Abort Accounts
  update_pool keys accounts =
      call (
        invoke
          (update_stake_pool_balance keys.stake_pool keys.pool_withdraw_authority
            keys.validator_list keys.reserve_stake keys.maintenance_vault keys.fusol_mint
            keys.token_program)
          accounts)
      >>= λ updated.
          call
            (invoke (cleanup_removed_validator_entries keys.stake_pool keys.validator_list) updated)

  unfoldable pub finalize_pool : Keys → Clock → ℕ → Crank → Result Abort Crank
  finalize_pool keys clock slots_in_epoch w = in_phase phase_finalize w.es >>= λ _.
      pool_view w.accounts.stake_pool >>= λ before. update_pool keys w.accounts >>= λ accounts.
      pool_view accounts.stake_pool >>= λ pool.
      or_overflow (checked_add u64_max clock.slot (slots_in_epoch / preference_window_slot_divisor))
      >>= λ close_slot.
          enter phase_preferences
            (snapshot_nav pool.total_lamports pool.pool_token_supply close_slot w.es)
          >>= λ es.
              if ltb before.last_update_epoch clock.epoch
              then pay_crank_reward keys crank_reward_finalize_pool
                  (record { es = es; accounts = accounts })
              else ok (record { es = es; accounts = accounts })

  unfoldable pub finalize_plan : Keys → Crank → Result Abort Crank
  finalize_plan keys w = in_phase phase_plan_finalize w.es >>= λ _. check_conservation w.es >>= λ _.
      call (
        invoke
          (set_preferred_withdraw_validator keys.stake_pool keys.pool_authority keys.validator_list
            (if ltb 0 w.es.preferred_withdraw_surplus
              then some w.es.preferred_withdraw_vote
              else none))
          w.accounts)
      >>= λ accounts. enter phase_rebalance w.es >>= λ es.
          pay_crank_reward keys crank_reward_plan_batch (record {
            es = record es { rebalance_cursor = 0; rebalance_actions_done = 0 };
            accounts = accounts;
          })

  unfoldable pub walk_complete : EpochState → Bool
  walk_complete es = leb (saturating_mul u64_max es.plan_directed_cursor 2) es.rebalance_cursor

  unfoldable pub finish_epoch : Keys → Crank → Result Abort Crank
  finish_epoch keys w = in_phase phase_rebalance w.es >>= λ _.
      effective_minimum_delegation >>= λ min_delegation.
      check
        (walk_complete w.es
          || ltb (w.es.churn_budget_total - w.es.churn_budget_used) min_delegation)
        ControllerError.epoch_not_finished
      >>= λ _. enter phase_idle w.es >>= λ es.
          pay_crank_reward keys crank_reward_finalize_pool (record w { es = es })

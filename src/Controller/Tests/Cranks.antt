-- ===== src/Controller/Tests/Cranks.antt =====
-- An input at which the theorem on the budgets of an epoch applies: an epoch of a pool of one validator,
-- from its start to the move of a twentieth of the validator's stake back to the reserve.
use fusion_core.Prelude.{
  ℕ, ◌+◌, ◌-◌, ◌≡◌, ◌≤◌, refl, true, false, some, ok, List, [], ◌∷◌, ◌++◌, sum,
}
use fusion_core.Stake.{bps_of}
use fusion_core.Stake.Churn.{
  hysteresis, exceeds_hysteresis, global_churn_budget, validator_move_cap, action_amount,
}
use fusion_core.Stake.Lifecycle.{
  from_u8, as_u8, advance_lifecycle, next_status, failure_streak, healthy_streak, drains,
  lifecycle_cap, global_liveness_guard,
}
use fusion_core.Stake.Preference.{same_bytes}
use fusion_core.Stake.Reserve.{payout, reserve_target, productive_lamports}
use fusion_core.Stake.Targets.{
  begin_round, neutral_total, neutral_capacity, directed_target, step, base, grant_to,
  rotation_start, in_window, is_complete, remaining_after,
}
use fusion_core.StakeView.Bytes.{u8_at, read, u32_le, u64_le, i64_le, array32, slice}
use fusion_core.StakeView.Bytes.Layout.{to_le}
use fusion_core.StakeView.StakePool
use fusion_core.StakeView.StakePool.{read32, read_u64, parse_lockup, parse_fee}
use fusion_core.StakeView.ValidatorList.{parse_header, read_entry, entry_at}
use fusion_core.Controller.Tests.{
  filled, quiet, idle, accounts, keys, no_records, clock, vote, validator,
}
use fusion_core.Controller.Constants.{
  fusion_stake_pool_program_id, crank_epoch_payout_budget, global_churn_cap_bps,
}
use fusion_core.Controller.State.{
  EpochState, ValidatorRecord, reset_plan_state, reset_for_new_epoch, neutral_round,
  set_neutral_round, fold_preferred_withdraw,
}
use fusion_core.Controller.Logic.{
  phase_transition_allowed, observe_vote, rebalance_slot, decide_action, visit_action, cut_surplus,
}
use fusion_core.Controller.Cpi.{
  Accounts, Instruction, effective_minimum_delegation, stake_get_minimum_delegation,
  derive_validator_stake, derive_transient_stake,
}
use fusion_core.Controller.Cpi.Moves.{
  set_preferred_withdraw_validator, decrease_validator_stake_with_reserve,
}
use fusion_core.Controller.Cpi.Pool.{
  update_stake_pool_balance, cleanup_removed_validator_entries, update_validator_list_balance,
}
use fusion_core.Controller.Maintenance.{Crank, pay, pay_crank_reward}
use fusion_core.Controller.Records.{Records, put, vote_sample}
use fusion_core.Controller.Cycle.{
  Clock, start_epoch, finalize_pool, update_pool, snapshot_nav, close_preference_window,
  finalize_plan, check_conservation, assigned,
}
use fusion_core.Controller.Reconcile.{
  Quad, reconcile_batch, expect, update_slice, reconcile_all, reconcile_one, entry_of, observe,
  add_delegated, add_healthy, advance_cursor,
}
use fusion_core.Controller.PlanDirected.{
  Pair, plan_directed_batch, plan_of, plan_pairs, plan_pair, observe_listed, lifecycle_input, admit,
  set_status, set_target, shares_of, add_planned, more_unsaturated, complete_directed,
}
use fusion_core.Controller.PlanNeutral.{
  plan_neutral_batch, plan_neutral, open_first, open_round, visit_batch, visit_records,
  visit_record, grant_member, book_grant, close_round,
}
use fusion_core.Controller.Rebalance.{
  Target, execute_next_action, visit_validator, inputs_for, check_pair, perform, spend, advance,
  count_action,
}
use fusion_core.Controller.Epoch.{
  World, start, next, reconciles, finalizes, closes, directs, distributes, plans, acts,
}
use fusion_core.Controller.Epoch.Ledger.{asked, lamports_of}
use fusion_core.Controller.Epoch.Invariant.{Reaches-le-budgets}

-- A pool of 1000 SOL for 900 fuSOL, updated in the epoch before.
abbrev pool_data : List ℕ
pool_data =
    1 ∷ filled 0 257
    ++ (to_le 8 1_000_000_000_000 ++ (to_le 8 900_000_000_000 ++ (to_le 8 10 ++ filled 0 64)))

-- One entry, with 100 SOL of active stake.
abbrev list_data : List ℕ
list_data =
    2
    ∷ 0
    ∷ 4
    ∷ 0
    ∷ 0
    ∷ 1
    ∷ 0
    ∷ 0
    ∷ 0
    ∷ (to_le 8 100_000_000_000 ++ (filled 0 28 ++ (filled 0 5 ++ vote)))

abbrev record_key : List ℕ
record_key = filled 41 32

abbrev before : Crank
before = record {
  es = idle;
  accounts = record accounts { stake_pool = pool_data; validator_list = list_data };
}

abbrev begun : EpochState
begun = record idle {
  controller_epoch = 11;
  preference_window_close_slot = 0;
  churn_budget_used = 0;
  epoch_payout_budget_used = 0;
  phase = 1;
}

abbrev records : Records
records = put no_records record_key validator

starts : start_epoch clock idle ≡ ok begun
unfolding start_epoch phase_transition_allowed reset_for_new_epoch global_churn_budget
    reset_plan_state bps_of set_neutral_round
starts = refl

abbrev quad : Quad
quad = record {
  validator_stake = fusion_stake_pool_program_id;
  transient_stake = fusion_stake_pool_program_id;
  record_key = record_key;
  is_writable = true;
  vote = record { key = vote; owner = filled 42 32; bytes = [] };
}

-- The accounts after a call, and after a reward of 0.001 fuSOL.
abbrev sent : Instruction → Accounts → Accounts
sent ix a = record a { calls = ix ∷ a.calls }

abbrev paid : Accounts → Accounts
paid a = record a {
  maintenance_vault = a.maintenance_vault - 1_000_000;
  crank_reward_account = a.crank_reward_account + 1_000_000;
  payouts = 1_000_000 ∷ a.payouts;
}

abbrev observed : ValidatorRecord
observed = record validator { last_active_lamports = 100_000_000_000; observed_liveness_ok = false }

abbrev reconciled : World
reconciled = (
  record {
    es = record begun {
      reconcile_cursor = 1;
      total_delegated_lamports = 100_000_000_000;
      phase = 2;
    };
    accounts =
        sent
          (update_validator_list_balance ⦃chain = quiet⦄ keys.stake_pool
            keys.pool_withdraw_authority keys.validator_list keys.reserve_stake
            ((fusion_stake_pool_program_id, fusion_stake_pool_program_id) ∷ []) 0 false)
          before.accounts;
  },
  put records record_key observed,
)

reconciles_one :
    reconcile_batch ⦃chain = quiet⦄ keys clock 432_000
      (quad ∷ [])
      (record before { es = begun }, records)
    ≡ ok reconciled
unfolding put phase_transition_allowed parse_header read_entry entry_at u8_at read u32_le u64_le
    array32 slice to_le same_bytes derive_validator_stake derive_transient_stake vote_sample
    reconcile_batch expect update_slice reconcile_all reconcile_one entry_of observe observe_vote
    add_delegated add_healthy advance_cursor
reconciles_one = refl

abbrev finalized : Crank
finalized = record {
  es = record reconciled.0.es {
    preference_window_close_slot = 4_765_510;
    productive_lamports = 980_000_000_000;
    epoch_payout_budget_used = 1_000_000;
    phase = 3;
  };
  accounts = paid (
      sent (cleanup_removed_validator_entries ⦃chain = quiet⦄ keys.stake_pool keys.validator_list) (
        sent
          (update_stake_pool_balance ⦃chain = quiet⦄ keys.stake_pool keys.pool_withdraw_authority
            keys.validator_list keys.reserve_stake keys.maintenance_vault keys.fusol_mint
            keys.token_program)
          reconciled.0.accounts));
}

finalizes_pool : finalize_pool ⦃chain = quiet⦄ keys clock 432_000 reconciled.0 ≡ ok finalized
unfolding phase_transition_allowed finalize_pool update_pool snapshot_nav reserve_target
    productive_lamports global_churn_budget bps_of StakePool.parse read32 read_u64 parse_lockup
    parse_fee u8_at read u64_le i64_le array32 slice to_le same_bytes pay pay_crank_reward payout
finalizes_pool = refl

-- The preference window has closed.
abbrev later : Clock
later = record { slot = 4_770_000; epoch = 11 }

abbrev closed : EpochState
closed = record finalized.es { phase = 4 }

closes_window : close_preference_window later finalized.es ≡ ok closed
unfolding close_preference_window phase_transition_allowed reset_plan_state set_neutral_round
closes_window = refl

abbrev pair : Pair
pair = record { record_key = record_key; is_writable = true; vote = quad.vote }

abbrev targeted : ValidatorRecord
targeted = record observed {
  consecutive_liveness_failures = 1;
  directed_target = 16_333_333_333;
  final_target = 16_333_333_333;
  remaining_capacity = 3_666_666_667;
  plan_epoch = 11;
}

abbrev directed : World
directed = (
  record {
    es = record closed {
      plan_directed_cursor = 1;
      total_directed_shares = 15_000_000_000;
      neutral_total = 963_666_666_667;
      unsaturated_active_count = 1;
      epoch_payout_budget_used = 2_000_000;
      sum_directed_targets = 16_333_333_333;
      preferred_withdraw_surplus = 83_666_666_667;
      preferred_withdraw_vote = vote;
      phase = 5;
    };
    accounts = paid finalized.accounts;
  },
  put reconciled.1 record_key targeted,
)

directs_one :
    plan_directed_batch ⦃chain = quiet⦄ keys later 2_282_880 432_000
      (pair ∷ [])
      (record finalized { es = closed }, reconciled.1)
    ≡ ok directed
unfolding phase_transition_allowed plan_directed_batch plan_of plan_pairs plan_pair observe_listed
    lifecycle_input admit set_status set_target shares_of add_planned more_unsaturated
    complete_directed fold_preferred_withdraw put effective_minimum_delegation
    stake_get_minimum_delegation pay pay_crank_reward payout parse_header read_entry entry_at u8_at
    read u32_le u64_le array32 slice to_le same_bytes global_liveness_guard lifecycle_cap bps_of
    from_u8 as_u8 advance_lifecycle next_status failure_streak healthy_streak drains neutral_total
    neutral_capacity directed_target
directs_one = refl

abbrev granted : ValidatorRecord
granted = record targeted {
  neutral_granted = 3_666_666_667;
  final_target = 20_000_000_000;
  remaining_capacity = 0;
  saturated_this_round = true;
  saturated_round = 1;
}

abbrev distributed : World
distributed = (
  record {
    es = record directed.0.es {
      neutral_total = 960_000_000_000;
      unsaturated_active_count = 0;
      capacity_shortfall = 960_000_000_000;
      epoch_payout_budget_used = 3_000_000;
      round_remaining = 963_666_666_667;
      round_n_unsaturated = 1;
      round_tranche = 963_666_666_667;
      round_steps = 1;
      round_granted = 3_666_666_667;
      round_saturated = 1;
      neutral_round_number = 1;
      neutral_cursor = 1;
      neutral_granted_total = 3_666_666_667;
      preferred_withdraw_surplus = 80_000_000_000;
      phase = 6;
    };
    accounts = paid directed.0.accounts;
  },
  put directed.1 record_key granted,
)

distributes_one :
    plan_neutral_batch ⦃chain = quiet⦄ keys ((record_key, true) ∷ []) directed ≡ ok distributed
unfolding phase_transition_allowed fold_preferred_withdraw put pay pay_crank_reward payout
    same_bytes from_u8 as_u8 plan_neutral_batch plan_neutral open_first open_round visit_batch
    visit_records visit_record grant_member book_grant close_round begin_round rotation_start step
    in_window base grant_to is_complete remaining_after neutral_round set_neutral_round
distributes_one = refl

abbrev planned : Crank
planned = record {
  es = record distributed.0.es { epoch_payout_budget_used = 4_000_000; phase = 7 };
  accounts = paid (
      sent
        (set_preferred_withdraw_validator ⦃chain = quiet⦄ keys.stake_pool keys.pool_authority
          keys.validator_list (some vote))
        distributed.0.accounts);
}

finalizes_plan : finalize_plan ⦃chain = quiet⦄ keys distributed.0 ≡ ok planned
unfolding phase_transition_allowed finalize_plan check_conservation assigned pay pay_crank_reward
    payout same_bytes
finalizes_plan = refl

abbrev target : Target
target = record {
  vote = vote;
  validator_stake = fusion_stake_pool_program_id;
  transient_stake = fusion_stake_pool_program_id;
}

-- The first pass skips the validator.
abbrev skipped : Crank
skipped = record planned { es = record planned.es { rebalance_cursor = 1 } }

skips :
    (distributed.1 record_key ≡ some granted)
    × (execute_next_action ⦃chain = quiet⦄ keys target 2_282_880 planned granted
        ≡ ok (skipped, granted))
unfolding put same_bytes execute_next_action visit_validator inputs_for perform advance
    rebalance_slot rotation_start entry_at read_entry parse_header u8_at read u32_le u64_le array32
    slice to_le from_u8 effective_minimum_delegation stake_get_minimum_delegation decide_action
    visit_action hysteresis validator_move_cap bps_of
skips = (refl, refl)

-- The second takes 5 SOL from it, for a reward of 0.002 fuSOL.
abbrev moved : Crank
moved = record {
  es = record skipped.es {
    rebalance_actions_done = 1;
    churn_budget_used = 5_000_000_000;
    epoch_payout_budget_used = 6_000_000;
    rebalance_cursor = 2;
  };
  accounts = record skipped.accounts {
    maintenance_vault = 394_000_000;
    crank_reward_account = 6_000_000;
    payouts = 2_000_000 ∷ skipped.accounts.payouts;
    calls =
        decrease_validator_stake_with_reserve ⦃chain = quiet⦄ keys.stake_pool keys.pool_authority
          keys.pool_withdraw_authority keys.validator_list keys.reserve_stake target.validator_stake
          target.transient_stake 5_000_000_000 0
        ∷ skipped.accounts.calls;
  };
}

abbrev cut : ValidatorRecord
cut = record granted { last_decrease_epoch = 11 }

moves :
    (put distributed.1 record_key granted record_key ≡ some granted)
    × (execute_next_action ⦃chain = quiet⦄ keys target 2_282_880 skipped granted ≡ ok (moved, cut))
unfolding put same_bytes execute_next_action visit_validator inputs_for check_pair perform spend
    advance count_action rebalance_slot rotation_start entry_at read_entry parse_header u8_at read
    u32_le u64_le array32 slice to_le from_u8 effective_minimum_delegation
    stake_get_minimum_delegation decide_action visit_action cut_surplus action_amount
    exceeds_hysteresis hysteresis validator_move_cap bps_of derive_validator_stake
    derive_transient_stake pay pay_crank_reward payout
moves = (refl, refl)

-- What the pool was asked for, and what was paid.
totals : (asked moved.accounts.calls ≡ 5_000_000_000) × (sum moved.accounts.payouts ≡ 6_000_000)
unfolding lamports_of u8_at u64_le read slice to_le decrease_validator_stake_with_reserve
    set_preferred_withdraw_validator update_stake_pool_balance cleanup_removed_validator_entries
    update_validator_list_balance
totals = (refl, refl)

Reaches-le-budgets_example :
    (asked moved.accounts.calls ≤ asked before.accounts.calls + moved.es.churn_budget_total)
    × (moved.es.churn_budget_total
        ≡ global_churn_budget moved.es.nav_total_lamports global_churn_cap_bps)
    × (sum moved.accounts.payouts ≤ sum before.accounts.payouts + crank_epoch_payout_budget)
Reaches-le-budgets_example =
    Reaches-le-budgets ⦃chain = quiet⦄ before {rs = records} {es = begun}
      {t = (moved, put (put distributed.1 record_key granted) record_key cut)} clock starts
      (next
        (next
          (next
            (next
              (next
                (next
                  (next (next start (reconciles keys clock 432_000 (quad ∷ []) reconciles_one))
                    (finalizes keys clock 432_000 finalizes_pool))
                  (closes later closes_window))
                (directs keys later 2_282_880 432_000 (pair ∷ []) directs_one))
              (distributes keys ((record_key, true) ∷ []) distributes_one))
            (plans keys finalizes_plan))
          (acts keys target 2_282_880 record_key granted granted skips.0 skips.1))
        (acts keys target 2_282_880 record_key granted cut moves.0 moves.1))

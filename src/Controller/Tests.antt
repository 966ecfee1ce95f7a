-- ===== src/Controller/Tests.antt =====
-- Inputs at which the theorems on programs/fusion-stake-controller apply.
mod Plan
mod Shares
mod Cranks
use fusion_core.Prelude.{
  ℕ, zero, suc, ◌+◌, ◌*◌, ◌≡◌, ◌≤◌, ◌<◌, refl, Bool, true, false, some, none, ok, List, [], ◌∷◌,
  ◌||◌, ltb, arith, Result, err,
}
use fusion_core.Fusd.Programs.{move_all, move_all_moves}
use fusion_core.Stake.Lifecycle.{active, from_u8}
use fusion_core.Stake.Preference.{Address, same_bytes, countable}
use fusion_core.Stake.Targets.{
  NeutralRound, begin_round, neutral_total, pass, step, visit, base, grant_to, rotation_start,
  in_window,
}
use fusion_core.Stake.Churn.{global_churn_budget}
use fusion_core.Stake.{bps_of}
use fusion_core.StakeView.Bytes.Layout.{to_le}
use fusion_core.StakeView.Bytes.{from_le}
use fusion_core.StakeView.Position
use fusion_core.StakeView.Position.RoundTrip.{PositionAccount, serialize}
use fusion_core.Controller.Constants.{
  stake_program_id, crank_epoch_payout_budget, global_churn_cap_bps,
}
use fusion_core.Controller.Error.{Abort}
use fusion_core.Controller.State.{
  EpochState, ValidatorRecord, Preference, no_vote, reset_for_new_epoch, reset_plan_state,
  neutral_round, set_neutral_round,
}
use fusion_core.Controller.Logic.{
  Action, skip, ActionInputs, decide_action, rebalance_slot, phase_transition_allowed,
}
use fusion_core.Controller.Logic.Decide.{Bounded, decide_action-Bounded}
use fusion_core.Controller.Logic.Walk.{visits_each_once}
use fusion_core.Controller.Cpi.{
  Accounts, Chain, ix_increase_validator_stake, ix_decrease_validator_stake_with_reserve,
}
use fusion_core.Controller.Cpi.Moves.{
  increase_validator_stake, decrease_validator_stake_with_reserve,
}
use fusion_core.Controller.Cpi.Encoding.{Says, moves-Says}
use fusion_core.Controller.Maintenance.{Keys, Crank}
use fusion_core.Controller.Records.{Records}
use fusion_core.Controller.Cycle.{Clock, start_epoch, close_preference_window, check_conservation}
use fusion_core.Controller.PlanNeutral.{plan_neutral, plan_neutral_batch, open_first}

abbrev filled : ℕ → ℕ → List ℕ
filled x zero = []
filled x (suc n) = x ∷ filled x n

-- Programs that succeed, and return a minimum delegation of one lamport.
abbrev quiet : Chain
quiet = record {
  clock_id = filled 1 32;
  rent_id = filled 2 32;
  stake_history_id = filled 3 32;
  system_program_id = filled 0 32;
  find_program_address = λ seeds program. program;
  process = λ ix accounts. some accounts;
  return_data = λ ix. some (some (stake_program_id, 1 ∷ filled 0 7));
  transfer = move_all;
  transfer_moves = move_all_moves;
}

-- The state after an epoch of a pool of 1000 SOL, two thirds of it productive.
abbrev idle : EpochState
idle = record {
  controller_epoch = 10;
  reconcile_cursor = 0;
  plan_directed_cursor = 0;
  rebalance_actions_done = 0;
  preference_window_close_slot = 4_000_000;
  nav_total_lamports = 1_000_000_000_000;
  nav_fusol_supply = 900_000_000_000;
  productive_lamports = 600_000_000_000;
  reserve_target = 20_000_000_000;
  total_directed_shares = 0;
  neutral_total = 0;
  unsaturated_active_count = 0;
  capacity_shortfall = 0;
  churn_budget_total = 30_000_000_000;
  churn_budget_used = 7_000_000_000;
  healthy_delegated_lamports = 0;
  total_delegated_lamports = 0;
  epoch_payout_budget_used = 3_000_000;
  round_remaining = 0;
  round_n_unsaturated = 0;
  round_tranche = 0;
  round_remainder = 0;
  round_start = 0;
  round_steps = 0;
  round_remainder_used = 0;
  round_granted = 0;
  round_saturated = 0;
  neutral_round_number = 0;
  neutral_cursor = 0;
  sum_directed_targets = 0;
  neutral_granted_total = 0;
  rebalance_cursor = 0;
  preferred_withdraw_surplus = 0;
  preferred_withdraw_vote = no_vote;
  phase = 0;
}

-- A validator list of no validators.
abbrev accounts : Accounts
accounts = record {
  stake_pool = [];
  validator_list = 2 ∷ 0 ∷ 4 ∷ 0 ∷ 0 ∷ filled 0 4;
  reserve_lamports = 50_000_000_000;
  maintenance_vault = 400_000_000;
  crank_reward_account = 0;
  calls = [];
  payouts = [];
}

abbrev keys : Keys
keys = record {
  stake_pool = filled 21 32;
  pool_authority = filled 22 32;
  pool_withdraw_authority = filled 23 32;
  validator_list = filled 24 32;
  reserve_stake = filled 25 32;
  maintenance_vault = filled 26 32;
  fusol_mint = filled 27 32;
  token_program = filled 28 32;
  crank_reward_account = filled 29 32;
}

abbrev no_records : Records
no_records key = none

abbrev clock : Clock
clock = record { slot = 4_752_010; epoch = 11 }

visits_each_once_example :
    (c : ℕ) × (c < 5 * 2)
    × (rebalance_slot c 5 12 ≡ some (record { pass = 1; index = 3 }))
    × ((d : ℕ) → rebalance_slot d 5 12 ≡ some (record { pass = 1; index = 3 }) → d ≡ c)
    × ((d : ℕ) → 5 * 2 ≤ d → rebalance_slot d 5 12 ≡ none)
visits_each_once_example = visits_each_once 5 12 1 3 (omega arith) (omega arith) (omega arith)

-- An active validator that is 900 SOL short, with a budget of 300.
abbrev short : ActionInputs
short = record {
  pass = 1;
  status = active;
  active_lamports = 100_000_000_000;
  transient_lamports = 0;
  final_target = 1_000_000_000_000;
  drained_floor = 3_282_880;
  hysteresis_threshold = 50_000_000_000;
  budget_remaining = 300_000_000_000;
  validator_move_cap = 500_000_000_000;
  reserve_available_for_increase = 400_000_000_000;
  reserve_lamports = 700_000_000_000;
  stake_rent = 2_282_880;
  min_delegation = 1_000_000;
  increases_allowed = true;
  acted_this_epoch = false;
}

decide_action-Bounded_example :
    ((ltb 0 short.transient_lamports || short.acted_this_epoch) ≡ true → decide_action short ≡ skip)
    × Bounded short (decide_action short)
decide_action-Bounded_example = decide_action-Bounded short

moves-Says_example :
    Says
      (increase_validator_stake ⦃chain = quiet⦄
        (filled 21 32)
        (filled 22 32)
        (filled 23 32)
        (filled 24 32)
        (filled 25 32)
        (filled 4 32)
        (filled 5 32)
        (filled 6 32)
        1_000_000_007
        2)
      ix_increase_validator_stake
      1_000_000_007
      2
      (filled 22 32)
    × Says
        (decrease_validator_stake_with_reserve ⦃chain = quiet⦄
          (filled 21 32)
          (filled 22 32)
          (filled 23 32)
          (filled 24 32)
          (filled 25 32)
          (filled 5 32)
          (filled 4 32)
          1_000_000_007
          2)
        ix_decrease_validator_stake_with_reserve
        1_000_000_007
        2
        (filled 22 32)
moves-Says_example =
    moves-Says ⦃chain = quiet⦄ (filled 21 32) (filled 22 32) (filled 23 32) (filled 24 32)
      (filled 25 32) (filled 4 32) (filled 5 32) (filled 6 32) 1_000_000_007 2 (omega arith)
      (omega arith)

-- What a call returned, or what was there before it failed.
abbrev returned : {A : Type 0} → A → Result Abort A → A
returned a (ok b) = b
returned a (err e) = a

abbrev vote : Address
vote = filled 40 32

-- Active, of 10 SOL of directed shares at the pool's rate.
abbrev validator : ValidatorRecord
validator = record {
  vote_account = vote;
  validator_list_index = 0;
  status = 2;
  consecutive_liveness_failures = 0;
  consecutive_healthy_epochs = 0;
  has_pool_stake = true;
  last_active_lamports = 8_000_000_000;
  last_transient_lamports = 0;
  directed_shares_epoch = 11;
  directed_shares = 15_000_000_000;
  directed_target = 0;
  neutral_granted = 0;
  final_target = 0;
  remaining_capacity = 0;
  saturated_this_round = false;
  saturated_round = 0;
  last_increase_epoch = 0;
  last_decrease_epoch = 0;
  removal_delay_start = 0;
  observed_epoch = 11;
  observed_commission_ok = true;
  observed_liveness_ok = true;
  plan_epoch = 10;
  pool_entry_status = 0;
}

-- ===== src/Controller/State.antt =====
-- programs/fusion-stake-controller/src/state: the accounts of the program.
use fusion_core.Prelude.{ℕ, zero, suc, Bool, [], ◌∷◌, ltb, if◌then◌else◌}
use fusion_core.Stake.Preference.{Address}
use fusion_core.Stake.Targets.{NeutralRound}

abbrev pub phase_idle : ℕ
phase_idle = 0

abbrev pub phase_reconcile : ℕ
phase_reconcile = 1

abbrev pub phase_finalize : ℕ
phase_finalize = 2

abbrev pub phase_preferences : ℕ
phase_preferences = 3

abbrev pub phase_plan_directed : ℕ
phase_plan_directed = 4

abbrev pub phase_plan_neutral : ℕ
phase_plan_neutral = 5

abbrev pub phase_plan_finalize : ℕ
phase_plan_finalize = 6

abbrev pub phase_rebalance : ℕ
phase_rebalance = 7

-- The padding and the reserve of the account are left out.
pub record EpochState : Type 0 where
  pub controller_epoch : ℕ
  pub reconcile_cursor : ℕ
  pub plan_directed_cursor : ℕ
  pub rebalance_actions_done : ℕ
  pub preference_window_close_slot : ℕ
  pub nav_total_lamports : ℕ
  pub nav_fusol_supply : ℕ
  pub productive_lamports : ℕ
  pub reserve_target : ℕ
  pub total_directed_shares : ℕ
  pub neutral_total : ℕ
  pub unsaturated_active_count : ℕ
  pub capacity_shortfall : ℕ
  pub churn_budget_total : ℕ
  pub churn_budget_used : ℕ
  pub healthy_delegated_lamports : ℕ
  pub total_delegated_lamports : ℕ
  pub epoch_payout_budget_used : ℕ
  pub round_remaining : ℕ
  pub round_n_unsaturated : ℕ
  pub round_tranche : ℕ
  pub round_remainder : ℕ
  pub round_start : ℕ
  pub round_steps : ℕ
  pub round_remainder_used : ℕ
  pub round_granted : ℕ
  pub round_saturated : ℕ
  pub neutral_round_number : ℕ
  pub neutral_cursor : ℕ
  pub sum_directed_targets : ℕ
  pub neutral_granted_total : ℕ
  pub rebalance_cursor : ℕ
  pub preferred_withdraw_surplus : ℕ
  pub preferred_withdraw_vote : Address
  pub phase : ℕ

abbrev zeros : ℕ → Address
zeros zero = []
zeros (suc n) = 0 ∷ zeros n

-- `[0u8; 32]`
abbrev pub no_vote : Address
no_vote = zeros 32

unfoldable pub neutral_round : EpochState → NeutralRound
neutral_round es = record {
  remaining = es.round_remaining;
  n_unsaturated = es.round_n_unsaturated;
  tranche = es.round_tranche;
  remainder = es.round_remainder;
  start = es.round_start;
  steps = es.round_steps;
  remainder_used = es.round_remainder_used;
  granted = es.round_granted;
  saturated = es.round_saturated;
}

unfoldable pub set_neutral_round : EpochState → NeutralRound → EpochState
set_neutral_round es round = record es {
  round_remaining = round.remaining;
  round_n_unsaturated = round.n_unsaturated;
  round_tranche = round.tranche;
  round_remainder = round.remainder;
  round_start = round.start;
  round_steps = round.steps;
  round_remainder_used = round.remainder_used;
  round_granted = round.granted;
  round_saturated = round.saturated;
}

abbrev pub no_round : NeutralRound
no_round = record {
  remaining = 0;
  n_unsaturated = 0;
  tranche = 0;
  remainder = 0;
  start = 0;
  steps = 0;
  remainder_used = 0;
  granted = 0;
  saturated = 0;
}

unfoldable pub reset_plan_state : EpochState → EpochState
reset_plan_state es =
    let cleared = record es {
      plan_directed_cursor = 0;
      total_directed_shares = 0;
      sum_directed_targets = 0;
      neutral_total = 0;
      neutral_granted_total = 0;
      unsaturated_active_count = 0;
      capacity_shortfall = 0;
    } in
    record (set_neutral_round cleared no_round) {
      neutral_round_number = 0;
      neutral_cursor = 0;
      rebalance_cursor = 0;
      rebalance_actions_done = 0;
      preferred_withdraw_surplus = 0;
      preferred_withdraw_vote = no_vote;
    }

unfoldable pub reset_for_new_epoch : EpochState → EpochState
reset_for_new_epoch es = record (reset_plan_state es) {
  reconcile_cursor = 0;
  preference_window_close_slot = 0;
  churn_budget_used = 0;
  healthy_delegated_lamports = 0;
  total_delegated_lamports = 0;
  epoch_payout_budget_used = 0;
}

unfoldable pub fold_preferred_withdraw : EpochState → Address → ℕ → EpochState
fold_preferred_withdraw es vote surplus =
    if ltb es.preferred_withdraw_surplus surplus
    then record es { preferred_withdraw_surplus = surplus; preferred_withdraw_vote = vote }
    else es

-- The version, the bump and the reserve of the account are left out.
pub record ValidatorRecord : Type 0 where
  pub vote_account : Address
  pub validator_list_index : ℕ
  pub status : ℕ
  pub consecutive_liveness_failures : ℕ
  pub consecutive_healthy_epochs : ℕ
  pub has_pool_stake : Bool
  pub last_active_lamports : ℕ
  pub last_transient_lamports : ℕ
  pub directed_shares_epoch : ℕ
  pub directed_shares : ℕ
  pub directed_target : ℕ
  pub neutral_granted : ℕ
  pub final_target : ℕ
  pub remaining_capacity : ℕ
  pub saturated_this_round : Bool
  pub saturated_round : ℕ
  pub last_increase_epoch : ℕ
  pub last_decrease_epoch : ℕ
  pub removal_delay_start : ℕ
  pub observed_epoch : ℕ
  pub observed_commission_ok : Bool
  pub observed_liveness_ok : Bool
  pub plan_epoch : ℕ
  pub pool_entry_status : ℕ

-- The bump and the reserve of the account are left out.
pub record Preference : Type 0 where
  pub version : ℕ
  pub fusion_position : Address
  pub owner : Address
  pub vote_account : Address
  pub observed_ink_nonce : ℕ
  pub observed_ink : ℕ
  pub eligible_from_epoch : ℕ
  pub last_counted_epoch : ℕ
  pub change_epoch : ℕ

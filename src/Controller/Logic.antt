-- ===== src/Controller/Logic.antt =====
-- programs/fusion-stake-controller/src/logic.rs: the decisions of the crank, as functions of numbers.
pub mod Decide
pub mod Walk
use fusion_core.Prelude.{
  ℕ, zero, suc, ◌+◌, ◌-◌, ◌*◌, ◌/◌, ◌%◌, ◌^◌, Bool, true, false, not, ◌&&◌, ◌||◌, Option, none,
  some, ltb, leb, ◌==◌, if◌then◌else◌, saturating_mul, u64_max,
}
use fusion_core.Stake.Churn.{action_amount, exceeds_hysteresis}
use fusion_core.Stake.Lifecycle.{
  ValidatorStatus, registered, candidate, active, draining, removable,
}
use fusion_core.Stake.Targets.{rotation_start}
use fusion_core.StakeView.VoteState.{VoteSample}
use fusion_core.Controller.State.{
  phase_idle, phase_reconcile, phase_finalize, phase_preferences, phase_plan_directed,
  phase_plan_neutral, phase_plan_finalize, phase_rebalance,
}

unfoldable pub phase_transition_allowed : ℕ → ℕ → Bool
phase_transition_allowed from to =
    to == phase_reconcile
    || (from == phase_reconcile && to == phase_finalize)
    || (from == phase_finalize && to == phase_preferences)
    || (from == phase_preferences && to == phase_plan_directed)
    || (from == phase_plan_directed && to == phase_plan_neutral)
    || (from == phase_plan_neutral && to == phase_plan_finalize)
    || (from == phase_plan_finalize && to == phase_rebalance)
    || (from == phase_rebalance && to == phase_idle)

-- The products are of 64 bits each and computed in `u128`.
unfoldable pub nav_rate_decreased : ℕ → ℕ → ℕ → ℕ → Bool
nav_rate_decreased prev_total prev_supply new_total new_supply =
    if prev_supply == 0 || new_supply == 0
    then false
    else ltb (new_total * prev_supply) (prev_total * new_supply)

pub record VoteObservation : Type 0 where
  pub commission_ok : Bool
  pub liveness_ok : Bool

unfoldable pub observe_vote : Option VoteSample → ℕ → ℕ → ℕ → VoteObservation
observe_vote none cap current_slot window = record { commission_ok = true; liveness_ok = false }
observe_vote (some s) cap current_slot window = record {
  commission_ok = leb s.commission cap;
  liveness_ok = s.prior_epoch_credit_growth && leb (current_slot - s.freshness_slot) window;
}

pub record RebalanceSlot : Type 0 where
  pub pass : ℕ
  pub index : ℕ

unfoldable pub rebalance_slot : ℕ → ℕ → ℕ → Option RebalanceSlot
rebalance_slot cursor planned_len epoch =
    if planned_len == 0 || leb (saturating_mul u64_max planned_len 2) cursor
    then none
    else some (record {
      pass = cursor / planned_len % 2 ^ 8;
      index =
          (rotation_start epoch planned_len % planned_len + cursor % planned_len)
          % 2 ^ 64
          % planned_len;
    })

pub data Action : Type 0 where
  skip remove : Action
  decrease increase : ℕ → Action

pub record ActionInputs : Type 0 where
  pub pass : ℕ
  pub status : ValidatorStatus
  pub active_lamports : ℕ
  pub transient_lamports : ℕ
  pub final_target : ℕ
  pub drained_floor : ℕ
  pub hysteresis_threshold : ℕ
  pub budget_remaining : ℕ
  pub validator_move_cap : ℕ
  pub reserve_available_for_increase : ℕ
  pub reserve_lamports : ℕ
  pub stake_rent : ℕ
  pub min_delegation : ℕ
  pub increases_allowed : Bool
  pub acted_this_epoch : Bool

-- The amount that is moved out of `source` for a deviation, or 0.
abbrev pub amount_for : ActionInputs → ℕ → ℕ → ℕ
amount_for i deviation source =
    action_amount deviation i.budget_remaining i.validator_move_cap source i.min_delegation false

abbrev pub or_skip : (ℕ → Action) → ℕ → Action
or_skip action amount = if amount == 0 then skip else action amount

-- The first pass: a draining validator loses stake, down to the floor.
unfoldable pub drain : ActionInputs → Action
drain i =
    let deviation = i.active_lamports - i.drained_floor in
    if ltb i.reserve_lamports i.stake_rent
    then skip
    else or_skip decrease (amount_for i deviation deviation)

unfoldable pub fill_deficit : ActionInputs → Action
fill_deficit i =
    let deviation = i.final_target - i.active_lamports in
    if not (exceeds_hysteresis deviation i.hysteresis_threshold) || not i.increases_allowed
    then skip
    else or_skip increase (amount_for i deviation i.reserve_available_for_increase)

unfoldable pub cut_surplus : ActionInputs → Action
cut_surplus i =
    let deviation = i.active_lamports - i.final_target in
    if not (exceeds_hysteresis deviation i.hysteresis_threshold)
    then skip
    else if ltb i.reserve_lamports i.stake_rent
    then skip
    else or_skip decrease (amount_for i deviation (i.active_lamports - i.drained_floor))

-- The second pass.
abbrev pub rebalance : ActionInputs → Action
rebalance i = if ltb i.active_lamports i.final_target then fill_deficit i else cut_surplus i

-- The match on the pass and the status.
unfoldable pub visit_action : ℕ → ValidatorStatus → ActionInputs → Action
visit_action pass removable i = if pass == 0 then remove else skip
visit_action pass draining i = if pass == 0 then drain i else skip
visit_action pass candidate i = if pass == 1 then rebalance i else skip
visit_action pass active i = if pass == 1 then rebalance i else skip
visit_action pass registered i = skip

unfoldable pub decide_action : ActionInputs → Action
decide_action i =
    if ltb 0 i.transient_lamports || i.acted_this_epoch
    then skip
    else visit_action i.pass i.status i

-- ===== src/Controller/Tests/Plan.antt =====
-- Inputs at which the theorems on the plan of an epoch apply: a pool of one validator, with shares
-- directed to it and capacity left.
use fusion_core.Prelude.{ℕ, ◌≡◌, ◌≤◌, refl, true, some, ok, List, [], ◌∷◌, ◌++◌, u64_max, arith}
use fusion_core.Stake.{bps_of}
use fusion_core.Stake.Lifecycle.{
  from_u8, as_u8, advance_lifecycle, next_status, failure_streak, healthy_streak, drains,
  lifecycle_cap, global_liveness_guard,
}
use fusion_core.Stake.Preference.{Address, same_bytes}
use fusion_core.Stake.Reserve.{payout}
use fusion_core.Stake.Targets.{
  NeutralRound, begin_round, neutral_total, neutral_capacity, directed_target, pass, step, base,
  grant_to, rotation_start, in_window, is_complete, remaining_after,
}
use fusion_core.StakeView.Bytes.{u8_at, read, u32_le, u64_le, array32, slice}
use fusion_core.StakeView.Bytes.Layout.{to_le}
use fusion_core.StakeView.ValidatorList.{parse_header, read_entry, entry_at}
use fusion_core.Controller.Tests.{
  filled, quiet, idle, accounts, keys, no_records, clock, returned, vote, validator,
}
use fusion_core.Controller.State.{
  EpochState, ValidatorRecord, reset_plan_state, neutral_round, set_neutral_round,
  fold_preferred_withdraw,
}
use fusion_core.Controller.Logic.{phase_transition_allowed}
use fusion_core.Controller.Cpi.{effective_minimum_delegation, stake_get_minimum_delegation}
use fusion_core.Controller.Maintenance.{pay, pay_crank_reward}
use fusion_core.Controller.Records.{Records, put}
use fusion_core.Controller.Cycle.{close_preference_window, check_conservation}
use fusion_core.Controller.PlanDirected.{
  Pair, plan_directed_batch, plan_of, plan_pairs, plan_pair, observe_listed, lifecycle_input, admit,
  set_status, set_target, shares_of, add_planned, more_unsaturated, complete_directed,
}
use fusion_core.Controller.PlanNeutral.{
  plan_neutral_batch, plan_neutral, open_first, open_round, visit_batch, visit_records,
  visit_record, grant_member, book_grant, close_round,
}
use fusion_core.Controller.PlanNeutral.Refinement.{visit_records-pass}
use fusion_core.Controller.PlanNeutral.Slots.{slots}
use fusion_core.Controller.Conservation.Invariant.{
  World, start, directs, distributes, Plans-conserve,
}

-- One entry, with 8 SOL of active stake.
abbrev list_data : List ℕ
list_data =
    2
    ∷ 0
    ∷ 4
    ∷ 0
    ∷ 0
    ∷ 1
    ∷ 0
    ∷ 0
    ∷ 0
    ∷ (to_le 8 8_000_000_000 ++ (filled 0 28 ++ (filled 0 5 ++ vote)))

-- The preference window has closed, with 600 SOL to plan.
abbrev deciding : EpochState
deciding = record idle { controller_epoch = 11; phase = 3 }

abbrev record_key : Address
record_key = filled 41 32

abbrev pair : Pair
pair = record {
  record_key = record_key;
  is_writable = true;
  vote = record { key = vote; owner = filled 42 32; bytes = [] };
}

abbrev closed : EpochState
closed = returned deciding (close_preference_window clock deciding)

abbrev before : World
before = (
  record { es = closed; accounts = record accounts { validator_list = list_data } },
  put no_records record_key validator,
)

abbrev directed : World
directed =
    returned before
      (plan_directed_batch ⦃chain = quiet⦄ keys clock 2_282_880 432_000 (pair ∷ []) before)

abbrev distributed : World
distributed =
    returned directed (plan_neutral_batch ⦃chain = quiet⦄ keys ((record_key, true) ∷ []) directed)

window_closes : close_preference_window clock deciding ≡ ok closed
unfolding close_preference_window phase_transition_allowed
window_closes = refl

directs_one :
    plan_directed_batch ⦃chain = quiet⦄ keys clock 2_282_880 432_000 (pair ∷ []) before
    ≡ ok directed
unfolding close_preference_window phase_transition_allowed plan_directed_batch plan_of plan_pairs
    plan_pair observe_listed lifecycle_input admit set_status set_target shares_of add_planned
    more_unsaturated complete_directed reset_plan_state set_neutral_round fold_preferred_withdraw
    put effective_minimum_delegation stake_get_minimum_delegation pay pay_crank_reward payout
    parse_header read_entry entry_at u8_at read u32_le u64_le array32 slice to_le same_bytes
    global_liveness_guard lifecycle_cap bps_of from_u8 as_u8 advance_lifecycle next_status
    failure_streak healthy_streak drains neutral_total neutral_capacity directed_target
directs_one = refl

distributes_one :
    (plan_neutral_batch ⦃chain = quiet⦄ keys ((record_key, true) ∷ []) directed ≡ ok distributed)
    × (distributed.0.es.phase ≡ 6)
unfolding close_preference_window phase_transition_allowed plan_directed_batch plan_of plan_pairs
    plan_pair observe_listed lifecycle_input admit set_status set_target shares_of add_planned
    more_unsaturated complete_directed reset_plan_state set_neutral_round fold_preferred_withdraw
    put effective_minimum_delegation stake_get_minimum_delegation pay pay_crank_reward payout
    parse_header read_entry entry_at u8_at read u32_le u64_le array32 slice to_le same_bytes
    global_liveness_guard lifecycle_cap bps_of from_u8 as_u8 advance_lifecycle next_status
    failure_streak healthy_streak drains neutral_total neutral_capacity directed_target
    plan_neutral_batch plan_neutral open_first open_round visit_batch visit_records visit_record
    grant_member book_grant close_round begin_round rotation_start step in_window base grant_to
    is_complete remaining_after neutral_round
distributes_one = (refl, refl)

Plans-conserve_example : check_conservation distributed.0.es ≡ ok tt
Plans-conserve_example =
    Plans-conserve ⦃chain = quiet⦄ clock deciding {s = before} {t = distributed} (omega arith)
      window_closes
      (distributes keys ((record_key, true) ∷ [])
        (directs keys clock 2_282_880 432_000 (pair ∷ []) start directs_one) distributes_one.0)
      distributes_one.1

-- In the round of 600 SOL over one validator, which can take 10.
abbrev planned_validator : ValidatorRecord
planned_validator = record validator {
  final_target = 10_000_000_000;
  remaining_capacity = 10_000_000_000;
  plan_epoch = 11;
}

abbrev planned_records : Records
planned_records = put no_records record_key planned_validator

abbrev round : NeutralRound
round = record {
  remaining = 590_000_000_000;
  n_unsaturated = 1;
  tranche = 590_000_000_000;
  remainder = 0;
  start = 0;
  steps = 0;
  remainder_used = 0;
  granted = 0;
  saturated = 0;
}

abbrev visited : EpochState × NeutralRound × Records
visited =
    returned (deciding, round, planned_records)
      (visit_records (deciding, round, planned_records) ((record_key, true) ∷ []))

visits : visit_records (deciding, round, planned_records) ((record_key, true) ∷ []) ≡ ok visited
unfolding put same_bytes visit_records visit_record grant_member book_grant from_u8 as_u8 step
    in_window base grant_to fold_preferred_withdraw is_complete
visits = refl

planned_fits :
    (k : Address) (r : ValidatorRecord) → planned_records k ≡ some r → r.final_target ≤ u64_max
unfolding put
planned_fits k r h = ground arith

visit_records-pass_example :
    pass round (slots planned_records (record_key ∷ []))
    ≡ (visited.1, slots visited.2 (record_key ∷ []))
visit_records-pass_example =
    visit_records-pass ((record_key, true) ∷ []) deciding visited.0 round visited.1 planned_records
      visited.2 planned_fits (tt, tt) visits

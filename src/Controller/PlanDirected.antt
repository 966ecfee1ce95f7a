-- ===== src/Controller/PlanDirected.antt =====
-- programs/fusion-stake-controller/src/instructions/plan_directed_batch.rs: the life of each validator
-- goes on by an epoch, and its directed target is set.
use fusion_core.Prelude.{
  ℕ, ◌-◌, ◌*◌, ◌/◌, Bool, false, not, ◌&&◌, List, [], ◌∷◌, length, ltb, leb, ◌==◌, if◌then◌else◌,
  Result, ok, ◌>>=◌, checked_add, saturating_add, saturating_mul, u64_max, map_err, ◌||◌,
}
use fusion_core.Stake.Lifecycle.{
  ValidatorStatus, registered, candidate, draining, as_u8, from_u8, LifecycleInput,
  advance_lifecycle, lifecycle_cap, global_liveness_guard,
}
use fusion_core.Stake.Targets.{directed_target, neutral_total, neutral_capacity}
use fusion_core.Stake.Preference.{Address, same_bytes}
use fusion_core.StakeView.ValidatorList.{parse_header, entry_at, ValidatorListHeader}
use fusion_core.Controller.Constants.{
  active_validator_cap_bps, candidate_cap_bps, min_activation_target_lamports,
  commission_cap_percent, removal_delay_epochs, vote_freshness_window_divisor,
  crank_reward_plan_batch, validator_list_index_unset, pool_entry_status_none,
}
use fusion_core.Controller.Error.{ControllerError, Abort, check, or_error, or_overflow, or_panic}
use fusion_core.Controller.State.{
  EpochState, ValidatorRecord, fold_preferred_withdraw, phase_plan_directed, phase_plan_neutral,
}
use fusion_core.Controller.Logic.{VoteObservation, observe_vote}
use fusion_core.Controller.Cpi.{Chain, effective_minimum_delegation}
use fusion_core.Controller.Maintenance.{Keys, Crank, pay_crank_reward}
use fusion_core.Controller.Cycle.{Clock, enter, in_phase}
use fusion_core.Controller.Records.{Records, put, load, as_u32, VoteInfo, vote_sample}

-- What a batch computes once.
pub record Plan : Type 0 where
  pub epoch : ℕ
  pub slot : ℕ
  pub guard_active : Bool
  pub productive : ℕ
  pub supply : ℕ
  pub snapshot_total : ℕ
  pub drained_threshold : ℕ
  pub freshness_window : ℕ
  pub list_data : List ℕ
  pub list_len : ℕ

-- A pair of accounts: the key of a record, may it be written, and a vote account.
pub record Pair : Type 0 where
  pub record_key : Address
  pub is_writable : Bool
  pub vote : VoteInfo

pub record Observed : Type 0 where
  pub es : EpochState
  pub validator : ValidatorRecord
  pub observation : VoteObservation
  pub entry_status : ℕ

-- A validator of the list: the pair is that of the cursor, which advances.
unfoldable pub observe_listed :
    Plan → EpochState → ValidatorRecord → VoteInfo → Result Abort Observed
observe_listed plan es r vote =
    or_error (entry_at plan.list_data (as_u32 es.plan_directed_cursor))
      ControllerError.invalid_validator_list_entry
    >>= λ entry.
        check (same_bytes entry.vote_account_address vote.key)
          ControllerError.invalid_remaining_accounts
        >>= λ _.
            check (r.observed_epoch == plan.epoch) ControllerError.stale_validator_record >>= λ _.
            or_panic (checked_add u64_max es.plan_directed_cursor 1) >>= λ next. ok (record {
              es = record es { plan_directed_cursor = next };
              validator = record r { validator_list_index = as_u32 es.plan_directed_cursor };
              observation = record {
                commission_ok = r.observed_commission_ok;
                liveness_ok = r.observed_liveness_ok;
              };
              entry_status = entry.status;
            })

-- A validator that asks for admission is observed now.
unfoldable pub observe_extra :
    Plan → EpochState → ValidatorRecord → VoteInfo → Result Abort Observed
observe_extra plan es r vote =
    check (r.validator_list_index == validator_list_index_unset)
      ControllerError.invalid_remaining_accounts
    >>= λ _.
        let obs =
          observe_vote (vote_sample vote (plan.epoch - 1)) commission_cap_percent plan.slot
            plan.freshness_window in
        ok (record {
          es = es;
          validator = record r {
            observed_epoch = plan.epoch;
            observed_commission_ok = obs.commission_ok;
            observed_liveness_ok = obs.liveness_ok;
            has_pool_stake = false;
          };
          observation = obs;
          entry_status = pool_entry_status_none;
        })

-- Shares count only in the epoch of their stamp.
unfoldable pub shares_of : ValidatorRecord → ℕ → ℕ
shares_of r epoch = if r.directed_shares_epoch == epoch then r.directed_shares else 0

unfoldable pub lifecycle_input : Plan → ValidatorRecord → VoteObservation → LifecycleInput
lifecycle_input plan r obs = record {
  commission_ok = obs.commission_ok;
  liveness_ok = obs.liveness_ok;
  consecutive_failures = r.consecutive_liveness_failures;
  consecutive_healthy = r.consecutive_healthy_epochs;
  has_pool_stake = r.has_pool_stake;
  guard_active = plan.guard_active;
  zero_stake_and_target =
      r.last_transient_lamports == 0 && ltb r.last_active_lamports plan.drained_threshold;
  removal_delay_elapsed =
      ltb 0 r.removal_delay_start
      && leb (saturating_add u64_max r.removal_delay_start removal_delay_epochs) plan.epoch;
}

-- A registered validator with enough directed support becomes a candidate.
unfoldable pub admit : Plan → VoteObservation → ℕ → ValidatorStatus → ValidatorStatus
admit plan obs shares registered =
    if obs.commission_ok
      && obs.liveness_ok
      && ltb 0 plan.supply
      && leb min_activation_target_lamports (plan.productive * shares / plan.supply)
    then candidate
    else registered
admit plan obs shares status = status

abbrev pub same_status : ValidatorStatus → ValidatorStatus → Bool
same_status s t = as_u8 s == as_u8 t

-- The record after its status: a validator that begins to drain is stamped.
unfoldable pub set_status : Plan → Observed → ValidatorStatus → ValidatorStatus → ValidatorRecord
set_status plan o old new =
    let outcome = advance_lifecycle old (lifecycle_input plan o.validator o.observation) in
    record o.validator {
      consecutive_liveness_failures = outcome.consecutive_failures;
      consecutive_healthy_epochs = outcome.consecutive_healthy;
      removal_delay_start =
          if not (same_status new old) && same_status new draining
          then plan.epoch
          else o.validator.removal_delay_start;
      status = as_u8 new;
      pool_entry_status = o.entry_status;
    }

unfoldable pub set_target : Plan → Bool → ValidatorStatus → ℕ → ValidatorRecord → ValidatorRecord
set_target plan in_list status shares r =
    let cap = lifecycle_cap status plan.snapshot_total candidate_cap_bps active_validator_cap_bps in
    let target = directed_target plan.productive shares plan.supply cap in
    record r {
      directed_target = target;
      neutral_granted = 0;
      final_target = target;
      remaining_capacity = if in_list then neutral_capacity status cap target else 0;
      saturated_this_round = false;
      saturated_round = 0;
      plan_epoch = plan.epoch;
    }

unfoldable pub more_unsaturated : EpochState → ValidatorRecord → Result Abort ℕ
more_unsaturated es r =
    if ltb 0 r.remaining_capacity
    then or_panic (checked_add u64_max es.unsaturated_active_count 1)
    else ok es.unsaturated_active_count

-- The aggregates of the plan.
unfoldable pub add_planned : EpochState → ℕ → ValidatorRecord → Result Abort EpochState
add_planned es shares r =
    or_overflow (checked_add u64_max es.total_directed_shares shares) >>= λ total_shares.
    or_overflow (checked_add u64_max es.sum_directed_targets r.directed_target) >>= λ targets.
    more_unsaturated es r >>= λ unsaturated.
    let added = record es {
      total_directed_shares = total_shares;
      sum_directed_targets = targets;
      unsaturated_active_count = unsaturated;
    } in
    ok (
      if r.pool_entry_status == 0
      then fold_preferred_withdraw added r.vote_account (r.last_active_lamports - r.final_target)
      else added)

unfoldable pub plan_pair : Plan → EpochState → Records → Pair → Result Abort (EpochState × Records)
plan_pair plan es records p =
    check p.is_writable ControllerError.invalid_remaining_accounts >>= λ _.
    load records p.record_key >>= λ r.
    check (same_bytes r.vote_account p.vote.key) ControllerError.invalid_remaining_accounts >>= λ _.
    check (not (r.plan_epoch == plan.epoch)) ControllerError.record_already_planned >>= λ _.
    let in_list = ltb es.plan_directed_cursor plan.list_len in
    (if in_list then observe_listed plan es r p.vote else observe_extra plan es r p.vote) >>= λ o.
    or_error (from_u8 o.validator.status) ControllerError.corrupt_validator_status >>= λ old.
    let shares = shares_of o.validator plan.epoch in
    let outcome = advance_lifecycle old (lifecycle_input plan o.validator o.observation) in
    let new = admit plan o.observation shares outcome.status in
    let planned = set_target plan in_list new shares (set_status plan o old new) in
    add_planned o.es shares planned >>= λ es'. ok (es', put records p.record_key planned)

unfoldable pub plan_pairs :
    Plan → EpochState → Records → List Pair → Result Abort (EpochState × Records)
plan_pairs plan es records [] = ok (es, records)
plan_pairs plan es records (p ∷ ps) =
    plan_pair plan es records p >>= λ (es', records'). plan_pairs plan es' records' ps

-- Once the list is covered, the rest of the productive lamports is neutral.
unfoldable pub complete_directed : Plan → EpochState → Result Abort EpochState
complete_directed plan es =
    if es.plan_directed_cursor == plan.list_len
    then (or_error
          (neutral_total plan.productive es.sum_directed_targets es.total_directed_shares
            plan.supply)
          ControllerError.directed_shares_exceed_supply
        >>= λ neutral. enter phase_plan_neutral (record es { neutral_total = neutral }))
    else ok es

abbrev pub list_header : List ℕ → Result Abort ValidatorListHeader
list_header bytes =
    map_err (λ _. Abort.error ControllerError.invalid_validator_list_entry) (parse_header bytes)

unfoldable pub plan_of : Clock → ℕ → ℕ → ℕ → Crank → Plan
plan_of clock slots_in_epoch drained_threshold list_len w = record {
  epoch = w.es.controller_epoch;
  slot = clock.slot;
  guard_active =
      global_liveness_guard w.es.healthy_delegated_lamports w.es.total_delegated_lamports;
  productive = w.es.productive_lamports;
  supply = w.es.nav_fusol_supply;
  snapshot_total = w.es.nav_total_lamports;
  drained_threshold = drained_threshold;
  freshness_window = slots_in_epoch / vote_freshness_window_divisor;
  list_data = w.accounts.validator_list;
  list_len = list_len;
}

module _ ⦃chain : Chain⦄ where
  -- `stake_rent` is the rent of a stake account, and `slots_in_epoch` the number of an epoch's slots.
  unfoldable pub plan_directed_batch :
      Keys → Clock → ℕ → ℕ → List Pair → Crank × Records → Result Abort (Crank × Records)
  plan_directed_batch keys clock stake_rent slots_in_epoch pairs (w, records) =
      effective_minimum_delegation >>= λ min_delegation.
      or_overflow (checked_add u64_max stake_rent (saturating_mul u64_max min_delegation 2))
      >>= λ drained_threshold. in_phase phase_plan_directed w.es >>= λ _.
          list_header w.accounts.validator_list >>= λ header.
          check (ltb 0 (length pairs) || w.es.plan_directed_cursor == header.len)
            ControllerError.invalid_remaining_accounts
          >>= λ _.
              let plan = plan_of clock slots_in_epoch drained_threshold header.len w in
              plan_pairs plan w.es records pairs >>= λ (es, records').
              complete_directed plan es >>= λ es'.
              (if ltb 0 (length pairs)
                then pay_crank_reward keys crank_reward_plan_batch (record w { es = es' })
                else ok (record w { es = es' }))
              >>= λ w'. ok (w', records')

-- ===== src/Controller/PlanNeutral.antt =====
-- programs/fusion-stake-controller/src/instructions/plan_neutral_batch.rs: the capacity rounds of
-- `distribute_neutral`, batch by batch, over the records.
pub mod Slots
pub mod Refinement
use fusion_core.Prelude.{
  ℕ, ◌+◌, ◌-◌, Bool, true, false, not, ◌&&◌, ◌||◌, Option, none, some, List, [], ◌∷◌, length, ltb,
  leb, ◌==◌, if◌then◌else◌, Result, ok, ◌>>=◌, checked_add, checked_sub, u64_max,
}
use fusion_core.Stake.Lifecycle.{ValidatorStatus, active, as_u8, from_u8}
use fusion_core.Stake.Targets.{
  NeutralRound, begin_round, step, is_complete, remaining_after, max_neutral_rounds,
}
use fusion_core.Stake.Preference.{Address}
use fusion_core.Controller.Constants.{crank_reward_plan_batch}
use fusion_core.Controller.Error.{ControllerError, Abort, check, or_error, or_overflow, or_panic}
use fusion_core.Controller.State.{
  EpochState, ValidatorRecord, neutral_round, set_neutral_round, fold_preferred_withdraw, no_vote,
  phase_plan_neutral, phase_plan_finalize,
}
use fusion_core.Controller.Cpi.{Chain}
use fusion_core.Controller.Maintenance.{Keys, Crank, pay_crank_reward}
use fusion_core.Controller.Cycle.{enter, in_phase}
use fusion_core.Controller.Records.{Records, put, load}

-- Round `number` begins: the cursor and the preferred withdrawal start anew.
unfoldable pub open_round : EpochState → NeutralRound → ℕ → EpochState
open_round es round number = record (set_neutral_round es round) {
  neutral_round_number = number;
  neutral_cursor = 0;
  preferred_withdraw_surplus = 0;
  preferred_withdraw_vote = no_vote;
}

-- The first round of the phase. With it: is the phase finished, as there is nothing to do?
unfoldable pub open_first : EpochState → EpochState × Bool
open_first es =
    if es.neutral_round_number == 0
    then elim (begin_round es.neutral_total es.unsaturated_active_count es.controller_epoch) [
      | none ↦ (record es { capacity_shortfall = es.neutral_total }, true)
      | some round ↦ (open_round es round 1, false)
    ]
    else (es, false)

-- What a member's record and the total get from a grant.
unfoldable pub book_grant :
    EpochState → ValidatorRecord → ℕ → Result Abort (EpochState × ValidatorRecord)
book_grant es r grant =
    if ltb 0 grant
    then (or_overflow (checked_add u64_max r.neutral_granted grant) >>= λ granted.
        or_overflow (checked_add u64_max r.final_target grant) >>= λ final_target.
        or_overflow (checked_sub r.remaining_capacity grant) >>= λ capacity.
        or_overflow (checked_add u64_max es.neutral_granted_total grant) >>= λ total. ok (
          record es { neutral_granted_total = total },
          record r {
            neutral_granted = granted;
            final_target = final_target;
            remaining_capacity = capacity;
            saturated_this_round = if capacity == 0 then true else r.saturated_this_round;
            saturated_round = if capacity == 0 then es.neutral_round_number else r.saturated_round;
          },
        ))
    else ok (es, r)

abbrev pub is_active : ValidatorStatus → Bool
is_active status = as_u8 status == as_u8 active

-- A step of the round for a member, nothing for another.
unfoldable pub grant_member :
    Bool
    → EpochState
    → NeutralRound
    → ValidatorRecord
    → Result Abort (EpochState × NeutralRound × ValidatorRecord)
grant_member is_member es round r =
    if is_member
    then (let (round', grant) = step round r.remaining_capacity in
        book_grant es r grant >>= λ (es', r'). ok (es', round', r'))
    else ok (es, round, r)

-- A key of a record, and may it be written?
unfoldable pub visit_record :
    EpochState × NeutralRound × Records
    → Address × Bool
    → Result Abort (EpochState × NeutralRound × Records)
visit_record (es, round, records) (key, is_writable) =
    check is_writable ControllerError.invalid_remaining_accounts >>= λ _. load records key >>= λ r.
    check (r.plan_epoch == es.controller_epoch && r.validator_list_index == es.neutral_cursor)
      ControllerError.invalid_remaining_accounts
    >>= λ _. or_error (from_u8 r.status) ControllerError.corrupt_validator_status >>= λ status.
        grant_member (is_active status && ltb 0 r.remaining_capacity) es round r
        >>= λ (es1, round', r').
            let es2 =
              if r'.pool_entry_status == 0
              then fold_preferred_withdraw es1 r'.vote_account
                  (r'.last_active_lamports - r'.final_target)
              else es1 in
            or_panic (checked_add u64_max es2.neutral_cursor 1) >>= λ next.
            ok (record es2 { neutral_cursor = next }, round', put records key r')

unfoldable pub visit_records :
    EpochState × NeutralRound × Records
    → List (Address × Bool)
    → Result Abort (EpochState × NeutralRound × Records)
visit_records s [] = ok s
visit_records s (k ∷ ks) = visit_record s k >>= λ s'. visit_records s' ks

-- A round that has visited every validator: the phase is finished, or the next round begins.
unfoldable pub close_round : EpochState → NeutralRound → Result Abort (EpochState × Bool)
close_round es round = check (is_complete round) ControllerError.neutral_round_inconsistent >>= λ _.
    let remaining = remaining_after round in
    or_error (checked_sub round.n_unsaturated round.saturated)
      ControllerError.neutral_round_inconsistent
    >>= λ unsaturated.
        let left = record es {
          neutral_total = remaining;
          unsaturated_active_count = unsaturated;
        } in
        if remaining == 0 || unsaturated == 0
        then ok (record left { capacity_shortfall = remaining }, true)
        else check (ltb es.neutral_round_number max_neutral_rounds)
            ControllerError.neutral_round_inconsistent
          >>= λ _.
              or_error (begin_round remaining unsaturated es.controller_epoch)
                ControllerError.neutral_round_inconsistent
              >>= λ next. or_panic (checked_add u64_max es.neutral_round_number 1) >>= λ number.
                  ok (open_round left next number, false)

-- The batch over the open round.
unfoldable pub visit_batch :
    EpochState → Records → List (Address × Bool) → Result Abort (EpochState × Bool × Records)
visit_batch es records keys =
    or_overflow (checked_add u64_max es.neutral_cursor (length keys)) >>= λ end.
    check (leb end es.plan_directed_cursor) ControllerError.invalid_remaining_accounts >>= λ _.
    check (ltb 0 (length keys) || es.plan_directed_cursor == 0)
      ControllerError.invalid_remaining_accounts
    >>= λ _. visit_records (es, neutral_round es, records) keys >>= λ (es1, round, records').
        let es2 = set_neutral_round es1 round in
        if es2.neutral_cursor == es.plan_directed_cursor
        then (close_round es2 round >>= λ (es3, finished). ok (es3, finished, records'))
        else ok (es2, false, records')

-- What a batch does to the state and the records. With them: how many records it visited.
unfoldable pub plan_neutral :
    EpochState → Records → List (Address × Bool) → Result Abort (EpochState × Records × ℕ)
plan_neutral es records keys = in_phase phase_plan_neutral es >>= λ _.
    let (es1, idle) = open_first es in
    (if idle then ok (es1, true, records) else visit_batch es1 records keys)
    >>= λ (es2, finished, records').
        (if finished then enter phase_plan_finalize es2 else ok es2) >>= λ es3.
        ok (es3, records', if idle then 0 else length keys)

module _ ⦃chain : Chain⦄ where
  unfoldable pub plan_neutral_batch :
      Keys → List (Address × Bool) → Crank × Records → Result Abort (Crank × Records)
  plan_neutral_batch keys accounts (w, records) =
      plan_neutral w.es records accounts >>= λ (es, records', visited).
      (if ltb 0 visited
        then pay_crank_reward keys crank_reward_plan_batch (record w { es = es })
        else ok (record w { es = es }))
      >>= λ w'. ok (w', records')

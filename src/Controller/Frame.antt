-- ===== src/Controller/Frame.antt =====
-- programs/fusion-stake-controller: what the batches of the plan and of the reconciliation leave as it is.
pub mod Batches
use fusion_core.Prelude.{
  ℕ, ◌+◌, ◌-◌, ◌≡◌, ◌≤◌, ◌⊎◌, refl, ◌∙◌, Bool, true, false, inl, inr, Bool-cases, not, ◌&&◌, Option,
  none, some, List, [], ◌∷◌, Result, ok, err, ◌>>=◌, Returns, Returns-bind, Returns-skip,
  Returns-ok, checked_add, u64_max, ◌==◌, ltb, if◌then◌else◌,
}
use fusion_core.Stake.Preference.{Address, same_bytes}
use fusion_core.Stake.Lifecycle.{from_u8, advance_lifecycle}
use fusion_core.Stake.Targets.{NeutralRound, begin_round, step}
use fusion_core.Controller.Error.{ControllerError, Abort, check, or_error, or_overflow, or_panic}
use fusion_core.Controller.State.{
  EpochState, ValidatorRecord, set_neutral_round, fold_preferred_withdraw,
}
use fusion_core.Controller.Records.{Records, VoteInfo, load, as_u32}
use fusion_core.StakeView.ValidatorList.{entry_at}
use fusion_core.Controller.Constants.{validator_list_index_unset}
use fusion_core.Controller.PlanDirected.{
  Plan, Pair, Observed, observe_listed, observe_extra, add_planned, more_unsaturated, plan_pair,
  plan_pairs, shares_of, admit, lifecycle_input, set_status, set_target,
}
use fusion_core.Controller.PlanNeutral.{
  open_round, open_first, book_grant, grant_member, visit_record, visit_records, close_round,
  visit_batch,
}
use fusion_core.Controller.Reconcile.{
  Quad, Expected, Reconciled, add_delegated, reconcile_one, reconcile_all,
}
use fusion_core.Controller.Cycle.{Clock}
use fusion_core.Prelude.Steps.{Returns-map, Returns-sum}

-- The phase, the churn budget, the pool's total and what has been paid are the same.
pub record Frame (es es' : EpochState) : Type 0 where
  pub phase : es'.phase ≡ es.phase
  pub spent : es'.churn_budget_used ≡ es.churn_budget_used
  pub budget : es'.churn_budget_total ≡ es.churn_budget_total
  pub nav : es'.nav_total_lamports ≡ es.nav_total_lamports
  pub paid : es'.epoch_payout_budget_used ≡ es.epoch_payout_budget_used

pub same : {es : EpochState} → Frame es es
same = record { phase = refl; spent = refl; budget = refl; nav = refl; paid = refl }

pub and_then : {a b c : EpochState} → Frame a b → Frame b c → Frame a c
and_then f g = record {
  phase = g.phase ∙ f.phase;
  spent = g.spent ∙ f.spent;
  budget = g.budget ∙ f.budget;
  nav = g.nav ∙ f.nav;
  paid = g.paid ∙ f.paid;
}

-- Only the preferred withdrawal is folded.
abbrev pub folded : EpochState → ℕ → Address → EpochState
folded es surplus vote = record es {
  preferred_withdraw_surplus = surplus;
  preferred_withdraw_vote = vote;
}

pub fold_cases :
    (b : Bool) (es : EpochState) (vote : Address) (surplus : ℕ)
    → (s : ℕ) × (v : Address) × ((if b then fold_preferred_withdraw es vote surplus else es)
        ≡ folded es s v)
unfolding fold_preferred_withdraw
fold_cases false es vote surplus = (es.preferred_withdraw_surplus, es.preferred_withdraw_vote, refl)
fold_cases true es vote surplus = elim (Bool-cases (ltb es.preferred_withdraw_surplus surplus)) [
  | inl more ↦ (surplus, vote, rw more refl)
  | inr less ↦ (es.preferred_withdraw_surplus, es.preferred_withdraw_vote, rw less refl)
]

-- A relation between states that what `plan_directed_batch` writes for a validator keeps.
pub record Keeps (R : EpochState → EpochState → Type 0) : Type 0 where
  pub nothing : (es : EpochState) → R es es
  pub twice : {a b c : EpochState} → R a b → R b c → R a c
  pub cursor : (es : EpochState) (next : ℕ) → R es (record es { plan_directed_cursor = next })
  pub planned :
      (es : EpochState) (shares targets unsaturated s : ℕ) (v : Address)
      → (unsaturated ≡ es.unsaturated_active_count) ⊎ (unsaturated ≤ u64_max)
      → R es (
          folded
            (record es {
              total_directed_shares = shares;
              sum_directed_targets = targets;
              unsaturated_active_count = unsaturated;
            })
            s
            v)

more_unsaturated_lem :
    (es : EpochState) (r : ValidatorRecord)
    → Returns (λ n. (n ≡ es.unsaturated_active_count) ⊎ (n ≤ u64_max)) (more_unsaturated es r)
unfolding more_unsaturated
more_unsaturated_lem es r = elim (Bool-cases (ltb 0 r.remaining_capacity)) [
  | inl open_one ↦
      rw open_one
        (Returns-map (Returns-sum u64_max es.unsaturated_active_count 1 _) (λ n (e, le). inr le))
  | inr full ↦ rw full (Returns-ok _ (inl refl))
]

module _ {R : EpochState → EpochState → Type 0} (keeps : Keeps R) where
  add_planned-keeps :
      (es : EpochState) (shares : ℕ) (r : ValidatorRecord)
      → Returns (λ es'. R es es') (add_planned es shares r)
  unfolding add_planned
  add_planned-keeps es shares r =
      Returns-skip (or_overflow (checked_add u64_max es.total_directed_shares shares)) _ (λ total.
        Returns-skip (or_overflow (checked_add u64_max es.sum_directed_targets r.directed_target)) _
          (λ targets.
            Returns-bind (more_unsaturated es r) _ (more_unsaturated_lem es r) (λ unsaturated bound.
              let (s, v, e) =
                fold_cases (r.pool_entry_status == 0)
                  (record es {
                    total_directed_shares = total;
                    sum_directed_targets = targets;
                    unsaturated_active_count = unsaturated;
                  })
                  r.vote_account (r.last_active_lamports - r.final_target) in
              Returns-ok _ (rw e (keeps.planned es total targets unsaturated s v bound)))))

  observe_listed-keeps :
      (plan : Plan) (es : EpochState) (r : ValidatorRecord) (vote : VoteInfo)
      → Returns (λ o. R es o.es) (observe_listed plan es r vote)
  unfolding observe_listed
  observe_listed-keeps plan es r vote =
      Returns-skip
        (or_error (entry_at plan.list_data (as_u32 es.plan_directed_cursor))
          ControllerError.invalid_validator_list_entry)
        _
        (λ entry. Returns-skip (check (same_bytes entry.vote_account_address vote.key) _) _ (λ _.
          Returns-skip (check (r.observed_epoch == plan.epoch) _) _ (λ _.
            Returns-skip (or_panic (checked_add u64_max es.plan_directed_cursor 1)) _
              (λ next. Returns-ok _ (keeps.cursor es next)))))

  observe_extra-keeps :
      (plan : Plan) (es : EpochState) (r : ValidatorRecord) (vote : VoteInfo)
      → Returns (λ o. R es o.es) (observe_extra plan es r vote)
  unfolding observe_extra
  observe_extra-keeps plan es r vote =
      Returns-skip (check (r.validator_list_index == validator_list_index_unset) _) _
        (λ _. Returns-ok _ (keeps.nothing es))

  observe-keeps :
      (b : Bool) (plan : Plan) (es : EpochState) (r : ValidatorRecord) (vote : VoteInfo)
      → Returns
          (λ o. R es o.es)
          (if b then observe_listed plan es r vote else observe_extra plan es r vote)
  observe-keeps true plan es r vote = observe_listed-keeps plan es r vote
  observe-keeps false plan es r vote = observe_extra-keeps plan es r vote

  plan_pair-keeps :
      (plan : Plan) (es : EpochState) (records : Records) (p : Pair)
      → Returns (λ s. R es s.0) (plan_pair plan es records p)
  unfolding plan_pair
  plan_pair-keeps plan es records p =
      let in_list = ltb es.plan_directed_cursor plan.list_len in
      Returns-skip (check p.is_writable _) _ (λ _. Returns-skip (load records p.record_key) _ (λ r.
        Returns-skip (check (same_bytes r.vote_account p.vote.key) _) _ (λ _.
          Returns-skip (check (not (r.plan_epoch == plan.epoch)) _) _ (λ _.
            Returns-bind
              (if in_list then observe_listed plan es r p.vote else observe_extra plan es r p.vote)
              _ (observe-keeps in_list plan es r p.vote)
              (λ o f. Returns-skip (or_error (from_u8 o.validator.status) _) _ (λ old.
                let shares = shares_of o.validator plan.epoch in
                let outcome =
                  advance_lifecycle old (lifecycle_input plan o.validator o.observation) in
                let new = admit plan o.observation shares outcome.status in
                let planned = set_target plan in_list new shares (set_status plan o old new) in
                Returns-bind (add_planned o.es shares planned) _
                  (add_planned-keeps o.es shares planned)
                  (λ es' g. Returns-ok _ (keeps.twice f g))))))))

  pub plan_pairs-keeps :
      (plan : Plan) (es : EpochState) (records : Records) (ps : List Pair)
      → Returns (λ s. R es s.0) (plan_pairs plan es records ps)
  unfolding plan_pairs
  plan_pairs-keeps plan es records [] = Returns-ok _ (keeps.nothing es)
  plan_pairs-keeps plan es records (p ∷ ps) =
      Returns-bind (plan_pair plan es records p) _ (plan_pair-keeps plan es records p)
        (λ s f. Returns-map (plan_pairs-keeps plan s.0 s.1 ps) (λ t g. keeps.twice f g))

Frame-Keeps : Keeps Frame
Frame-Keeps = record {
  nothing = λ es. same;
  twice = and_then;
  cursor = λ es next. record { phase = refl; spent = refl; budget = refl; nav = refl; paid = refl };
  planned = λ es shares targets unsaturated s v _. record {
    phase = refl;
    spent = refl;
    budget = refl;
    nav = refl;
    paid = refl;
  };
}

pub plan_pairs-Frame :
    (plan : Plan) (es : EpochState) (records : Records) (ps : List Pair)
    → Returns (λ s. Frame es s.0) (plan_pairs plan es records ps)
plan_pairs-Frame = plan_pairs-keeps Frame-Keeps

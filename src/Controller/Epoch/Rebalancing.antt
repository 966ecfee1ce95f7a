-- ===== src/Controller/Epoch/Rebalancing.antt =====
-- programs/fusion-stake-controller: what the rebalancing moves is within the epoch's churn budget.
use fusion_core.Prelude.{
  ℕ, ◌-◌, ◌≡◌, ◌≤◌, refl, sym, inl, inr, Bool-cases, ◌||◌, some, none, ok, Returns, Returns-bind,
  Returns-skip, Returns-ok, checked_add, u64_max, ◌==◌, ltb, if◌then◌else◌, arith,
}
use mathlib.Core.Path.{subst}
use fusion_core.Stake.Lifecycle.{ValidatorStatus, from_u8}
use fusion_core.Stake.Preference.{same_bytes}
use fusion_core.StakeView.ValidatorList.{ValidatorEntry, entry_at}
use fusion_core.Controller.Budget.{Paid, pay_crank_reward-Paid}
use fusion_core.Prelude.Steps.{Returns-map, Returns-sum}
use fusion_core.Controller.Constants.{
  crank_epoch_payout_budget, crank_reward_plan_batch, crank_reward_finalize_pool,
  crank_reward_rebalance_action, validator_list_index_unset,
}
use fusion_core.Controller.Cpi.{invoke, Chain, derive_validator_stake, effective_minimum_delegation}
use fusion_core.Controller.Cpi.Moves.{
  set_preferred_withdraw_validator, add_validator_to_pool, remove_validator_from_pool,
  increase_validator_stake, decrease_validator_stake_with_reserve,
}
use fusion_core.Controller.Cycle.{
  enter, in_phase, check_conservation, finalize_plan, walk_complete, finish_epoch,
}
use fusion_core.Controller.Epoch.Planning.{Unspent, IsPlanning, IsReady, enter_lem, in_phase_lem}
use fusion_core.Controller.Error.{check, or_error, or_overflow, or_panic, call}
use fusion_core.Controller.Logic.{
  Action, skip, remove, decrease, increase, decide_action, RebalanceSlot, rebalance_slot,
}
use fusion_core.Controller.Logic.Decide.{Bounded, decide_action-Bounded}
use fusion_core.Controller.Maintenance.{Keys, Crank, pay_crank_reward}
use fusion_core.Controller.PlanDirected.{list_header}
use fusion_core.Controller.Rebalance.{
  Target, spend, count_action, check_admission, inputs_for, is_skip, check_pair, perform, advance,
  admit_validator, visit_validator, execute_next_action,
}
use fusion_core.Controller.State.{
  EpochState, ValidatorRecord, phase_rebalance, phase_idle, phase_plan_finalize,
}

-- The budgets of the epoch hold.
pub record IsBudgeted (es : EpochState) : Type 0 where
  pub planning : IsPlanning es → Unspent es
  pub within : es.churn_budget_used ≤ es.churn_budget_total
  pub paid : es.epoch_payout_budget_used ≤ crank_epoch_payout_budget

pub ready-IsBudgeted : {es : EpochState} → IsReady es → IsBudgeted es
ready-IsBudgeted (p, u) = record {
  planning = λ _. u;
  within = omega (arith, u.spent);
  paid = u.paid;
}

Paid-IsBudgeted : {es es' : EpochState} → Paid es es' → IsBudgeted es → IsBudgeted es'
Paid-IsBudgeted p h = subst IsBudgeted (sym p.rest) (record {
  planning = λ q. record { spent = (h.planning q).spent; paid = p.within };
  within = h.within;
  paid = p.within;
})

-- In the phase of the rebalancing.
pub record Acting (es : EpochState) : Type 0 where
  pub phase : es.phase ≡ 7
  pub within : es.churn_budget_used ≤ es.churn_budget_total
  pub paid : es.epoch_payout_budget_used ≤ crank_epoch_payout_budget

pub Acting-IsBudgeted : {es : EpochState} → Acting es → IsBudgeted es
Acting-IsBudgeted h = record {
  planning = λ p. absurd (omega (arith, h.phase, p.1));
  within = h.within;
  paid = h.paid;
}

spend-Acting :
    (es : EpochState) (amount : ℕ)
    → Acting es
    → amount ≤ es.churn_budget_total - es.churn_budget_used
    → Returns Acting (spend es amount)
unfolding spend
spend-Acting es amount h le =
    Returns-bind (or_overflow (checked_add u64_max es.churn_budget_used amount)) _
      (Returns-sum u64_max es.churn_budget_used amount _)
      (λ used (sum, _).
        Returns-ok _
          (record { phase = h.phase; within = omega (arith, sum, le, h.within); paid = h.paid }))

-- What an action moves is left in the budget.
abbrev Affordable : EpochState → Action → Type 0
Affordable es (decrease a) = a ≤ es.churn_budget_total - es.churn_budget_used
Affordable es (increase a) = a ≤ es.churn_budget_total - es.churn_budget_used
Affordable es _ = Unit {0}

decided-Affordable :
    (es : EpochState) (r : ValidatorRecord) (status : ValidatorStatus) (slot : RebalanceSlot)
    (entry : ValidatorEntry) (least rent reserve : ℕ) (action : Action)
    → Bounded (inputs_for es r status slot entry least rent reserve) action
    → Affordable es action
unfolding inputs_for
decided-Affordable es r status slot entry least rent reserve skip b = tt
decided-Affordable es r status slot entry least rent reserve remove b = tt
decided-Affordable es r status slot entry least rent reserve (decrease a) b = b.0.budget
decided-Affordable es r status slot entry least rent reserve (increase a) b = b.0.budget

count_action-Acting : (es : EpochState) → Acting es → Returns Acting (count_action es)
unfolding count_action
count_action-Acting es h =
    Returns-skip (or_panic (checked_add u64_max es.rebalance_actions_done 1)) _
      (λ done. Returns-ok _ (record { phase = h.phase; within = h.within; paid = h.paid }))

module _ ⦃chain : Chain⦄ where
  reward-Acting :
      (keys : Keys) (reward : ℕ) (w : Crank)
      → Acting w.es
      → Returns (λ w'. Acting w'.es) (pay_crank_reward keys reward w)
  reward-Acting keys reward w h = Returns-map (pay_crank_reward-Paid keys reward w h.paid) (λ w' p.
      subst Acting (sym p.rest) (record { phase = h.phase; within = h.within; paid = p.within }))

  perform-Acting :
      (keys : Keys) (target : Target) (entry : ValidatorEntry) (action : Action) (w : Crank)
      (r : ValidatorRecord)
      → Acting w.es
      → Affordable w.es action
      → Returns (λ t. Acting t.0.es) (perform keys target entry action w r)
  unfolding perform
  perform-Acting keys target entry skip w r h le = Returns-ok _ h
  perform-Acting keys target entry remove w r h le =
      Returns-skip
        (call (
          invoke
            (remove_validator_from_pool keys.stake_pool keys.pool_authority
              keys.pool_withdraw_authority keys.validator_list target.validator_stake
              target.transient_stake)
            w.accounts))
        _ (λ accounts. Returns-ok _ h)
  perform-Acting keys target entry (decrease amount) w r h le =
      Returns-skip
        (call (
          invoke
            (decrease_validator_stake_with_reserve keys.stake_pool keys.pool_authority
              keys.pool_withdraw_authority keys.validator_list keys.reserve_stake
              target.validator_stake target.transient_stake amount entry.transient_seed_suffix)
            w.accounts))
        _
        (λ accounts.
          Returns-bind (spend w.es amount) _ (spend-Acting w.es amount h le)
            (λ es k. Returns-ok _ k))
  perform-Acting keys target entry (increase amount) w r h le =
      Returns-skip
        (call (
          invoke
            (increase_validator_stake keys.stake_pool keys.pool_authority
              keys.pool_withdraw_authority keys.validator_list keys.reserve_stake
              target.transient_stake target.validator_stake target.vote amount
              entry.transient_seed_suffix)
            w.accounts))
        _
        (λ accounts.
          Returns-bind (spend w.es amount) _ (spend-Acting w.es amount h le)
            (λ es k. Returns-ok _ k))

  advance-Acting :
      (keys : Keys) (action : Action) (w : Crank)
      → Acting w.es
      → Returns (λ w'. Acting w'.es) (advance keys action w)
  unfolding advance
  advance-Acting keys action w h =
      Returns-skip (or_panic (checked_add u64_max w.es.rebalance_cursor 1)) _ (λ next.
        let moved : EpochState = record w.es { rebalance_cursor = next } in
        let k : Acting moved = record { phase = h.phase; within = h.within; paid = h.paid } in
        elim (Bool-cases (is_skip action)) [
          | inl idle ↦ rw idle (Returns-ok _ k)
          | inr acted ↦ rw acted (
              Returns-bind (count_action moved) _ (count_action-Acting moved k)
                (λ es q. reward-Acting keys crank_reward_rebalance_action (record w { es = es }) q))
        ])

  admit_validator-Acting :
      (keys : Keys) (target : Target) (status : ValidatorStatus) (w : Crank) (r : ValidatorRecord)
      → Acting w.es
      → Returns (λ t. Acting t.0.es) (admit_validator keys target status w r)
  unfolding admit_validator
  admit_validator-Acting keys target status w r h =
      let stake = derive_validator_stake target.vote keys.stake_pool 0 in
      Returns-skip (check_admission w.es r status) _ (λ _.
        Returns-skip (check (same_bytes target.validator_stake stake) _) _ (λ _.
          Returns-skip (list_header w.accounts.validator_list) _ (λ header.
            Returns-skip
              (call (
                invoke
                  (add_validator_to_pool keys.stake_pool keys.pool_authority keys.reserve_stake
                    keys.pool_withdraw_authority keys.validator_list stake target.vote 0)
                  w.accounts))
              _
              (λ accounts. Returns-bind (count_action w.es) _ (count_action-Acting w.es h) (λ es q.
                Returns-bind
                  (pay_crank_reward keys crank_reward_rebalance_action
                    (record { es = es; accounts = accounts }))
                  _
                  (reward-Acting keys crank_reward_rebalance_action
                    (record { es = es; accounts = accounts }) q)
                  (λ w' k. Returns-ok _ k))))))

  visit_validator-Acting :
      (keys : Keys) (target : Target) (rent : ℕ) (status : ValidatorStatus) (w : Crank)
      (r : ValidatorRecord)
      → Acting w.es
      → Returns (λ t. Acting t.0.es) (visit_validator keys target rent status w r)
  unfolding visit_validator
  visit_validator-Acting keys target rent status w r h =
      Returns-skip
        (or_error
          (rebalance_slot w.es.rebalance_cursor w.es.plan_directed_cursor w.es.controller_epoch) _)
        _
        (λ slot. Returns-skip (check (r.validator_list_index == slot.index) _) _ (λ _.
          Returns-skip (or_error (entry_at w.accounts.validator_list r.validator_list_index) _) _
            (λ entry.
              Returns-skip (check (same_bytes entry.vote_account_address target.vote) _) _ (λ _.
                Returns-skip effective_minimum_delegation _ (λ least.
                  let reserve = w.accounts.reserve_lamports in
                  let inputs = inputs_for w.es r status slot entry least rent reserve in
                  let action = decide_action inputs in
                  let le =
                    decided-Affordable w.es r status slot entry least rent reserve action
                      (decide_action-Bounded inputs).1 in
                  Returns-skip (if is_skip action then ok tt else check_pair keys target entry) _
                    (λ _.
                      Returns-bind (perform keys target entry action w r) _
                        (perform-Acting keys target entry action w r h le)
                        (λ t k.
                          Returns-bind (advance keys action t.0) _
                            (advance-Acting keys action t.0 k) (λ w'' q. Returns-ok _ q))))))))

  pub execute_next_action-Acting :
      (keys : Keys) (target : Target) (rent : ℕ) (w : Crank) (r : ValidatorRecord)
      → IsBudgeted w.es
      → Returns (λ t. Acting t.0.es) (execute_next_action keys target rent w r)
  unfolding execute_next_action
  execute_next_action-Acting keys target rent w r h =
      Returns-bind (in_phase phase_rebalance w.es) _ (in_phase_lem phase_rebalance w.es) (λ _ e.
        let k : Acting w.es = record { phase = e; within = h.within; paid = h.paid } in
        Returns-skip (check (r.plan_epoch == w.es.controller_epoch) _) _ (λ _.
          Returns-skip (or_error (from_u8 r.status) _) _ (λ status.
            elim (Bool-cases (r.validator_list_index == validator_list_index_unset)) [
              | inl new ↦ rw new (admit_validator-Acting keys target status w r k)
              | inr listed ↦ rw listed (visit_validator-Acting keys target rent status w r k)
            ])))

  pub finalize_plan-Acting :
      (keys : Keys) (w : Crank)
      → IsBudgeted w.es
      → Returns (λ w'. Acting w'.es) (finalize_plan keys w)
  unfolding finalize_plan
  finalize_plan-Acting keys w h =
      Returns-bind (in_phase phase_plan_finalize w.es) _ (in_phase_lem phase_plan_finalize w.es)
        (λ _ e. Returns-skip (check_conservation w.es) _ (λ _.
          Returns-skip
            (call (
              invoke
                (set_preferred_withdraw_validator keys.stake_pool keys.pool_authority
                  keys.validator_list
                  (if ltb 0 w.es.preferred_withdraw_surplus
                    then some w.es.preferred_withdraw_vote
                    else none))
                w.accounts))
            _
            (λ accounts.
              Returns-bind (enter phase_rebalance w.es) _ (enter_lem phase_rebalance w.es)
                (λ es same_but.
                  let k : Acting es =
                    subst Acting (sym same_but)
                      (record { phase = refl; within = h.within; paid = h.paid }) in
                  reward-Acting keys crank_reward_plan_batch _
                    (record { phase = k.phase; within = k.within; paid = k.paid })))))

  pub finish_epoch-IsBudgeted :
      (keys : Keys) (w : Crank)
      → IsBudgeted w.es
      → Returns (λ w'. IsBudgeted w'.es) (finish_epoch keys w)
  unfolding finish_epoch
  finish_epoch-IsBudgeted keys w h = Returns-skip (in_phase phase_rebalance w.es) _ (λ _.
      Returns-skip effective_minimum_delegation _ (λ least.
        Returns-skip
          (check
            (walk_complete w.es || ltb (w.es.churn_budget_total - w.es.churn_budget_used) least) _)
          _
          (λ _. Returns-bind (enter phase_idle w.es) _ (enter_lem phase_idle w.es) (λ es same_but.
            let k : IsBudgeted es = subst IsBudgeted (sym same_but) (record {
              planning = λ p. absurd (omega (arith, p.0));
              within = h.within;
              paid = h.paid;
            }) in
            Returns-map
              (pay_crank_reward-Paid keys crank_reward_finalize_pool (record w { es = es }) k.paid)
              (λ w' p. Paid-IsBudgeted p k)))))

-- ===== src/Controller/Epoch/Moving.antt =====
-- programs/fusion-stake-controller/src/instructions/execute_next_action.rs counts what it asks the pool to
-- move.
use fusion_core.Prelude.{
  ℕ, ◌+◌, ◌≡◌, ◌≤◌, refl, true, inl, inr, Bool-cases, ok, Returns, Returns-bind, Returns-skip,
  Returns-ok, checked_add, u64_max, ◌==◌, if◌then◌else◌, ap, sum, arith,
}
use fusion_core.Prelude.Steps.{Returns-sum}
use fusion_core.Stake.Preference.{Address, same_bytes}
use fusion_core.Stake.Lifecycle.{ValidatorStatus, from_u8}
use fusion_core.StakeView.Bytes.{u8_at}
use fusion_core.StakeView.ValidatorList.{ValidatorEntry, entry_at}
use fusion_core.Controller.Constants.{crank_reward_rebalance_action, validator_list_index_unset}
use fusion_core.Controller.Cpi.{
  Accounts, Chain, invoke, derive_validator_stake, effective_minimum_delegation,
}
use fusion_core.Controller.Cpi.Encoding.{amounts_said}
use fusion_core.Controller.Cpi.Moves.{
  add_validator_to_pool, remove_validator_from_pool, increase_validator_stake,
  decrease_validator_stake_with_reserve,
}
use fusion_core.Controller.Cycle.{in_phase}
use fusion_core.Controller.Epoch.Ledger.{
  lamports_of, asked, IsCapped, Counts, Counts-nothing, and-Counts, Quiet-nothing, Kept,
  Kept-nothing, and-Kept, Kept-Counts, invoke_lem, invoke-Quiet,
}
use fusion_core.Controller.Error.{check, or_error, or_overflow, or_panic, call}
use fusion_core.Controller.Logic.{
  Action, skip, remove, decrease, increase, decide_action, rebalance_slot,
}
use fusion_core.Controller.Maintenance.{Keys, Crank, pay_crank_reward}
use fusion_core.Controller.PlanDirected.{list_header}
use fusion_core.Controller.Rebalance.{
  Target, spend, count_action, check_admission, inputs_for, is_skip, check_pair, perform, advance,
  admit_validator, visit_validator, execute_next_action,
}
use fusion_core.Controller.State.{EpochState, ValidatorRecord, phase_rebalance}
use fusion_core.Controller.Epoch.Counting.{reward-Counts}

count_action-Kept : (es : EpochState) → Returns (Kept es) (count_action es)
unfolding count_action
count_action-Kept es =
    Returns-skip (or_panic (checked_add u64_max es.rebalance_actions_done 1)) _
      (λ done. Returns-ok _ (record { spent = refl; paid = refl; capped = λ h. h }))

-- What was spent, and nothing else.
record Spent (es : EpochState) (amount : ℕ) (es' : EpochState) : Type 0 where
  used : es'.churn_budget_used ≡ es.churn_budget_used + amount
  fits : es'.churn_budget_used ≤ u64_max
  paid : es'.epoch_payout_budget_used ≡ es.epoch_payout_budget_used
  capped : IsCapped es → IsCapped es'

spend-Spent : (es : EpochState) (amount : ℕ) → Returns (Spent es amount) (spend es amount)
unfolding spend
spend-Spent es amount =
    Returns-bind (or_overflow (checked_add u64_max es.churn_budget_used amount)) _
      (Returns-sum u64_max es.churn_budget_used amount _)
      (λ used (e, fits).
        Returns-ok _ (record { used = e; fits = fits; paid = refl; capped = λ h. h }))

-- A call that asks for what is spent.
asks-Spent :
    {w : Crank} {es : EpochState} {a : Accounts} (amount asks : ℕ)
    → (asked a.calls ≡ asks + asked w.accounts.calls) × (a.payouts ≡ w.accounts.payouts)
    → Spent w.es amount es
    → (amount ≤ u64_max → asks ≡ amount)
    → Counts w (record { es = es; accounts = a })
asks-Spent amount asks (calls, payouts) k says = record {
  moved = omega (arith, calls, k.used, says (omega (arith, k.used, k.fits)));
  paid = omega (arith, ap sum payouts, k.paid);
  capped = k.capped;
}

module _ ⦃chain : Chain⦄ where
  -- The instructions that move stake ask for the amount they are built with.
  moves_ask :
      (pool staker authority list reserve transient stake vote : Address) (lamports seed : ℕ)
      → lamports ≤ u64_max
      → (lamports_of (
            increase_validator_stake pool staker authority list reserve transient stake vote
              lamports seed)
          ≡ lamports)
        × (lamports_of (
              decrease_validator_stake_with_reserve pool staker authority list reserve stake
                transient lamports seed)
            ≡ lamports)
  unfolding lamports_of
  moves_ask pool staker authority list reserve transient stake vote lamports seed h =
      let (up, down) =
        amounts_said pool staker authority list reserve transient stake vote lamports seed h in
      (rw (up.0, up.1) refl, rw (down.0, down.1) refl)

  removal_asks :
      (keys : Keys) (target : Target)
      → lamports_of (
          remove_validator_from_pool keys.stake_pool keys.pool_authority
            keys.pool_withdraw_authority keys.validator_list target.validator_stake
            target.transient_stake)
        ≡ 0
  unfolding lamports_of u8_at remove_validator_from_pool
  removal_asks keys target = refl

  perform-Counts :
      (keys : Keys) (target : Target) (entry : ValidatorEntry) (action : Action) (w : Crank)
      (r : ValidatorRecord)
      → Returns (λ t. Counts w t.0) (perform keys target entry action w r)
  unfolding perform
  perform-Counts keys target entry skip w r = Returns-ok _ Counts-nothing
  perform-Counts keys target entry remove w r =
      let ix =
        remove_validator_from_pool keys.stake_pool keys.pool_authority keys.pool_withdraw_authority
          keys.validator_list target.validator_stake target.transient_stake in
      Returns-bind (call (invoke ix w.accounts)) _
        (invoke-Quiet ix w.accounts (removal_asks keys target))
        (λ accounts q. Returns-ok _ (Kept-Counts Kept-nothing q))
  perform-Counts keys target entry (decrease amount) w r =
      let ix =
        decrease_validator_stake_with_reserve keys.stake_pool keys.pool_authority
          keys.pool_withdraw_authority keys.validator_list keys.reserve_stake target.validator_stake
          target.transient_stake amount entry.transient_seed_suffix in
      Returns-bind (call (invoke ix w.accounts)) _ (invoke_lem ix w.accounts) (λ accounts sent.
        Returns-bind (spend w.es amount) _ (spend-Spent w.es amount) (λ es k. Returns-ok _ (
          asks-Spent amount (lamports_of ix) sent k (λ le.
            (moves_ask keys.stake_pool keys.pool_authority keys.pool_withdraw_authority
              keys.validator_list keys.reserve_stake target.transient_stake target.validator_stake
              target.vote amount entry.transient_seed_suffix le).1))))
  perform-Counts keys target entry (increase amount) w r =
      let ix =
        increase_validator_stake keys.stake_pool keys.pool_authority keys.pool_withdraw_authority
          keys.validator_list keys.reserve_stake target.transient_stake target.validator_stake
          target.vote amount entry.transient_seed_suffix in
      Returns-bind (call (invoke ix w.accounts)) _ (invoke_lem ix w.accounts) (λ accounts sent.
        Returns-bind (spend w.es amount) _ (spend-Spent w.es amount) (λ es k. Returns-ok _ (
          asks-Spent amount (lamports_of ix) sent k (λ le.
            (moves_ask keys.stake_pool keys.pool_authority keys.pool_withdraw_authority
              keys.validator_list keys.reserve_stake target.transient_stake target.validator_stake
              target.vote amount entry.transient_seed_suffix le).0))))

  advance-Counts :
      (keys : Keys) (action : Action) (w0 w : Crank)
      → Counts w0 w
      → Returns (Counts w0) (advance keys action w)
  unfolding advance
  advance-Counts keys action w0 w h =
      Returns-skip (or_panic (checked_add u64_max w.es.rebalance_cursor 1)) _ (λ next.
        let moved : EpochState = record w.es { rebalance_cursor = next } in
        let k : Kept w.es moved = record { spent = refl; paid = refl; capped = λ h. h } in
        elim (Bool-cases (is_skip action)) [
          | inl idle ↦ rw idle (Returns-ok _ (and-Counts h (Kept-Counts k Quiet-nothing)))
          | inr acted ↦ rw acted (
              Returns-bind (count_action moved) _ (count_action-Kept moved) (λ es q.
                reward-Counts true keys crank_reward_rebalance_action w0 (record w { es = es })
                  (and-Counts h (Kept-Counts (and-Kept k q) Quiet-nothing))))
        ])

  admit_validator-Counts :
      (keys : Keys) (target : Target) (status : ValidatorStatus) (w : Crank) (r : ValidatorRecord)
      → Returns (λ t. Counts w t.0) (admit_validator keys target status w r)
  unfolding admit_validator lamports_of u8_at add_validator_to_pool
  admit_validator-Counts keys target status w r =
      let stake = derive_validator_stake target.vote keys.stake_pool 0 in
      Returns-skip (check_admission w.es r status) _ (λ _.
        Returns-skip (check (same_bytes target.validator_stake stake) _) _ (λ _.
          Returns-skip (list_header w.accounts.validator_list) _ (λ header.
            let ix =
              add_validator_to_pool keys.stake_pool keys.pool_authority keys.reserve_stake
                keys.pool_withdraw_authority keys.validator_list stake target.vote 0 in
            Returns-bind (call (invoke ix w.accounts)) _ (invoke-Quiet ix w.accounts refl)
              (λ accounts q. Returns-bind (count_action w.es) _ (count_action-Kept w.es) (λ es k.
                Returns-bind
                  (pay_crank_reward keys crank_reward_rebalance_action
                    (record { es = es; accounts = accounts }))
                  _
                  (reward-Counts true keys crank_reward_rebalance_action w
                    (record { es = es; accounts = accounts }) (Kept-Counts k q))
                  (λ w' c. Returns-ok _ c))))))

  visit_validator-Counts :
      (keys : Keys) (target : Target) (rent : ℕ) (status : ValidatorStatus) (w : Crank)
      (r : ValidatorRecord)
      → Returns (λ t. Counts w t.0) (visit_validator keys target rent status w r)
  unfolding visit_validator
  visit_validator-Counts keys target rent status w r =
      Returns-skip
        (or_error
          (rebalance_slot w.es.rebalance_cursor w.es.plan_directed_cursor w.es.controller_epoch) _)
        _
        (λ slot. Returns-skip (check (r.validator_list_index == slot.index) _) _ (λ _.
          Returns-skip (or_error (entry_at w.accounts.validator_list r.validator_list_index) _) _
            (λ entry.
              Returns-skip (check (same_bytes entry.vote_account_address target.vote) _) _ (λ _.
                Returns-skip effective_minimum_delegation _ (λ least.
                  let action =
                    decide_action (
                      inputs_for w.es r status slot entry least rent w.accounts.reserve_lamports) in
                  Returns-skip (if is_skip action then ok tt else check_pair keys target entry) _
                    (λ _.
                      Returns-bind (perform keys target entry action w r) _
                        (perform-Counts keys target entry action w r)
                        (λ t k.
                          Returns-bind (advance keys action t.0) _
                            (advance-Counts keys action w t.0 k) (λ w'' q. Returns-ok _ q))))))))

  pub execute_next_action-Counts :
      (keys : Keys) (target : Target) (rent : ℕ) (w : Crank) (r : ValidatorRecord)
      → Returns (λ t. Counts w t.0) (execute_next_action keys target rent w r)
  unfolding execute_next_action
  execute_next_action-Counts keys target rent w r =
      Returns-skip (in_phase phase_rebalance w.es) _ (λ _.
        Returns-skip (check (r.plan_epoch == w.es.controller_epoch) _) _ (λ _.
          Returns-skip (or_error (from_u8 r.status) _) _ (λ status.
            elim (Bool-cases (r.validator_list_index == validator_list_index_unset)) [
              | inl new ↦ rw new (admit_validator-Counts keys target status w r)
              | inr listed ↦ rw listed (visit_validator-Counts keys target rent status w r)
            ])))

-- ===== src/Controller/Budget.antt =====
-- programs/fusion-stake-controller: what an epoch moves and pays stays within its budgets.
use fusion_core.Prelude.{
  ℕ, ◌+◌, ◌≡◌, ◌≤◌, ap, inl, inr, Bool-cases, arith, Returns, Returns-bind, Returns-skip,
  Returns-ok, ◌==◌, checked_add, u64_max, not,
}
use fusion_core.Stake.Preference.{same_bytes}
use fusion_core.Stake.Reserve.{payout}
use fusion_core.Controller.Constants.{crank_epoch_payout_budget}
use fusion_core.Controller.Error.{check, or_overflow, call}
use fusion_core.Controller.State.{EpochState}
use fusion_core.Controller.Cpi.{Chain, transfer_reward}
use fusion_core.Prelude.Steps.{Returns-sum, Returns-map}
use fusion_core.Controller.Maintenance.{Keys, Crank, pay, pay_crank_reward}

-- The state but for what has been paid, which is within the budget.
pub record Paid (es es' : EpochState) : Type 0 where
  pub used : ℕ
  pub rest : es' ≡ record es { epoch_payout_budget_used = used }
  pub within : used ≤ crank_epoch_payout_budget

abbrev pub with_paid : EpochState → ℕ → EpochState
with_paid es used = record es { epoch_payout_budget_used = used }

module _ ⦃chain : Chain⦄ where
  pay_lem :
      (amount : ℕ) (w : Crank)
      → Returns
          (λ w'. w'.es ≡ with_paid w.es (w.es.epoch_payout_budget_used + amount))
          (pay amount w)
  unfolding pay
  pay_lem amount w = elim (Bool-cases (amount == 0)) [
    | inl none ↦
        rw none
          (Returns-ok w (ap (with_paid w.es) {x = w.es.epoch_payout_budget_used} (ground arith)))
    | inr due ↦ rw due (
        Returns-skip (call (transfer_reward amount w.accounts)) _ (λ moved.
          Returns-bind (or_overflow (checked_add u64_max w.es.epoch_payout_budget_used amount)) _
            (Returns-sum u64_max w.es.epoch_payout_budget_used amount _)
            (λ used (sum, _). Returns-ok _ (ap (with_paid w.es) sum))))
  ]

  -- A payment changes nothing else of the state.
  pub pay_crank_reward_lem :
      (keys : Keys) (task_reward : ℕ) (w : Crank)
      → Returns
          (λ w'. (used : ℕ) × (w'.es ≡ with_paid w.es used))
          (pay_crank_reward keys task_reward w)
  unfolding pay_crank_reward
  pay_crank_reward_lem keys task_reward w =
      Returns-skip (check (not (same_bytes keys.crank_reward_account keys.maintenance_vault)) _) _
        (λ _. Returns-map (pay_lem _ w) (λ w' e. (_, e)))

  pub pay_crank_reward-Paid :
      (keys : Keys) (task_reward : ℕ) (w : Crank)
      → w.es.epoch_payout_budget_used ≤ crank_epoch_payout_budget
      → Returns (λ w'. Paid w.es w'.es) (pay_crank_reward keys task_reward w)
  unfolding pay_crank_reward payout
  pay_crank_reward-Paid keys task_reward w h =
      Returns-skip (check (not (same_bytes keys.crank_reward_account keys.maintenance_vault)) _) _
        (λ _.
          Returns-map (pay_lem _ w) (λ w' e. record { used = _; rest = e; within = omega arith }))

-- ===== src/Controller/Epoch/Invariant.antt =====
-- programs/fusion-stake-controller: what holds however the cycle is cranked.
use fusion_core.Prelude.{
  ◌+◌, ◌≡◌, ◌≤◌, refl, ok, Returns, Returns-skip, Returns-ok, ltb, sum, arith,
}
use fusion_core.Stake.Churn.{global_churn_budget}
use fusion_core.Controller.Constants.{crank_epoch_payout_budget, global_churn_cap_bps}
use fusion_core.Controller.Cpi.{Chain}
use fusion_core.Controller.Cycle.{Clock, start_epoch}
use fusion_core.Controller.Epoch.{
  World, Steps, Reaches, start, next, reconciles, finalizes, closes, directs, distributes, plans,
  acts, finishes,
}
use fusion_core.Controller.Epoch.Counting.{
  close_preference_window-Kept, reconcile_batch-Counts, finalize_pool-Counts,
  plan_directed_batch-Counts, plan_neutral_batch-Counts, finalize_plan-Counts, finish_epoch-Counts,
}
use fusion_core.Controller.Epoch.Ledger.{
  asked, IsCapped, Counts, Counts-nothing, and-Counts, Quiet-nothing, Kept-Counts,
}
use fusion_core.Controller.Epoch.Moving.{execute_next_action-Counts}
use fusion_core.Controller.Epoch.Planning.{
  start_epoch-IsReady, close_preference_window-IsReady, reconcile_batch-IsReady,
  finalize_pool-IsReady, plan_directed_batch-IsReady, plan_neutral_batch-IsReady,
}
use fusion_core.Controller.Epoch.Rebalancing.{
  IsBudgeted, ready-IsBudgeted, Acting-IsBudgeted, execute_next_action-Acting, finalize_plan-Acting,
  finish_epoch-IsBudgeted,
}
use fusion_core.Controller.Error.{check}
use fusion_core.Controller.Logic.{phase_transition_allowed}
use fusion_core.Controller.Maintenance.{Crank}
use fusion_core.Controller.Records.{Records}
use fusion_core.Controller.State.{
  EpochState, reset_for_new_epoch, reset_plan_state, set_neutral_round, phase_reconcile,
}

-- What a new epoch begins with.
record Begun (es : EpochState) : Type 0 where
  spent : es.churn_budget_used ≡ 0
  paid : es.epoch_payout_budget_used ≡ 0
  capped : IsCapped es

start_epoch-Begun : (clock : Clock) (es : EpochState) → Returns Begun (start_epoch clock es)
unfolding start_epoch reset_for_new_epoch reset_plan_state set_neutral_round
start_epoch-Begun clock es = Returns-skip (check (ltb es.controller_epoch clock.epoch) _) _ (λ _.
    Returns-skip (check (phase_transition_allowed es.phase phase_reconcile) _) _
      (λ _. Returns-ok _ (record { spent = refl; paid = refl; capped = refl })))

module _ ⦃chain : Chain⦄ where
  Steps-IsBudgeted : {s t : World} → Steps s t → IsBudgeted s.0.es → IsBudgeted t.0.es
  Steps-IsBudgeted (reconciles {s} {t} keys clock slots quads e) h =
      ready-IsBudgeted ((reconcile_batch-IsReady keys clock slots quads s h.planning).holds t e)
  Steps-IsBudgeted (finalizes {w} {w'} {rs} keys clock slots e) h =
      ready-IsBudgeted ((finalize_pool-IsReady keys clock slots w h.planning).holds w' e)
  Steps-IsBudgeted (closes {w} {rs} {es} clock e) h =
      ready-IsBudgeted ((close_preference_window-IsReady clock w.es h.planning).holds es e)
  Steps-IsBudgeted (directs {s} {t} keys clock rent slots pairs e) h =
      ready-IsBudgeted
        ((plan_directed_batch-IsReady keys clock rent slots pairs s h.planning).holds t e)
  Steps-IsBudgeted (distributes {s} {t} keys accounts e) h =
      ready-IsBudgeted ((plan_neutral_batch-IsReady keys accounts s h.planning).holds t e)
  Steps-IsBudgeted (plans {w} {w'} {rs} keys e) h =
      Acting-IsBudgeted ((finalize_plan-Acting keys w h).holds w' e)
  Steps-IsBudgeted (acts {w} {w'} {rs} keys target rent key r r' _ e) h =
      Acting-IsBudgeted ((execute_next_action-Acting keys target rent w r h).holds (w', r') e)
  Steps-IsBudgeted (finishes {w} {w'} {rs} keys e) h = (finish_epoch-IsBudgeted keys w h).holds w' e

  Steps-Counts : {s t : World} → Steps s t → Counts s.0 t.0
  Steps-Counts (reconciles {s} {t} keys clock slots quads e) =
      (reconcile_batch-Counts keys clock slots quads s).holds t e
  Steps-Counts (finalizes {w} {w'} {rs} keys clock slots e) =
      (finalize_pool-Counts keys clock slots w).holds w' e
  Steps-Counts (closes {w} {rs} {es} clock e) =
      Kept-Counts ((close_preference_window-Kept clock w.es).holds es e) Quiet-nothing
  Steps-Counts (directs {s} {t} keys clock rent slots pairs e) =
      (plan_directed_batch-Counts keys clock rent slots pairs s).holds t e
  Steps-Counts (distributes {s} {t} keys accounts e) =
      (plan_neutral_batch-Counts keys accounts s).holds t e
  Steps-Counts (plans {w} {w'} {rs} keys e) = (finalize_plan-Counts keys w).holds w' e
  Steps-Counts (acts {w} {w'} {rs} keys target rent key r r' _ e) =
      (execute_next_action-Counts keys target rent w r).holds (w', r') e
  Steps-Counts (finishes {w} {w'} {rs} keys e) = (finish_epoch-Counts keys w).holds w' e

  Reaches-IsBudgeted : {s t : World} → Reaches s t → IsBudgeted s.0.es → IsBudgeted t.0.es
  Reaches-IsBudgeted start h = h
  Reaches-IsBudgeted (next r step) h = Steps-IsBudgeted step (Reaches-IsBudgeted r h)

  Reaches-Counts : {s t : World} → Reaches s t → Counts s.0 t.0
  Reaches-Counts start = Counts-nothing
  Reaches-Counts (next r step) = and-Counts (Reaches-Counts r) (Steps-Counts step)

  -- Whatever the state before, from the start of an epoch to the next: however the epoch is cranked, in
  -- any order, with any accounts and any behaviour of the stake pool. The lamports of all the
  -- instructions to increase or to decrease a validator's stake that the pool was sent, as the pool
  -- reads them, add up to at most the churn budget, which is the cap's share of the pool's total in the
  -- state; the rewards transferred out of the maintenance vault add up to at most 0.5 fuSOL.
  pub Reaches-le-budgets :
      (w : Crank) {rs : Records} {es : EpochState} {t : World} (clock : Clock)
      → start_epoch clock w.es ≡ ok es
      → Reaches (record w { es = es }, rs) t
      → (asked t.0.accounts.calls ≤ asked w.accounts.calls + t.0.es.churn_budget_total)
        × (t.0.es.churn_budget_total
            ≡ global_churn_budget t.0.es.nav_total_lamports global_churn_cap_bps)
        × (sum t.0.accounts.payouts ≤ sum w.accounts.payouts + crank_epoch_payout_budget)
  Reaches-le-budgets w {rs} {es} {t} clock e r =
      let begun = (start_epoch-Begun clock w.es).holds es e in
      let within =
        Reaches-IsBudgeted r (ready-IsBudgeted ((start_epoch-IsReady clock w.es).holds es e)) in
      let counts = Reaches-Counts r in
      (
        omega (arith, counts.moved, begun.spent, within.within),
        counts.capped begun.capped,
        omega (arith, counts.paid, begun.paid, within.paid),
      )

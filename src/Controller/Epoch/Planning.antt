-- ===== src/Controller/Epoch/Planning.antt =====
-- programs/fusion-stake-controller: no crank before the rebalancing moves stake.
use fusion_core.Prelude.{
  ℕ, ◌/◌, ◌≡◌, ◌≤◌, ◌<◌, refl, sym, ◌∙◌, Bool, true, false, inl, inr, Bool-cases, ◌||◌, List,
  length, ok, ◌>>=◌, Returns, Returns-bind, Returns-skip, Returns-ok, checked_add, u64_max,
  saturating_mul, ◌==◌, ltb, leb, if◌then◌else◌, arith,
}
use mathlib.Core.Path.{subst}
use fusion_core.Stake.Preference.{Address}
use fusion_core.Stake.Targets.{neutral_total}
use fusion_core.Controller.Budget.{Paid, pay_crank_reward-Paid}
use fusion_core.Prelude.Steps.{Returns-map, Returns-test}
use fusion_core.Controller.Constants.{
  crank_epoch_payout_budget, crank_reward_plan_batch, crank_reward_reconcile_batch,
  crank_reward_finalize_pool, vote_freshness_window_divisor, preference_window_slot_divisor,
}
use fusion_core.Controller.Cpi.{Chain, effective_minimum_delegation}
use fusion_core.Controller.Cycle.{
  Clock, enter, in_phase, start_epoch, close_preference_window, finalize_pool, pool_view,
  update_pool, snapshot_nav,
}
use fusion_core.Controller.Error.{check, or_error, or_overflow, or_panic}
use fusion_core.Controller.Frame.{Frame, plan_pairs-Frame}
use fusion_core.Controller.Frame.Batches.{reconcile_all-Frame, open_first-Frame, visit_batch-Frame}
use fusion_core.Controller.Logic.{phase_transition_allowed}
use fusion_core.Controller.Maintenance.{Keys, Crank, pay_crank_reward}
use fusion_core.Controller.PlanDirected.{
  Plan, Pair, plan_of, plan_pairs, complete_directed, list_header, plan_directed_batch,
}
use fusion_core.Controller.PlanNeutral.{open_first, visit_batch, plan_neutral, plan_neutral_batch}
use fusion_core.Controller.Reconcile.{
  Quad, expect, update_slice, reconcile_all, advance_cursor, reconcile_batch,
}
use fusion_core.Controller.Records.{Records}
use fusion_core.Controller.State.{
  EpochState, reset_for_new_epoch, reset_plan_state, set_neutral_round, phase_reconcile,
  phase_finalize, phase_preferences, phase_plan_directed, phase_plan_neutral, phase_plan_finalize,
}

-- Nothing of the churn budget is spent, and what was paid is within the budget of payouts.
pub record Unspent (es : EpochState) : Type 0 where
  pub spent : es.churn_budget_used ≡ 0
  pub paid : es.epoch_payout_budget_used ≤ crank_epoch_payout_budget

-- A phase before the rebalancing, and no idle one.
abbrev pub IsPlanning : EpochState → Type 0
IsPlanning es = (1 ≤ es.phase) × (es.phase < 7)

-- What the cranks before the rebalancing keep. In the idle phase nothing is said of what is spent.
abbrev pub IsReady : EpochState → Type 0
IsReady es = IsPlanning es × Unspent es

Frame-Unspent : {es es' : EpochState} → Frame es es' → Unspent es → Unspent es'
Frame-Unspent f h = record { spent = f.spent ∙ h.spent; paid = omega (arith, f.paid, h.paid) }

pub enter_lem :
    (to : ℕ) (es : EpochState) → Returns (λ es'. es' ≡ record es { phase = to }) (enter to es)
enter_lem to es =
    Returns-skip (check (phase_transition_allowed es.phase to) _) _ (λ _. Returns-ok _ refl)

enter-IsReady :
    (to : ℕ) (es : EpochState) → 1 ≤ to → to < 7 → Unspent es → Returns IsReady (enter to es)
enter-IsReady to es low high h =
    Returns-map (enter_lem to es)
      (λ es' e. subst IsReady (sym e) ((low, high), record { spent = h.spent; paid = h.paid }))

pub in_phase_lem :
    (phase : ℕ) (es : EpochState) → Returns (λ _. es.phase ≡ phase) (in_phase phase es)
in_phase_lem phase es = Returns-map (Returns-test (es.phase == phase) _) (λ _ e. ground (arith, e))

pub start_epoch-IsReady : (clock : Clock) (es : EpochState) → Returns IsReady (start_epoch clock es)
unfolding start_epoch reset_for_new_epoch
start_epoch-IsReady clock es = Returns-skip (check (ltb es.controller_epoch clock.epoch) _) _ (λ _.
    Returns-skip (check (phase_transition_allowed es.phase phase_reconcile) _) _
      (λ _. Returns-ok _ ((omega arith, omega arith), record { spent = refl; paid = omega arith })))

pub close_preference_window-IsReady :
    (clock : Clock) (es : EpochState)
    → (IsPlanning es → Unspent es)
    → Returns IsReady (close_preference_window clock es)
unfolding close_preference_window reset_plan_state set_neutral_round
close_preference_window-IsReady clock es h =
    Returns-bind (in_phase phase_preferences es) _ (in_phase_lem phase_preferences es) (λ _ e.
      let u = h (omega (arith, e), omega (arith, e)) in
      Returns-skip (check (leb es.preference_window_close_slot clock.slot) _) _ (λ _.
        Returns-skip (check (phase_transition_allowed es.phase phase_plan_directed) _) _ (λ _.
          Returns-ok _ ((omega arith, omega arith), record { spent = u.spent; paid = u.paid }))))

advance_cursor-IsReady :
    (n list_len : ℕ) (es : EpochState) → IsReady es → Returns IsReady (advance_cursor n list_len es)
unfolding advance_cursor
advance_cursor-IsReady n list_len es (p, h) =
    Returns-skip (or_panic (checked_add u64_max es.reconcile_cursor n)) _ (λ next.
      elim (Bool-cases (next == list_len)) [
        | inl whole ↦ rw whole (
            enter-IsReady phase_finalize _ (omega arith) (omega arith)
              (record { spent = h.spent; paid = h.paid }))
        | inr part ↦ rw part (Returns-ok _ (p, record { spent = h.spent; paid = h.paid }))
      ])

complete_directed-IsReady :
    (plan : Plan) (es : EpochState) → IsReady es → Returns IsReady (complete_directed plan es)
unfolding complete_directed
complete_directed-IsReady plan es (p, h) =
    elim (Bool-cases (es.plan_directed_cursor == plan.list_len)) [
      | inl whole ↦ rw whole (
          Returns-skip
            (or_error
              (neutral_total plan.productive es.sum_directed_targets es.total_directed_shares
                plan.supply)
              _)
            _
            (λ neutral.
              enter-IsReady phase_plan_neutral _ (omega arith) (omega arith)
                (record { spent = h.spent; paid = h.paid })))
      | inr part ↦ rw part (Returns-ok _ (p, h))
    ]

visited-IsReady :
    (b : Bool) (es : EpochState) (records : Records) (accounts : List (Address × Bool))
    → IsReady es
    → Returns
        (λ t. IsReady t.0)
        (if b then ok (es, true, records) else visit_batch es records accounts)
visited-IsReady true es records accounts h = Returns-ok _ h
visited-IsReady false es records accounts ((low, high), u) =
    Returns-map (visit_batch-Frame es records accounts)
      (λ t f. ((omega (arith, f.phase, low), omega (arith, f.phase, high)), Frame-Unspent f u))

finished-IsReady :
    (b : Bool) (es : EpochState)
    → IsReady es
    → Returns IsReady (if b then enter phase_plan_finalize es else ok es)
finished-IsReady true es (p, u) = enter-IsReady phase_plan_finalize es (omega arith) (omega arith) u
finished-IsReady false es h = Returns-ok _ h

Paid-IsReady : {es es' : EpochState} → Paid es es' → IsReady es → IsReady es'
Paid-IsReady {es} {es'} p (pl, h) =
    subst IsReady (sym p.rest) (pl, record { spent = h.spent; paid = p.within })

module _ ⦃chain : Chain⦄ where
  -- The reward that ends a crank, paid or not.
  rewarded-IsReady :
      (b : Bool) (keys : Keys) (reward : ℕ) (w : Crank)
      → IsReady w.es
      → Returns (λ w'. IsReady w'.es) (if b then pay_crank_reward keys reward w else ok w)
  rewarded-IsReady true keys reward w h =
      Returns-map (pay_crank_reward-Paid keys reward w h.1.paid) (λ w' p. Paid-IsReady p h)
  rewarded-IsReady false keys reward w h = Returns-ok w h

  -- The same with the records.
  rewarded :
      (keys : Keys) (reward : ℕ) (b : Bool) (w : Crank) (rs : Records)
      → IsReady w.es
      → Returns
          (λ (t : Crank × Records). IsReady t.0.es)
          ((if b then pay_crank_reward keys reward w else ok w) >>= λ w'. ok (w', rs))
  rewarded keys reward b w rs h =
      Returns-bind (if b then pay_crank_reward keys reward w else ok w) _
        (rewarded-IsReady b keys reward w h) (λ w' r. Returns-ok _ r)

  pub reconcile_batch-IsReady :
      (keys : Keys) (clock : Clock) (slots : ℕ) (quads : List Quad) (s : Crank × Records)
      → (IsPlanning s.0.es → Unspent s.0.es)
      → Returns (λ t. IsReady t.0.es) (reconcile_batch keys clock slots quads s)
  unfolding reconcile_batch
  reconcile_batch-IsReady keys clock slots quads (w, records) h =
      Returns-bind (in_phase phase_reconcile w.es) _ (in_phase_lem phase_reconcile w.es) (λ _ e.
        let u = h (omega (arith, e), omega (arith, e)) in
        Returns-skip (list_header w.accounts.validator_list) _ (λ header.
          Returns-skip (or_overflow (checked_add u64_max w.es.reconcile_cursor (length quads))) _
            (λ end. Returns-skip (check (leb end header.len) _) _ (λ _.
              Returns-skip (check (ltb 0 (length quads) || w.es.reconcile_cursor == header.len) _) _
                (λ _.
                  Returns-skip
                    (expect keys clock.epoch w.accounts.validator_list w.es.reconcile_cursor quads)
                    _
                    (λ expected.
                      Returns-skip (update_slice keys w.es.reconcile_cursor quads w.accounts) _
                        (λ accounts.
                          Returns-bind
                            (reconcile_all clock (slots / vote_freshness_window_divisor)
                              accounts.validator_list (w.es, records, false) expected)
                            _
                            (reconcile_all-Frame clock (slots / vote_freshness_window_divisor)
                              accounts.validator_list (w.es, records, false) expected)
                            (λ t f.
                              Returns-bind (advance_cursor (length quads) header.len t.0) _
                                (advance_cursor-IsReady (length quads) header.len t.0 (
                                  (omega (arith, f.phase, e), omega (arith, f.phase, e)),
                                  Frame-Unspent f u,
                                ))
                                (λ es' r.
                                  rewarded keys crank_reward_reconcile_batch t.2
                                    (record { es = es'; accounts = accounts }) t.1 r)))))))))

  pub finalize_pool-IsReady :
      (keys : Keys) (clock : Clock) (slots : ℕ) (w : Crank)
      → (IsPlanning w.es → Unspent w.es)
      → Returns (λ w'. IsReady w'.es) (finalize_pool keys clock slots w)
  unfolding finalize_pool snapshot_nav
  finalize_pool-IsReady keys clock slots w h =
      Returns-bind (in_phase phase_finalize w.es) _ (in_phase_lem phase_finalize w.es) (λ _ e.
        let u = h (omega (arith, e), omega (arith, e)) in
        Returns-skip (pool_view w.accounts.stake_pool) _ (λ before.
          Returns-skip (update_pool keys w.accounts) _ (λ accounts.
            Returns-skip (pool_view accounts.stake_pool) _ (λ pool.
              Returns-skip
                (or_overflow
                  (checked_add u64_max clock.slot (slots / preference_window_slot_divisor)))
                _
                (λ close_slot.
                  Returns-bind
                    (enter phase_preferences
                      (snapshot_nav pool.total_lamports pool.pool_token_supply close_slot w.es))
                    _
                    (enter-IsReady phase_preferences _ (omega arith) (omega arith)
                      (record { spent = u.spent; paid = u.paid }))
                    (λ es r.
                      rewarded-IsReady (ltb before.last_update_epoch clock.epoch) keys
                        crank_reward_finalize_pool (record { es = es; accounts = accounts }) r))))))

  pub plan_directed_batch-IsReady :
      (keys : Keys) (clock : Clock) (stake_rent slots : ℕ) (pairs : List Pair) (s : Crank × Records)
      → (IsPlanning s.0.es → Unspent s.0.es)
      → Returns (λ t. IsReady t.0.es) (plan_directed_batch keys clock stake_rent slots pairs s)
  unfolding plan_directed_batch
  plan_directed_batch-IsReady keys clock stake_rent slots pairs (w, records) h =
      Returns-skip effective_minimum_delegation _ (λ least.
        Returns-skip (or_overflow (checked_add u64_max stake_rent (saturating_mul u64_max least 2)))
          _
          (λ drained.
            Returns-bind (in_phase phase_plan_directed w.es) _
              (in_phase_lem phase_plan_directed w.es)
              (λ _ e.
                let u = h (omega (arith, e), omega (arith, e)) in
                Returns-skip (list_header w.accounts.validator_list) _ (λ header.
                  Returns-skip
                    (check (ltb 0 (length pairs) || w.es.plan_directed_cursor == header.len) _) _
                    (λ _.
                      let plan = plan_of clock slots drained header.len w in
                      Returns-bind (plan_pairs plan w.es records pairs) _
                        (plan_pairs-Frame plan w.es records pairs)
                        (λ t f.
                          Returns-bind (complete_directed plan t.0) _
                            (complete_directed-IsReady plan t.0 (
                              (omega (arith, f.phase, e), omega (arith, f.phase, e)),
                              Frame-Unspent f u,
                            ))
                            (λ es' r.
                              rewarded keys crank_reward_plan_batch (ltb 0 (length pairs))
                                (record w { es = es' }) t.1 r)))))))

  plan_neutral-IsReady :
      (es : EpochState) (records : Records) (accounts : List (Address × Bool))
      → (IsPlanning es → Unspent es)
      → Returns (λ t. IsReady t.0) (plan_neutral es records accounts)
  unfolding plan_neutral
  plan_neutral-IsReady es records accounts h =
      Returns-bind (in_phase phase_plan_neutral es) _ (in_phase_lem phase_plan_neutral es) (λ _ e.
        let f = open_first-Frame es in
        let idle = (open_first es).1 in
        let es1 = (open_first es).0 in
        let ready : IsReady es1 = (
          (omega (arith, f.phase, e), omega (arith, f.phase, e)),
          Frame-Unspent f (h (omega (arith, e), omega (arith, e))),
        ) in
        Returns-bind (if idle then ok (es1, true, records) else visit_batch es1 records accounts) _
          (visited-IsReady idle es1 records accounts ready)
          (λ t r.
            Returns-bind (if t.1 then enter phase_plan_finalize t.0 else ok t.0) _
              (finished-IsReady t.1 t.0 r) (λ es3 q. Returns-ok _ q)))

  pub plan_neutral_batch-IsReady :
      (keys : Keys) (accounts : List (Address × Bool)) (s : Crank × Records)
      → (IsPlanning s.0.es → Unspent s.0.es)
      → Returns (λ t. IsReady t.0.es) (plan_neutral_batch keys accounts s)
  unfolding plan_neutral_batch
  plan_neutral_batch-IsReady keys accounts (w, records) h =
      Returns-bind (plan_neutral w.es records accounts) _
        (plan_neutral-IsReady w.es records accounts h)
        (λ t r. rewarded keys crank_reward_plan_batch (ltb 0 t.2) (record w { es = t.0 }) t.1 r)

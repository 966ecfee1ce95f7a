-- ===== src/Controller/Epoch/Counting.antt =====
-- programs/fusion-stake-controller: every handler of the epoch counts what it moves and pays.
use fusion_core.Prelude.{
  ℕ, ◌-◌, ◌/◌, refl, sym, Bool, true, false, inl, inr, Bool-cases, ◌||◌, none, some, List, length,
  map, ok, ◌>>=◌, Returns, Returns-bind, Returns-skip, Returns-ok, checked_add, u64_max,
  saturating_mul, ◌==◌, ltb, leb, if◌then◌else◌,
}
use mathlib.Core.Path.{subst}
use fusion_core.Prelude.Steps.{Returns-map}
use fusion_core.Stake.Preference.{Address}
use fusion_core.Stake.Targets.{neutral_total}
use fusion_core.StakeView.Bytes.{u8_at}
use fusion_core.Controller.Constants.{
  crank_reward_plan_batch, crank_reward_reconcile_batch, crank_reward_finalize_pool,
  vote_freshness_window_divisor, preference_window_slot_divisor,
}
use fusion_core.Controller.Cpi.{Accounts, Chain, invoke, effective_minimum_delegation}
use fusion_core.Controller.Cpi.Moves.{set_preferred_withdraw_validator}
use fusion_core.Controller.Cpi.Pool.{
  update_stake_pool_balance, cleanup_removed_validator_entries, update_validator_list_balance,
}
use fusion_core.Controller.Cycle.{
  Clock, enter, in_phase, close_preference_window, finalize_pool, finalize_plan, finish_epoch,
  pool_view, update_pool, snapshot_nav, check_conservation, walk_complete,
}
use fusion_core.Controller.Epoch.Ledger.{
  lamports_of, Counts, and-Counts, Quiet, Quiet-nothing, and-Quiet, Kept, Kept-nothing, and-Kept,
  Frame-Kept, Kept-Counts, invoke-Quiet, pay_crank_reward-Counts,
}
use fusion_core.Controller.Epoch.Planning.{enter_lem}
use fusion_core.Controller.Error.{check, or_error, or_overflow, or_panic, call}
use fusion_core.Controller.Frame.{plan_pairs-Frame}
use fusion_core.Controller.Frame.Batches.{reconcile_all-Frame, open_first-Frame, visit_batch-Frame}
use fusion_core.Controller.Logic.{phase_transition_allowed}
use fusion_core.Controller.Maintenance.{Keys, Crank, pay_crank_reward}
use fusion_core.Controller.PlanDirected.{
  Plan, Pair, plan_of, plan_pairs, complete_directed, list_header, plan_directed_batch,
}
use fusion_core.Controller.PlanNeutral.{open_first, visit_batch, plan_neutral, plan_neutral_batch}
use fusion_core.Controller.Reconcile.{
  Quad, expect, update_slice, reconcile_all, advance_cursor, reconcile_batch,
}
use fusion_core.Controller.Records.{Records, as_u32}
use fusion_core.Controller.State.{
  EpochState, reset_plan_state, set_neutral_round, phase_idle, phase_reconcile, phase_finalize,
  phase_preferences, phase_plan_directed, phase_plan_neutral, phase_plan_finalize, phase_rebalance,
}

enter-Kept : (to : ℕ) (es0 es : EpochState) → Kept es0 es → Returns (Kept es0) (enter to es)
enter-Kept to es0 es k = Returns-map (enter_lem to es) (λ es' e.
    subst (Kept es0) (sym e) (record { spent = k.spent; paid = k.paid; capped = k.capped }))

pub close_preference_window-Kept :
    (clock : Clock) (es : EpochState) → Returns (Kept es) (close_preference_window clock es)
unfolding close_preference_window reset_plan_state set_neutral_round
close_preference_window-Kept clock es = Returns-skip (in_phase phase_preferences es) _ (λ _.
    Returns-skip (check (leb es.preference_window_close_slot clock.slot) _) _ (λ _.
      Returns-skip (check (phase_transition_allowed es.phase phase_plan_directed) _) _
        (λ _. Returns-ok _ (record { spent = refl; paid = refl; capped = λ h. h }))))

advance_cursor-Kept :
    (n list_len : ℕ) (es : EpochState) → Returns (Kept es) (advance_cursor n list_len es)
unfolding advance_cursor
advance_cursor-Kept n list_len es =
    Returns-skip (or_panic (checked_add u64_max es.reconcile_cursor n)) _ (λ next.
      let k : Kept es (record es { reconcile_cursor = next }) = record {
        spent = refl;
        paid = refl;
        capped = λ h. h;
      } in
      elim (Bool-cases (next == list_len)) [
        | inl whole ↦ rw whole (enter-Kept phase_finalize es _ k)
        | inr part ↦ rw part (Returns-ok _ k)
      ])

complete_directed-Kept :
    (plan : Plan) (es : EpochState) → Returns (Kept es) (complete_directed plan es)
unfolding complete_directed
complete_directed-Kept plan es = elim (Bool-cases (es.plan_directed_cursor == plan.list_len)) [
  | inl whole ↦ rw whole (
      Returns-skip
        (or_error
          (neutral_total plan.productive es.sum_directed_targets es.total_directed_shares
            plan.supply)
          _)
        _
        (λ neutral.
          enter-Kept phase_plan_neutral es _
            (record { spent = refl; paid = refl; capped = λ h. h })))
  | inr part ↦ rw part (Returns-ok _ Kept-nothing)
]

visited-Kept :
    (b : Bool) (es0 es : EpochState) (records : Records) (accounts : List (Address × Bool))
    → Kept es0 es
    → Returns
        (λ t. Kept es0 t.0)
        (if b then ok (es, true, records) else visit_batch es records accounts)
visited-Kept true es0 es records accounts k = Returns-ok _ k
visited-Kept false es0 es records accounts k =
    Returns-map (visit_batch-Frame es records accounts) (λ t f. and-Kept k (Frame-Kept f))

finished-Kept :
    (b : Bool) (es0 es : EpochState)
    → Kept es0 es
    → Returns (Kept es0) (if b then enter phase_plan_finalize es else ok es)
finished-Kept true es0 es k = enter-Kept phase_plan_finalize es0 es k
finished-Kept false es0 es k = Returns-ok _ k

plan_neutral-Kept :
    (es : EpochState) (records : Records) (accounts : List (Address × Bool))
    → Returns (λ t. Kept es t.0) (plan_neutral es records accounts)
unfolding plan_neutral
plan_neutral-Kept es records accounts = Returns-skip (in_phase phase_plan_neutral es) _ (λ _.
    let idle = (open_first es).1 in
    let es1 = (open_first es).0 in
    Returns-bind (if idle then ok (es1, true, records) else visit_batch es1 records accounts) _
      (visited-Kept idle es es1 records accounts (Frame-Kept (open_first-Frame es)))
      (λ t k.
        Returns-bind (if t.1 then enter phase_plan_finalize t.0 else ok t.0) _
          (finished-Kept t.1 es t.0 k) (λ es3 q. Returns-ok _ q)))

module _ ⦃chain : Chain⦄ where
  -- The reward that ends a crank, paid or not.
  pub reward-Counts :
      (b : Bool) (keys : Keys) (reward : ℕ) (w0 w : Crank)
      → Counts w0 w
      → Returns (Counts w0) (if b then pay_crank_reward keys reward w else ok w)
  reward-Counts true keys reward w0 w h =
      Returns-map (pay_crank_reward-Counts keys reward w) (λ w' k. and-Counts h k)
  reward-Counts false keys reward w0 w h = Returns-ok w h

  -- The same with the records.
  rewarded :
      (keys : Keys) (reward : ℕ) (b : Bool) (w0 w : Crank) (rs : Records)
      → Counts w0 w
      → Returns
          (λ (t : Crank × Records). Counts w0 t.0)
          ((if b then pay_crank_reward keys reward w else ok w) >>= λ w'. ok (w', rs))
  rewarded keys reward b w0 w rs h =
      Returns-bind (if b then pay_crank_reward keys reward w else ok w) _
        (reward-Counts b keys reward w0 w h) (λ w' k. Returns-ok _ k)

  update_slice-Quiet :
      (keys : Keys) (cursor : ℕ) (quads : List Quad) (a : Accounts)
      → Returns (Quiet a) (update_slice keys cursor quads a)
  unfolding update_slice lamports_of u8_at update_validator_list_balance
  update_slice-Quiet keys cursor quads a = elim (Bool-cases (ltb 0 (length quads))) [
    | inl some_quads ↦ rw some_quads (
        invoke-Quiet
          (update_validator_list_balance keys.stake_pool keys.pool_withdraw_authority
            keys.validator_list keys.reserve_stake
            (map (λ q. (q.validator_stake, q.transient_stake)) quads) (as_u32 cursor) false)
          a refl)
    | inr no_quads ↦ rw no_quads (Returns-ok _ Quiet-nothing)
  ]

  update_pool-Quiet : (keys : Keys) (a : Accounts) → Returns (Quiet a) (update_pool keys a)
  unfolding update_pool lamports_of u8_at update_stake_pool_balance
      cleanup_removed_validator_entries
  update_pool-Quiet keys a =
      Returns-bind
        (call (
          invoke
            (update_stake_pool_balance keys.stake_pool keys.pool_withdraw_authority
              keys.validator_list keys.reserve_stake keys.maintenance_vault keys.fusol_mint
              keys.token_program)
            a))
        _ (invoke-Quiet _ a refl)
        (λ updated q.
          Returns-map
            (invoke-Quiet (cleanup_removed_validator_entries keys.stake_pool keys.validator_list)
              updated refl)
            (λ a' k. and-Quiet q k))

  pub reconcile_batch-Counts :
      (keys : Keys) (clock : Clock) (slots : ℕ) (quads : List Quad) (s : Crank × Records)
      → Returns (λ t. Counts s.0 t.0) (reconcile_batch keys clock slots quads s)
  unfolding reconcile_batch
  reconcile_batch-Counts keys clock slots quads (w, records) =
      Returns-skip (in_phase phase_reconcile w.es) _ (λ _.
        Returns-skip (list_header w.accounts.validator_list) _ (λ header.
          Returns-skip (or_overflow (checked_add u64_max w.es.reconcile_cursor (length quads))) _
            (λ end. Returns-skip (check (leb end header.len) _) _ (λ _.
              Returns-skip (check (ltb 0 (length quads) || w.es.reconcile_cursor == header.len) _) _
                (λ _.
                  Returns-skip
                    (expect keys clock.epoch w.accounts.validator_list w.es.reconcile_cursor quads)
                    _
                    (λ expected.
                      Returns-bind (update_slice keys w.es.reconcile_cursor quads w.accounts) _
                        (update_slice-Quiet keys w.es.reconcile_cursor quads w.accounts)
                        (λ accounts q.
                          Returns-bind
                            (reconcile_all clock (slots / vote_freshness_window_divisor)
                              accounts.validator_list (w.es, records, false) expected)
                            _
                            (reconcile_all-Frame clock (slots / vote_freshness_window_divisor)
                              accounts.validator_list (w.es, records, false) expected)
                            (λ t f.
                              Returns-bind (advance_cursor (length quads) header.len t.0) _
                                (advance_cursor-Kept (length quads) header.len t.0)
                                (λ es' k.
                                  rewarded keys crank_reward_reconcile_batch t.2 w
                                    (record { es = es'; accounts = accounts }) t.1
                                    (Kept-Counts (and-Kept (Frame-Kept f) k) q))))))))))

  pub finalize_pool-Counts :
      (keys : Keys) (clock : Clock) (slots : ℕ) (w : Crank)
      → Returns (Counts w) (finalize_pool keys clock slots w)
  unfolding finalize_pool snapshot_nav
  finalize_pool-Counts keys clock slots w = Returns-skip (in_phase phase_finalize w.es) _ (λ _.
      Returns-skip (pool_view w.accounts.stake_pool) _ (λ before.
        Returns-bind (update_pool keys w.accounts) _ (update_pool-Quiet keys w.accounts)
          (λ accounts q. Returns-skip (pool_view accounts.stake_pool) _ (λ pool.
            Returns-skip
              (or_overflow
                (checked_add u64_max clock.slot (slots / preference_window_slot_divisor)))
              _
              (λ close_slot.
                Returns-bind
                  (enter phase_preferences
                    (snapshot_nav pool.total_lamports pool.pool_token_supply close_slot w.es))
                  _
                  (enter-Kept phase_preferences w.es _
                    (record { spent = refl; paid = refl; capped = λ _. refl }))
                  (λ es k.
                    reward-Counts (ltb before.last_update_epoch clock.epoch) keys
                      crank_reward_finalize_pool w (record { es = es; accounts = accounts })
                      (Kept-Counts k q)))))))

  pub plan_directed_batch-Counts :
      (keys : Keys) (clock : Clock) (stake_rent slots : ℕ) (pairs : List Pair) (s : Crank × Records)
      → Returns (λ t. Counts s.0 t.0) (plan_directed_batch keys clock stake_rent slots pairs s)
  unfolding plan_directed_batch
  plan_directed_batch-Counts keys clock stake_rent slots pairs (w, records) =
      Returns-skip effective_minimum_delegation _ (λ least.
        Returns-skip (or_overflow (checked_add u64_max stake_rent (saturating_mul u64_max least 2)))
          _
          (λ drained. Returns-skip (in_phase phase_plan_directed w.es) _ (λ _.
            Returns-skip (list_header w.accounts.validator_list) _ (λ header.
              Returns-skip
                (check (ltb 0 (length pairs) || w.es.plan_directed_cursor == header.len) _) _
                (λ _.
                  let plan = plan_of clock slots drained header.len w in
                  Returns-bind (plan_pairs plan w.es records pairs) _
                    (plan_pairs-Frame plan w.es records pairs)
                    (λ t f.
                      Returns-bind (complete_directed plan t.0) _ (complete_directed-Kept plan t.0)
                        (λ es' k.
                          rewarded keys crank_reward_plan_batch (ltb 0 (length pairs)) w
                            (record w { es = es' }) t.1
                            (Kept-Counts (and-Kept (Frame-Kept f) k) Quiet-nothing))))))))

  pub plan_neutral_batch-Counts :
      (keys : Keys) (accounts : List (Address × Bool)) (s : Crank × Records)
      → Returns (λ t. Counts s.0 t.0) (plan_neutral_batch keys accounts s)
  unfolding plan_neutral_batch
  plan_neutral_batch-Counts keys accounts (w, records) =
      Returns-bind (plan_neutral w.es records accounts) _ (plan_neutral-Kept w.es records accounts)
        (λ t k.
          rewarded keys crank_reward_plan_batch (ltb 0 t.2) w (record w { es = t.0 }) t.1
            (Kept-Counts k Quiet-nothing))

  pub finalize_plan-Counts : (keys : Keys) (w : Crank) → Returns (Counts w) (finalize_plan keys w)
  unfolding finalize_plan lamports_of u8_at set_preferred_withdraw_validator
  finalize_plan-Counts keys w = Returns-skip (in_phase phase_plan_finalize w.es) _ (λ _.
      Returns-skip (check_conservation w.es) _ (λ _.
        let ix =
          set_preferred_withdraw_validator keys.stake_pool keys.pool_authority keys.validator_list (
            if ltb 0 w.es.preferred_withdraw_surplus
            then some w.es.preferred_withdraw_vote
            else none) in
        Returns-bind (call (invoke ix w.accounts)) _ (invoke-Quiet ix w.accounts refl)
          (λ accounts q.
            Returns-bind (enter phase_rebalance w.es) _
              (enter-Kept phase_rebalance w.es w.es Kept-nothing)
              (λ es k.
                reward-Counts true keys crank_reward_plan_batch w _
                  (Kept-Counts (record { spent = k.spent; paid = k.paid; capped = k.capped }) q)))))

  pub finish_epoch-Counts : (keys : Keys) (w : Crank) → Returns (Counts w) (finish_epoch keys w)
  unfolding finish_epoch
  finish_epoch-Counts keys w = Returns-skip (in_phase phase_rebalance w.es) _ (λ _.
      Returns-skip effective_minimum_delegation _ (λ least.
        Returns-skip
          (check
            (walk_complete w.es || ltb (w.es.churn_budget_total - w.es.churn_budget_used) least) _)
          _
          (λ _.
            Returns-bind (enter phase_idle w.es) _ (enter-Kept phase_idle w.es w.es Kept-nothing)
              (λ es k.
                reward-Counts true keys crank_reward_finalize_pool w (record w { es = es })
                  (Kept-Counts k Quiet-nothing)))))

-- ===== src/Controller/Reconcile.antt =====
-- programs/fusion-stake-controller/src/instructions/reconcile_batch.rs: the validators of the pool's list
-- are brought up to date and observed, and register_validator.rs.
use fusion_core.Prelude.{
  ℕ, ◌+◌, ◌-◌, ◌/◌, Bool, false, ◌&&◌, ◌||◌, List, [], ◌∷◌, length, map, ltb, leb, ◌==◌,
  if◌then◌else◌, Result, ok, ◌>>=◌, checked_add, u64_max,
}
use fusion_core.Stake.Lifecycle.{registered, as_u8}
use fusion_core.Stake.Preference.{Address, same_bytes}
use fusion_core.StakeView.VoteState
use fusion_core.StakeView.ValidatorList.{ValidatorEntry, entry_at}
use fusion_core.Controller.Constants.{
  commission_cap_percent, vote_freshness_window_divisor, crank_reward_reconcile_batch,
  vote_program_id, validator_list_index_unset,
}
use fusion_core.Controller.Error.{
  ControllerError, Abort, check, or_error, or_overflow, or_panic, call,
}
use fusion_core.Controller.State.{EpochState, ValidatorRecord, phase_reconcile, phase_finalize}
use fusion_core.Controller.Logic.{VoteObservation, observe_vote}
use fusion_core.Controller.Cpi.{
  invoke, Accounts, Chain, derive_validator_stake, derive_transient_stake,
}
use fusion_core.Controller.Cpi.Pool.{update_validator_list_balance}
use fusion_core.Controller.Maintenance.{Keys, Crank, pay_crank_reward}
use fusion_core.Controller.Cycle.{Clock, enter, in_phase}
use fusion_core.Controller.PlanDirected.{list_header}
use fusion_core.Controller.Records.{Records, put, load, as_u32, VoteInfo, vote_sample, parsed?}

-- The accounts of a validator: its two stake accounts, its record, and its vote account.
pub record Quad : Type 0 where
  pub validator_stake : Address
  pub transient_stake : Address
  pub record_key : Address
  pub is_writable : Bool
  pub vote : VoteInfo

-- What a quad is expected to be: the vote account's key, the index in the list, and was it stale?
pub record Expected : Type 0 where
  pub vote : Address
  pub index : ℕ
  pub was_stale : Bool

unfoldable pub entry_of : List ℕ → ℕ → Result Abort ValidatorEntry
entry_of bytes index =
    or_error (entry_at bytes (as_u32 index)) ControllerError.invalid_validator_list_entry

-- The record with what was seen.
unfoldable pub observe :
    ValidatorEntry → ℕ → ℕ → VoteObservation → ValidatorRecord → ValidatorRecord
observe entry index epoch obs r = record r {
  last_active_lamports = entry.active_stake_lamports;
  last_transient_lamports = entry.transient_stake_lamports;
  has_pool_stake = ltb 0 entry.active_stake_lamports || ltb 0 entry.transient_stake_lamports;
  validator_list_index = as_u32 index;
  observed_epoch = epoch;
  observed_commission_ok = obs.commission_ok;
  observed_liveness_ok = obs.liveness_ok;
}

unfoldable pub add_healthy : EpochState → ℕ → Bool → Result Abort ℕ
add_healthy es delegated liveness_ok =
    if liveness_ok
    then or_overflow (checked_add u64_max es.healthy_delegated_lamports delegated)
    else ok es.healthy_delegated_lamports

-- The aggregates of the guard.
unfoldable pub add_delegated : EpochState → ValidatorEntry → Bool → Result Abort EpochState
add_delegated es entry liveness_ok =
    or_overflow (checked_add u64_max entry.active_stake_lamports entry.transient_stake_lamports)
    >>= λ delegated.
        or_overflow (checked_add u64_max es.total_delegated_lamports delegated) >>= λ total.
        add_healthy es delegated liveness_ok >>= λ healthy.
        ok (record es { total_delegated_lamports = total; healthy_delegated_lamports = healthy })

-- What the second loop carries: the state, the records, and did an entry become current?
abbrev pub Reconciled : Type 0
Reconciled = EpochState × Records × Bool

unfoldable pub reconcile_one :
    Clock → ℕ → List ℕ → Reconciled → Expected → Quad → Result Abort Reconciled
reconcile_one clock window list_data (es, records, became) expected quad =
    entry_of list_data expected.index >>= λ entry.
    check quad.is_writable ControllerError.invalid_remaining_accounts >>= λ _.
    load records quad.record_key >>= λ r.
    check (same_bytes r.vote_account expected.vote) ControllerError.invalid_remaining_accounts
    >>= λ _.
        let obs =
          observe_vote (vote_sample quad.vote (es.controller_epoch - 1)) commission_cap_percent
            clock.slot window in
        add_delegated es entry obs.liveness_ok >>= λ es'. ok (
          es',
          put records quad.record_key (observe entry expected.index es.controller_epoch obs r),
          became || (expected.was_stale && (entry.last_update_epoch == clock.epoch)),
        )

unfoldable pub reconcile_all :
    Clock → ℕ → List ℕ → Reconciled → List (Expected × Quad) → Result Abort Reconciled
reconcile_all clock window list_data s [] = ok s
reconcile_all clock window list_data s ((expected, quad) ∷ rest) =
    reconcile_one clock window list_data s expected quad >>= λ s'.
    reconcile_all clock window list_data s' rest

-- The cursor advances; the phase is finished once the list is covered.
unfoldable pub advance_cursor : ℕ → ℕ → EpochState → Result Abort EpochState
advance_cursor quads list_len es =
    or_panic (checked_add u64_max es.reconcile_cursor quads) >>= λ next.
    if next == list_len
    then enter phase_finalize (record es { reconcile_cursor = next })
    else ok (record es { reconcile_cursor = next })

-- `register_validator`: the new record, if the vote account can be read. `epoch` is that of the cluster.
unfoldable pub register_validator : VoteInfo → ℕ → ValidatorRecord → Result Abort ValidatorRecord
register_validator vote epoch fresh =
    check (same_bytes vote.owner vote_program_id) ControllerError.invalid_vote_account >>= λ _.
    or_error (parsed? (VoteState.parse vote.bytes (epoch - 1))) ControllerError.invalid_vote_account
    >>= λ _. ok (record fresh {
      vote_account = vote.key;
      validator_list_index = validator_list_index_unset;
      status = as_u8 registered;
    })

module _ ⦃chain : Chain⦄ where
  -- The quads from `index` on are bound to the list's entries.
  unfoldable pub expect : Keys → ℕ → List ℕ → ℕ → List Quad → Result Abort (List (Expected × Quad))
  expect keys epoch list_data index [] = ok []
  expect keys epoch list_data index (q ∷ qs) = entry_of list_data index >>= λ entry.
      let vote = entry.vote_account_address in
      check
        (same_bytes q.validator_stake
            (derive_validator_stake vote keys.stake_pool entry.validator_seed_suffix)
          && same_bytes q.transient_stake
              (derive_transient_stake vote keys.stake_pool entry.transient_seed_suffix)
          && same_bytes q.vote.key vote)
        ControllerError.invalid_remaining_accounts
      >>= λ _. expect keys epoch list_data (index + 1) qs >>= λ rest. ok (
          (record { vote = vote; index = index; was_stale = ltb entry.last_update_epoch epoch }, q)
          ∷ rest)

  unfoldable pub update_slice : Keys → ℕ → List Quad → Accounts → Result Abort Accounts
  update_slice keys cursor quads accounts =
      if ltb 0 (length quads)
      then call (
          invoke
            (update_validator_list_balance keys.stake_pool keys.pool_withdraw_authority
              keys.validator_list keys.reserve_stake
              (map (λ q. (q.validator_stake, q.transient_stake)) quads) (as_u32 cursor) false)
            accounts)
      else ok accounts

  unfoldable pub reconcile_batch :
      Keys → Clock → ℕ → List Quad → Crank × Records → Result Abort (Crank × Records)
  reconcile_batch keys clock slots_in_epoch quads (w, records) =
      in_phase phase_reconcile w.es >>= λ _. list_header w.accounts.validator_list >>= λ header.
      or_overflow (checked_add u64_max w.es.reconcile_cursor (length quads)) >>= λ end.
      check (leb end header.len) ControllerError.invalid_remaining_accounts >>= λ _.
      check (ltb 0 (length quads) || w.es.reconcile_cursor == header.len)
        ControllerError.invalid_remaining_accounts
      >>= λ _.
          expect keys clock.epoch w.accounts.validator_list w.es.reconcile_cursor quads
          >>= λ expected. update_slice keys w.es.reconcile_cursor quads w.accounts >>= λ accounts.
              reconcile_all clock (slots_in_epoch / vote_freshness_window_divisor)
                accounts.validator_list (w.es, records, false) expected
              >>= λ (es, records', became). advance_cursor (length quads) header.len es >>= λ es'.
                  (if became
                    then pay_crank_reward keys crank_reward_reconcile_batch
                        (record { es = es'; accounts = accounts })
                    else ok (record { es = es'; accounts = accounts }))
                  >>= λ w'. ok (w', records')

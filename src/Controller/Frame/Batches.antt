-- ===== src/Controller/Frame/Batches.antt =====
-- programs/fusion-stake-controller/src/instructions/reconcile_batch.rs and plan_neutral_batch.rs: what the
-- batches leave as it is.
use fusion_core.Prelude.{
  ℕ, ◌-◌, refl, Bool, true, false, inl, inr, Bool-cases, Option-cases, ◌&&◌, ◌||◌, List, [], ◌∷◌,
  length, Returns, Returns-bind, Returns-skip, Returns-ok, checked_add, checked_sub, u64_max, ◌==◌,
  ltb, leb, if◌then◌else◌,
}
use fusion_core.Stake.Lifecycle.{from_u8}
use fusion_core.Stake.Preference.{Address, same_bytes}
use fusion_core.Stake.Targets.{
  NeutralRound, begin_round, step, is_complete, remaining_after, max_neutral_rounds,
}
use fusion_core.StakeView.ValidatorList.{ValidatorEntry}
use fusion_core.Prelude.Steps.{Returns-map}
use fusion_core.Controller.Cycle.{Clock}
use fusion_core.Controller.Error.{check, or_error, or_overflow, or_panic}
use fusion_core.Controller.Frame.{Frame, same, and_then, fold_cases}
use fusion_core.Controller.Logic.{observe_vote}
use fusion_core.Controller.Constants.{commission_cap_percent}
use fusion_core.Controller.PlanNeutral.{
  open_round, open_first, book_grant, grant_member, is_active, visit_record, visit_records,
  close_round, visit_batch,
}
use fusion_core.Controller.Reconcile.{
  Quad, Expected, Reconciled, entry_of, add_delegated, add_healthy, reconcile_one, reconcile_all,
}
use fusion_core.Controller.Records.{Records, load, vote_sample}
use fusion_core.Controller.State.{
  EpochState, ValidatorRecord, neutral_round, set_neutral_round, fold_preferred_withdraw,
}

add_delegated-Frame :
    (es : EpochState) (entry : ValidatorEntry) (live : Bool)
    → Returns (λ es'. Frame es es') (add_delegated es entry live)
unfolding add_delegated
add_delegated-Frame es entry live =
    Returns-skip
      (or_overflow (checked_add u64_max entry.active_stake_lamports entry.transient_stake_lamports))
      _
      (λ delegated.
        Returns-skip (or_overflow (checked_add u64_max es.total_delegated_lamports delegated)) _
          (λ total. Returns-skip (add_healthy es delegated live) _ (λ healthy.
            Returns-ok _
              (record { phase = refl; spent = refl; budget = refl; nav = refl; paid = refl }))))

reconcile_one-Frame :
    (clock : Clock) (window : ℕ) (bytes : List ℕ) (s : Reconciled) (x : Expected) (q : Quad)
    → Returns (λ t. Frame s.0 t.0) (reconcile_one clock window bytes s x q)
unfolding reconcile_one
reconcile_one-Frame clock window bytes (es, records, became) x q =
    Returns-skip (entry_of bytes x.index) _ (λ entry. Returns-skip (check q.is_writable _) _ (λ _.
      Returns-skip (load records q.record_key) _ (λ r.
        Returns-skip (check (same_bytes r.vote_account x.vote) _) _ (λ _.
          let obs =
            observe_vote (vote_sample q.vote (es.controller_epoch - 1)) commission_cap_percent
              clock.slot window in
          Returns-bind (add_delegated es entry obs.liveness_ok) _
            (add_delegated-Frame es entry obs.liveness_ok) (λ es' f. Returns-ok _ f)))))

pub reconcile_all-Frame :
    (clock : Clock) (window : ℕ) (bytes : List ℕ) (s : Reconciled) (xs : List (Expected × Quad))
    → Returns (λ t. Frame s.0 t.0) (reconcile_all clock window bytes s xs)
unfolding reconcile_all
reconcile_all-Frame clock window bytes s [] = Returns-ok _ same
reconcile_all-Frame clock window bytes s ((x, q) ∷ rest) =
    Returns-bind (reconcile_one clock window bytes s x q) _
      (reconcile_one-Frame clock window bytes s x q)
      (λ t f. Returns-map (reconcile_all-Frame clock window bytes t rest) (λ u g. and_then f g))

book_grant-Frame :
    (es : EpochState) (r : ValidatorRecord) (grant : ℕ)
    → Returns (λ t. Frame es t.0) (book_grant es r grant)
unfolding book_grant
book_grant-Frame es r grant = elim (Bool-cases (ltb 0 grant)) [
  | inl granted ↦ rw granted (
      Returns-skip (or_overflow (checked_add u64_max r.neutral_granted grant)) _ (λ a.
        Returns-skip (or_overflow (checked_add u64_max r.final_target grant)) _ (λ b.
          Returns-skip (or_overflow (checked_sub r.remaining_capacity grant)) _ (λ c.
            Returns-skip (or_overflow (checked_add u64_max es.neutral_granted_total grant)) _ (λ d.
              Returns-ok _
                (record { phase = refl; spent = refl; budget = refl; nav = refl; paid = refl }))))))
  | inr nothing ↦ rw nothing (Returns-ok _ same)
]

grant_member-Frame :
    (b : Bool) (es : EpochState) (round : NeutralRound) (r : ValidatorRecord)
    → Returns (λ t. Frame es t.0) (grant_member b es round r)
unfolding grant_member
grant_member-Frame false es round r = Returns-ok _ same
grant_member-Frame true es round r =
    let grant = (step round r.remaining_capacity).1 in
    Returns-bind (book_grant es r grant) _ (book_grant-Frame es r grant) (λ t f. Returns-ok _ f)

visit_record-Frame :
    (s : EpochState × NeutralRound × Records) (k : Address × Bool)
    → Returns (λ t. Frame s.0 t.0) (visit_record s k)
unfolding visit_record
visit_record-Frame (es, round, records) (key, writable) = Returns-skip (check writable _) _ (λ _.
    Returns-skip (load records key) _ (λ r.
      Returns-skip
        (check (r.plan_epoch == es.controller_epoch && r.validator_list_index == es.neutral_cursor)
          _)
        _
        (λ _. Returns-skip (or_error (from_u8 r.status) _) _ (λ status.
          let member = is_active status && ltb 0 r.remaining_capacity in
          Returns-bind (grant_member member es round r) _ (grant_member-Frame member es round r)
            (λ t f.
              let es1 = t.0 in
              let r' = t.2 in
              let (s, v, e) =
                fold_cases (r'.pool_entry_status == 0) es1 r'.vote_account
                  (r'.last_active_lamports - r'.final_target) in
              Returns-skip
                (or_panic (
                  checked_add u64_max
                    (if r'.pool_entry_status == 0
                      then fold_preferred_withdraw es1 r'.vote_account
                          (r'.last_active_lamports - r'.final_target)
                      else es1).neutral_cursor
                    1))
                _
                (λ next. Returns-ok _ (
                  rw e (record {
                    phase = f.phase;
                    spent = f.spent;
                    budget = f.budget;
                    nav = f.nav;
                    paid = f.paid;
                  }))))))))

pub visit_records-Frame :
    (s : EpochState × NeutralRound × Records) (ks : List (Address × Bool))
    → Returns (λ t. Frame s.0 t.0) (visit_records s ks)
unfolding visit_records
visit_records-Frame s [] = Returns-ok _ same
visit_records-Frame s (k ∷ ks) =
    Returns-bind (visit_record s k) _ (visit_record-Frame s k)
      (λ t f. Returns-map (visit_records-Frame t ks) (λ u g. and_then f g))

pub open_first-Frame : (es : EpochState) → Frame es (open_first es).0
unfolding open_first open_round set_neutral_round
open_first-Frame es = elim (Bool-cases (es.neutral_round_number == 0)) [
  | inl unopened ↦
      elim (Option-cases
        (begin_round es.neutral_total es.unsaturated_active_count es.controller_epoch)) [
          | inl idle ↦
              rw (unopened, idle, open_first)
                (record { phase = refl; spent = refl; budget = refl; nav = refl; paid = refl })
          | inr (round, begun) ↦
              rw (unopened, begun, open_first)
                (record { phase = refl; spent = refl; budget = refl; nav = refl; paid = refl })
        ]
  | inr opened ↦ rw opened same
]

close_round-Frame :
    (es : EpochState) (round : NeutralRound) → Returns (λ t. Frame es t.0) (close_round es round)
unfolding close_round open_round set_neutral_round
close_round-Frame es round =
    let remaining = remaining_after round in
    Returns-skip (check (is_complete round) _) _ (λ _.
      Returns-skip (or_error (checked_sub round.n_unsaturated round.saturated) _) _ (λ unsaturated.
        elim (Bool-cases (remaining == 0 || unsaturated == 0)) [
          | inl finished ↦ rw finished (
              Returns-ok _
                (record { phase = refl; spent = refl; budget = refl; nav = refl; paid = refl }))
          | inr more ↦ rw more (
              Returns-skip (check (ltb es.neutral_round_number max_neutral_rounds) _) _ (λ _.
                Returns-skip (or_error (begin_round remaining unsaturated es.controller_epoch) _) _
                  (λ next.
                    Returns-skip (or_panic (checked_add u64_max es.neutral_round_number 1)) _
                      (λ number. Returns-ok _ (record {
                        phase = refl;
                        spent = refl;
                        budget = refl;
                        nav = refl;
                        paid = refl;
                      })))))
        ]))

set_neutral_round-Frame :
    (es : EpochState) (round : NeutralRound) → Frame es (set_neutral_round es round)
unfolding set_neutral_round
set_neutral_round-Frame es round = record {
  phase = refl;
  spent = refl;
  budget = refl;
  nav = refl;
  paid = refl;
}

pub visit_batch-Frame :
    (es : EpochState) (records : Records) (ks : List (Address × Bool))
    → Returns (λ t. Frame es t.0) (visit_batch es records ks)
unfolding visit_batch
visit_batch-Frame es records ks =
    Returns-skip (or_overflow (checked_add u64_max es.neutral_cursor (length ks))) _ (λ end.
      Returns-skip (check (leb end es.plan_directed_cursor) _) _ (λ _.
        Returns-skip (check (ltb 0 (length ks) || es.plan_directed_cursor == 0) _) _ (λ _.
          Returns-bind (visit_records (es, neutral_round es, records) ks) _
            (visit_records-Frame (es, neutral_round es, records) ks)
            (λ t f.
              let es2 = set_neutral_round t.0 t.1 in
              let g = and_then f (set_neutral_round-Frame t.0 t.1) in
              elim (Bool-cases (es2.neutral_cursor == es.plan_directed_cursor)) [
                | inl whole ↦ rw whole (
                    Returns-bind (close_round es2 t.1) _ (close_round-Frame es2 t.1)
                      (λ u h. Returns-ok _ (and_then g h)))
                | inr part ↦ rw part (Returns-ok _ g)
              ]))))

-- ===== src/Controller/Conservation/Neutral.antt =====
-- programs/fusion-stake-controller/src/instructions/plan_neutral_batch.rs: what a round has not granted is
-- left for the next one, or is the shortfall.
use fusion_core.Prelude.{
  ℕ, ◌+◌, ◌≡◌, ◌≤◌, ◌<◌, refl, sym, Bool, true, false, inl, inr, Bool-cases, Option-cases, ◌||◌,
  List, length, ok, Returns, Returns-bind, Returns-skip, Returns-ok, ◌==◌, ltb, leb, if◌then◌else◌,
  checked_add, checked_sub, u64_max, arith,
}
use mathlib.Core.Path.{subst}
use fusion_core.Stake.Preference.{Address}
use fusion_core.Stake.Targets.{
  NeutralRound, begin_round, is_complete, remaining_after, max_neutral_rounds,
}
use fusion_core.Stake.Targets.Round.{InRound}
use fusion_core.Stake.Targets.Window.{given_le}
use fusion_core.Prelude.Steps.{Returns-map, Returns-some, Returns-sum, Returns-difference}
use fusion_core.Controller.Conservation.{
  Rounding, Stage, directing, rounding, planned, unopened, IsConserved,
}
use fusion_core.Controller.Cycle.{enter, in_phase}
use fusion_core.Controller.Epoch.Planning.{enter_lem, in_phase_lem}
use fusion_core.Controller.Error.{check, or_error, or_overflow, or_panic}
use fusion_core.Controller.PlanNeutral.{
  open_round, open_first, visit_records, close_round, visit_batch, plan_neutral,
}
use fusion_core.Controller.Records.{Records}
use fusion_core.Controller.State.{
  EpochState, neutral_round, set_neutral_round, phase_plan_finalize, phase_plan_neutral,
}
use fusion_core.Controller.Conservation.Round.{
  begun_lem, visit_records-Rounding, saved-Rounding, saved-current,
}

-- The state after a batch of a round: it goes on, or the plan is done but for the phase.
pub record Visited (es : EpochState) (finished : Bool) : Type 0 where
  pub fits : es.productive_lamports ≤ u64_max
  pub going_on : finished ≡ false → Stage es
  pub done :
      finished ≡ true
      → es.sum_directed_targets + es.neutral_granted_total + es.capacity_shortfall
        ≡ es.productive_lamports

-- What the round has granted and what it has left are all it had.
left_lem :
    (es : EpochState) (round : NeutralRound) (h : Rounding es round)
    → (es.sum_directed_targets + es.neutral_granted_total + remaining_after round
        ≡ es.productive_lamports)
      × (remaining_after round ≤ u64_max)
unfolding remaining_after
left_lem es round h =
    let r = h.in_round in
    let le = given_le h.total h.n h.first round.steps r.first_in r.steps_in in
    (omega (arith, h.whole, r.remaining, r.bounded, le), omega (arith, r.remaining, r.total_fits))

opened-Rounding :
    (es : EpochState) (left n first number : ℕ) (next : NeutralRound)
    → InRound left n first next
    → next.granted ≡ 0
    → es.sum_directed_targets + es.neutral_granted_total + left ≡ es.productive_lamports
    → es.phase ≡ 5
    → es.productive_lamports ≤ u64_max
    → 0 < number
    → Rounding (open_round es next number) (neutral_round (open_round es next number))
unfolding open_round set_neutral_round neutral_round
opened-Rounding es left n first number next in_round e sum phase fits pos = record {
  total = left;
  n = n;
  first = first;
  phase = phase;
  fits = fits;
  opened = pos;
  in_round = in_round;
  whole = omega (arith, sum, e);
}

next_round :
    (es : EpochState) (left open_ones number : ℕ) (next : NeutralRound) {first : ℕ}
    → InRound left open_ones first next
    → next.granted ≡ 0
    → es.sum_directed_targets + es.neutral_granted_total + left ≡ es.productive_lamports
    → es.phase ≡ 5
    → es.productive_lamports ≤ u64_max
    → 0 < number
    → Visited
        (open_round
          (record es { neutral_total = left; unsaturated_active_count = open_ones })
          next
          number)
        false
unfolding open_round set_neutral_round
next_round es left open_ones number next {first} in_round e sum phase fits pos =
    let state : EpochState = record es {
      neutral_total = left;
      unsaturated_active_count = open_ones;
    } in
    let k = opened-Rounding state left open_ones first number next in_round e sum phase fits pos in
    record { fits = fits; going_on = λ _. rounding k; done = λ f. cc f }

close_round-Visited :
    (es : EpochState) (round : NeutralRound)
    → Rounding es round
    → Returns (λ t. Visited t.0 t.1) (close_round es round)
unfolding close_round
close_round-Visited es round h =
    let left = remaining_after round in
    let (sum, left_fits) = left_lem es round h in
    Returns-skip (check (is_complete round) _) _ (λ _.
      Returns-bind (or_error (checked_sub round.n_unsaturated round.saturated) _) _
        (Returns-difference round.n_unsaturated round.saturated _)
        (λ open_ones e. elim (Bool-cases (left == 0 || open_ones == 0)) [
          | inl finished ↦
              rw finished
                (Returns-ok _ (record { fits = h.fits; going_on = λ f. cc f; done = λ _. sum }))
          | inr more ↦ rw more (
              Returns-skip (check (ltb es.neutral_round_number max_neutral_rounds) _) _ (λ _.
                Returns-bind (or_error (begin_round left open_ones es.controller_epoch) _) _
                  (Returns-some (begin_round left open_ones es.controller_epoch) _)
                  (λ next begun.
                    Returns-bind (or_panic (checked_add u64_max es.neutral_round_number 1)) _
                      (Returns-sum u64_max es.neutral_round_number 1 _)
                      (λ number (up, _).
                        let fits_n : open_ones ≤ u64_max =
                          omega (arith, e, h.in_round.n_unsaturated, h.in_round.n_fits) in
                        let (in_round, zero_granted) =
                          begun_lem left open_ones es.controller_epoch next left_fits fits_n
                            begun in
                        Returns-ok _ (
                          next_round es left open_ones number next in_round zero_granted sum h.phase
                            h.fits (omega (arith, up)))))))
        ]))

visit_batch-Visited :
    (es : EpochState) (records : Records) (ks : List (Address × Bool))
    → Rounding es (neutral_round es)
    → Returns (λ t. Visited t.0 t.1) (visit_batch es records ks)
unfolding visit_batch set_neutral_round
visit_batch-Visited es records ks h =
    Returns-skip (or_overflow (checked_add u64_max es.neutral_cursor (length ks))) _ (λ end.
      Returns-skip (check (leb end es.plan_directed_cursor) _) _ (λ _.
        Returns-skip (check (ltb 0 (length ks) || es.plan_directed_cursor == 0) _) _ (λ _.
          Returns-bind (visit_records (es, neutral_round es, records) ks) _
            (visit_records-Rounding (es, neutral_round es, records) ks h)
            (λ t k.
              let es2 = set_neutral_round t.0 t.1 in
              elim (Bool-cases (es2.neutral_cursor == es.plan_directed_cursor)) [
                | inl whole ↦ rw whole (
                    Returns-bind (close_round es2 t.1) _
                      (close_round-Visited es2 t.1 (saved-current t.0 t.1 k))
                      (λ u v. Returns-ok _ v))
                | inr part ↦ rw part (
                    Returns-ok _ (record {
                      fits = k.fits;
                      going_on = λ _. rounding (saved-Rounding t.0 t.1 k);
                      done = λ f. cc f;
                    }))
              ]))))

-- What the first round finds.
abbrev Opened : EpochState × Bool → Type 0
Opened (es, true) = Visited es true
Opened (es, false) = Rounding es (neutral_round es)

open_first-Opened : (es : EpochState) → IsConserved es → es.phase ≡ 5 → Opened (open_first es)
unfolding open_first
open_first-Opened es h e = elim (Bool-cases (es.neutral_round_number == 0)) [
  | inl closed ↦ elim h.stage [
    | directing phase _ _ _ ↦ absurd (omega (arith, e, phase))
    | planned phase _ ↦ absurd (omega (arith, e, phase))
    | rounding r ↦ absurd (let pos = r.opened in ground (arith, closed, pos))
    | unopened phase granted number n_fits sum ↦
        let whole : es.sum_directed_targets + es.neutral_granted_total + es.neutral_total
            ≡ es.productive_lamports =
          omega (arith, sum, granted) in
        elim (Option-cases
          (begin_round es.neutral_total es.unsaturated_active_count es.controller_epoch)) [
            | inl idle ↦
                rw (closed, idle, open_first)
                  (record { fits = h.fits; going_on = λ f. cc f; done = λ _. whole })
            | inr (round, begun) ↦
                let (in_round, zero_granted) =
                  begun_lem es.neutral_total es.unsaturated_active_count es.controller_epoch round
                    (omega (arith, sum, h.fits)) n_fits begun in
                rw (closed, begun, open_first)
                  (opened-Rounding es es.neutral_total es.unsaturated_active_count _ 1 round
                    in_round zero_granted whole e h.fits (omega arith))
          ]
  ]
  | inr open_one ↦ elim h.stage [
    | directing phase _ _ _ ↦ absurd (omega (arith, e, phase))
    | planned phase _ ↦ absurd (omega (arith, e, phase))
    | unopened _ _ number _ _ ↦ absurd (ground (arith, open_one, number))
    | rounding r ↦ rw open_one r
  ]
]

begin_batch-Visited :
    (s : EpochState × Bool) (records : Records) (ks : List (Address × Bool))
    → Opened s
    → Returns
        (λ t. Visited t.0 t.1)
        (if s.1 then ok (s.0, true, records) else visit_batch s.0 records ks)
begin_batch-Visited (es, true) records ks h = Returns-ok _ h
begin_batch-Visited (es, false) records ks h = visit_batch-Visited es records ks h

end_batch-IsConserved :
    (es : EpochState) (finished : Bool)
    → Visited es finished
    → Returns IsConserved (if finished then enter phase_plan_finalize es else ok es)
end_batch-IsConserved es true h = Returns-map (enter_lem phase_plan_finalize es) (λ es' same_but.
    subst IsConserved (sym same_but) (record { fits = h.fits; stage = planned refl (h.done refl) }))
end_batch-IsConserved es false h = Returns-ok _ (record { fits = h.fits; stage = h.going_on refl })

pub plan_neutral-IsConserved :
    (es : EpochState) (records : Records) (ks : List (Address × Bool))
    → IsConserved es
    → Returns (λ t. IsConserved t.0) (plan_neutral es records ks)
unfolding plan_neutral
plan_neutral-IsConserved es records ks h =
    Returns-bind (in_phase phase_plan_neutral es) _ (in_phase_lem phase_plan_neutral es) (λ _ e.
      let s = open_first es in
      Returns-bind (if s.1 then ok (s.0, true, records) else visit_batch s.0 records ks) _
        (begin_batch-Visited s records ks (open_first-Opened es h e))
        (λ t v.
          Returns-bind (if t.1 then enter phase_plan_finalize t.0 else ok t.0) _
            (end_batch-IsConserved t.0 t.1 v) (λ es3 q. Returns-ok _ q)))

-- ===== src/Controller/Conservation/Invariant.antt =====
-- programs/fusion-stake-controller: the batches of the plan, up to the check of finalize_plan.rs.
use fusion_core.Prelude.{
  ℕ, ◌+◌, ◌≡◌, ◌≤◌, refl, sym, ◌∙◌, Bool, true, false, List, ok, ◌>>=◌, Returns, Returns-bind,
  Returns-skip, Returns-ok, length, ltb, ◌==◌, ◌||◌, if◌then◌else◌, checked_add, saturating_mul,
  u64_max, arith, narrow_fits, leb,
}
use mathlib.Core.Path.{subst}
use fusion_core.Stake.Preference.{Address}
use fusion_core.Controller.Budget.{with_paid, pay_crank_reward_lem}
use fusion_core.Controller.Conservation.{directing, unopened, rounding, planned, IsConserved}
use fusion_core.Controller.Conservation.Directed.{
  Directing, plan_pairs-Unopened, complete_directed-IsConserved,
}
use fusion_core.Controller.Conservation.Neutral.{plan_neutral-IsConserved}
use fusion_core.Controller.Constants.{crank_reward_plan_batch}
use fusion_core.Controller.Cpi.{Chain, effective_minimum_delegation}
use fusion_core.Controller.Cycle.{
  Clock, in_phase, close_preference_window, check_conservation, assigned,
}
use fusion_core.Controller.Epoch.Planning.{in_phase_lem}
use fusion_core.Controller.Error.{check, or_overflow}
use fusion_core.Controller.Logic.{phase_transition_allowed}
use fusion_core.Controller.Maintenance.{Keys, Crank, pay_crank_reward}
use fusion_core.Controller.PlanDirected.{
  Pair, plan_of, plan_pairs, complete_directed, list_header, plan_directed_batch,
}
use fusion_core.Controller.PlanNeutral.{plan_neutral, plan_neutral_batch}
use fusion_core.Controller.Records.{Records}
use fusion_core.Controller.State.{
  EpochState, neutral_round, reset_plan_state, set_neutral_round, phase_preferences,
  phase_plan_directed,
}

-- A payment does not touch the plan.
paid_other : {es : EpochState} (used : ℕ) → IsConserved es → IsConserved (with_paid es used)
unfolding neutral_round
paid_other {es} used h = record {
  fits = h.fits;
  stage = elim h.stage [
    | directing a b c d ↦ directing a b c d
    | unopened a b c d e ↦ unopened a b c d e
    | planned a b ↦ planned a b
    | rounding r ↦ rounding (record {
      total = r.total;
      n = r.n;
      first = r.first;
      phase = r.phase;
      fits = r.fits;
      opened = r.opened;
      in_round = r.in_round;
      whole = r.whole;
    })
  ];
}

abbrev pub World : Type 0
World = Crank × Records

pub close_preference_window-IsConserved :
    (clock : Clock) (es : EpochState)
    → es.productive_lamports ≤ u64_max
    → Returns IsConserved (close_preference_window clock es)
unfolding close_preference_window reset_plan_state set_neutral_round
close_preference_window-IsConserved clock es fits =
    Returns-skip (in_phase phase_preferences es) _ (λ _.
      Returns-skip (check (leb es.preference_window_close_slot clock.slot) _) _ (λ _.
        Returns-skip (check (phase_transition_allowed es.phase phase_plan_directed) _) _ (λ _.
          Returns-ok _ (record { fits = fits; stage = directing refl refl refl (omega arith) }))))

-- In the phase of the directed targets.
directing_lem : (es : EpochState) → IsConserved es → es.phase ≡ 4 → Directing es
directing_lem es h e = elim h.stage [
  | directing a b c d ↦ record {
    phase = a;
    granted = b;
    number = c;
    unsaturated = d;
    fits = h.fits;
  }
  | unopened a _ _ _ _ ↦ absurd (omega (arith, a, e))
  | planned a _ ↦ absurd (omega (arith, a, e))
  | rounding r ↦ absurd (omega (arith, r.phase, e))
]

-- The check of `finalize_plan`, once the plan is done.
check_conservation_lem :
    (es : EpochState) → IsConserved es → es.phase ≡ 6 → check_conservation es ≡ ok tt
unfolding check_conservation assigned
check_conservation_lem es h e = elim h.stage [
  | directing a _ _ _ ↦ absurd (omega (arith, a, e))
  | unopened a _ _ _ _ ↦ absurd (omega (arith, a, e))
  | rounding r ↦ absurd (omega (arith, r.phase, e))
  | planned _ sum ↦
      let same : (es.sum_directed_targets + es.neutral_granted_total + es.capacity_shortfall
            == es.productive_lamports)
          ≡ true =
        ground (arith, sum) in
      rw
        (
          narrow_fits u64_max (es.sum_directed_targets + es.neutral_granted_total)
              (omega (arith, sum, h.fits)),
          narrow_fits u64_max
              (es.sum_directed_targets + es.neutral_granted_total + es.capacity_shortfall)
              (omega (arith, sum, h.fits)),
          same,
        )
        refl
]

module _ ⦃chain : Chain⦄ where
  rewarded :
      (keys : Keys) (b : Bool) (w : Crank) (rs : Records)
      → IsConserved w.es
      → Returns
          (λ (t : World). IsConserved t.0.es)
          ((if b then pay_crank_reward keys crank_reward_plan_batch w else ok w) >>= λ w'.
            ok (w', rs))
  rewarded keys false w rs h = Returns-ok _ h
  rewarded keys true w rs h =
      Returns-bind (pay_crank_reward keys crank_reward_plan_batch w) _
        (pay_crank_reward_lem keys crank_reward_plan_batch w)
        (λ w' (used, e). Returns-ok _ (subst IsConserved (sym e) (paid_other used h)))

  plan_directed_batch-IsConserved :
      (keys : Keys) (clock : Clock) (rent slots : ℕ) (pairs : List Pair) (s : World)
      → IsConserved s.0.es
      → Returns (λ t. IsConserved t.0.es) (plan_directed_batch keys clock rent slots pairs s)
  unfolding plan_directed_batch plan_of
  plan_directed_batch-IsConserved keys clock rent slots pairs (w, records) h =
      Returns-skip effective_minimum_delegation _ (λ least.
        Returns-skip (or_overflow (checked_add u64_max rent (saturating_mul u64_max least 2))) _
          (λ drained.
            Returns-bind (in_phase phase_plan_directed w.es) _
              (in_phase_lem phase_plan_directed w.es)
              (λ _ e.
                let d = directing_lem w.es h e in
                Returns-skip (list_header w.accounts.validator_list) _ (λ header.
                  Returns-skip
                    (check (ltb 0 (length pairs) || w.es.plan_directed_cursor == header.len) _) _
                    (λ _.
                      let plan = plan_of clock slots drained header.len w in
                      Returns-bind (plan_pairs plan w.es records pairs) _
                        (plan_pairs-Unopened plan w.es records pairs)
                        (λ t f.
                          Returns-bind (complete_directed plan t.0) _
                            (complete_directed-IsConserved plan t.0 (sym f.productive) (record {
                              phase = f.phase ∙ d.phase;
                              granted = f.granted ∙ d.granted;
                              number = f.number ∙ d.number;
                              unsaturated = f.unsaturated d.unsaturated;
                              fits = omega (arith, f.productive, d.fits);
                            }))
                            (λ es' k.
                              rewarded keys (ltb 0 (length pairs)) (record w { es = es' }) t.1
                                k)))))))

  plan_neutral_batch-IsConserved :
      (keys : Keys) (accounts : List (Address × Bool)) (s : World)
      → IsConserved s.0.es
      → Returns (λ t. IsConserved t.0.es) (plan_neutral_batch keys accounts s)
  unfolding plan_neutral_batch
  plan_neutral_batch-IsConserved keys accounts (w, records) h =
      Returns-bind (plan_neutral w.es records accounts) _
        (plan_neutral-IsConserved w.es records accounts h)
        (λ t k. rewarded keys (ltb 0 t.2) (record w { es = t.0 }) t.1 k)

  -- The batches of the plan, of anyone and with any accounts.
  pub data Plans (s : World) : World → Type 0 where
    start : Plans s s
    directs :
        {t u : World} (keys : Keys) (clock : Clock) (rent slots : ℕ) (pairs : List Pair)
        → Plans s t
        → plan_directed_batch keys clock rent slots pairs t ≡ ok u
        → Plans s u
    distributes :
        {t u : World} (keys : Keys) (accounts : List (Address × Bool))
        → Plans s t
        → plan_neutral_batch keys accounts t ≡ ok u
        → Plans s u

  Plans-IsConserved : {s t : World} → Plans s t → IsConserved s.0.es → IsConserved t.0.es
  Plans-IsConserved start h = h
  Plans-IsConserved (directs {t} {u} keys clock rent slots pairs r e) h =
      (plan_directed_batch-IsConserved keys clock rent slots pairs t (Plans-IsConserved r h)).holds
        u e
  Plans-IsConserved (distributes {t} {u} keys accounts r e) h =
      (plan_neutral_batch-IsConserved keys accounts t (Plans-IsConserved r h)).holds u e

  -- From the close of the preference window on, with 64 bits of productive lamports: however the plan is
  -- cut into batches, and whatever records they are given, once the rounds have ended the check of
  -- `finalize_plan` succeeds: the sums that the state keeps of the directed targets and of the neutral
  -- grants, and the recorded shortfall, add up to the productive lamports.
  pub Plans-conserve :
      (clock : Clock) (before : EpochState) {s t : World}
      → before.productive_lamports ≤ u64_max
      → close_preference_window clock before ≡ ok s.0.es
      → Plans s t
      → t.0.es.phase ≡ 6
      → check_conservation t.0.es ≡ ok tt
  Plans-conserve clock before {s} {t} fits closed r e =
      check_conservation_lem t.0.es
        (Plans-IsConserved r
          ((close_preference_window-IsConserved clock before fits).holds s.0.es closed))
        e

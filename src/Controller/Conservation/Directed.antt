-- ===== src/Controller/Conservation/Directed.antt =====
-- programs/fusion-stake-controller/src/instructions/plan_directed_batch.rs: what is not directed is neutral.
use fusion_core.Prelude.{
  ℕ, ◌+◌, ◌≡◌, ◌≤◌, refl, sym, ◌∙◌, inl, inr, Bool-cases, some, List, Returns, Returns-bind,
  Returns-ok, ◌==◌, u64_max, arith,
}
use mathlib.Core.Path.{subst}
use fusion_core.Stake.Targets.{neutral_total}
use fusion_core.Prelude.Steps.{Returns-map, Returns-some}
use fusion_core.Controller.Conservation.{directing, unopened, IsConserved}
use fusion_core.Controller.Epoch.Planning.{enter_lem}
use fusion_core.Controller.Error.{or_error}
use fusion_core.Controller.Frame.{Keeps, plan_pairs-keeps}
use fusion_core.Controller.PlanDirected.{Plan, Pair, plan_pairs, complete_directed}
use fusion_core.Controller.Records.{Records}
use fusion_core.Controller.State.{EpochState, phase_plan_neutral}

-- What the rounds begin with is the same.
pub record Unopened (es es' : EpochState) : Type 0 where
  pub phase : es'.phase ≡ es.phase
  pub productive : es'.productive_lamports ≡ es.productive_lamports
  pub granted : es'.neutral_granted_total ≡ es.neutral_granted_total
  pub number : es'.neutral_round_number ≡ es.neutral_round_number
  pub unsaturated : es.unsaturated_active_count ≤ u64_max → es'.unsaturated_active_count ≤ u64_max

Unopened-Keeps : Keeps Unopened
Unopened-Keeps = record {
  nothing = λ es. record {
    phase = refl;
    productive = refl;
    granted = refl;
    number = refl;
    unsaturated = λ h. h;
  };
  twice = λ f g. record {
    phase = g.phase ∙ f.phase;
    productive = g.productive ∙ f.productive;
    granted = g.granted ∙ f.granted;
    number = g.number ∙ f.number;
    unsaturated = λ h. g.unsaturated (f.unsaturated h);
  };
  cursor = λ es next. record {
    phase = refl;
    productive = refl;
    granted = refl;
    number = refl;
    unsaturated = λ h. h;
  };
  planned = λ es shares targets unsaturated s v bound. record {
    phase = refl;
    productive = refl;
    granted = refl;
    number = refl;
    unsaturated = λ h. elim bound [ inl e ↦ omega (arith, e, h) | inr le ↦ le ];
  };
}

pub plan_pairs-Unopened :
    (plan : Plan) (es : EpochState) (records : Records) (ps : List Pair)
    → Returns (λ s. Unopened es s.0) (plan_pairs plan es records ps)
plan_pairs-Unopened = plan_pairs-keeps Unopened-Keeps

neutral_total_lem :
    (productive targets shares supply neutral : ℕ)
    → neutral_total productive targets shares supply ≡ some neutral
    → targets + neutral ≡ productive
unfolding neutral_total
neutral_total_lem productive targets shares supply neutral e = ground (arith, e)

-- The state while the directed targets are set.
pub record Directing (es : EpochState) : Type 0 where
  pub phase : es.phase ≡ 4
  pub granted : es.neutral_granted_total ≡ 0
  pub number : es.neutral_round_number ≡ 0
  pub unsaturated : es.unsaturated_active_count ≤ u64_max
  pub fits : es.productive_lamports ≤ u64_max

pub complete_directed-IsConserved :
    (plan : Plan) (es : EpochState)
    → plan.productive ≡ es.productive_lamports
    → Directing es
    → Returns IsConserved (complete_directed plan es)
unfolding complete_directed
complete_directed-IsConserved plan es same d =
    elim (Bool-cases (es.plan_directed_cursor == plan.list_len)) [
      | inl whole ↦ rw whole (
          Returns-bind
            (or_error
              (neutral_total plan.productive es.sum_directed_targets es.total_directed_shares
                plan.supply)
              _)
            _
            (Returns-some
              (neutral_total plan.productive es.sum_directed_targets es.total_directed_shares
                plan.supply)
              _)
            (λ neutral e.
              let sum =
                neutral_total_lem plan.productive es.sum_directed_targets es.total_directed_shares
                  plan.supply neutral e in
              Returns-map (enter_lem phase_plan_neutral (record es { neutral_total = neutral }))
                (λ es' same_but. subst IsConserved (sym same_but) (record {
                  fits = d.fits;
                  stage = unopened refl d.granted d.number d.unsaturated (sum ∙ same);
                }))))
      | inr part ↦ rw part (
          Returns-ok _
            (record { fits = d.fits; stage = directing d.phase d.granted d.number d.unsaturated }))
    ]

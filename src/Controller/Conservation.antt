-- ===== src/Controller/Conservation.antt =====
-- programs/fusion-stake-controller: the plan of an epoch assigns the productive lamports, no more and no
-- less.
pub mod Directed
pub mod Round
pub mod Neutral
pub mod Invariant
use fusion_core.Prelude.{ℕ, ◌+◌, ◌≡◌, ◌≤◌, ◌<◌, List, ok, Result, u64_max}
use fusion_core.Stake.Preference.{Address}
use fusion_core.Stake.Targets.{NeutralRound}
use fusion_core.Stake.Targets.Round.{InRound}
use fusion_core.Controller.State.{EpochState, neutral_round}

-- Round over what is left to assign: with what it has granted, it is all of the productive lamports.
pub record Rounding (es : EpochState) (round : NeutralRound) : Type 0 where
  pub total : ℕ
  pub n : ℕ
  pub first : ℕ
  pub phase : es.phase ≡ 5
  pub fits : es.productive_lamports ≤ u64_max
  pub opened : 0 < es.neutral_round_number
  pub in_round : InRound total n first round
  pub whole :
      es.sum_directed_targets + es.neutral_granted_total + total
      ≡ es.productive_lamports + round.granted

-- How far the plan of the epoch is: the directed targets, before the first round, in a round, or done.
pub data Stage (es : EpochState) : Type 0 where
  directing :
      es.phase ≡ 4
      → es.neutral_granted_total ≡ 0
      → es.neutral_round_number ≡ 0
      → es.unsaturated_active_count ≤ u64_max
      → Stage es
  unopened :
      es.phase ≡ 5
      → es.neutral_granted_total ≡ 0
      → es.neutral_round_number ≡ 0
      → es.unsaturated_active_count ≤ u64_max
      → es.sum_directed_targets + es.neutral_total ≡ es.productive_lamports
      → Stage es
  rounding : Rounding es (neutral_round es) → Stage es
  planned :
      es.phase ≡ 6
      → es.sum_directed_targets + es.neutral_granted_total + es.capacity_shortfall
        ≡ es.productive_lamports
      → Stage es

pub record IsConserved (es : EpochState) : Type 0 where
  pub fits : es.productive_lamports ≤ u64_max
  pub stage : Stage es

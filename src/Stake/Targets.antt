-- ===== src/Stake/Targets.antt =====
-- crates/fusion-stake-math/src/targets.rs: the targets of an epoch, directed and neutral.
pub mod Window
pub mod Round
pub mod Distribute
pub mod Directed
use fusion_core.Prelude.{
  ℕ, zero, suc, ◌+◌, ◌-◌, ◌*◌, ◌/◌, ◌%◌, Bool, true, false, ◌||◌, Option, none, some, List, [], ◌∷◌,
  ltb, leb, ◌==◌, if◌then◌else◌, min, narrow, unwrap_or, checked_sub, saturating_add, u64_max,
  length,
}
use fusion_core.Stake.Lifecycle.{ValidatorStatus, active}

abbrev pub max_validators : ℕ
max_validators = 1_024

abbrev pub max_neutral_rounds : ℕ
max_neutral_rounds = max_validators

unfoldable pub directed_target : ℕ → ℕ → ℕ → ℕ → ℕ
directed_target productive directed_shares supply cap =
    if supply == 0
    then 0
    else min (unwrap_or u64_max (narrow u64_max (productive * directed_shares / supply))) cap

unfoldable pub neutral_total : ℕ → ℕ → ℕ → ℕ → Option ℕ
neutral_total productive sum_directed_targets total_directed_shares supply =
    if ltb supply total_directed_shares then none else checked_sub productive sum_directed_targets

unfoldable pub neutral_capacity : ValidatorStatus → ℕ → ℕ → ℕ
neutral_capacity active cap current_target = cap - current_target
neutral_capacity _ cap current_target = 0

unfoldable pub rotation_start : ℕ → ℕ → ℕ
rotation_start epoch n = if n == 0 then 0 else epoch % n

-- One capacity round.
pub record NeutralRound : Type 0 where
  pub remaining : ℕ
  pub n_unsaturated : ℕ
  pub tranche : ℕ
  pub remainder : ℕ
  pub start : ℕ
  pub steps : ℕ
  pub remainder_used : ℕ
  pub granted : ℕ
  pub saturated : ℕ

unfoldable pub is_complete : NeutralRound → Bool
is_complete r = leb r.n_unsaturated r.steps

unfoldable pub remaining_after : NeutralRound → ℕ
remaining_after r = r.remaining - r.granted

unfoldable pub begin_round : ℕ → ℕ → ℕ → Option NeutralRound
begin_round remaining n epoch =
    if remaining == 0 || n == 0
    then none
    else some (record {
      remaining = remaining;
      n_unsaturated = n;
      tranche = remaining / n;
      remainder = remaining % n;
      start = rotation_start epoch n;
      steps = 0;
      remainder_used = 0;
      granted = 0;
      saturated = 0;
    })

-- Is the ordinal `o` among those that get one unit more? (Widths: the sum is computed in `u128`.)
unfoldable pub in_window : NeutralRound → Bool
in_window r = ltb ((r.steps + r.n_unsaturated - r.start) % r.n_unsaturated) r.remainder

unfoldable pub base : NeutralRound → ℕ
base r = saturating_add u64_max r.tranche (if in_window r then 1 else 0)

-- `step` on a round that is not complete.
unfoldable pub grant_to : NeutralRound → ℕ → NeutralRound × ℕ
grant_to r capacity =
    let grant = min (base r) capacity in
    (
      record r {
        steps = saturating_add u64_max r.steps 1;
        remainder_used =
            if in_window r then saturating_add u64_max r.remainder_used 1 else r.remainder_used;
        granted = saturating_add u64_max r.granted grant;
        saturated = if grant == capacity then saturating_add u64_max r.saturated 1 else r.saturated;
      },
      grant,
    )

unfoldable pub step : NeutralRound → ℕ → NeutralRound × ℕ
step r capacity = if is_complete r then (r, 0) else grant_to r capacity

-- A validator of `distribute_neutral`: an entry of the two slices, the capacity and the target.
pub record Slot : Type 0 where
  pub capacity : ℕ
  pub target : ℕ

unfoldable pub count_unsaturated : List Slot → ℕ
count_unsaturated [] = 0
count_unsaturated (s ∷ ss) = (if ltb 0 s.capacity then 1 else 0) + count_unsaturated ss

-- The body of the pass over the validators.
unfoldable pub visit : NeutralRound → Slot → NeutralRound × Slot
visit r s =
    if s.capacity == 0
    then (r, s)
    else let (r', grant) = step r s.capacity in
      (r', record { capacity = s.capacity - grant; target = saturating_add u64_max s.target grant })

unfoldable pub pass : NeutralRound → List Slot → NeutralRound × List Slot
pass r [] = (r, [])
pass r (s ∷ ss) = let (r1, s') = visit r s in let (r2, ss') = pass r1 ss in (r2, s' ∷ ss')

pub record NeutralOutcome : Type 0 where
  pub rounds : ℕ
  pub shortfall : ℕ

-- The loop of `distribute_neutral`. `none`: the fuel ran out.
unfoldable pub distribute_loop : ℕ → ℕ → ℕ → ℕ → List Slot → Option (NeutralOutcome × List Slot)
distribute_loop zero epoch remaining rounds slots = none
distribute_loop (suc fuel) epoch remaining rounds slots =
    elim (begin_round remaining (count_unsaturated slots) epoch) [
      | none ↦ some (record { rounds = rounds; shortfall = remaining }, slots)
      | some round ↦
          let (round', slots') = pass round slots in
          distribute_loop fuel epoch (remaining_after round') (saturating_add u64_max rounds 1)
            slots'
    ]

-- Each round but the last saturates a validator, so one round more than validators is enough.
unfoldable pub distribute_neutral : ℕ → ℕ → List Slot → Option (NeutralOutcome × List Slot)
distribute_neutral neutral epoch slots = distribute_loop (suc (length slots)) epoch neutral 0 slots

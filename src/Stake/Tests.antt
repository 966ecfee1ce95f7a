-- ===== src/Stake/Tests.antt =====
-- Inputs at which the theorems on crates/fusion-stake-math apply.
use fusion_core.Prelude.{
  ℕ, ◌+◌, ◌≡◌, ◌≤◌, ◌<◌, refl, inl, true, false, some, none, List, [], ◌∷◌, arith,
}
use fusion_core.Stake.Lifecycle.{
  candidate, draining, advance_lifecycle, next_status, failure_streak, healthy_streak, drains,
}
use fusion_core.Stake.Lifecycle.History.{
  Observation, Life, run, HasPair, IsDown, IsDownUnguarded, drained-HasPair,
}
use fusion_core.Stake.Targets.{
  Slot, NeutralOutcome, count_unsaturated, distribute_neutral, neutral_total,
}
use fusion_core.Stake.Targets.Distribute.{Distributed, distribute_neutral-Distributed}
use fusion_core.Stake.Targets.Directed.{Share, total_shares, total_targets, neutral_total_iff}

-- Three validators, of which the second is full, and the first can take 2 more.
abbrev three_slots : List Slot
three_slots =
    record { capacity = 2; target = 1 }
    ∷ record { capacity = 0; target = 5 }
    ∷ record { capacity = 30; target = 0 }
    ∷ []

distribute_neutral-Distributed_example :
    (r : NeutralOutcome × List Slot) × (distribute_neutral 10 4 three_slots ≡ some r)
    × Distributed 10 (count_unsaturated three_slots) three_slots r
distribute_neutral-Distributed_example =
    distribute_neutral-Distributed 10 4 three_slots (omega arith) (omega arith)
      (omega arith, (omega arith, (omega arith, tt)))

-- An epoch in which a validator is down, with the guard off.
abbrev down : Observation
down = record {
  commission_ok = true;
  liveness_ok = false;
  has_pool_stake = true;
  guard_active = false;
  zero_stake_and_target = false;
  removal_delay_elapsed = false;
}

abbrev newcomer : Life
newcomer = record { status = candidate; failures = 0; healthy = 1 }

drained : (run newcomer (down ∷ down ∷ [])).status ≡ draining
unfolding run advance_lifecycle next_status failure_streak healthy_streak drains
drained = refl

drained-HasPair_example : HasPair IsDown IsDownUnguarded (down ∷ down ∷ [])
drained-HasPair_example =
    drained-HasPair newcomer (down ∷ down ∷ []) (inl refl) refl (refl, (refl, tt)) (inl drained)

-- Two validators with shares, one of them capped.
abbrev two_shares : List Share
two_shares = record { shares = 60; cap = 1000 } ∷ record { shares = 30; cap = 100 } ∷ []

neutral_total_iff_example :
    (total_shares two_shares ≤ 100
      → (n : ℕ) × (neutral_total 1000
            (total_targets 1000 100 two_shares)
            (total_shares two_shares)
            100
          ≡ some n)
        × (total_targets 1000 100 two_shares + n ≡ 1000))
    × (100 < total_shares two_shares
        → neutral_total 1000 (total_targets 1000 100 two_shares) (total_shares two_shares) 100
          ≡ none)
neutral_total_iff_example = neutral_total_iff 1000 100 two_shares

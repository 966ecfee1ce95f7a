-- ===== src/Redistribution/Tests.antt =====
-- Inputs at which the theorems on crates/fusd-math/src/redistribution.rs apply.
use fusion_core.Prelude.{ℕ, ◌+◌, ◌≡◌, ◌≤◌, refl, ok, err, List, [], ◌∷◌, arith, u128_max}
use fusion_core.Wide.{exact}
use fusion_core.Money.{mul_div_floor, wide_mul_div}
use fusion_core.Redistribution.{
  RedistError, RedistState, new, snapshot, per_unit, accumulate, redistribute, pending,
  compute_stake,
}
use fusion_core.Redistribution.Accumulate.{accumulate_overflow}
use fusion_core.Redistribution.Conserve.{
  Shared, paid_coll, paid_art, pending_each, redistribute-Shared,
}
use fusion_core.Redistribution.Drift.{redistribute_all, redistribute_all_no_drift}
use fusion_core.Redistribution.Stakes.{stake_each}

-- 10 of collateral and 7 of debt among stakes of 1 and 2
abbrev after_one : RedistState
after_one = record {
  l_coll = 3_333_333_333_333_333_333;
  l_art = 2_333_333_333_333_333_333;
  last_coll_error = 1;
  last_art_error = 1;
}

one_redistribution : redistribute ⦃w = exact⦄ new 3 10 7 ≡ (ok tt, after_one)
unfolding redistribute accumulate per_unit
one_redistribution = refl

redistribute-Shared_example :
    (ps : List (ℕ × ℕ)) × (pending_each ⦃w = exact⦄ (1 ∷ 2 ∷ []) after_one (snapshot new) ≡ ok ps)
    × Shared 10 0 1 2 (paid_coll ps)
    × Shared 7 0 1 2 (paid_art ps)
redistribute-Shared_example =
    redistribute-Shared ⦃w = exact⦄ new 3 10 7 (1 ∷ 2 ∷ []) (omega arith) (omega arith)
      (omega arith) (omega arith) refl one_redistribution

accumulate_overflow_example :
    (accumulate ⦃w = exact⦄ u128_max 1 3 10).0 ≡ err RedistError.accumulator_overflow
accumulate_overflow_example =
    accumulate_overflow ⦃w = exact⦄ 1 3 10 (omega arith) (omega arith) (omega arith) (omega arith)
      u128_max (omega arith)

abbrev two_feeds : List (ℕ × ℕ)
two_feeds = (10, 7) ∷ (1, 1) ∷ []

abbrev after_two : RedistState
after_two = record {
  l_coll = 3_666_666_666_666_666_666;
  l_art = 2_666_666_666_666_666_666;
  last_coll_error = 2;
  last_art_error = 2;
}

two_redistributions : redistribute_all ⦃w = exact⦄ two_feeds 3 new ≡ (ok tt, after_two)
unfolding redistribute accumulate per_unit
two_redistributions = refl

redistribute_all_no_drift_example :
    (c a : ℕ) × (pending ⦃w = exact⦄ 3 after_two (snapshot new) ≡ ok (c, a))
    × (c ≤ 11)
    × (11 ≤ c + 1)
    × (a ≤ 8)
    × (8 ≤ a + 1)
redistribute_all_no_drift_example =
    redistribute_all_no_drift ⦃w = exact⦄ two_feeds 3 new after_two (omega arith) refl refl
      (omega arith) (omega arith) (omega arith) two_redistributions

stakes_of_two : stake_each ⦃w = exact⦄ (5 ∷ 6 ∷ []) 10 12 ≡ ok (4 ∷ 5 ∷ [])
unfolding compute_stake mul_div_floor wide_mul_div
stakes_of_two = refl

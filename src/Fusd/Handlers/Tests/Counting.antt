-- ===== src/Fusd/Handlers/Tests/Counting.antt =====
-- An input at which the theorem on the counts of the redemption buckets applies: a first debt, which
-- programs/fusd-core/src/instructions/borrow.rs counts in a bucket.
use fusion_core.Prelude.{◌≡◌, refl, Result, ok, err, arith}
use fusion_core.Prelude.Int.{pos}
use fusion_core.Wide.{exact}
use fusion_core.Prelude.Int.{saturating_sub, ◌-ℤ◌}
use fusion_core.Money.{mul_div_ceil, mul_div_floor, wide_mul_div, ray_mul}
use fusion_core.Interest.{weighted_debt, pending_aggregate_interest, accrued_interest}
use fusion_core.Redistribution.{pending_one, compute_stake}
use fusion_core.Redistribution
use fusion_core.RateBucket.{bucket_of}
use fusion_core.RateBucket
use fusion_core.Fusd.Redist.{state, snapshot_of, roll_snapshot, set_stake}
use fusion_core.Fusd.Redist
use fusion_core.Fusd.Supply.{cadd, csub, book_interest}
use fusion_core.Fusd.Supply
use fusion_core.Fusd.Accrual.{
  accrue, realize, weighted, reweight, fold_collateral, check_sufficiency,
}
use fusion_core.Fusd.Bucket.{reconcile, move_member, target, bucket_for, add_member, remove_member}
use fusion_core.Fusd.Error.{Abort}
use fusion_core.Fusd.State.{set_ink}
use fusion_core.Fusd.Programs.{lenient}
use fusion_core.Fusd.Cdp.{is_healthy, collateral_value, max_debt}
use fusion_core.Fusd.Handlers.{World}
use fusion_core.Fusd.Handlers.Collateral.{
  deposit, withdraw, top_up_bond, withdraw_health, withdraw_band,
}
use fusion_core.Fusd.Handlers.Debt.{
  borrow, repay, repay_debt, borrow_gates, borrow_fee, borrow_limits, consume_limit, restore_limit,
}
use fusion_core.Fusd.Handlers.Reach.{perform, start, next}
use fusion_core.Fusd.Handlers.Counted.{IsCounted}
use fusion_core.Fusd.Handlers.Reach.{borrows, Reaches-IsCounted}
use fusion_core.Fusd.Sample.{empty_bitmap-IsCoupled, get_or-zeros}
use fusion_core.Fusd.Handlers.Tests.{world}
use fusion_core.Prelude.{Bool-cases, inl, inr, ◌==◌}
use fusion_core.Fusd.Bucket.{zombie_bucket}

abbrev result_or : World → Result Abort World → World
result_or s (ok t) = t
result_or s (err e) = s

abbrev borrowed : World
borrowed =
    result_or world
      (perform ⦃w = exact⦄ ⦃programs = lenient⦄ world (pos 200) 20 (borrows 100_000_000))

borrow_reaches :
    perform ⦃w = exact⦄ ⦃programs = lenient⦄ world (pos 200) 20 (borrows 100_000_000) ≡ ok borrowed
unfolding deposit withdraw borrow repay repay_debt weighted weighted_debt accrue saturating_sub ◌-ℤ◌
    pending_aggregate_interest mul_div_ceil mul_div_floor wide_mul_div book_interest cadd csub
    realize accrued_interest Redist.pending state snapshot_of Redistribution.pending pending_one
    fold_collateral roll_snapshot set_ink reweight set_stake compute_stake top_up_bond
    withdraw_health withdraw_band is_healthy collateral_value max_debt ray_mul borrow_gates
    borrow_fee borrow_limits consume_limit restore_limit Supply.borrow Supply.repay reconcile
    move_member target bucket_for bucket_of add_member remove_member RateBucket.set RateBucket.clear
    check_sufficiency
borrow_reaches = refl

world-IsCounted : IsCounted (λ _. 0) world.bitmap world.position
world-IsCounted = record {
  coupled = empty_bitmap-IsCoupled;
  bucketed = omega arith;
  counts = λ c. elim (Bool-cases (c == zombie_bucket)) [
    | inl zombie ↦ rw zombie refl
    | inr other ↦ rw (other, get_or-zeros 256 c) refl
  ];
}

Reaches-IsCounted_example : IsCounted (λ _. 0) borrowed.bitmap borrowed.position
Reaches-IsCounted_example =
    Reaches-IsCounted ⦃w = exact⦄ ⦃programs = lenient⦄ {s = world} {t = borrowed} (λ _. 0)
      (next (pos 200) 20 (borrows 100_000_000) start borrow_reaches) world-IsCounted

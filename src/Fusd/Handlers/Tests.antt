-- ===== src/Fusd/Handlers/Tests.antt =====
-- Runs of the handlers of programs/fusd-core/src/instructions, and worlds at which the theorems apply.
mod Counting
use fusion_core.Prelude
use fusion_core.Prelude.{
  ℕ, ◌+◌, ◌^◌, ◌≡◌, ◌≢◌, ◌≤◌, refl, Bool, true, false, Result, ok, err, Option, some, none, ◌-◌,
  List, arith, Returns,
}
use fusion_core.Prelude.Int.{pos}
use fusion_core.Wide.{exact}
use fusion_core.ReactorPool.{
  offset, coll_per_unit, loss_factor, roll_product, update_product, rescale, s_idx,
}
use fusion_core.Prelude.Int.{saturating_sub, ◌-ℤ◌}
use fusion_core.Money.{mul_div_ceil, mul_div_floor, wide_mul_div, ray_mul}
use fusion_core.Interest.{weighted_debt, pending_aggregate_interest, accrued_interest}
use fusion_core.Redistribution.{pending_one, compute_stake}
use fusion_core.Redistribution
use fusion_core.RateBucket.{bucket_of}
use fusion_core.RateBucket
use fusion_core.Fusd.Redist.{state, snapshot_of, roll_snapshot, set_stake}
use fusion_core.Fusd.Redist
use fusion_core.Fusd.Supply.{cadd, csub, book_interest}
use fusion_core.Fusd.Supply
use fusion_core.Fusd.Accrual.{
  accrue, realize, weighted, reweight, fold_collateral, check_sufficiency,
}
use fusion_core.Fusd.Bucket.{reconcile, move_member, target, bucket_for, add_member, remove_member}
use fusion_core.Fusd.Error.{Abort}
use fusion_core.Fusd.State.{set_ink}
use fusion_core.Fusd.Sample.{zeros, empty_bitmap, market, position}
use fusion_core.Fusd.Programs.{lenient}
use fusion_core.Fusd.Cdp.{is_healthy, collateral_value, max_debt, seize_collateral}
use fusion_core.Fusd.Handlers.{World}
use fusion_core.Fusd.Handlers.Collateral.{
  deposit, withdraw, top_up_bond, withdraw_health, withdraw_band,
}
use fusion_core.Fusd.Handlers.Debt.{
  borrow, repay, repay_debt, borrow_gates, borrow_fee, borrow_limits, consume_limit, restore_limit,
}
use fusion_core.Fusd.Handlers.Sound.{
  IsSound, deposit-IsSound, withdraw-IsSound, borrow-IsSound, repay-IsSound,
}
use fusion_core.Fusd.Handlers.Reach.{perform, deposits, start, next, Reaches-covered}
use fusion_core.Fusd.Handlers.Safe.{IsSafe, borrow-IsSafe, withdraw-healthy}
use fusion_core.Fusd.Handlers.Liquidate.{
  Scene, liquidate, liquidate_gates, remove_victim, book_surplus, book_split, global_available,
  pay_gas_comp, reactor_tier, move_to_pool, later_tiers, backstop_tiers, buffer_tier, global_tier,
  unhomed_tier, redistribution_tier, finish, take_snapshots, pay_bond, close_victim,
}
use fusion_core.Recovery.{absorb}
use fusion_core.Fusd.Handlers.Liquidation.{liquidate-IsSound}
use fusion_core.Fusd.Handlers.Closing
use fusion_core.Fusd.Handlers.Victim.{IsUnhealthy, IsClosed, liquidate-IsClosed}

-- The market before any debt; 5 units of its vault are a donation.
abbrev pub world : World
world = record {
  market = market;
  position = position;
  bitmap = empty_bitmap;
  coll_vault = 2_000_000_005;
  owner_coll = 1_000_000_000;
  supply = 0;
  owner_fusd = 0;
  owner_lamports = 0;
  position_lamports = 0;
}

world-IsSound : IsSound 0 5 world
world-IsSound = record { supplied = refl; vaulted = refl }

abbrev is_ok : {A : Type 0} → Result Abort A → Bool
is_ok (ok a) = true
is_ok (err e) = false

deposit_returns :
    is_ok (deposit ⦃w = exact⦄ ⦃programs = lenient⦄ world (pos 200) 500_000_000) ≡ true
unfolding deposit withdraw borrow repay repay_debt weighted weighted_debt accrue saturating_sub ◌-ℤ◌
    pending_aggregate_interest mul_div_ceil mul_div_floor wide_mul_div book_interest cadd csub
    realize accrued_interest Redist.pending state snapshot_of Redistribution.pending pending_one
    fold_collateral roll_snapshot set_ink reweight set_stake compute_stake top_up_bond
    withdraw_health withdraw_band is_healthy collateral_value max_debt ray_mul borrow_gates
    borrow_fee borrow_limits consume_limit restore_limit Supply.borrow Supply.repay reconcile
    move_member target bucket_for bucket_of add_member remove_member RateBucket.set RateBucket.clear
    check_sufficiency
deposit_returns = refl

withdraw_returns :
    is_ok (withdraw ⦃w = exact⦄ ⦃programs = lenient⦄ world (pos 200) 20 500_000_000) ≡ true
unfolding deposit withdraw borrow repay repay_debt weighted weighted_debt accrue saturating_sub ◌-ℤ◌
    pending_aggregate_interest mul_div_ceil mul_div_floor wide_mul_div book_interest cadd csub
    realize accrued_interest Redist.pending state snapshot_of Redistribution.pending pending_one
    fold_collateral roll_snapshot set_ink reweight set_stake compute_stake top_up_bond
    withdraw_health withdraw_band is_healthy collateral_value max_debt ray_mul borrow_gates
    borrow_fee borrow_limits consume_limit restore_limit Supply.borrow Supply.repay reconcile
    move_member target bucket_for bucket_of add_member remove_member RateBucket.set RateBucket.clear
    check_sufficiency
withdraw_returns = refl

borrow_returns :
    is_ok (borrow ⦃w = exact⦄ ⦃programs = lenient⦄ world (pos 200) 20 100_000_000) ≡ true
unfolding deposit withdraw borrow repay repay_debt weighted weighted_debt accrue saturating_sub ◌-ℤ◌
    pending_aggregate_interest mul_div_ceil mul_div_floor wide_mul_div book_interest cadd csub
    realize accrued_interest Redist.pending state snapshot_of Redistribution.pending pending_one
    fold_collateral roll_snapshot set_ink reweight set_stake compute_stake top_up_bond
    withdraw_health withdraw_band is_healthy collateral_value max_debt ray_mul borrow_gates
    borrow_fee borrow_limits consume_limit restore_limit Supply.borrow Supply.repay reconcile
    move_member target bucket_for bucket_of add_member remove_member RateBucket.set RateBucket.clear
    check_sufficiency
borrow_returns = refl

abbrev deposited : World
deposited = record world {
  market = record market {
    last_update_ts = pos 200;
    total_collateral = 2_500_000_000;
    total_stakes = 2_500_000_000;
  };
  position = record position {
    ink = 2_500_000_000;
    stake = 2_500_000_000;
    last_debt_update = pos 200;
    ink_nonce = 1;
  };
  coll_vault = 2_500_000_005;
  owner_coll = 500_000_000;
}

deposit_reaches :
    perform ⦃w = exact⦄ ⦃programs = lenient⦄ world (pos 200) 20 (deposits 500_000_000)
    ≡ ok deposited
unfolding deposit withdraw borrow repay repay_debt weighted weighted_debt accrue saturating_sub ◌-ℤ◌
    pending_aggregate_interest mul_div_ceil mul_div_floor wide_mul_div book_interest cadd csub
    realize accrued_interest Redist.pending state snapshot_of Redistribution.pending pending_one
    fold_collateral roll_snapshot set_ink reweight set_stake compute_stake top_up_bond
    withdraw_health withdraw_band is_healthy collateral_value max_debt ray_mul borrow_gates
    borrow_fee borrow_limits consume_limit restore_limit Supply.borrow Supply.repay reconcile
    move_member target bucket_for bucket_of add_member remove_member RateBucket.set RateBucket.clear
    check_sufficiency
deposit_reaches = refl

Reaches-covered_example : (2_500_000_000 + 0 + 0 + 0 ≤ 2_500_000_005) × (0 ≤ 0 + 0 + 0)
Reaches-covered_example =
    Reaches-covered ⦃w = exact⦄ ⦃programs = lenient⦄ {s = world} {t = deposited} 0 5
      (next (pos 200) 20 (deposits 500_000_000) start deposit_reaches) world-IsSound

deposit-IsSound_example :
    Returns (IsSound 0 5) (deposit ⦃w = exact⦄ ⦃programs = lenient⦄ world (pos 200) 500_000_000)
deposit-IsSound_example =
    deposit-IsSound ⦃w = exact⦄ ⦃programs = lenient⦄ world (pos 200) 500_000_000 0 5 world-IsSound

withdraw-IsSound_example :
    Returns (IsSound 0 5) (withdraw ⦃w = exact⦄ ⦃programs = lenient⦄ world (pos 200) 20 500_000_000)
withdraw-IsSound_example =
    withdraw-IsSound ⦃w = exact⦄ ⦃programs = lenient⦄ world (pos 200) 20 500_000_000 0 5
      world-IsSound

borrow-IsSound_example :
    Returns (IsSound 0 5) (borrow ⦃w = exact⦄ ⦃programs = lenient⦄ world (pos 200) 20 100_000_000)
borrow-IsSound_example =
    borrow-IsSound ⦃w = exact⦄ ⦃programs = lenient⦄ world (pos 200) 20 100_000_000 0 5 world-IsSound

borrow-IsSafe_example :
    Returns
      (IsSafe ⦃w = exact⦄)
      (borrow ⦃w = exact⦄ ⦃programs = lenient⦄ world (pos 200) 20 100_000_000)
borrow-IsSafe_example =
    borrow-IsSafe ⦃w = exact⦄ ⦃programs = lenient⦄ world (pos 200) 20 100_000_000

-- After a debt of 100.1 dollars, of which 0.1 are the fee.
abbrev indebted : World
indebted = record world {
  market = record market {
    agg_recorded_debt = 100_100_000;
    unminted_interest = 100_000;
    agg_weighted_debt_sum = 50_050_000_000;
  };
  position = record position { recorded_debt = 100_100_000; bucket = 50 };
  supply = 100_000_000;
  owner_fusd = 100_000_000;
}

indebted-IsSound : IsSound 0 5 indebted
indebted-IsSound = record { supplied = refl; vaulted = refl }

repay_returns : is_ok (repay ⦃w = exact⦄ ⦃programs = lenient⦄ indebted (pos 200) 50_000_000) ≡ true
unfolding deposit withdraw borrow repay repay_debt weighted weighted_debt accrue saturating_sub ◌-ℤ◌
    pending_aggregate_interest mul_div_ceil mul_div_floor wide_mul_div book_interest cadd csub
    realize accrued_interest Redist.pending state snapshot_of Redistribution.pending pending_one
    fold_collateral roll_snapshot set_ink reweight set_stake compute_stake top_up_bond
    withdraw_health withdraw_band is_healthy collateral_value max_debt ray_mul borrow_gates
    borrow_fee borrow_limits consume_limit restore_limit Supply.borrow Supply.repay reconcile
    move_member target bucket_for bucket_of add_member remove_member RateBucket.set RateBucket.clear
    check_sufficiency
repay_returns = refl

repay-IsSound_example :
    Returns (IsSound 0 5) (repay ⦃w = exact⦄ ⦃programs = lenient⦄ indebted (pos 200) 50_000_000)
repay-IsSound_example =
    repay-IsSound ⦃w = exact⦄ ⦃programs = lenient⦄ indebted (pos 200) 50_000_000 0 5
      indebted-IsSound

withdraw-healthy_example :
    Returns
      (λ (t : World).
        t.position.recorded_debt ≢ 0
        → is_healthy ⦃w = exact⦄ t.position.ink t.position.recorded_debt t.market.spot
            t.market.mcr_bps
          ≡ true)
      (withdraw ⦃w = exact⦄ ⦃programs = lenient⦄ indebted (pos 200) 20 500_000_000)
withdraw-healthy_example =
    withdraw-healthy ⦃w = exact⦄ ⦃programs = lenient⦄ indebted (pos 200) 20 500_000_000

-- The price has halved, and the Reactor Pool holds 60 dollars.
abbrev scene : Scene
scene = record {
  market = record market {
    spot = 50_000_000_000_000_000_000_000_000;
    debt_spot = 50_000_000_000_000_000_000_000_000;
    agg_recorded_debt = 100_100_000;
    unminted_interest = 100_000;
    agg_weighted_debt_sum = 50_050_000_000;
  };
  position = record position { recorded_debt = 100_100_000; bucket = 50 };
  bitmap = record empty_bitmap {
    words = Prelude.set (zeros 4) 0 (2 ^ 50);
    counts = Prelude.set (zeros 256) 50 1;
  };
  pool = record {
    p = 1_000_000_000_000_000_000;
    epoch = 0;
    scale = 0;
    total_deposits = 60_000_000;
    last_coll_error = 0;
    last_loss_error = 0;
  };
  grid = zeros 512;
  backstop = none;
  coll_vault = 2_000_000_005;
  liquidator_coll = 0;
  reactor_fusd = 60_000_000;
  reactor_coll = 0;
  buffer_fusd = 10_000_000;
  buffer_absorbed = 0;
  supply = 100_000_000;
  position_lamports = 0;
  liquidator_lamports = 0;
}

-- the recorded debt, the fUSD burned, the bad debt, and the shutdown with its reason
abbrev books : Result Abort Scene → Option (ℕ × ℕ × ℕ × Bool × ℕ)
books (ok s) = some (
  s.market.agg_recorded_debt,
  100_000_000 - s.supply,
  s.market.bad_debt,
  s.market.shutdown,
  s.market.shutdown_reason,
)
books (err e) = none

scene-IsSound : Closing.IsSound 0 5 scene
scene-IsSound = record { supplied = refl; vaulted = refl }

-- The pool pays 60 dollars, the buffer 10, and the rest, with the interest, is bad debt. The
-- market keeps the unit by which its interest was rounded up.
liquidate_returns :
    books (liquidate ⦃w = exact⦄ ⦃programs = lenient⦄ scene (pos 200) 20)
    ≡ some (1, 70_000_000, 30_100_015, true, 3)
unfolding liquidate liquidate_gates weighted weighted_debt accrue saturating_sub ◌-ℤ◌
    pending_aggregate_interest mul_div_ceil mul_div_floor wide_mul_div book_interest cadd csub
    realize accrued_interest Redist.pending state snapshot_of Redistribution.pending pending_one
    fold_collateral roll_snapshot set_ink reweight is_healthy collateral_value max_debt ray_mul
    remove_victim seize_collateral book_surplus book_split global_available absorb Supply.liquidate
    pay_gas_comp reactor_tier move_to_pool offset coll_per_unit loss_factor roll_product
    update_product rescale s_idx later_tiers backstop_tiers buffer_tier global_tier unhomed_tier
    redistribution_tier finish take_snapshots pay_bond close_victim reconcile move_member target
    add_member remove_member RateBucket.set RateBucket.clear check_sufficiency
liquidate_returns = refl

liquidate-IsSound_example :
    Returns (Closing.IsSound 0 5) (liquidate ⦃w = exact⦄ ⦃programs = lenient⦄ scene (pos 200) 20)
liquidate-IsSound_example =
    liquidate-IsSound ⦃w = exact⦄ ⦃programs = lenient⦄ 0 5 scene (pos 200) 20 (omega arith)
      scene-IsSound

liquidate-IsClosed_example :
    Returns
      (λ (t : Scene). IsUnhealthy ⦃w = exact⦄ scene (pos 200) × IsClosed t.position)
      (liquidate ⦃w = exact⦄ ⦃programs = lenient⦄ scene (pos 200) 20)
liquidate-IsClosed_example = liquidate-IsClosed ⦃w = exact⦄ ⦃programs = lenient⦄ scene (pos 200) 20

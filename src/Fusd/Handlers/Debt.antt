-- ===== src/Fusd/Handlers/Debt.antt =====
-- programs/fusd-core/src/instructions/borrow.rs and repay.rs.
use Prim.Native.Nat.{bit_and}
use fusion_core.Prelude.{
  ℕ, ◌-◌, not, ◌||◌, Result, ok, ok_or, ◌>>=◌, ◌==◌, ltb, leb, if◌then◌else◌, u128_max, checked_add,
}
use fusion_core.Prelude.Int.{ℤ, pos, leb_ℤ}
use fusion_core.Wide.{Wide}
use fusion_core.Money.{mul_div_ceil, bps_denominator}
use fusion_core.Fusd.Error.{FusdError, Abort, or_overflow}
use fusion_core.Fusd.State.{Market, Position}
use fusion_core.Fusd.Supply
use fusion_core.Fusd.Cdp.{is_healthy, tcr_below, ratelimit_consume, ratelimit_restore}
use fusion_core.Fusd.Redist.{set_stake}
use fusion_core.Fusd.Accrual.{accrue, realize, weighted, reweight}
use fusion_core.Fusd.Bucket.{reconcile}
use fusion_core.Fusd.Programs.{Programs, call}
use fusion_core.Fusd.Handlers.{World, max_price_staleness_slots}
use fusion_core.Fusd.Handlers.Collateral.{check}

abbrev pub liq_infra_ready_mask : ℕ
liq_infra_ready_mask = 6

abbrev pub ratelimit_window_secs : ℤ
ratelimit_window_secs = pos 86_400

-- The gates of `borrow` on the market, before any new debt.
unfoldable pub borrow_gates : Market → ℤ → ℕ → Result Abort (Unit {0})
borrow_gates m now slot = check (not m.shutdown) FusdError.market_shutdown >>= λ _.
    check
      (m.liq_infra_flags == 0
        || bit_and m.liq_infra_flags liq_infra_ready_mask == liq_infra_ready_mask)
      FusdError.liquidation_infra_not_ready
    >>= λ _. check (ltb 0 m.spot) FusdError.oracle_unavailable >>= λ _.
        check (not m.mint_frozen) FusdError.mint_frozen >>= λ _.
        check (leb_ℤ m.guardian_paused_until now) FusdError.guardian_paused >>= λ _.
        check (leb (slot - m.spot_updated_slot) max_price_staleness_slots) FusdError.stale_price

-- The limiter of `borrow`.
unfoldable pub consume_limit : Market → ℤ → ℕ → Result Abort Market
consume_limit m now amount =
    if ltb 0 m.rl_cap
    then (ok_or
          (ratelimit_consume m.rl_accrued m.rl_last_update now m.rl_cap ratelimit_window_secs
            amount)
          (Abort.error FusdError.rate_limit_exceeded)
        >>= λ new_accrued. ok (record m { rl_accrued = new_accrued; rl_last_update = now }))
    else ok m

-- The limiter of `repay`.
unfoldable pub restore_limit : Market → ℤ → ℕ → Market
restore_limit m now amount =
    if ltb 0 m.rl_cap
    then record m {
      rl_accrued =
          ratelimit_restore m.rl_accrued m.rl_last_update now m.rl_cap ratelimit_window_secs amount;
      rl_last_update = now;
    }
    else m

module _ ⦃w : Wide⦄ ⦃programs : Programs⦄ where
  open programs use {issue, destroy}

  unfoldable pub borrow_fee : Market → ℕ → Result Abort ℕ
  borrow_fee m amount =
      if ltb 0 m.borrow_fee_bps
      then or_overflow (mul_div_ceil amount m.borrow_fee_bps bps_denominator)
      else ok 0

  -- The checks of `borrow` on the debt after the fee.
  unfoldable pub borrow_limits : Market → Position → ℕ → ℕ → Result Abort (Unit {0})
  borrow_limits m p new_debt new_agg =
      check (is_healthy p.ink new_debt m.spot m.mcr_bps) FusdError.below_min_collateral_ratio
      >>= λ _.
          check (m.min_debt == 0 || leb m.min_debt new_debt) FusdError.debt_below_minimum >>= λ _.
          check (leb new_agg m.debt_ceiling) FusdError.debt_ceiling_exceeded >>= λ _.
          if ltb 0 m.ccr_bps
          then check (not (tcr_below m.total_collateral new_agg m.spot m.ccr_bps))
              FusdError.ccr_restricted
          else ok tt

  unfoldable pub borrow : World → ℤ → ℕ → ℕ → Result Abort World
  borrow s now slot amount = check (ltb 0 amount) FusdError.zero_amount >>= λ _.
      weighted s.position >>= λ old_weighted. accrue s.market now >>= λ m1.
      realize m1 s.position now >>= λ p1. borrow_gates m1 now slot >>= λ _.
      borrow_fee m1 amount >>= λ fee.
      or_overflow (Supply.borrow m1.agg_recorded_debt m1.unminted_interest amount fee) >>= λ d.
      or_overflow (checked_add u128_max p1.recorded_debt d.debt_delta) >>= λ new_debt.
      borrow_limits m1 p1 new_debt d.new_agg >>= λ _. consume_limit m1 now amount >>= λ m2.
      let p2 = record p1 { recorded_debt = new_debt } in
      reweight (record m2 { agg_recorded_debt = d.new_agg; unminted_interest = d.new_unminted }) p2
        old_weighted
      >>= λ m3. set_stake m3 p2 >>= λ staked.
          call (issue amount s.supply s.owner_fusd) >>= λ issued.
          reconcile s.bitmap staked.0 staked.1 s.position.recorded_debt >>= λ joined. ok (record s {
            market = staked.0;
            position = joined.1;
            bitmap = joined.0;
            supply = issued.0;
            owner_fusd = issued.1;
          })

  -- `repay` of a debt that is not zero, after the realization.
  unfoldable pub repay_debt : World → Market → Position → ℕ → ℤ → ℕ → Result Abort World
  repay_debt s m1 p1 old_weighted now amount =
      or_overflow (Supply.repay m1.agg_recorded_debt p1.recorded_debt amount) >>= λ d.
      check (m1.min_debt == 0 || (d.new_position_debt == 0 || leb m1.min_debt d.new_position_debt))
        FusdError.debt_below_minimum
      >>= λ _. call (destroy d.burn s.supply s.owner_fusd) >>= λ burned.
          let p2 = record p1 { recorded_debt = d.new_position_debt } in
          reweight (record m1 { agg_recorded_debt = d.new_agg }) p2 old_weighted >>= λ m2.
          set_stake m2 p2 >>= λ staked.
          let m3 = restore_limit staked.0 now d.burn in
          reconcile s.bitmap m3 staked.1 s.position.recorded_debt >>= λ joined. ok (record s {
            market = m3;
            position = joined.1;
            bitmap = joined.0;
            supply = burned.0;
            owner_fusd = burned.1;
          })

  unfoldable pub repay : World → ℤ → ℕ → Result Abort World
  repay s now amount = check (ltb 0 amount) FusdError.zero_amount >>= λ _.
      weighted s.position >>= λ old_weighted. accrue s.market now >>= λ m1.
      realize m1 s.position now >>= λ p1.
      if p1.recorded_debt == 0
      then (set_stake m1 p1 >>= λ staked. ok (record s { market = staked.0; position = staked.1 }))
      else repay_debt s m1 p1 old_weighted now amount

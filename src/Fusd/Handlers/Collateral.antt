-- ===== src/Fusd/Handlers/Collateral.antt =====
-- programs/fusd-core/src/instructions/deposit.rs and withdraw.rs.
use fusion_core.Prelude.{
  ℕ, ◌-◌, Bool, not, ◌&&◌, Result, ok, require, ◌>>=◌, ltb, leb, if◌then◌else◌, u64_max, u128_max,
  checked_add, checked_sub,
}
use fusion_core.Prelude.Int.{ℤ}
use fusion_core.Wide.{Wide}
use fusion_core.Fusd.Error.{FusdError, Abort, or_overflow}
use fusion_core.Fusd.State.{Market, Position, set_ink}
use fusion_core.Fusd.Cdp.{is_healthy, tcr_below}
use fusion_core.Fusd.Redist.{set_stake}
use fusion_core.Fusd.Accrual.{accrue, realize, weighted, reweight, check_sufficiency}
use fusion_core.Fusd.Bucket.{reconcile}
use fusion_core.Fusd.Programs.{Programs, call}
use fusion_core.Fusd.Handlers.{World, max_price_staleness_slots}

abbrev pub check : Bool → FusdError → Result Abort (Unit {0})
check b e = require b (Abort.error e)

abbrev pub sufficiency_of : Market → ℕ → Result Abort (Unit {0})
sufficiency_of m vault =
    check_sufficiency vault m.total_collateral m.surplus_collateral m.total_coll_surplus
      m.protocol_collateral

module _ ⦃w : Wide⦄ ⦃programs : Programs⦄ where
  open programs use {move}

  -- The bond of a position is raised to the market's.
  unfoldable pub top_up_bond : World → Result Abort World
  top_up_bond s =
      let market_reserve = s.market.reserve_lamports in
      let posted = s.position.reserve_lamports in
      if ltb posted market_reserve
      then (call (move (market_reserve - posted) s.owner_lamports s.position_lamports) >>= λ moved.
          ok (record s {
            position = record s.position { reserve_lamports = market_reserve };
            owner_lamports = moved.0;
            position_lamports = moved.1;
          }))
      else ok s

  unfoldable pub deposit : World → ℤ → ℕ → Result Abort World
  deposit s now amount = check (ltb 0 amount) FusdError.zero_amount >>= λ _.
      weighted s.position >>= λ old_weighted.
      call (move amount s.owner_coll s.coll_vault) >>= λ moved. accrue s.market now >>= λ m1.
      realize m1 s.position now >>= λ p1.
      or_overflow (checked_add u64_max p1.ink amount) >>= λ new_ink.
      or_overflow (checked_add u128_max m1.total_collateral amount) >>= λ total.
      reweight (record m1 { total_collateral = total }) (set_ink p1 new_ink) old_weighted >>= λ m2.
      set_stake m2 (set_ink p1 new_ink) >>= λ staked.
      top_up_bond (record s {
        market = staked.0;
        position = staked.1;
        owner_coll = moved.0;
        coll_vault = moved.1;
      })
      >>= λ s1. reconcile s1.bitmap s1.market s1.position s.position.recorded_debt >>= λ joined.
          sufficiency_of s1.market s1.coll_vault >>= λ _.
          ok (record s1 { bitmap = joined.0; position = joined.1 })

  -- The gates of `withdraw` on the position and on the market.
  unfoldable pub withdraw_health : Market → Position → ℕ → ℕ → Result Abort (Unit {0})
  withdraw_health m p slot new_ink =
      if ltb 0 p.recorded_debt
      then (check (ltb 0 m.spot) FusdError.oracle_unavailable >>= λ _.
          check (leb (slot - m.spot_updated_slot) max_price_staleness_slots) FusdError.stale_price
          >>= λ _.
              check (is_healthy new_ink p.recorded_debt m.spot m.mcr_bps)
                FusdError.below_min_collateral_ratio)
      else ok tt

  unfoldable pub withdraw_band : Market → ℕ → ℕ → Result Abort (Unit {0})
  withdraw_band m slot amount =
      if ltb 0 m.ccr_bps && not m.shutdown
      then (if ltb 0 m.spot && leb (slot - m.spot_updated_slot) max_price_staleness_slots
          then (or_overflow (checked_sub m.total_collateral amount) >>= λ post_collateral.
              check (not (tcr_below post_collateral m.agg_recorded_debt m.spot m.ccr_bps))
                FusdError.ccr_restricted)
          else ok tt)
      else ok tt

  unfoldable pub withdraw : World → ℤ → ℕ → ℕ → Result Abort World
  withdraw s now slot amount = check (ltb 0 amount) FusdError.zero_amount >>= λ _.
      weighted s.position >>= λ old_weighted. accrue s.market now >>= λ m1.
      realize m1 s.position now >>= λ p1.
      check (leb amount p1.ink) FusdError.insufficient_collateral >>= λ _.
      withdraw_health m1 p1 slot (p1.ink - amount) >>= λ _. withdraw_band m1 slot amount >>= λ _.
      call (move amount s.coll_vault s.owner_coll) >>= λ moved.
      or_overflow (checked_sub m1.total_collateral amount) >>= λ total.
      reweight (record m1 { total_collateral = total }) (set_ink p1 (p1.ink - amount)) old_weighted
      >>= λ m2. set_stake m2 (set_ink p1 (p1.ink - amount)) >>= λ staked.
          reconcile s.bitmap staked.0 staked.1 s.position.recorded_debt >>= λ joined.
          sufficiency_of staked.0 moved.0 >>= λ _. ok (record s {
            market = staked.0;
            position = joined.1;
            bitmap = joined.0;
            coll_vault = moved.0;
            owner_coll = moved.1;
          })

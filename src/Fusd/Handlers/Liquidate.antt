-- ===== src/Fusd/Handlers/Liquidate.antt =====
-- programs/fusd-core/src/instructions/liquidate.rs, with `draw_available` of global_backstop.rs and the
-- glue of programs/fusd-core/src/reactor.rs. A subtraction that would go below zero panics.
use fusion_core.Prelude.{
  ℕ, ◌-◌, ◌/◌, min, Bool, true, not, ◌&&◌, ◌||◌, Option, none, some, List, Result, ok, ok_or,
  map_err, ◌>>=◌, ◌==◌, ltb, leb, if◌then◌else◌, u64_max, u128_max, narrow, checked_add,
  checked_mul, checked_sub, saturating_add, saturating_mul,
}
use fusion_core.Prelude.Int.{ℤ}
use fusion_core.Wide.{Wide}
use fusion_core.Money.{mul_div_floor}
use fusion_core.Recovery.{Absorption, absorb}
use fusion_core.Redistribution.{redistribute}
use fusion_core.ReactorPool.{PoolState, ReactorError, offset}
use fusion_core.Fusd.Error.{FusdError, Abort, or_overflow, redist_error}
use fusion_core.Fusd.State.{Market, Position, RedemptionBitmap, set_ink}
use fusion_core.Fusd.Supply
use fusion_core.Fusd.Cdp.{is_healthy, seize_collateral}
use fusion_core.Fusd.Redist.{state, write_state}
use fusion_core.Fusd.Accrual.{accrue, realize, weighted, reweight}
use fusion_core.Fusd.Bucket.{reconcile}
use fusion_core.Fusd.Programs.{Programs, call}
use fusion_core.Fusd.Handlers.{max_price_staleness_slots}
use fusion_core.Fusd.Handlers.Collateral.{check, sufficiency_of}

-- `GlobalBackstopReserve`, its vault's balance, and whether the vault passed in is its vault.
pub record Backstop : Type 0 where
  pub draw_base_allowance : ℕ
  pub draw_k_bps : ℕ
  pub draw_ceiling_share_bps : ℕ
  pub draw_debt_share_bps : ℕ
  pub total_absorbed : ℕ
  pub balance : ℕ
  pub is_its_vault : Bool

-- The accounts of a liquidation: `pool` and `grid` are the Reactor Pool's, then come the balances
-- of the vaults, of the mint's supply, and the lamports.
pub record Scene : Type 0 where
  pub market : Market
  pub position : Position
  pub bitmap : RedemptionBitmap
  pub pool : PoolState
  pub grid : List ℕ
  pub backstop : Option Backstop
  pub coll_vault : ℕ
  pub liquidator_coll : ℕ
  pub reactor_fusd : ℕ
  pub reactor_coll : ℕ
  pub buffer_fusd : ℕ
  pub buffer_absorbed : ℕ
  pub supply : ℕ
  pub position_lamports : ℕ
  pub liquidator_lamports : ℕ

abbrev pub reactor_max_scales : ℕ
reactor_max_scales = 16

abbrev pub shutdown_reason_unhomed_bad_debt : ℕ
shutdown_reason_unhomed_bad_debt = 3

-- `map_err` of programs/fusd-core/src/reactor.rs
unfoldable pub reactor_error : ReactorError → FusdError
reactor_error ReactorError.no_deposits = FusdError.reactor_pool_too_small
reactor_error ReactorError.debt_exceeds_deposits = FusdError.reactor_pool_too_small
reactor_error ReactorError.scale_overflow = FusdError.reactor_grid_exhausted
reactor_error ReactorError.epoch_overflow = FusdError.reactor_grid_exhausted
reactor_error ReactorError.math = FusdError.math_overflow

unfoldable pub draw_available : Backstop → ℕ → ℕ → ℕ → ℕ → ℕ
draw_available reserve contributed drawn market_debt reserve_balance =
    let contribution_arm =
      saturating_add u128_max reserve.draw_base_allowance
        (saturating_mul u128_max contributed reserve.draw_k_bps / 10_000) in
    let ceiling_arm =
      saturating_mul u128_max reserve_balance reserve.draw_ceiling_share_bps / 10_000 in
    let debt_arm = saturating_mul u128_max market_debt reserve.draw_debt_share_bps / 10_000 in
    let cap = min (min contribution_arm ceiling_arm) debt_arm in min (cap - drawn) reserve_balance

-- The part of the reserve that the market may draw.
unfoldable pub global_available : Option Backstop → Market → Result Abort ℕ
global_available none m = ok 0
global_available (some bs) m = check bs.is_its_vault FusdError.invalid_recipient >>= λ _.
    ok (draw_available bs m.global_contributed m.global_drawn m.agg_recorded_debt bs.balance)

unfoldable pub liquidate_gates : Market → ℕ → Result Abort (Unit {0})
liquidate_gates m slot =
    check (ltb 0 m.spot && ltb 0 m.debt_spot) FusdError.oracle_unavailable >>= λ _.
    check (leb (slot - m.spot_updated_slot) max_price_staleness_slots) FusdError.stale_price
    >>= λ _. check (leb m.liq_grace_until slot) FusdError.liquidation_grace_period >>= λ _.
        check (leb m.liq_divergence_until slot) FusdError.oracle_divergent

-- The surplus of the collar, owed to the owner.
unfoldable pub book_surplus : Market → Position → ℕ → Result Abort (Market × Position)
book_surplus m p surplus_coll =
    if ltb 0 surplus_coll
    then (or_overflow (checked_add u64_max p.coll_surplus surplus_coll) >>= λ owed.
        or_overflow (checked_add u64_max m.total_coll_surplus surplus_coll) >>= λ total.
        ok (record m { total_coll_surplus = total }, record p { coll_surplus = owed }))
    else ok (m, p)

-- Tier 4: a debt without a home shuts the market down, for good.
unfoldable pub unhomed_tier : Market → ℕ → Market
unhomed_tier m debt =
    if ltb 0 debt
    then record m {
      shutdown = true;
      shutdown_reason =
          if m.shutdown_reason == 0 then shutdown_reason_unhomed_bad_debt else m.shutdown_reason;
    }
    else m

unfoldable pub take_snapshots : Market → Market
take_snapshots m = record m {
  total_stakes_snapshot = m.total_stakes;
  total_collateral_snapshot = if m.total_stakes == 0 then 0 else m.total_collateral;
}

unfoldable pub close_victim : Market → Position → Position
close_victim m p = record (set_ink (record p { recorded_debt = 0 }) 0) {
  stake = 0;
  reserve_lamports = 0;
  redist_l_coll_snapshot = m.l_coll;
  redist_l_art_snapshot = m.l_art;
}

module _ ⦃w : Wide⦄ ⦃programs : Programs⦄ where
  open programs use {move, destroy}

  unfoldable pub pay_gas_comp : Scene → ℕ → Result Abort Scene
  pay_gas_comp s gas_comp =
      if ltb 0 gas_comp
      then (or_overflow (narrow u64_max gas_comp) >>= λ n.
          call (move n s.coll_vault s.liquidator_coll) >>= λ moved.
          ok (record s { coll_vault = moved.0; liquidator_coll = moved.1 }))
      else ok s

  -- Tier 1: the pool pays `debt` and gets `coll`.
  unfoldable pub move_to_pool : Scene → ℕ → Result Abort Scene
  move_to_pool s coll =
      if ltb 0 coll
      then (or_overflow (narrow u64_max coll) >>= λ n.
          call (move n s.coll_vault s.reactor_coll) >>= λ moved.
          ok (record s { coll_vault = moved.0; reactor_coll = moved.1 }))
      else ok s

  unfoldable pub reactor_tier : Scene → ℕ → ℕ → Result Abort Scene
  reactor_tier s debt coll =
      if ltb 0 debt
      then (map_err (λ e. Abort.error (reactor_error e))
            (offset s.pool s.grid reactor_max_scales debt coll)
          >>= λ pool. or_overflow (narrow u64_max debt) >>= λ n.
              call (destroy n s.supply s.reactor_fusd) >>= λ burned.
              move_to_pool
                (record s {
                  pool = pool.0;
                  grid = pool.1;
                  supply = burned.0;
                  reactor_fusd = burned.1;
                })
                coll)
      else ok s

  -- Tier 2.
  unfoldable pub redistribution_tier : Scene → ℕ → ℕ → Result Abort Scene
  redistribution_tier s debt coll =
      let (r, st) = redistribute (state s.market) s.market.total_stakes coll debt in
      map_err (λ e. Abort.error (redist_error e)) r >>= λ _.
      let m = write_state s.market st in
      or_overflow (checked_add u128_max m.total_collateral coll) >>= λ total.
      ok (record s { market = record m { total_collateral = total } })

  -- Tier 3: the insurance buffer.
  unfoldable pub buffer_tier : Scene → ℕ → Result Abort Scene
  buffer_tier s debt =
      if ltb 0 debt
      then (or_overflow (narrow u64_max debt) >>= λ n.
          call (destroy n s.supply s.buffer_fusd) >>= λ burned.
          or_overflow (checked_add u128_max s.buffer_absorbed debt) >>= λ absorbed.
          ok (record s { supply = burned.0; buffer_fusd = burned.1; buffer_absorbed = absorbed }))
      else ok s

  -- Tier 3.5: the global reserve.
  unfoldable pub global_tier : Scene → ℕ → Result Abort Scene
  global_tier s debt =
      if ltb 0 debt
      then (or_overflow (narrow u64_max debt) >>= λ n. ok_or s.backstop Abort.panic >>= λ bs.
          call (destroy n s.supply bs.balance) >>= λ burned.
          or_overflow (checked_add u128_max s.market.global_drawn debt) >>= λ drawn.
          or_overflow (checked_add u128_max bs.total_absorbed debt) >>= λ absorbed. ok (record s {
            market = record s.market { global_drawn = drawn };
            backstop = some (record bs { balance = burned.1; total_absorbed = absorbed });
            supply = burned.0;
          }))
      else ok s

  unfoldable pub backstop_tiers : Scene → Absorption → ℕ → Result Abort Scene
  backstop_tiers s split coll_r = or_overflow (narrow u64_max coll_r) >>= λ n.
      or_overflow (checked_add u64_max s.market.protocol_collateral n) >>= λ owned.
      buffer_tier (record s { market = record s.market { protocol_collateral = owned } })
        split.buffer
      >>= λ s1. global_tier s1 split.global >>= λ s2.
          ok (record s2 { market = unhomed_tier s2.market split.unhomed })

  -- The tiers after the pool, with the collateral that is left.
  unfoldable pub later_tiers : Scene → Absorption → ℕ → Result Abort Scene
  later_tiers s split coll_r =
      if ltb 0 split.redist
      then redistribution_tier s split.redist coll_r
      else if ltb 0 split.buffer || (ltb 0 split.global || ltb 0 split.unhomed)
      then backstop_tiers s split coll_r
      else ok s

  -- The bond of the position goes to the liquidator.
  unfoldable pub pay_bond : Scene → Result Abort Scene
  pay_bond s =
      let bond = s.position.reserve_lamports in
      if ltb 0 bond
      then (ok_or (checked_sub s.position_lamports bond) Abort.program_error >>= λ left.
          ok_or (checked_add u64_max s.liquidator_lamports bond) Abort.program_error >>= λ paid.
          ok (record s { position_lamports = left; liquidator_lamports = paid }))
      else ok s

  -- The position is eligible, and leaves the market's totals.
  unfoldable pub remove_victim : Market → Position → Result Abort Market
  remove_victim m p = check (ltb 0 p.recorded_debt) FusdError.position_healthy >>= λ _.
      check (not (is_healthy p.ink p.recorded_debt m.debt_spot m.mcr_bps))
        FusdError.position_healthy
      >>= λ _. or_overflow (checked_sub m.total_stakes p.stake) >>= λ stakes.
          or_overflow (checked_sub m.total_collateral p.ink) >>= λ coll.
          ok (record m { total_stakes = stakes; total_collateral = coll })

  -- The split of the debt, and the market after the supply transition.
  unfoldable pub book_split : Scene → ℕ → Result Abort (Absorption × Market)
  book_split s debt =
      let m = s.market in
      global_available s.backstop m >>= λ available.
      let split =
        absorb debt s.pool.total_deposits (ltb 0 m.total_stakes) s.buffer_fusd available in
      or_overflow (
        Supply.liquidate m.agg_recorded_debt m.bad_debt split.reactor split.redist split.buffer
          split.global split.unhomed)
      >>= λ sd. ok (split, record m { agg_recorded_debt = sd.new_agg; bad_debt = sd.new_bad })

  -- The close of a liquidation, after the tiers.
  unfoldable pub finish : Scene → ℕ → ℕ → Result Abort Scene
  finish s old_weighted art_before =
      pay_bond (record s { market = take_snapshots s.market }) >>= λ s1.
      let p = close_victim s1.market s1.position in
      reweight s1.market p old_weighted >>= λ m. reconcile s1.bitmap m p art_before >>= λ left.
      sufficiency_of m s1.coll_vault >>= λ _.
      ok (record s1 { market = m; position = left.1; bitmap = left.0 })

  unfoldable pub liquidate : Scene → ℤ → ℕ → Result Abort Scene
  liquidate s now slot = accrue s.market now >>= λ m1. liquidate_gates m1 slot >>= λ _.
      weighted s.position >>= λ old_weighted. realize m1 s.position now >>= λ p1.
      remove_victim m1 p1 >>= λ m2.
      let debt = p1.recorded_debt in
      or_overflow (seize_collateral p1.ink debt m2.debt_spot m2.liq_bonus_bps) >>= λ seized.
      book_surplus m2 p1 seized.1 >>= λ owed.
      or_overflow (checked_mul u128_max seized.0 owed.0.liq_gas_comp_bps) >>= λ scaled.
      let gas_comp = scaled / 10_000 in
      ok_or (checked_sub seized.0 gas_comp) Abort.panic >>= λ distributable.
      book_split (record s { market = owed.0; position = owed.1 }) debt >>= λ booked.
      or_overflow (mul_div_floor distributable booked.0.reactor debt) >>= λ coll_sp.
      ok_or (checked_sub distributable coll_sp) Abort.panic >>= λ coll_r.
      pay_gas_comp (record s { market = booked.1; position = owed.1 }) gas_comp >>= λ s1.
      reactor_tier s1 booked.0.reactor coll_sp >>= λ s2.
      later_tiers s2 booked.0 coll_r >>= λ s3. finish s3 old_weighted s.position.recorded_debt

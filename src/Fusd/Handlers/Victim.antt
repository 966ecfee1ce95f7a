-- ===== src/Fusd/Handlers/Victim.antt =====
-- programs/fusd-core/src/instructions/liquidate.rs: who is liquidated, and what is left of the
-- position.
use fusion_core.Prelude.{
  ℕ, ◌/◌, ◌≡◌, ◌<◌, refl, ◌∙◌, Bool, true, false, not, ltb, ok, ok_or, arith, Returns, Returns-bind,
  Returns-skip, Returns-ok, u128_max, checked_mul, checked_sub,
}
use fusion_core.Prelude.Int.{ℤ}
use fusion_core.Wide.{Wide}
use fusion_core.Money.{mul_div_floor}
use fusion_core.Fusd.Error.{FusdError, Abort, or_overflow}
use fusion_core.Fusd.State.{Market, Position}
use fusion_core.Fusd.Cdp.{is_healthy, seize_collateral}
use fusion_core.Fusd.Accrual.{accrue, realize, weighted, reweight}
use fusion_core.Fusd.Bucket.{reconcile}
use fusion_core.Fusd.Programs.{Programs}
use fusion_core.Fusd.Handlers.Collateral.{check, sufficiency_of}
use fusion_core.Fusd.Handlers.Liquidate.{
  Scene, liquidate_gates, book_surplus, pay_gas_comp, reactor_tier, later_tiers, take_snapshots,
  pay_bond, close_victim, remove_victim, book_split, finish, liquidate,
}
use fusion_core.Fusd.Handlers.Safe.{set_ink-sets, reconcile-SameLoan, passed}

-- No collateral and no debt.
abbrev pub IsClosed : Position → Type 0
IsClosed p = (p.ink ≡ 0) × (p.recorded_debt ≡ 0)

close_victim-IsClosed : (m : Market) (p : Position) → IsClosed (close_victim m p)
unfolding close_victim
close_victim-IsClosed m p = set_ink-sets (record p { recorded_debt = 0 }) 0

-- The position owes a debt, with its interest and its gains, that its collateral does not cover at
-- the market's high price.
pub record IsUnhealthy ⦃w : Wide⦄ (s : Scene) (now : ℤ) : Type 0 where
  pub market : Market
  pub accrued : accrue s.market now ≡ ok market
  pub position : Position
  pub realized : realize market s.position now ≡ ok position
  pub owes : 0 < position.recorded_debt
  pub unhealthy :
      is_healthy position.ink position.recorded_debt market.debt_spot market.mcr_bps ≡ false

module _ ⦃w : Wide⦄ ⦃programs : Programs⦄ where
  finish-IsClosed :
      (s : Scene) (old before : ℕ)
      → Returns (λ (t : Scene). IsClosed t.position) (finish s old before)
  unfolding finish
  finish-IsClosed s old before =
      Returns-skip (pay_bond (record s { market = take_snapshots s.market })) _ (λ s1.
        let p = close_victim s1.market s1.position in
        let closed = close_victim-IsClosed s1.market s1.position in
        Returns-skip (reweight s1.market p old) _ (λ m.
          Returns-bind (reconcile s1.bitmap m p before) _ (reconcile-SameLoan s1.bitmap m p before)
            (λ left e. Returns-skip (sufficiency_of m s1.coll_vault) _ (λ _.
              Returns-ok (record s1 { market = m; position = left.1; bitmap = left.0 })
                (e.0 ∙ closed.0, e.1 ∙ closed.1)))))

  remove_victim-unhealthy :
      (m : Market) (p : Position)
      → Returns
          (λ _.
            (0 < p.recorded_debt)
            × (is_healthy p.ink p.recorded_debt m.debt_spot m.mcr_bps ≡ false))
          (remove_victim m p)
  unfolding remove_victim
  remove_victim-unhealthy m p =
      Returns-bind (check (ltb 0 p.recorded_debt) FusdError.position_healthy) _
        (passed (ltb 0 p.recorded_debt) FusdError.position_healthy)
        (λ _ owes.
          Returns-bind
            (check (not (is_healthy p.ink p.recorded_debt m.debt_spot m.mcr_bps))
              FusdError.position_healthy)
            _
            (passed (not (is_healthy p.ink p.recorded_debt m.debt_spot m.mcr_bps))
              FusdError.position_healthy)
            (λ _ bad. record { holds = λ m' e. (ground arith, not_true _ bad) }))
    where
      not_true : (b : Bool) → not b ≡ true → b ≡ false
      not_true true h = cc
      not_true false h = refl

  -- A liquidation returns only for a position that owes a debt and is unhealthy at the market's high
  -- price, and leaves it without collateral and without debt.
  pub liquidate-IsClosed :
      (s : Scene) (now : ℤ) (slot : ℕ)
      → Returns (λ (t : Scene). IsUnhealthy s now × IsClosed t.position) (liquidate s now slot)
  unfolding liquidate
  liquidate-IsClosed s now slot =
      Returns-bind (accrue s.market now) _ (record { holds = λ m e. e })
        (λ m1 e1. Returns-skip (liquidate_gates m1 slot) _ (λ _.
          Returns-skip (weighted s.position) _ (λ old_weighted.
            Returns-bind (realize m1 s.position now) _ (record { holds = λ p e. e })
              (λ p1 e2.
                Returns-bind (remove_victim m1 p1) _ (remove_victim-unhealthy m1 p1) (λ m2 e3.
                  let debt = p1.recorded_debt in
                  Returns-skip
                    (or_overflow (seize_collateral p1.ink debt m2.debt_spot m2.liq_bonus_bps)) _
                    (λ seized. Returns-skip (book_surplus m2 p1 seized.1) _ (λ owed.
                      Returns-skip
                        (or_overflow (checked_mul u128_max seized.0 owed.0.liq_gas_comp_bps)) _
                        (λ scaled.
                          let gas = scaled / 10_000 in
                          Returns-skip (ok_or (checked_sub seized.0 gas) Abort.panic) _
                            (λ distributable.
                              let s0 = record s { market = owed.0; position = owed.1 } in
                              Returns-skip (book_split s0 debt) _ (λ booked.
                                Returns-skip
                                  (or_overflow (mul_div_floor distributable booked.0.reactor debt))
                                  _
                                  (λ coll_sp.
                                    Returns-skip
                                      (ok_or (checked_sub distributable coll_sp) Abort.panic) _
                                      (λ coll_r.
                                        Returns-skip
                                          (pay_gas_comp
                                            (record s { market = booked.1; position = owed.1 }) gas)
                                          _
                                          (λ s2.
                                            Returns-skip (reactor_tier s2 booked.0.reactor coll_sp)
                                              _
                                              (λ s3.
                                                Returns-skip (later_tiers s3 booked.0 coll_r) _
                                                  (λ s4.
                                                    let unhealthy : IsUnhealthy s now = record {
                                                      market = m1;
                                                      accrued = e1;
                                                      position = p1;
                                                      realized = e2;
                                                      owes = e3.0;
                                                      unhealthy = e3.1;
                                                    } in
                                                    record {
                                                      holds = λ t e. (
                                                        unhealthy,
                                                        (finish-IsClosed s4 old_weighted
                                                            s.position.recorded_debt).holds
                                                            t e,
                                                      );
                                                    })))))))))))))))

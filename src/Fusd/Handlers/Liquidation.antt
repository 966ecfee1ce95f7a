-- ===== src/Fusd/Handlers/Liquidation.antt =====
-- programs/fusd-core/src/instructions/liquidate.rs: a whole liquidation.
use fusion_core.Prelude.{
  ℕ, ◌+◌, ◌/◌, ◌≡◌, ◌≤◌, ◌<◌, refl, not, inl, inr, Bool-cases, ltb, ok, ok_or, arith, Returns,
  Returns-bind, Returns-skip, Returns-ok, u64_max, u128_max, checked_add, checked_mul, checked_sub,
  ok_or-eq-ok,
}
use fusion_core.Prelude.Int.{ℤ}
use fusion_core.Wide.{Wide}
use fusion_core.Money.{mul_div_floor}
use fusion_core.Recovery.{Absorption, absorb}
use fusion_core.Fusd.Error.{FusdError, Abort, or_overflow}
use fusion_core.Fusd.State.{Market, Position}
use fusion_core.Fusd.Supply
use fusion_core.Fusd.Supply.{LiquidateDelta}
use fusion_core.Fusd.Supply.Identity.{liquidate-eq_some}
use fusion_core.Fusd.Cdp.{is_healthy, seize_collateral}
use fusion_core.Fusd.Cdp.Collar.{seize_conserves}
use fusion_core.Fusd.Accrual.{accrue, realize, weighted}
use fusion_core.Fusd.Programs.{Programs}
use fusion_core.Fusd.Calls.{sum_of, left_over}
use fusion_core.Fusd.Handlers.Collateral.{check}
use fusion_core.Fusd.Handlers.Liquidate.{
  Scene, global_available, liquidate_gates, book_surplus, pay_gas_comp, reactor_tier, later_tiers,
  remove_victim, book_split, liquidate,
}
use fusion_core.Fusd.Handlers.Books.{books_of, fields, accrue-Accrued}
use fusion_core.Fusd.Handlers.Waterfall.{
  IsSplit, absorb-IsSplit, pay_gas_comp-IsOpen, reactor_tier-IsOpen,
}
use fusion_core.Fusd.Handlers.Fits.{pool_share, realize-fits}
use fusion_core.Fusd.Handlers.Closing.{IsSound, later_tiers-IsOpen, finish-IsSound}

module _ ⦃w : Wide⦄ ⦃programs : Programs⦄ (others donated : ℕ) where
  abbrev Removed : Market → Position → Market → Type 0
  Removed m p m' =
      (0 < p.recorded_debt)
      × ((coll : ℕ) × (books_of m' ≡ record (books_of m) { collateral = coll })
          × (coll + p.ink ≡ m.total_collateral))

  remove_victim-Removed : (m : Market) (p : Position) → Returns (Removed m p) (remove_victim m p)
  unfolding remove_victim
  remove_victim-Removed m p =
      Returns-bind (check (ltb 0 p.recorded_debt) FusdError.position_healthy) _
        (record { holds = λ _ e. owes p.recorded_debt e })
        (λ _ pos.
          Returns-skip
            (check (not (is_healthy p.ink p.recorded_debt m.debt_spot m.mcr_bps))
              FusdError.position_healthy)
            _
            (λ _. Returns-skip (or_overflow (checked_sub m.total_stakes p.stake)) _ (λ stakes.
              Returns-bind (or_overflow (checked_sub m.total_collateral p.ink)) _
                (left_over m.total_collateral p.ink _)
                (λ coll e.
                  Returns-ok (record m { total_stakes = stakes; total_collateral = coll })
                    (pos, (coll, refl, e))))))
    where
      owes : (d : ℕ) → check (ltb 0 d) FusdError.position_healthy ≡ ok tt → 0 < d
      owes d e = ground arith

  book_surplus-books :
      (m : Market) (p : Position) (n : ℕ)
      → Returns
          (λ (r : Market × Position).
            (total : ℕ) × (books_of r.0 ≡ record (books_of m) { coll_surplus = total })
            × (total ≡ m.total_coll_surplus + n))
          (book_surplus m p n)
  unfolding book_surplus
  book_surplus-books m p n = elim (Bool-cases (ltb 0 n)) [
    | inl some_left ↦ rw some_left (
        Returns-skip (or_overflow (checked_add u64_max p.coll_surplus n)) _ (λ owed.
          Returns-bind (or_overflow (checked_add u64_max m.total_coll_surplus n)) _
            (sum_of u64_max _ _)
            (λ total e.
              Returns-ok (record m { total_coll_surplus = total }, record p { coll_surplus = owed })
                (total, refl, e))))
    | inr none_left ↦
        let zero_left : n ≡ 0 = ground arith in
        rw none_left (Returns-ok (m, p) (m.total_coll_surplus, refl, omega (arith, zero_left)))
  ]

  abbrev Booked : Market → ℕ → Absorption × Market → Type 0
  Booked m debt r =
      IsSplit r.0 debt
      × ((agg bad : ℕ) × (books_of r.1 ≡ record (books_of m) { agg = agg; bad = bad })
          × (agg + (r.0.reactor + r.0.buffer + r.0.global) + r.0.unhomed ≡ m.agg_recorded_debt)
          × (bad ≡ m.bad_debt + r.0.unhomed))

  book_split-Booked : (s : Scene) (debt : ℕ) → Returns (Booked s.market debt) (book_split s debt)
  unfolding book_split
  book_split-Booked s debt =
      let m = s.market in
      Returns-skip (global_available s.backstop m) _ (λ available.
        let split =
          absorb debt s.pool.total_deposits (ltb 0 m.total_stakes) s.buffer_fusd available in
        Returns-bind
          (or_overflow (
            Supply.liquidate m.agg_recorded_debt m.bad_debt split.reactor split.redist split.buffer
              split.global split.unhomed))
          _
          (record {
            holds = λ d e.
                liquidate-eq_some m.agg_recorded_debt m.bad_debt split.reactor split.redist
                  split.buffer split.global split.unhomed d (ok_or-eq-ok _ _ e);
          })
          (λ sd e.
            Returns-ok (split, record m { agg_recorded_debt = sd.new_agg; bad_debt = sd.new_bad })
              (
                absorb-IsSplit debt s.pool.total_deposits (ltb 0 m.total_stakes) s.buffer_fusd
                    available,
                (sd.new_agg, sd.new_bad, refl, e.0, e.1),
              )))

  -- For a position whose collateral has 64 bits, a liquidation that returns keeps the supply
  -- identity and the vault identity: the tiers burn the fUSD that the supply transition took
  -- from the debt, and all of the collateral is paid out or counted.
  pub liquidate-IsSound :
      (s : Scene) (now : ℤ) (slot : ℕ)
      → s.position.ink ≤ u64_max
      → IsSound others donated s
      → Returns (IsSound others donated) (liquidate s now slot)
  unfolding liquidate
  liquidate-IsSound s now slot fits h =
      Returns-bind (accrue s.market now) _ (accrue-Accrued s.market now) (λ m1 e1.
        Returns-skip (liquidate_gates m1 slot) _ (λ _.
          Returns-skip (weighted s.position) _ (λ old_weighted.
            Returns-bind (realize m1 s.position now) _ (realize-fits m1 s.position now fits)
              (λ p1 e2. Returns-bind (remove_victim m1 p1) _ (remove_victim-Removed m1 p1) (λ m2 e3.
                let debt = p1.recorded_debt in
                Returns-bind
                  (or_overflow (seize_collateral p1.ink debt m2.debt_spot m2.liq_bonus_bps)) _
                  (record {
                    holds = λ r e.
                        seize_conserves p1.ink debt m2.debt_spot m2.liq_bonus_bps r.0 r.1
                          (ok_or-eq-ok _ _ e);
                  })
                  (λ seized e4.
                    Returns-bind (book_surplus m2 p1 seized.1) _ (book_surplus-books m2 p1 seized.1)
                      (λ owed e5.
                        Returns-skip
                          (or_overflow (checked_mul u128_max seized.0 owed.0.liq_gas_comp_bps)) _
                          (λ scaled.
                            let gas = scaled / 10_000 in
                            Returns-bind (ok_or (checked_sub seized.0 gas) Abort.panic) _
                              (left_over seized.0 gas _)
                              (λ distributable e6.
                                let s0 = record s { market = owed.0; position = owed.1 } in
                                Returns-bind (book_split s0 debt) _ (book_split-Booked s0 debt)
                                  (λ booked e7.
                                    Returns-bind
                                      (or_overflow
                                        (mul_div_floor distributable booked.0.reactor debt))
                                      _
                                      (record {
                                        holds = λ q e.
                                            pool_share distributable debt booked.0.reactor
                                              (omega (arith, e2, e4, e6)) e2.1
                                              (omega (arith, e7.0.conserves)) (ok_or-eq-ok _ _ e);
                                      })
                                      (λ coll_sp e8.
                                        Returns-bind
                                          (ok_or (checked_sub distributable coll_sp) Abort.panic) _
                                          (left_over distributable coll_sp _)
                                          (λ coll_r e9.
                                            let s1 = record s {
                                              market = booked.1;
                                              position = owed.1;
                                            } in
                                            let burn =
                                              booked.0.reactor
                                              + (booked.0.buffer + booked.0.global) in
                                            Returns-bind (pay_gas_comp s1 gas) _
                                              (pay_gas_comp-IsOpen others donated s1 gas burn
                                                (coll_sp + coll_r)
                                                (omega (
                                                  arith,
                                                  h.supplied,
                                                  h.vaulted,
                                                  fields e1.1,
                                                  fields e3.1.1,
                                                  e3.1.2,
                                                  e4,
                                                  fields e5.1,
                                                  e5.2,
                                                  e6,
                                                  fields e7.1.2,
                                                  e7.1.3,
                                                  e7.1.4,
                                                  e9,
                                                )))
                                              (λ s2 h2.
                                                Returns-bind
                                                  (reactor_tier s2 booked.0.reactor coll_sp) _
                                                  (reactor_tier-IsOpen others donated s2
                                                    booked.0.reactor coll_sp
                                                    (booked.0.buffer + booked.0.global) coll_r e8.0
                                                    h2)
                                                  (λ s3 h3.
                                                    Returns-bind (later_tiers s3 booked.0 coll_r) _
                                                      (later_tiers-IsOpen others donated s3 booked.0
                                                        debt coll_r e7.0
                                                        (λ z. omega (arith, e8.1 z, e9)) h3)
                                                      (λ s4 h4.
                                                        finish-IsSound others donated s4
                                                          old_weighted s.position.recorded_debt
                                                          h4)))))))))))))))

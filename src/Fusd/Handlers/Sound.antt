-- ===== src/Fusd/Handlers/Sound.antt =====
-- programs/fusd-core/src/instructions/deposit.rs, withdraw.rs, borrow.rs and repay.rs: the supply
-- identity, and the identity of the collateral vault and the market's counters.
use fusion_core.Prelude.{
  ℕ, ◌+◌, ◌-◌, ◌≡◌, refl, inl, inr, Bool-cases, ltb, leb, ◌==◌, ◌||◌, arith, Returns, Returns-bind,
  Returns-skip, Returns-ok, u64_max, u128_max, checked_add, checked_sub, ok_or-eq-ok,
}
use fusion_core.Prelude.Int.{ℤ}
use fusion_core.Wide.{Wide}
use fusion_core.Fusd.Error.{FusdError, or_overflow}
use fusion_core.Fusd.State.{Market, Position, set_ink}
use fusion_core.Fusd.Redist.{set_stake}
use fusion_core.Fusd.Accrual.{accrue, realize, weighted, reweight}
use fusion_core.Fusd.Bucket.{reconcile}
use fusion_core.Fusd.Programs.{Programs, call}
use fusion_core.Fusd.Calls.{sum_of, difference_of, moves, issues, destroys}
use fusion_core.Fusd.Handlers.{World}
use fusion_core.Fusd.Handlers.Collateral.{
  check, sufficiency_of, top_up_bond, deposit, withdraw, withdraw_health, withdraw_band,
}
use fusion_core.Fusd.Handlers.Debt.{
  borrow, borrow_gates, borrow_fee, borrow_limits, consume_limit, restore_limit, repay, repay_debt,
}
use fusion_core.Fusd.Supply.{BorrowDelta, RepayDelta}
use fusion_core.Fusd.Supply
use fusion_core.Fusd.Supply.Identity.{borrow-eq_some, repay-eq_some}
use fusion_core.Fusd.Handlers.Books.{
  books_of, fields, accrue-Accrued, reweight-SameBooks, set_stake-SameBooks,
  consume_limit-SameBooks, restore_limit-SameBooks,
}

-- `others` is the fUSD that the mint issued for other markets, `donated` what the vault holds beyond
-- the market's four counters.
pub record IsSound (others donated : ℕ) (s : World) : Type 0 where
  pub supplied :
      s.supply + s.market.unminted_interest
      ≡ s.market.agg_recorded_debt + s.market.bad_debt + others
  pub vaulted :
      s.coll_vault
      ≡ s.market.total_collateral + s.market.surplus_collateral + s.market.total_coll_surplus
        + s.market.protocol_collateral + donated

module _ ⦃w : Wide⦄ ⦃programs : Programs⦄ where
  open programs use {move, issue, destroy}

  -- A top-up moves lamports only.
  top_up_bond-keeps :
      (s : World)
      → Returns
          (λ (t : World).
            (books_of t.market ≡ books_of s.market)
            × (t.supply ≡ s.supply)
            × (t.coll_vault ≡ s.coll_vault))
          (top_up_bond s)
  unfolding top_up_bond
  top_up_bond-keeps s =
      elim (Bool-cases (ltb s.position.reserve_lamports s.market.reserve_lamports)) [
        | inl low ↦ rw low (
            Returns-skip
              (call (
                move (s.market.reserve_lamports - s.position.reserve_lamports) s.owner_lamports
                  s.position_lamports))
              _ (λ moved. Returns-ok _ (refl, refl, refl)))
        | inr full ↦ rw full (Returns-ok s (refl, refl, refl))
      ]

  -- A deposit that returns keeps the supply identity of the fUSD and the identity of the
  -- collateral vault with the market's counters.
  pub deposit-IsSound :
      (s : World) (now : ℤ) (amount others donated : ℕ)
      → IsSound others donated s
      → Returns (IsSound others donated) (deposit s now amount)
  unfolding deposit
  deposit-IsSound s now amount others donated h =
      Returns-skip (check (ltb 0 amount) FusdError.zero_amount) _ (λ _.
        Returns-skip (weighted s.position) _ (λ old_weighted.
          Returns-bind (call (move amount s.owner_coll s.coll_vault)) _ (moves amount _ _)
            (λ moved e1.
              Returns-bind (accrue s.market now) _ (accrue-Accrued s.market now) (λ m1 e2.
                Returns-skip (realize m1 s.position now) _ (λ p1.
                  Returns-skip (or_overflow (checked_add u64_max p1.ink amount)) _ (λ new_ink.
                    Returns-bind (or_overflow (checked_add u128_max m1.total_collateral amount)) _
                      (sum_of u128_max _ _)
                      (λ total e3.
                        Returns-bind
                          (reweight (record m1 { total_collateral = total }) (set_ink p1 new_ink)
                            old_weighted)
                          _ (reweight-SameBooks _ _ _)
                          (λ m2 e4.
                            Returns-bind (set_stake m2 (set_ink p1 new_ink)) _
                              (set_stake-SameBooks _ _)
                              (λ staked e5.
                                Returns-bind
                                  (top_up_bond (record s {
                                    market = staked.0;
                                    position = staked.1;
                                    owner_coll = moved.0;
                                    coll_vault = moved.1;
                                  }))
                                  _ (top_up_bond-keeps _)
                                  (λ s1 e6.
                                    Returns-skip
                                      (reconcile s1.bitmap s1.market s1.position
                                        s.position.recorded_debt)
                                      _
                                      (λ joined.
                                        Returns-skip (sufficiency_of s1.market s1.coll_vault) _
                                          (λ _. Returns-ok _ (
                                            omega (
                                              arith,
                                              h.supplied,
                                              h.vaulted,
                                              e1,
                                              fields e2.1,
                                              e3,
                                              fields e4,
                                              fields e5,
                                              fields e6.0,
                                              e6.1,
                                            ))))))))))))))

  -- A withdrawal that returns keeps the supply identity of the fUSD and the identity of the
  -- collateral vault with the market's counters.
  pub withdraw-IsSound :
      (s : World) (now : ℤ) (slot amount others donated : ℕ)
      → IsSound others donated s
      → Returns (IsSound others donated) (withdraw s now slot amount)
  unfolding withdraw
  withdraw-IsSound s now slot amount others donated h =
      Returns-skip (check (ltb 0 amount) FusdError.zero_amount) _ (λ _.
        Returns-skip (weighted s.position) _ (λ old_weighted.
          Returns-bind (accrue s.market now) _ (accrue-Accrued s.market now) (λ m1 e1.
            Returns-skip (realize m1 s.position now) _ (λ p1.
              Returns-skip (check (leb amount p1.ink) FusdError.insufficient_collateral) _ (λ _.
                Returns-skip (withdraw_health m1 p1 slot (p1.ink - amount)) _ (λ _.
                  Returns-skip (withdraw_band m1 slot amount) _ (λ _.
                    Returns-bind (call (move amount s.coll_vault s.owner_coll)) _ (moves amount _ _)
                      (λ moved e2.
                        Returns-bind (or_overflow (checked_sub m1.total_collateral amount)) _
                          (difference_of _ _)
                          (λ total e3.
                            Returns-bind
                              (reweight (record m1 { total_collateral = total })
                                (set_ink p1 (p1.ink - amount)) old_weighted)
                              _ (reweight-SameBooks _ _ _)
                              (λ m2 e4.
                                Returns-bind (set_stake m2 (set_ink p1 (p1.ink - amount))) _
                                  (set_stake-SameBooks _ _)
                                  (λ staked e5.
                                    Returns-skip
                                      (reconcile s.bitmap staked.0 staked.1
                                        s.position.recorded_debt)
                                      _
                                      (λ joined.
                                        Returns-skip (sufficiency_of staked.0 moved.0) _ (λ _.
                                          Returns-ok _ (
                                            omega (
                                              arith,
                                              h.supplied,
                                              h.vaulted,
                                              fields e1.1,
                                              e2,
                                              e3,
                                              fields e4,
                                              fields e5,
                                            )))))))))))))))

  -- A borrowing that returns keeps the supply identity of the fUSD and the identity of the
  -- collateral vault with the market's counters.
  pub borrow-IsSound :
      (s : World) (now : ℤ) (slot amount others donated : ℕ)
      → IsSound others donated s
      → Returns (IsSound others donated) (borrow s now slot amount)
  unfolding borrow
  borrow-IsSound s now slot amount others donated h =
      Returns-skip (check (ltb 0 amount) FusdError.zero_amount) _ (λ _.
        Returns-skip (weighted s.position) _ (λ old_weighted.
          Returns-bind (accrue s.market now) _ (accrue-Accrued s.market now) (λ m1 e1.
            Returns-skip (realize m1 s.position now) _ (λ p1.
              Returns-skip (borrow_gates m1 now slot) _ (λ _.
                Returns-skip (borrow_fee m1 amount) _ (λ fee.
                  Returns-bind
                    (or_overflow
                      (Supply.borrow m1.agg_recorded_debt m1.unminted_interest amount fee))
                    _ (record { holds = λ d e. borrow-eq_some _ _ _ _ d (ok_or-eq-ok _ _ e) })
                    (λ d e2.
                      Returns-skip
                        (or_overflow (checked_add u128_max p1.recorded_debt d.debt_delta)) _
                        (λ new_debt. Returns-skip (borrow_limits m1 p1 new_debt d.new_agg) _ (λ _.
                          Returns-bind (consume_limit m1 now amount) _
                            (consume_limit-SameBooks m1 now amount)
                            (λ m2 e3.
                              let p2 = record p1 { recorded_debt = new_debt } in
                              let m' = record m2 {
                                agg_recorded_debt = d.new_agg;
                                unminted_interest = d.new_unminted;
                              } in
                              Returns-bind (reweight m' p2 old_weighted) _
                                (reweight-SameBooks m' p2 old_weighted)
                                (λ m3 e4.
                                  Returns-bind (set_stake m3 p2) _ (set_stake-SameBooks m3 p2)
                                    (λ staked e5.
                                      Returns-bind (call (issue amount s.supply s.owner_fusd)) _
                                        (issues amount _ _)
                                        (λ issued e6.
                                          Returns-skip
                                            (reconcile s.bitmap staked.0 staked.1
                                              s.position.recorded_debt)
                                            _
                                            (λ joined. Returns-ok _ (
                                              omega (
                                                arith,
                                                h.supplied,
                                                h.vaulted,
                                                fields e1.1,
                                                e2,
                                                fields e3,
                                                fields e4,
                                                fields e5,
                                                e6,
                                              ))))))))))))))))

  repay_debt-IsSound :
      (s : World) (m1 : Market) (p1 : Position) (old_weighted : ℕ) (now : ℤ)
      (amount others donated : ℕ)
      → IsSound others donated (record s { market = m1 })
      → Returns (IsSound others donated) (repay_debt s m1 p1 old_weighted now amount)
  unfolding repay_debt
  repay_debt-IsSound s m1 p1 old_weighted now amount others donated h =
      Returns-bind (or_overflow (Supply.repay m1.agg_recorded_debt p1.recorded_debt amount)) _
        (record { holds = λ d e. repay-eq_some _ _ _ d (ok_or-eq-ok _ _ e) })
        (λ d e2.
          Returns-skip
            (check
              (m1.min_debt == 0
                || (d.new_position_debt == 0 || leb m1.min_debt d.new_position_debt))
              FusdError.debt_below_minimum)
            _
            (λ _.
              Returns-bind (call (destroy d.burn s.supply s.owner_fusd)) _ (destroys d.burn _ _)
                (λ burned e3.
                  let p2 = record p1 { recorded_debt = d.new_position_debt } in
                  let m' = record m1 { agg_recorded_debt = d.new_agg } in
                  Returns-bind (reweight m' p2 old_weighted) _
                    (reweight-SameBooks m' p2 old_weighted)
                    (λ m2 e4.
                      Returns-bind (set_stake m2 p2) _ (set_stake-SameBooks m2 p2) (λ staked e5.
                        Returns-skip
                          (reconcile s.bitmap (restore_limit staked.0 now d.burn) staked.1
                            s.position.recorded_debt)
                          _
                          (λ joined. Returns-ok _ (
                            omega (
                              arith,
                              h.supplied,
                              h.vaulted,
                              e2,
                              e3,
                              fields e4,
                              fields e5,
                              fields (restore_limit-SameBooks staked.0 now d.burn),
                            ))))))))

  -- A repayment that returns keeps the supply identity of the fUSD and the identity of the
  -- collateral vault with the market's counters.
  pub repay-IsSound :
      (s : World) (now : ℤ) (amount others donated : ℕ)
      → IsSound others donated s
      → Returns (IsSound others donated) (repay s now amount)
  unfolding repay
  repay-IsSound s now amount others donated h =
      Returns-skip (check (ltb 0 amount) FusdError.zero_amount) _ (λ _.
        Returns-skip (weighted s.position) _ (λ old_weighted.
          Returns-bind (accrue s.market now) _ (accrue-Accrued s.market now) (λ m1 e1.
            Returns-skip (realize m1 s.position now) _ (λ p1.
              elim (Bool-cases (p1.recorded_debt == 0)) [
                | inl clear ↦ rw clear (
                    Returns-bind (set_stake m1 p1) _ (set_stake-SameBooks m1 p1) (λ staked e2.
                      Returns-ok _ (omega (arith, h.supplied, h.vaulted, fields e1.1, fields e2))))
                | inr owes ↦ rw owes (
                    repay_debt-IsSound s m1 p1 old_weighted now amount others donated
                      (omega (arith, h.supplied, h.vaulted, fields e1.1)))
              ]))))

-- ===== src/Fusd/Handlers/Safe.antt =====
-- programs/fusd-core/src/instructions/borrow.rs and withdraw.rs: what holds of a position that took
-- on debt or gave up collateral.
use fusion_core.Prelude.{
  ℕ, ◌-◌, ◌≡◌, ◌≤◌, ◌≢◌, ◌⊎◌, refl, ap, ◌∙◌, Bool, true, false, inl, inr, Bool-cases, ltb, leb,
  ◌==◌, ◌||◌, Option, none, some, arith, Returns, Returns-bind, Returns-skip, Returns-ok,
  Returns-and, u128_max, checked_add, checked_sub, map_err, bind_some,
}
use fusion_core.Prelude.Int.{ℤ}
use fusion_core.Wide.{Wide}
use fusion_core.Fusd.Error.{FusdError, Abort, or_overflow, redist_error}
use fusion_core.Redistribution
use fusion_core.Fusd.State.{Market, Position, RedemptionBitmap, set_ink}
use fusion_core.Fusd.Redist.{set_stake}
use fusion_core.Fusd.Cdp.{is_healthy}
use fusion_core.Fusd.Accrual.{accrue, realize, weighted, reweight}
use fusion_core.Fusd.Bucket.{reconcile, move_member, target, add_member, remove_member}
use fusion_core.Fusd.Programs.{Programs, call}
use fusion_core.Fusd.Handlers.{World, max_price_staleness_slots}
use fusion_core.Fusd.Handlers.Collateral.{
  check, sufficiency_of, withdraw, withdraw_health, withdraw_band,
}
use fusion_core.Fusd.Handlers.Debt.{borrow, borrow_gates, borrow_fee, borrow_limits, consume_limit}
use fusion_core.Fusd.Supply.{BorrowDelta}
use fusion_core.Fusd.Supply
use fusion_core.Fusd.Handlers.Books.{
  Books, fields, reweight-SameBooks, set_stake-SameBooks, consume_limit-SameBooks,
}

-- the same collateral and the same debt
abbrev pub SameLoan : Position → Position → Type 0
SameLoan p p' = (p'.ink ≡ p.ink) × (p'.recorded_debt ≡ p.recorded_debt)

pub passed : (b : Bool) (e : FusdError) → Returns (λ _. b ≡ true) (check b e)
passed true e = record { holds = λ a h. refl }
passed false e = record { holds = λ a h. cc }

move_member-SameLoan :
    (bm : RedemptionBitmap) (p : Position) (b : Bool) (o : Option ℕ)
    → Returns (λ (r : RedemptionBitmap × Position). SameLoan p r.1) (move_member bm p b o)
unfolding move_member
move_member-SameLoan bm p false none = Returns-ok _ (refl, refl)
move_member-SameLoan bm p false (some new) =
    Returns-skip (add_member bm new) _ (λ bm'. Returns-ok _ (refl, refl))
move_member-SameLoan bm p true none =
    Returns-skip (remove_member bm p.bucket) _ (λ bm'. Returns-ok _ (refl, refl))
move_member-SameLoan bm p true (some new) = elim (Bool-cases (p.bucket == new)) [
  | inl same ↦ rw same (Returns-ok _ (refl, refl))
  | inr other ↦ rw other (
      Returns-skip (remove_member bm p.bucket) _
        (λ bm1. Returns-skip (add_member bm1 new) _ (λ bm2. Returns-ok _ (refl, refl))))
]

pub reconcile-SameLoan :
    (bm : RedemptionBitmap) (m : Market) (p : Position) (before : ℕ)
    → Returns (λ (r : RedemptionBitmap × Position). SameLoan p r.1) (reconcile bm m p before)
unfolding reconcile
reconcile-SameLoan bm m p before = move_member-SameLoan bm p (ltb 0 before) (target m p)

-- A debt is covered at the market's price, at or above the floor, and within the ceiling.
pub record IsSafe ⦃w : Wide⦄ (s : World) : Type 0 where
  pub healthy :
      is_healthy s.position.ink s.position.recorded_debt s.market.spot s.market.mcr_bps ≡ true
  pub floor : (s.market.min_debt ≡ 0) ⊎ (s.market.min_debt ≤ s.position.recorded_debt)
  pub ceiling : s.market.agg_recorded_debt ≤ s.market.debt_ceiling

healthy_same :
    ⦃w : Wide⦄ {i i' d d' s s' m m' : ℕ}
    → i' ≡ i
    → d' ≡ d
    → s' ≡ s
    → m' ≡ m
    → is_healthy i d s m ≡ true
    → is_healthy i' d' s' m' ≡ true
healthy_same e1 e2 e3 e4 h = rw (e1, e2, e3, e4) h

floor_at : {f f1 f2 d d' : ℕ} → f2 ≡ f1 → f1 ≡ f → d' ≡ d → (f ≡ 0) ⊎ (f ≤ d) → (f2 ≡ 0) ⊎ (f2 ≤ d')
floor_at e1 e2 e3 h = ground arith

pub set_ink-sets :
    (p : Position) (x : ℕ)
    → ((set_ink p x).ink ≡ x) × ((set_ink p x).recorded_debt ≡ p.recorded_debt)
unfolding set_ink
set_ink-sets p x = elim (Bool-cases (x == p.ink)) [
  | inl same ↦ rw same (ground arith, refl)
  | inr other ↦ rw other (refl, refl)
]

module _ ⦃w : Wide⦄ ⦃programs : Programs⦄ where
  open programs use {move, issue}

  set_stake-SameLoan :
      (m : Market) (p : Position)
      → Returns (λ (r : Market × Position). SameLoan p r.1) (set_stake m p)
  unfolding set_stake
  set_stake-SameLoan m p =
      Returns-skip
        (map_err (λ e. Abort.error (redist_error e))
          (Redistribution.compute_stake p.ink m.total_stakes_snapshot m.total_collateral_snapshot))
        _
        (λ new.
          Returns-skip
            (or_overflow
              (bind_some (checked_sub m.total_stakes p.stake) (λ t. checked_add u128_max t new)))
            _
            (λ total.
              Returns-ok (record m { total_stakes = total }, record p { stake = new })
                (refl, refl)))

  limits_met :
      (m : Market) (p : Position) (debt agg : ℕ)
      → Returns
          (λ _.
            (is_healthy p.ink debt m.spot m.mcr_bps ≡ true)
            × ((m.min_debt ≡ 0) ⊎ (m.min_debt ≤ debt))
            × (agg ≤ m.debt_ceiling))
          (borrow_limits m p debt agg)
  unfolding borrow_limits
  limits_met m p debt agg = Returns-bind _ _ (passed _ _) (λ _ healthy.
      Returns-bind _ _ (passed (m.min_debt == 0 || leb m.min_debt debt) _) (λ _ floor.
        Returns-bind _ _ (passed (leb agg m.debt_ceiling) _)
          (λ _ ceiling. record { holds = λ a e. (healthy, ground arith, ground arith) })))

  health_met :
      (m : Market) (p : Position) (slot ink : ℕ)
      → Returns
          (λ _. p.recorded_debt ≢ 0 → is_healthy ink p.recorded_debt m.spot m.mcr_bps ≡ true)
          (withdraw_health m p slot ink)
  unfolding withdraw_health
  health_met m p slot ink = elim (Bool-cases (ltb 0 p.recorded_debt)) [
    | inl owes ↦ rw owes (
        Returns-skip (check (ltb 0 m.spot) FusdError.oracle_unavailable) _ (λ _.
          Returns-skip
            (check (leb (slot - m.spot_updated_slot) max_price_staleness_slots)
              FusdError.stale_price)
            _
            (λ _. record {
              holds = λ a e h.
                  (passed (is_healthy ink p.recorded_debt m.spot m.mcr_bps)
                      FusdError.below_min_collateral_ratio).holds
                    a e;
            })))
    | inr clear ↦ rw clear (record { holds = λ a e h. absurd (h (ground arith)) })
  ]

  -- A borrowing that returns leaves the position healthy at the market's price, its debt with
  -- the fee at or above the floor, and the market's debt within the ceiling.
  pub borrow-IsSafe :
      (s : World) (now : ℤ) (slot amount : ℕ) → Returns IsSafe (borrow s now slot amount)
  unfolding borrow
  borrow-IsSafe s now slot amount =
      Returns-skip (check (ltb 0 amount) FusdError.zero_amount) _ (λ _.
        Returns-skip (weighted s.position) _ (λ old_weighted.
          Returns-skip (accrue s.market now) _ (λ m1.
            Returns-skip (realize m1 s.position now) _ (λ p1.
              Returns-skip (borrow_gates m1 now slot) _ (λ _.
                Returns-skip (borrow_fee m1 amount) _ (λ fee.
                  Returns-skip
                    (or_overflow
                      (Supply.borrow m1.agg_recorded_debt m1.unminted_interest amount fee))
                    _
                    (λ d.
                      Returns-skip
                        (or_overflow (checked_add u128_max p1.recorded_debt d.debt_delta)) _
                        (λ new_debt.
                          Returns-bind (borrow_limits m1 p1 new_debt d.new_agg) _
                            (limits_met m1 p1 _ _)
                            (λ _ met.
                              Returns-bind (consume_limit m1 now amount) _
                                (consume_limit-SameBooks m1 now amount)
                                (λ m2 e3.
                                  let p2 = record p1 { recorded_debt = new_debt } in
                                  let m' = record m2 {
                                    agg_recorded_debt = d.new_agg;
                                    unminted_interest = d.new_unminted;
                                  } in
                                  Returns-bind (reweight m' p2 old_weighted) _
                                    (reweight-SameBooks m' p2 old_weighted)
                                    (λ m3 e4.
                                      Returns-bind (set_stake m3 p2) _
                                        (Returns-and (set_stake-SameBooks m3 p2)
                                          (set_stake-SameLoan m3 p2))
                                        (λ staked e5.
                                          Returns-skip (call (issue amount s.supply s.owner_fusd)) _
                                            (λ issued.
                                              Returns-bind
                                                (reconcile s.bitmap staked.0 staked.1
                                                  s.position.recorded_debt)
                                                _
                                                (reconcile-SameLoan s.bitmap staked.0 staked.1
                                                  s.position.recorded_debt)
                                                (λ joined e6.
                                                  let e = e5.0 ∙ e4 in
                                                  Returns-ok _ (record {
                                                    healthy =
                                                        healthy_same (e6.0 ∙ e5.1.0) (e6.1 ∙ e5.1.1)
                                                          (ap (λ (b : Books). b.spot) e
                                                            ∙ ap (λ (b : Books). b.spot) e3)
                                                          (ap (λ (b : Books). b.mcr) e
                                                            ∙ ap (λ (b : Books). b.mcr) e3)
                                                          met.0;
                                                    floor =
                                                        floor_at (fields e).9 (fields e3).9
                                                          (e6.1 ∙ e5.1.1) met.1;
                                                    ceiling =
                                                        omega (arith, fields e, fields e3, met.2);
                                                  })))))))))))))))

  -- A withdrawal that returns leaves a position that still owes a debt healthy at the market's
  -- price.
  pub withdraw-healthy :
      (s : World) (now : ℤ) (slot amount : ℕ)
      → Returns
          (λ (t : World).
            t.position.recorded_debt ≢ 0
            → is_healthy t.position.ink t.position.recorded_debt t.market.spot t.market.mcr_bps
              ≡ true)
          (withdraw s now slot amount)
  unfolding withdraw
  withdraw-healthy s now slot amount =
      Returns-skip (check (ltb 0 amount) FusdError.zero_amount) _ (λ _.
        Returns-skip (weighted s.position) _ (λ old_weighted.
          Returns-skip (accrue s.market now) _ (λ m1.
            Returns-skip (realize m1 s.position now) _ (λ p1.
              Returns-skip (check (leb amount p1.ink) FusdError.insufficient_collateral) _ (λ _.
                Returns-bind (withdraw_health m1 p1 slot (p1.ink - amount)) _ (health_met _ _ _ _)
                  (λ _ met. Returns-skip (withdraw_band m1 slot amount) _ (λ _.
                    Returns-skip (call (move amount s.coll_vault s.owner_coll)) _ (λ moved.
                      Returns-skip (or_overflow (checked_sub m1.total_collateral amount)) _
                        (λ total.
                          let p2 = set_ink p1 (p1.ink - amount) in
                          let m' = record m1 { total_collateral = total } in
                          Returns-bind (reweight m' p2 old_weighted) _
                            (reweight-SameBooks m' p2 old_weighted)
                            (λ m2 e4.
                              Returns-bind (set_stake m2 p2) _
                                (Returns-and (set_stake-SameBooks m2 p2) (set_stake-SameLoan m2 p2))
                                (λ staked e5.
                                  Returns-bind
                                    (reconcile s.bitmap staked.0 staked.1 s.position.recorded_debt)
                                    _
                                    (reconcile-SameLoan s.bitmap staked.0 staked.1
                                      s.position.recorded_debt)
                                    (λ joined e6.
                                      Returns-skip (sufficiency_of staked.0 moved.0) _ (λ _.
                                        let e = e5.0 ∙ e4 in
                                        let kept = set_ink-sets p1 (p1.ink - amount) in
                                        let debt = e6.1 ∙ e5.1.1 ∙ kept.1 in
                                        Returns-ok _ (λ owes.
                                          healthy_same (e6.0 ∙ e5.1.0 ∙ kept.0) debt
                                            (ap (λ (b : Books). b.spot) e)
                                            (ap (λ (b : Books). b.mcr) e)
                                            (met
                                              (λ none_left. owes (debt ∙ none_left)))))))))))))))))

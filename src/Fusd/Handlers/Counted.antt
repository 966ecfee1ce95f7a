-- ===== src/Fusd/Handlers/Counted.antt =====
-- programs/fusd-core/src/instructions/deposit.rs, withdraw.rs, borrow.rs and repay.rs: the counts of
-- the redemption buckets.
use fusion_core.Prelude.{
  ℕ, ◌+◌, ◌-◌, ◌≡◌, ◌≤◌, refl, sym, true, false, inl, inr, Bool-cases, ltb, leb, ◌==◌, ◌||◌,
  if◌then◌else◌, arith, Returns, Returns-bind, Returns-skip, Returns-ok, u64_max, u128_max, narrow,
  checked_add, checked_sub, bind_some, map_err,
}
use fusion_core.Prelude.Int.{ℤ, pos_part, saturating_sub}
use mathlib.Core.Path.{subst}
use fusion_core.Wide.{Wide}
use fusion_core.Interest.{accrued_interest}
use fusion_core.Redistribution
use fusion_core.Fusd.Error.{FusdError, Abort, or_overflow, redist_error}
use fusion_core.Fusd.State.{Market, Position, RedemptionBitmap, set_ink}
use fusion_core.Fusd.Redist.{pending, roll_snapshot, set_stake}
use fusion_core.Fusd.Accrual.{accrue, fold_collateral, realize, weighted, reweight}
use fusion_core.Fusd.Bucket.{reconcile, target, zombie_bucket}
use fusion_core.Fusd.Bucket.Coupled.{IsCoupled, member_count, one_if}
use fusion_core.Fusd.Bucket.Members.{IsAt, placed, reconcile-Moved}
use fusion_core.Fusd.Programs.{Programs, call}
use fusion_core.Fusd.Supply
use fusion_core.Fusd.Handlers.{World}
use fusion_core.Fusd.Handlers.Collateral.{
  check, sufficiency_of, top_up_bond, deposit, withdraw, withdraw_health, withdraw_band,
}
use fusion_core.Fusd.Handlers.Debt.{
  borrow, borrow_gates, borrow_fee, borrow_limits, consume_limit, restore_limit, repay, repay_debt,
}

-- What a position adds to the count of `c`: a debtor counts in its bucket, and nobody else counts.
abbrev pub counted : Position → ℕ → ℕ
counted p c = if ltb 0 p.recorded_debt then one_if (c == p.bucket) else 0

-- The bitmap is coupled to the counts, and these count the position and the `others`.
pub record IsCounted (others : ℕ → ℕ) (bm : RedemptionBitmap) (p : Position) : Type 0 where
  pub coupled : IsCoupled bm
  pub bucketed : p.bucket ≤ zombie_bucket
  pub counts : (c : ℕ) → member_count bm c ≡ others c + counted p c

at_bucket :
    (p r : Position) {b : ℕ}
    → (p.recorded_debt == 0) ≡ false
    → r.recorded_debt ≡ p.recorded_debt
    → r.bucket ≡ b
    → (c : ℕ) → one_if (c == b) ≡ counted r c
at_bucket p r {b} owes same at c =
    let debtor : ltb 0 r.recorded_debt ≡ true = ground arith in rw (debtor, at) refl

target-counted :
    (m : Market) (p r : Position)
    → IsAt (target m p) r
    → r.recorded_debt ≡ p.recorded_debt
    → (c : ℕ) → placed (target m p) c ≡ counted r c
unfolding target
target-counted m p r = elim (Bool-cases (p.recorded_debt == 0)) [
  | inl clear ↦ rw clear (λ _ same c. ground arith)
  | inr owes ↦ rw owes (elim (Bool-cases ((p.ink == 0) || ltb p.recorded_debt m.min_debt)) [
    | inl zombie ↦ rw zombie (λ at same c. at_bucket p r owes same at c)
    | inr normal ↦ rw normal (λ at same c. at_bucket p r owes same at c)
  ])
]

reconcile-IsCounted :
    (others : ℕ → ℕ) (bm : RedemptionBitmap) (m : Market) (before p : Position)
    → IsCounted others bm before
    → p.bucket ≡ before.bucket
    → Returns
        (λ (r : RedemptionBitmap × Position). IsCounted others r.0 r.1)
        (reconcile bm m p before.recorded_debt)
reconcile-IsCounted others bm m before p h same = record {
  holds = λ r e.
      let moved =
        (reconcile-Moved bm m p before.recorded_debt h.coupled
            (subst (λ (b : ℕ). b ≤ zombie_bucket) (sym same) h.bucketed)).holds
          r e in
      record {
        coupled = moved.coupled;
        bucketed = moved.bucketed;
        counts = λ c.
            let was : counted before c
                ≡ (if ltb 0 before.recorded_debt then one_if (c == p.bucket) else 0) =
              rw same refl in
            omega (
              arith,
              moved.counts c,
              h.counts c,
              was,
              target-counted m p r.1 moved.at moved.same_debt c,
            );
      };
}

set_ink-bucket : (p : Position) (n : ℕ) → (set_ink p n).bucket ≡ p.bucket
unfolding set_ink
set_ink-bucket p n = elim (Bool-cases (n == p.ink)) [
  | inl same ↦ rw same refl
  | inr other ↦ rw other refl
]

set_ink-debt : (p : Position) (n : ℕ) → (set_ink p n).recorded_debt ≡ p.recorded_debt
unfolding set_ink
set_ink-debt p n = elim (Bool-cases (n == p.ink)) [
  | inl same ↦ rw same refl
  | inr other ↦ rw other refl
]

module _ ⦃w : Wide⦄ where
  set_stake-keeps :
      (m : Market) (p : Position)
      → Returns
          (λ (r : Market × Position).
            (r.1.bucket ≡ p.bucket) × (r.1.recorded_debt ≡ p.recorded_debt))
          (set_stake m p)
  unfolding set_stake
  set_stake-keeps m p =
      Returns-skip
        (map_err (λ e. Abort.error (redist_error e))
          (Redistribution.compute_stake p.ink m.total_stakes_snapshot m.total_collateral_snapshot))
        _
        (λ new_stake.
          Returns-skip
            (or_overflow (
              bind_some (checked_sub m.total_stakes p.stake)
                (λ t. checked_add u128_max t new_stake)))
            _ (λ total. Returns-ok _ (refl, refl)))

  fold_collateral-keeps :
      (p : Position) (gain : ℕ)
      → Returns
          (λ (r : Position). (r.bucket ≡ p.bucket) × (r.recorded_debt ≡ p.recorded_debt))
          (fold_collateral p gain)
  unfolding fold_collateral
  fold_collateral-keeps p gain = elim (Bool-cases (ltb 0 gain)) [
    | inl gains ↦ rw gains (
        Returns-skip (or_overflow (narrow u64_max gain)) _ (λ add.
          Returns-skip (or_overflow (checked_add u64_max p.ink add)) _
            (λ ink. Returns-ok _ (set_ink-bucket p ink, set_ink-debt p ink))))
    | inr none_pending ↦ rw none_pending (Returns-ok _ (refl, refl))
  ]

  realize-keeps :
      (m : Market) (p : Position) (now : ℤ)
      → Returns
          (λ (r : Position). (r.bucket ≡ p.bucket) × (p.recorded_debt ≤ r.recorded_debt))
          (realize m p now)
  unfolding realize roll_snapshot
  realize-keeps m p now =
      let cap = if m.shutdown then m.last_update_ts else now in
      let period = pos_part (saturating_sub cap p.last_debt_update) in
      Returns-skip (or_overflow (accrued_interest p.recorded_debt p.user_rate_bps period)) _
        (λ accrued. Returns-skip (pending m p) _ (λ gains.
          Returns-bind (fold_collateral p gains.0) _ (fold_collateral-keeps p gains.0) (λ p1 e.
            Returns-bind
              (or_overflow (
                bind_some (checked_add u128_max p1.recorded_debt accrued)
                  (λ debt. checked_add u128_max debt gains.1)))
              _ (no_less p1.recorded_debt accrued gains.1)
              (λ debt le.
                Returns-ok
                  (roll_snapshot m (record p1 { recorded_debt = debt; last_debt_update = cap }))
                  (e.0, omega (arith, le, e.1))))))
    where
      no_less :
          (a b c : ℕ)
          → Returns
              (λ d. a ≤ d)
              (or_overflow
                (bind_some (checked_add u128_max a b) (λ debt. checked_add u128_max debt c)))
      no_less a b c = record { holds = λ d e. ground arith }

module _ ⦃w : Wide⦄ ⦃programs : Programs⦄ where
  open programs use {move, issue, destroy}

  top_up_bond-keeps :
      (s : World)
      → Returns
          (λ (t : World). (t.bitmap ≡ s.bitmap) × (t.position.bucket ≡ s.position.bucket))
          (top_up_bond s)
  unfolding top_up_bond
  top_up_bond-keeps s =
      elim (Bool-cases (ltb s.position.reserve_lamports s.market.reserve_lamports)) [
        | inl low ↦ rw low (
            Returns-skip
              (call (
                move (s.market.reserve_lamports - s.position.reserve_lamports) s.owner_lamports
                  s.position_lamports))
              _ (λ moved. Returns-ok _ (refl, refl)))
        | inr full ↦ rw full (Returns-ok s (refl, refl))
      ]

  pub deposit-IsCounted :
      (s : World) (now : ℤ) (amount : ℕ) (others : ℕ → ℕ)
      → IsCounted others s.bitmap s.position
      → Returns (λ (t : World). IsCounted others t.bitmap t.position) (deposit s now amount)
  unfolding deposit
  deposit-IsCounted s now amount others h =
      Returns-skip (check (ltb 0 amount) FusdError.zero_amount) _ (λ _.
        Returns-skip (weighted s.position) _ (λ old_weighted.
          Returns-skip (call (move amount s.owner_coll s.coll_vault)) _ (λ moved.
            Returns-skip (accrue s.market now) _ (λ m1.
              Returns-bind (realize m1 s.position now) _ (realize-keeps m1 s.position now) (λ p1 e1.
                Returns-skip (or_overflow (checked_add u64_max p1.ink amount)) _ (λ new_ink.
                  Returns-skip (or_overflow (checked_add u128_max m1.total_collateral amount)) _
                    (λ total.
                      Returns-skip
                        (reweight (record m1 { total_collateral = total }) (set_ink p1 new_ink)
                          old_weighted)
                        _
                        (λ m2.
                          Returns-bind (set_stake m2 (set_ink p1 new_ink)) _ (set_stake-keeps _ _)
                            (λ staked e2.
                              Returns-bind
                                (top_up_bond (record s {
                                  market = staked.0;
                                  position = staked.1;
                                  owner_coll = moved.0;
                                  coll_vault = moved.1;
                                }))
                                _ (top_up_bond-keeps _)
                                (λ s1 e3.
                                  Returns-bind
                                    (reconcile s1.bitmap s1.market s1.position
                                      s.position.recorded_debt)
                                    _
                                    (reconcile-IsCounted others s1.bitmap s1.market s.position
                                      s1.position
                                      (subst (λ bm. IsCounted others bm s.position) (sym e3.0) h)
                                      (omega (arith, e1.0, e2.0, e3.1, set_ink-bucket p1 new_ink)))
                                    (λ joined e.
                                      Returns-skip (sufficiency_of s1.market s1.coll_vault) _
                                        (λ _. Returns-ok _ e))))))))))))

  pub withdraw-IsCounted :
      (s : World) (now : ℤ) (slot amount : ℕ) (others : ℕ → ℕ)
      → IsCounted others s.bitmap s.position
      → Returns (λ (t : World). IsCounted others t.bitmap t.position) (withdraw s now slot amount)
  unfolding withdraw
  withdraw-IsCounted s now slot amount others h =
      Returns-skip (check (ltb 0 amount) FusdError.zero_amount) _ (λ _.
        Returns-skip (weighted s.position) _ (λ old_weighted.
          Returns-skip (accrue s.market now) _ (λ m1.
            Returns-bind (realize m1 s.position now) _ (realize-keeps m1 s.position now) (λ p1 e1.
              Returns-skip (check (leb amount p1.ink) FusdError.insufficient_collateral) _ (λ _.
                Returns-skip (withdraw_health m1 p1 slot (p1.ink - amount)) _ (λ _.
                  Returns-skip (withdraw_band m1 slot amount) _ (λ _.
                    Returns-skip (call (move amount s.coll_vault s.owner_coll)) _ (λ moved.
                      Returns-skip (or_overflow (checked_sub m1.total_collateral amount)) _
                        (λ total.
                          let p2 = set_ink p1 (p1.ink - amount) in
                          Returns-skip
                            (reweight (record m1 { total_collateral = total }) p2 old_weighted) _
                            (λ m2.
                              Returns-bind (set_stake m2 p2) _ (set_stake-keeps m2 p2) (λ staked e2.
                                Returns-bind
                                  (reconcile s.bitmap staked.0 staked.1 s.position.recorded_debt) _
                                  (reconcile-IsCounted others s.bitmap staked.0 s.position staked.1
                                    h
                                    (omega
                                      (arith, e1.0, e2.0, set_ink-bucket p1 (p1.ink - amount))))
                                  (λ joined e.
                                    Returns-skip (sufficiency_of staked.0 moved.0) _
                                      (λ _. Returns-ok _ e)))))))))))))

  pub borrow-IsCounted :
      (s : World) (now : ℤ) (slot amount : ℕ) (others : ℕ → ℕ)
      → IsCounted others s.bitmap s.position
      → Returns (λ (t : World). IsCounted others t.bitmap t.position) (borrow s now slot amount)
  unfolding borrow
  borrow-IsCounted s now slot amount others h =
      Returns-skip (check (ltb 0 amount) FusdError.zero_amount) _ (λ _.
        Returns-skip (weighted s.position) _ (λ old_weighted.
          Returns-skip (accrue s.market now) _ (λ m1.
            Returns-bind (realize m1 s.position now) _ (realize-keeps m1 s.position now) (λ p1 e1.
              Returns-skip (borrow_gates m1 now slot) _ (λ _.
                Returns-skip (borrow_fee m1 amount) _ (λ fee.
                  Returns-skip
                    (or_overflow
                      (Supply.borrow m1.agg_recorded_debt m1.unminted_interest amount fee))
                    _
                    (λ d.
                      Returns-skip
                        (or_overflow (checked_add u128_max p1.recorded_debt d.debt_delta)) _
                        (λ new_debt. Returns-skip (borrow_limits m1 p1 new_debt d.new_agg) _ (λ _.
                          Returns-skip (consume_limit m1 now amount) _ (λ m2.
                            let p2 = record p1 { recorded_debt = new_debt } in
                            Returns-skip (reweight _ p2 old_weighted) _ (λ m3.
                              Returns-bind (set_stake m3 p2) _ (set_stake-keeps m3 p2) (λ staked e2.
                                Returns-skip (call (issue amount s.supply s.owner_fusd)) _
                                  (λ issued.
                                    Returns-bind
                                      (reconcile s.bitmap staked.0 staked.1
                                        s.position.recorded_debt)
                                      _
                                      (reconcile-IsCounted others s.bitmap staked.0 s.position
                                        staked.1 h (omega (arith, e1.0, e2.0)))
                                      (λ joined e. Returns-ok _ e))))))))))))))

  repay_debt-IsCounted :
      (s : World) (m1 : Market) (p1 : Position) (old_weighted : ℕ) (now : ℤ) (amount : ℕ)
      (others : ℕ → ℕ)
      → IsCounted others s.bitmap s.position
      → p1.bucket ≡ s.position.bucket
      → Returns
          (λ (t : World). IsCounted others t.bitmap t.position)
          (repay_debt s m1 p1 old_weighted now amount)
  unfolding repay_debt
  repay_debt-IsCounted s m1 p1 old_weighted now amount others h e1 =
      Returns-skip (or_overflow (Supply.repay m1.agg_recorded_debt p1.recorded_debt amount)) _ (λ d.
        Returns-skip
          (check
            (m1.min_debt == 0 || (d.new_position_debt == 0 || leb m1.min_debt d.new_position_debt))
            FusdError.debt_below_minimum)
          _
          (λ _. Returns-skip (call (destroy d.burn s.supply s.owner_fusd)) _ (λ burned.
            let p2 = record p1 { recorded_debt = d.new_position_debt } in
            Returns-skip (reweight (record m1 { agg_recorded_debt = d.new_agg }) p2 old_weighted) _
              (λ m2. Returns-bind (set_stake m2 p2) _ (set_stake-keeps m2 p2) (λ staked e2.
                let m3 = restore_limit staked.0 now d.burn in
                Returns-bind (reconcile s.bitmap m3 staked.1 s.position.recorded_debt) _
                  (reconcile-IsCounted others s.bitmap m3 s.position staked.1 h
                    (omega (arith, e1, e2.0)))
                  (λ joined e. Returns-ok _ e))))))

  pub repay-IsCounted :
      (s : World) (now : ℤ) (amount : ℕ) (others : ℕ → ℕ)
      → IsCounted others s.bitmap s.position
      → Returns (λ (t : World). IsCounted others t.bitmap t.position) (repay s now amount)
  unfolding repay
  repay-IsCounted s now amount others h =
      Returns-skip (check (ltb 0 amount) FusdError.zero_amount) _ (λ _.
        Returns-skip (weighted s.position) _ (λ old_weighted.
          Returns-skip (accrue s.market now) _ (λ m1.
            Returns-bind (realize m1 s.position now) _ (realize-keeps m1 s.position now) (λ p1 e1.
              elim (Bool-cases (p1.recorded_debt == 0)) [
                | inl clear ↦
                    let cleared : p1.recorded_debt ≡ 0 = ground arith in
                    rw clear (
                      Returns-bind (set_stake m1 p1) _ (set_stake-keeps m1 p1) (λ staked e2.
                        Returns-ok _ (
                          still_clear s.position staked.1 others h (omega (arith, e1.0, e2.0))
                            (omega (arith, e1.1, cleared)) (omega (arith, e2.1, cleared)))))
                | inr owes ↦
                    rw owes (repay_debt-IsCounted s m1 p1 old_weighted now amount others h e1.0)
              ]))))
    where
      still_clear :
          {bm : RedemptionBitmap} (p q : Position) (others : ℕ → ℕ)
          → IsCounted others bm p
          → q.bucket ≡ p.bucket
          → p.recorded_debt ≡ 0
          → q.recorded_debt ≡ 0
          → IsCounted others bm q
      still_clear {bm} p q others h same clear clear' = record {
        coupled = h.coupled;
        bucketed = omega (arith, same, h.bucketed);
        counts = λ c.
            let before : counted p c ≡ 0 = rw clear refl in
            let after : counted q c ≡ 0 = rw clear' refl in
            omega (arith, h.counts c, before, after);
      }

-- ===== src/Fusd/Handlers/Fits.antt =====
-- `realize` of programs/fusd-core/src/accrual.rs and the pool's share of the collateral in
-- instructions/liquidate.rs: the values keep to their widths.
use fusion_core.Prelude.{
  ℕ, ◌+◌, ◌*◌, ◌≡◌, ◌≤◌, ◌<◌, ap, inl, inr, Bool-cases, ltb, some, arith, Returns, Returns-bind,
  Returns-skip, Returns-ok, u64_max, u128_max, narrow, checked_add, if◌then◌else◌, le_of_mul_le,
  bind_some,
}
use fusion_core.Prelude.Int.{ℤ}
use fusion_core.Wide.{Wide}
use fusion_core.Money.{mul_div_floor}
use fusion_core.Money.Rounding.{mul_div_floor_bounds}
use fusion_core.Fusd.Error.{or_overflow}
use fusion_core.Fusd.State.{Market, Position, set_ink}
use fusion_core.Fusd.Accrual.{realize}
use fusion_core.Fusd.Accrual.{fold_collateral}
use fusion_core.Fusd.Redist.{pending, roll_snapshot}
use fusion_core.Interest.{accrued_interest}
use fusion_core.Prelude.Int.{pos_part, saturating_sub}
use native.Mathlib.Decide.{dec_le}
use native.Mathlib.Nat.{mul-le-mul_right}
use fusion_core.Fusd.Handlers.Safe.{set_ink-sets}

share_none : (q d : ℕ) → 0 < d → q * d ≤ 0 → q ≡ 0
share_none q d h e = omega (arith, le_of_mul_le q 0 d h (omega arith))

share_all : (q x d : ℕ) → 0 < d → q * d ≤ x * d → x * d < q * d + d → q ≡ x
share_all q x d h e1 e2 = elim (dec_le x q) [
  | yes le ↦ omega (arith, le, le_of_mul_le q x d h e1)
  | no more ↦ absurd (omega (arith, mul-le-mul_right {m = q + 1} {n = x} d (omega arith)))
]

module _ ⦃w : Wide⦄ where
  -- The pool's share of the collateral: nothing for no debt, all of it for the whole debt.
  pub pool_share :
      (coll debt part : ℕ) {q : ℕ}
      → coll ≤ u64_max
      → debt ≤ u128_max
      → part ≤ debt
      → mul_div_floor coll part debt ≡ some q
      → (part ≡ 0 → q ≡ 0) × (part ≡ debt → q ≡ coll)
  pool_share coll debt part {q} hc hd hp e =
      let (pos, low, high, _) =
        mul_div_floor_bounds coll part debt (omega arith) (omega arith) hd e in
      (
        (λ z. share_none q debt pos (omega (arith, ap (λ (n : ℕ). coll * n) z))),
        (λ z.
            let same : coll * part ≡ coll * debt = ap (λ (n : ℕ). coll * n) z in
            share_all q coll debt pos (omega (arith, same)) (omega (arith, same))),
      )

  fold_collateral-fits :
      (p : Position) (gain : ℕ)
      → p.ink ≤ u64_max
      → Returns (λ (p' : Position). p'.ink ≤ u64_max) (fold_collateral p gain)
  unfolding fold_collateral
  fold_collateral-fits p gain h = elim (Bool-cases (ltb 0 gain)) [
    | inl gains ↦ rw gains (
        Returns-skip (or_overflow (narrow u64_max gain)) _ (λ add.
          Returns-bind (or_overflow (checked_add u64_max p.ink add)) _ (sum_fits p.ink add)
            (λ ink e. Returns-ok (set_ink p ink) (omega (arith, (set_ink-sets p ink).0, e)))))
    | inr none_pending ↦ rw none_pending (Returns-ok p h)
  ]
    where
      sum_fits : (a b : ℕ) → Returns (λ c. c ≤ u64_max) (or_overflow (checked_add u64_max a b))
      sum_fits a b = record { holds = λ c e. ground arith }

  -- A realized position keeps to its widths.
  pub realize-fits :
      (m : Market) (p : Position) (now : ℤ)
      → p.ink ≤ u64_max
      → Returns
          (λ (p' : Position). (p'.ink ≤ u64_max) × (p'.recorded_debt ≤ u128_max))
          (realize m p now)
  unfolding realize roll_snapshot
  realize-fits m p now h =
      let cap = if m.shutdown then m.last_update_ts else now in
      let period = pos_part (saturating_sub cap p.last_debt_update) in
      Returns-skip (or_overflow (accrued_interest p.recorded_debt p.user_rate_bps period)) _
        (λ accrued. Returns-skip (pending m p) _ (λ gains.
          Returns-bind (fold_collateral p gains.0) _ (fold_collateral-fits p gains.0 h) (λ p1 fits.
            Returns-bind
              (or_overflow (
                bind_some (checked_add u128_max p1.recorded_debt accrued)
                  (λ debt. checked_add u128_max debt gains.1)))
              _ (at_most p1.recorded_debt accrued gains.1)
              (λ debt e.
                Returns-ok
                  (roll_snapshot m (record p1 { recorded_debt = debt; last_debt_update = cap }))
                  (fits, e)))))
    where
      at_most :
          (a b c : ℕ)
          → Returns
              (λ d. d ≤ u128_max)
              (or_overflow
                (bind_some (checked_add u128_max a b) (λ debt. checked_add u128_max debt c)))
      at_most a b c = record { holds = λ d e. ground arith }

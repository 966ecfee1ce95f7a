-- ===== src/Fusd/Accrual.antt =====
-- programs/fusd-core/src/accrual.rs: the interest of the market and of one position, and
-- `check_sufficiency` of programs/fusd-core/src/reconcile.rs.
use fusion_core.Prelude.{
  ℕ, ◌||◌, Result, ok, require, ◌>>=◌, ltb, leb, if◌then◌else◌, u64_max, u128_max, narrow,
  checked_add, checked_sub, bind_some,
}
use fusion_core.Prelude.Int.{ℤ, pos, pos_part, leb_ℤ, saturating_sub}
use fusion_core.Wide.{Wide}
use fusion_core.Interest.{weighted_debt, pending_aggregate_interest, accrued_interest}
use fusion_core.Fusd.Error.{FusdError, Abort, or_overflow}
use fusion_core.Fusd.State.{Market, Position, set_ink}
use fusion_core.Fusd.Supply.{book_interest}
use fusion_core.Fusd.Redist.{pending, roll_snapshot}

module _ ⦃w : Wide⦄ where
  unfoldable pub accrue : Market → ℤ → Result Abort Market
  accrue m now =
      let dt = saturating_sub now m.last_update_ts in
      if leb_ℤ dt (pos 0) || m.shutdown
      then ok m
      else or_overflow (pending_aggregate_interest m.agg_weighted_debt_sum (pos_part dt))
        >>= λ pending.
            or_overflow (book_interest m.agg_recorded_debt m.unminted_interest pending) >>= λ d.
            ok (record m {
              agg_recorded_debt = d.new_agg;
              unminted_interest = d.new_unminted;
              last_update_ts = now;
            })

  -- The collateral of `realize`.
  unfoldable pub fold_collateral : Position → ℕ → Result Abort Position
  fold_collateral p pending_coll =
      if ltb 0 pending_coll
      then (or_overflow (narrow u64_max pending_coll) >>= λ add.
          or_overflow (checked_add u64_max p.ink add) >>= λ new_ink. ok (set_ink p new_ink))
      else ok p

  unfoldable pub realize : Market → Position → ℤ → Result Abort Position
  realize m p now =
      let cap = if m.shutdown then m.last_update_ts else now in
      let period = pos_part (saturating_sub cap p.last_debt_update) in
      or_overflow (accrued_interest p.recorded_debt p.user_rate_bps period) >>= λ accrued.
      pending m p >>= λ gains. fold_collateral p gains.0 >>= λ p1.
      or_overflow (
        bind_some (checked_add u128_max p1.recorded_debt accrued)
          (λ debt. checked_add u128_max debt gains.1))
      >>= λ debt. ok (roll_snapshot m (record p1 { recorded_debt = debt; last_debt_update = cap }))

unfoldable pub weighted : Position → Result Abort ℕ
weighted p = or_overflow (weighted_debt p.recorded_debt p.user_rate_bps)

unfoldable pub reweight : Market → Position → ℕ → Result Abort Market
reweight m p old_weighted = weighted p >>= λ new_weighted.
    or_overflow (
      bind_some (checked_add u128_max m.agg_weighted_debt_sum new_weighted)
        (λ sum. checked_sub sum old_weighted))
    >>= λ sum. ok (record m { agg_weighted_debt_sum = sum })

unfoldable pub check_sufficiency : ℕ → ℕ → ℕ → ℕ → ℕ → Result Abort (Unit {0})
check_sufficiency vault_amount total_collateral surplus_collateral total_coll_surplus
      protocol_collateral =
    or_overflow (
      bind_some (checked_add u128_max total_collateral surplus_collateral) (λ t.
        bind_some (checked_add u128_max t total_coll_surplus)
          (λ t'. checked_add u128_max t' protocol_collateral)))
    >>= λ tracked.
        require (leb tracked vault_amount) (Abort.error FusdError.vault_reconciliation_failed)

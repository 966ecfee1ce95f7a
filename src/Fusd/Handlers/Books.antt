-- ===== src/Fusd/Handlers/Books.antt =====
-- programs/fusd-core/src/accrual.rs, redist.rs and the limiters of instructions/borrow.rs and
-- repay.rs: which of the market's books each of the shared steps of the handlers leaves alone.
use fusion_core.Prelude.{
  ℕ, ◌+◌, ◌≡◌, refl, ap, inl, inr, Bool-cases, ltb, ◌||◌, bind_some, ok_or, arith, map_err, Returns,
  Returns-bind, Returns-skip, Returns-ok, u128_max, checked_add, checked_sub, ok_or-eq-ok,
}
use fusion_core.Prelude.Int.{ℤ, pos, pos_part, leb_ℤ, saturating_sub}
use fusion_core.Wide.{Wide}
use fusion_core.Interest.{pending_aggregate_interest}
use fusion_core.Fusd.Error.{FusdError, Abort, or_overflow, redist_error}
use fusion_core.Fusd.State.{Market, Position}
use fusion_core.Fusd.Supply.{InterestDelta, book_interest}
use fusion_core.Fusd.Supply.Identity.{book_interest-eq_some}
use fusion_core.Fusd.Redist.{set_stake}
use fusion_core.Redistribution
use fusion_core.Fusd.Accrual.{accrue, weighted, reweight}
use fusion_core.Fusd.Handlers.Debt.{consume_limit, restore_limit, ratelimit_window_secs}
use fusion_core.Fusd.Cdp.{ratelimit_consume}

-- The counters of the supply identity and of the vault identity, and the terms of a debt.
pub record Books : Type 0 where
  pub agg : ℕ
  pub unminted : ℕ
  pub bad : ℕ
  pub collateral : ℕ
  pub surplus : ℕ
  pub coll_surplus : ℕ
  pub protocol : ℕ
  pub spot : ℕ
  pub mcr : ℕ
  pub min_debt : ℕ
  pub ceiling : ℕ

abbrev pub books_of : Market → Books
books_of m = record {
  agg = m.agg_recorded_debt;
  unminted = m.unminted_interest;
  bad = m.bad_debt;
  collateral = m.total_collateral;
  surplus = m.surplus_collateral;
  coll_surplus = m.total_coll_surplus;
  protocol = m.protocol_collateral;
  spot = m.spot;
  mcr = m.mcr_bps;
  min_debt = m.min_debt;
  ceiling = m.debt_ceiling;
}

abbrev pub SameBooks : Market → Market → Type 0
SameBooks m m' = books_of m' ≡ books_of m

pub reweight-SameBooks :
    (m : Market) (p : Position) (old : ℕ) → Returns (SameBooks m) (reweight m p old)
unfolding reweight
reweight-SameBooks m p old = Returns-skip (weighted p) _ (λ new.
    Returns-skip
      (or_overflow
        (bind_some (checked_add u128_max m.agg_weighted_debt_sum new) (λ sum. checked_sub sum old)))
      _ (λ sum. Returns-ok (record m { agg_weighted_debt_sum = sum }) refl))

pub consume_limit-SameBooks :
    (m : Market) (now : ℤ) (n : ℕ) → Returns (SameBooks m) (consume_limit m now n)
unfolding consume_limit
consume_limit-SameBooks m now n = elim (Bool-cases (ltb 0 m.rl_cap)) [
  | inl on ↦ rw on (
      Returns-skip
        (ok_or
          (ratelimit_consume m.rl_accrued m.rl_last_update now m.rl_cap ratelimit_window_secs n)
          (Abort.error FusdError.rate_limit_exceeded))
        _ (λ x. Returns-ok (record m { rl_accrued = x; rl_last_update = now }) refl))
  | inr off ↦ rw off (Returns-ok m refl)
]

pub restore_limit-SameBooks : (m : Market) (now : ℤ) (n : ℕ) → SameBooks m (restore_limit m now n)
unfolding restore_limit
restore_limit-SameBooks m now n = elim (Bool-cases (ltb 0 m.rl_cap)) [
  | inl on ↦ rw on refl
  | inr off ↦ rw off refl
]

abbrev pub Accrued : Market → Market → Type 0
Accrued m m' =
    (x : ℕ) × (books_of m'
      ≡ record (books_of m) { agg = m.agg_recorded_debt + x; unminted = m.unminted_interest + x })

accrued_books :
    (m : Market) (x a u : ℕ)
    → a ≡ m.agg_recorded_debt + x
    → u ≡ m.unminted_interest + x
    → record (books_of m) { agg = a; unminted = u }
      ≡ record (books_of m) { agg = m.agg_recorded_debt + x; unminted = m.unminted_interest + x }
accrued_books m x a u e1 e2 = rw (e1, e2) refl

pub fields :
    {b b' : Books}
    → b ≡ b'
    → (b.agg ≡ b'.agg)
      × (b.unminted ≡ b'.unminted)
      × (b.bad ≡ b'.bad)
      × (b.collateral ≡ b'.collateral)
      × (b.surplus ≡ b'.surplus)
      × (b.coll_surplus ≡ b'.coll_surplus)
      × (b.protocol ≡ b'.protocol)
      × (b.spot ≡ b'.spot)
      × (b.mcr ≡ b'.mcr)
      × (b.min_debt ≡ b'.min_debt)
      × (b.ceiling ≡ b'.ceiling)
fields e = (
  ap (λ (c : Books). c.agg) e,
  ap (λ (c : Books). c.unminted) e,
  ap (λ (c : Books). c.bad) e,
  ap (λ (c : Books). c.collateral) e,
  ap (λ (c : Books). c.surplus) e,
  ap (λ (c : Books). c.coll_surplus) e,
  ap (λ (c : Books). c.protocol) e,
  ap (λ (c : Books). c.spot) e,
  ap (λ (c : Books). c.mcr) e,
  ap (λ (c : Books). c.min_debt) e,
  ap (λ (c : Books). c.ceiling) e,
)

module _ ⦃w : Wide⦄ where
  pub set_stake-SameBooks :
      (m : Market) (p : Position)
      → Returns (λ (r : Market × Position). SameBooks m r.0) (set_stake m p)
  unfolding set_stake
  set_stake-SameBooks m p =
      Returns-skip
        (map_err (λ e. Abort.error (redist_error e))
          (Redistribution.compute_stake p.ink m.total_stakes_snapshot m.total_collateral_snapshot))
        _
        (λ new.
          Returns-skip
            (or_overflow
              (bind_some (checked_sub m.total_stakes p.stake) (λ t. checked_add u128_max t new)))
            _
            (λ total.
              Returns-ok (record m { total_stakes = total }, record p { stake = new }) refl))

  -- Interest goes to the debt and to the unminted interest alike.
  pub accrue-Accrued : (m : Market) (now : ℤ) → Returns (Accrued m) (accrue m now)
  unfolding accrue
  accrue-Accrued m now =
      let dt = saturating_sub now m.last_update_ts in
      elim (Bool-cases (leb_ℤ dt (pos 0) || m.shutdown)) [
        | inl frozen ↦
            rw frozen (Returns-ok m (0, accrued_books m 0 _ _ (omega arith) (omega arith)))
        | inr runs ↦ rw runs (
            Returns-skip
              (or_overflow (pending_aggregate_interest m.agg_weighted_debt_sum (pos_part dt))) _
              (λ x.
                Returns-bind (or_overflow (book_interest m.agg_recorded_debt m.unminted_interest x))
                  _ (booked x) (λ d e. Returns-ok _ (x, accrued_books m x _ _ e.0 e.1))))
      ]
    where
      booked :
          (x : ℕ)
          → Returns
              (λ (d : InterestDelta).
                (d.new_agg ≡ m.agg_recorded_debt + x) × (d.new_unminted ≡ m.unminted_interest + x))
              (or_overflow (book_interest m.agg_recorded_debt m.unminted_interest x))
      booked x = record {
        holds = λ d e.
            book_interest-eq_some m.agg_recorded_debt m.unminted_interest x d (ok_or-eq-ok _ _ e);
      }

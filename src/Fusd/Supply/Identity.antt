-- ===== src/Fusd/Supply/Identity.antt =====
-- The supply identity of programs/fusd-core/src/supply_transition.rs: the fUSD in circulation and the
-- interest not yet minted make up the recorded debt and the bad debt.
use fusion_core.Prelude.{
  ℕ, some-injective, Bool, bind_some, bind_some-eq_some, if◌then◌else◌, ◌+◌, ◌-◌, ltb, ◌&&◌, ◌≤◌,
  ◌≡◌, Option, some, arith, min, u64_max, u128_max,
}
use mathlib.Core.Path.{subst}
use fusion_core.Fusd.Supply.{
  csub, cadd, bps_cut, BorrowDelta, RepayDelta, RefreshDelta, LiquidateDelta, RedeemStepDelta,
  InterestDelta, borrow, repay, refresh, liquidate, redeem_step, settle_bad_debt, book_interest,
}

csub-eq_some : (a b : ℕ) {c : ℕ} → csub a b ≡ some c → c + b ≡ a
unfolding csub
csub-eq_some a b h = ground arith

cadd-eq_some : (a b : ℕ) {c : ℕ} → cadd a b ≡ some c → (c ≡ a + b) × (c ≤ u128_max)
unfolding cadd
cadd-eq_some a b h = ground arith

-- a capped cut is at most the cap
capped_cut :
    (c : Bool) (cut : Option ℕ) (cap : ℕ) {x : ℕ}
    → (if c then bind_some cut (λ want. some (min want cap)) else some 0) ≡ some x
    → x ≤ cap
capped_cut c cut cap h = ground arith

pub record Splits (pending bad headroom : ℕ) (d : RefreshDelta) : Type 0 where
  pub parts : d.keeper_cut + d.paydown + d.backstop_cut + d.buffer_amount ≡ d.amount
  pub consumed : d.amount + d.new_unminted ≡ pending
  pub retired : d.paydown + d.new_bad ≡ bad
  pub capped : d.backstop_cut ≤ headroom
  pub fits : d.amount ≤ u64_max

min_le : (a b : ℕ) → min a b ≤ b
min_le a b = omega arith

steps-Splits :
    (pending bad headroom amount keeper_cut post_keeper paydown post_paydown backstop_cut
      buffer_amount new_unminted new_bad : ℕ)
    → post_keeper + keeper_cut ≡ amount
    → post_paydown + paydown ≡ post_keeper
    → buffer_amount + backstop_cut ≡ post_paydown
    → new_unminted + amount ≡ pending
    → new_bad + paydown ≡ bad
    → backstop_cut ≤ headroom
    → amount ≤ u64_max
    → Splits pending bad headroom (record {
      amount = amount;
      keeper_cut = keeper_cut;
      paydown = paydown;
      backstop_cut = backstop_cut;
      buffer_amount = buffer_amount;
      new_unminted = new_unminted;
      new_bad = new_bad;
    })
steps-Splits pending bad headroom amount kc pk pd pp bc ba nu nb e1 e2 e3 e4 e5 h f = omega arith

-- What a refresh that returns consumes is split without remainder into the keeper's, the
-- paydown's, the backstop's and the buffer's part; the paydown retires as much bad debt, and the
-- backstop's part is at most its headroom.
pub refresh-Splits :
    (pending bad keeper_bps paydown_bps cut_bps headroom : ℕ) (d : RefreshDelta)
    → refresh pending bad keeper_bps paydown_bps cut_bps headroom ≡ some d
    → Splits pending bad headroom d
unfolding refresh
refresh-Splits pending bad keeper_bps paydown_bps cut_bps headroom d h =
    let amount = min pending u64_max in
    let (keeper_cut, _, h1) =
      bind_some-eq_some (if ltb 0 keeper_bps then bps_cut amount keeper_bps else some 0) _ h in
    let (post_keeper, e2, h2) = bind_some-eq_some (csub amount keeper_cut) _ h1 in
    let (paydown, _, h3) =
      bind_some-eq_some
        (if ltb 0 paydown_bps && ltb 0 bad
          then bind_some (bps_cut post_keeper paydown_bps) (λ want. some (min want bad))
          else some 0)
        _ h2 in
    let (post_paydown, e4, h4) = bind_some-eq_some (csub post_keeper paydown) _ h3 in
    let (backstop_cut, e5, h5) =
      bind_some-eq_some
        (if ltb 0 cut_bps
          then bind_some (bps_cut post_paydown cut_bps) (λ want. some (min want headroom))
          else some 0)
        _ h4 in
    let (buffer_amount, e6, h6) = bind_some-eq_some (csub post_paydown backstop_cut) _ h5 in
    let (new_unminted, e7, h7) = bind_some-eq_some (csub pending amount) _ h6 in
    let (new_bad, e8, h8) = bind_some-eq_some (csub bad paydown) _ h7 in
    subst (Splits pending bad headroom) (some-injective h8) (
      steps-Splits pending bad headroom amount keeper_cut post_keeper paydown post_paydown
        backstop_cut buffer_amount new_unminted new_bad (csub-eq_some amount keeper_cut e2)
        (csub-eq_some post_keeper paydown e4) (csub-eq_some post_paydown backstop_cut e6)
        (csub-eq_some pending amount e7) (csub-eq_some bad paydown e8)
        (capped_cut (ltb 0 cut_bps) (bps_cut post_paydown cut_bps) headroom e5)
        (min_le pending u64_max))

-- The four totals: fUSD in circulation, and the three fields of `Market`.
pub record Totals : Type 0 where
  pub circulating : ℕ
  pub agg : ℕ
  pub unminted : ℕ
  pub bad : ℕ

-- One instruction's transition, with its mints and burns of fUSD. Nobody burns what is not in
-- circulation.
pub data Step (t : Totals) : Totals → Type 0 where
  borrows :
      (amount fee : ℕ) (d : BorrowDelta)
      → borrow t.agg t.unminted amount fee ≡ some d
      → Step t (record {
        circulating = t.circulating + d.minted;
        agg = d.new_agg;
        unminted = d.new_unminted;
        bad = t.bad;
      })
  repays :
      (debt amount : ℕ) (d : RepayDelta)
      → repay t.agg debt amount ≡ some d
      → d.burn ≤ t.circulating
      → Step t (record t { circulating = t.circulating - d.burn; agg = d.new_agg })
  refreshes :
      (keeper_bps paydown_bps cut_bps headroom : ℕ) (d : RefreshDelta)
      → refresh t.unminted t.bad keeper_bps paydown_bps cut_bps headroom ≡ some d
      → Step t (record {
        circulating = t.circulating + d.keeper_cut + d.backstop_cut + d.buffer_amount;
        agg = t.agg;
        unminted = d.new_unminted;
        bad = d.new_bad;
      })
  liquidates :
      (reactor redist buffer global unhomed : ℕ) (d : LiquidateDelta)
      → liquidate t.agg t.bad reactor redist buffer global unhomed ≡ some d
      → d.burned ≤ t.circulating
      → Step t
          (record t { circulating = t.circulating - d.burned; agg = d.new_agg; bad = d.new_bad })
  redeems :
      (amount : ℕ) (d : RedeemStepDelta)
      → redeem_step t.agg amount ≡ some d
      → d.burned ≤ t.circulating
      → Step t (record t { circulating = t.circulating - d.burned; agg = d.new_agg })
  settles :
      (burned bad : ℕ)
      → settle_bad_debt t.bad burned ≡ some bad
      → burned ≤ t.circulating
      → Step t (record t { circulating = t.circulating - burned; bad = bad })
  accrues :
      (interest : ℕ) (d : InterestDelta)
      → book_interest t.agg t.unminted interest ≡ some d
      → Step t (record t { agg = d.new_agg; unminted = d.new_unminted })

abbrev pub Balanced : Totals → Type 0
Balanced t = t.circulating + t.unminted ≡ t.agg + t.bad

pub borrow-eq_some :
    (agg unminted amount fee : ℕ) (d : BorrowDelta)
    → borrow agg unminted amount fee ≡ some d
    → (d.minted ≡ amount)
      × (d.new_agg ≡ agg + amount + fee)
      × (d.new_unminted ≡ unminted + fee)
      × (d.debt_delta ≡ amount + fee)
unfolding borrow cadd
borrow-eq_some agg unminted amount fee d h = ground arith

pub repay-eq_some :
    (agg debt amount : ℕ) (d : RepayDelta)
    → repay agg debt amount ≡ some d
    → (d.burn ≡ min amount debt)
      × (d.new_position_debt + d.burn ≡ debt)
      × (d.new_agg + d.burn ≡ agg)
unfolding repay csub
repay-eq_some agg debt amount d h = ground arith

abbrev pub Liquidated : (agg bad burned unhomed : ℕ) → LiquidateDelta → Type 0
Liquidated agg bad burned unhomed d =
    (d.new_agg + burned + unhomed ≡ agg) × (d.new_bad ≡ bad + unhomed) × (d.burned ≡ burned)

pub liquidate-eq_some :
    (agg bad reactor redist buffer global unhomed : ℕ) (d : LiquidateDelta)
    → liquidate agg bad reactor redist buffer global unhomed ≡ some d
    → Liquidated agg bad (reactor + buffer + global) unhomed d
unfolding liquidate
liquidate-eq_some agg bad reactor redist buffer global unhomed d h =
    let (a1, e1, h1) = bind_some-eq_some (csub agg reactor) _ h in
    let (a2, e2, h2) = bind_some-eq_some (csub a1 buffer) _ h1 in
    let (a3, e3, h3) = bind_some-eq_some (csub a2 global) _ h2 in
    let (a4, e4, h4) = bind_some-eq_some (csub a3 unhomed) _ h3 in
    let (b1, e5, h5) = bind_some-eq_some (cadd reactor buffer) _ h4 in
    let (b2, e6, h6) = bind_some-eq_some (cadd b1 global) _ h5 in
    let (b3, e7, h7) = bind_some-eq_some (cadd bad unhomed) _ h6 in
    subst (Liquidated agg bad (reactor + buffer + global) unhomed) (some-injective h7) (
      omega (
        arith,
        csub-eq_some agg reactor e1,
        csub-eq_some a1 buffer e2,
        csub-eq_some a2 global e3,
        csub-eq_some a3 unhomed e4,
        cadd-eq_some reactor buffer e5,
        cadd-eq_some b1 global e6,
        cadd-eq_some bad unhomed e7,
      ))

redeem_step-eq_some :
    (agg amount : ℕ) (d : RedeemStepDelta)
    → redeem_step agg amount ≡ some d
    → (d.burned ≡ amount) × (d.new_agg + amount ≡ agg)
unfolding redeem_step csub
redeem_step-eq_some agg amount d h = ground arith

settle_bad_debt-eq_some :
    (bad burned x : ℕ) → settle_bad_debt bad burned ≡ some x → x + burned ≡ bad
unfolding settle_bad_debt csub
settle_bad_debt-eq_some bad burned x h = ground arith

pub book_interest-eq_some :
    (agg unminted x : ℕ) (d : InterestDelta)
    → book_interest agg unminted x ≡ some d
    → (d.new_agg ≡ agg + x) × (d.new_unminted ≡ unminted + x)
unfolding book_interest cadd
book_interest-eq_some agg unminted x d h = ground arith

-- Every transition keeps the supply identity.
pub Step-Balanced : {t u : Totals} → Step t u → Balanced t → Balanced u
Step-Balanced {t} (borrows amount fee d h) b =
    omega (arith, borrow-eq_some t.agg t.unminted amount fee d h)
Step-Balanced {t} (repays debt amount d h enough) b =
    omega (arith, repay-eq_some t.agg debt amount d h)
Step-Balanced {t} (refreshes keeper_bps paydown_bps cut_bps headroom d h) b =
    omega (arith, refresh-Splits t.unminted t.bad keeper_bps paydown_bps cut_bps headroom d h)
Step-Balanced {t} (liquidates reactor redist buffer global unhomed d h enough) b =
    omega (arith, liquidate-eq_some t.agg t.bad reactor redist buffer global unhomed d h)
Step-Balanced {t} (redeems amount d h enough) b =
    omega (arith, redeem_step-eq_some t.agg amount d h)
Step-Balanced {t} (settles burned bad h enough) b =
    omega (arith, settle_bad_debt-eq_some t.bad burned bad h)
Step-Balanced {t} (accrues interest d h) b =
    omega (arith, book_interest-eq_some t.agg t.unminted interest d h)

-- A sequence of transitions.
pub data Run (t : Totals) : Totals → Type 0 where
  start : Run t t
  next : {u v : Totals} → Run t u → Step u v → Run t v

-- From a balanced state every sequence of the transitions ends with the fUSD in circulation
-- equal to the recorded debt less the unminted interest plus the bad debt, and with an unminted
-- interest that the debts cover.
pub Run-Balanced :
    {t u : Totals}
    → Run t u
    → Balanced t
    → (u.circulating ≡ u.agg + u.bad - u.unminted) × (u.unminted ≤ u.agg + u.bad)
Run-Balanced r b = let e = go r b in omega arith
  where
    go : {t u : Totals} → Run t u → Balanced t → Balanced u
    go start b = b
    go (next r s) b = Step-Balanced s (go r b)

-- ===== src/Fusd/Supply.antt =====
-- programs/fusd-core/src/supply_transition.rs at `T = u128`: every step of the accounting of
-- `agg_recorded_debt`, `unminted_interest` and `bad_debt`.
pub mod Identity
mod Tests
use fusion_core.Prelude.{
  ℕ, ◌+◌, ◌-◌, ◌*◌, ◌/◌, min, Option, none, some, ◌&&◌, ltb, if◌then◌else◌, u64_max, u128_max,
  checked_add, checked_mul, checked_sub, bind_some,
}
use fusion_core.Money.{bps_denominator}

-- `impl SupplyNum for u128`
unfoldable pub cadd : ℕ → ℕ → Option ℕ
cadd a b = checked_add u128_max a b

unfoldable pub csub : ℕ → ℕ → Option ℕ
csub a b = checked_sub a b

unfoldable pub bps_cut : ℕ → ℕ → Option ℕ
bps_cut x bps = bind_some (checked_mul u128_max x bps) (λ scaled. some (scaled / bps_denominator))

pub record BorrowDelta : Type 0 where
  pub debt_delta : ℕ
  pub new_agg : ℕ
  pub new_unminted : ℕ
  pub minted : ℕ

unfoldable pub borrow : ℕ → ℕ → ℕ → ℕ → Option BorrowDelta
borrow agg0 unminted0 amount fee = bind_some (cadd amount fee) (λ debt_delta.
    bind_some (cadd agg0 debt_delta) (λ new_agg. bind_some (cadd unminted0 fee) (λ new_unminted.
      some (record {
        debt_delta = debt_delta;
        new_agg = new_agg;
        new_unminted = new_unminted;
        minted = amount;
      }))))

pub record RepayDelta : Type 0 where
  pub burn : ℕ
  pub new_position_debt : ℕ
  pub new_agg : ℕ

unfoldable pub repay : ℕ → ℕ → ℕ → Option RepayDelta
repay agg0 position_debt amount =
    let burn = min amount position_debt in
    bind_some (csub position_debt burn) (λ new_position_debt. bind_some (csub agg0 burn) (λ new_agg.
      some (record { burn = burn; new_position_debt = new_position_debt; new_agg = new_agg })))

pub record RefreshDelta : Type 0 where
  pub amount : ℕ
  pub keeper_cut : ℕ
  pub paydown : ℕ
  pub backstop_cut : ℕ
  pub buffer_amount : ℕ
  pub new_unminted : ℕ
  pub new_bad : ℕ

unfoldable pub refresh : ℕ → ℕ → ℕ → ℕ → ℕ → ℕ → Option RefreshDelta
refresh pending bad0 keeper_bps paydown_bps backstop_cut_bps backstop_headroom =
    let amount = min pending u64_max in
    bind_some (if ltb 0 keeper_bps then bps_cut amount keeper_bps else some 0) (λ keeper_cut.
      bind_some (csub amount keeper_cut) (λ post_keeper.
        bind_some
          (if ltb 0 paydown_bps && ltb 0 bad0
            then bind_some (bps_cut post_keeper paydown_bps) (λ want. some (min want bad0))
            else some 0)
          (λ paydown. bind_some (csub post_keeper paydown) (λ post_paydown.
            bind_some
              (if ltb 0 backstop_cut_bps
                then bind_some (bps_cut post_paydown backstop_cut_bps)
                    (λ want. some (min want backstop_headroom))
                else some 0)
              (λ backstop_cut. bind_some (csub post_paydown backstop_cut) (λ buffer_amount.
                bind_some (csub pending amount) (λ new_unminted.
                  bind_some (csub bad0 paydown) (λ new_bad. some (record {
                    amount = amount;
                    keeper_cut = keeper_cut;
                    paydown = paydown;
                    backstop_cut = backstop_cut;
                    buffer_amount = buffer_amount;
                    new_unminted = new_unminted;
                    new_bad = new_bad;
                  })))))))))

pub record LiquidateDelta : Type 0 where
  pub burned : ℕ
  pub new_agg : ℕ
  pub new_bad : ℕ

unfoldable pub liquidate : ℕ → ℕ → ℕ → ℕ → ℕ → ℕ → ℕ → Option LiquidateDelta
liquidate agg0 bad0 reactor redist buffer global unhomed = bind_some (csub agg0 reactor) (λ a1.
    bind_some (csub a1 buffer) (λ a2. bind_some (csub a2 global) (λ a3.
      bind_some (csub a3 unhomed) (λ new_agg. bind_some (cadd reactor buffer) (λ b1.
        bind_some (cadd b1 global) (λ burned.
          bind_some (cadd bad0 unhomed) (λ new_bad.
            some (record { burned = burned; new_agg = new_agg; new_bad = new_bad }))))))))

pub record RedeemStepDelta : Type 0 where
  pub burned : ℕ
  pub new_agg : ℕ

unfoldable pub redeem_step : ℕ → ℕ → Option RedeemStepDelta
redeem_step agg0 redeem_amt =
    bind_some (csub agg0 redeem_amt)
      (λ new_agg. some (record { burned = redeem_amt; new_agg = new_agg }))

unfoldable pub settle_bad_debt : ℕ → ℕ → Option ℕ
settle_bad_debt bad0 burned = csub bad0 burned

pub record InterestDelta : Type 0 where
  pub new_agg : ℕ
  pub new_unminted : ℕ

unfoldable pub book_interest : ℕ → ℕ → ℕ → Option InterestDelta
book_interest agg0 unminted0 x = bind_some (cadd agg0 x) (λ new_agg.
    bind_some (cadd unminted0 x)
      (λ new_unminted. some (record { new_agg = new_agg; new_unminted = new_unminted })))

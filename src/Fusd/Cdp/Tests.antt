-- ===== src/Fusd/Cdp/Tests.antt =====
-- Inputs at which the theorems on programs/fusd-core/src/cdp.rs apply.
use fusion_core.Prelude.{
  ℕ, ◌+◌, ◌*◌, ◌/◌, ◌≡◌, ◌≢◌, ◌≤◌, ◌<◌, refl, true, false, some, arith, List, [], ◌∷◌,
}
use fusion_core.Prelude.Int.{pos, pos_part, ◌-ℤ◌, saturating_sub}
use fusion_core.Wide.{exact}
use fusion_core.Money.{ray, ray_mul, mul_div_floor, mul_div_ceil, wide_mul_div}
use fusion_core.Fusd.Cdp.{
  bps, is_healthy, collateral_value, max_debt, seize_collateral, ratelimit_decayed,
  ratelimit_consume, ratelimit_restore,
}
use fusion_core.Fusd.Cdp.Health.{is_healthy_sound}
use fusion_core.Fusd.Cdp.Collar.{seize_collateral_bounds}
use fusion_core.Fusd.Cdp.RateLimit.{
  Call, consume, restore, run, Ascending, outflow, inflow, run-le-cap,
}

-- 2 SOL at 100 dollars: 10^-3 units of fUSD for a lamport, times a ray
abbrev spot : ℕ
spot = ray / 10

covered : is_healthy ⦃w = exact⦄ 2_000_000_000 150_000_000 spot 12_000 ≡ true
unfolding is_healthy collateral_value max_debt ray_mul mul_div_floor wide_mul_div
covered = refl

is_healthy_sound_example : 150_000_000 * 12_000 * ray ≤ 2_000_000_000 * spot * bps
is_healthy_sound_example =
    is_healthy_sound ⦃w = exact⦄ 2_000_000_000 150_000_000 spot 12_000 (omega arith) (omega arith)
      (omega arith) covered

short : is_healthy ⦃w = exact⦄ 2_000_000_000 180_000_000 spot 12_000 ≡ false
unfolding is_healthy collateral_value max_debt ray_mul mul_div_floor wide_mul_div
short = refl

-- 180 dollars and a bonus of 5 percent are 1.89 SOL
seized :
    seize_collateral ⦃w = exact⦄ 2_000_000_000 180_000_000 spot 500
    ≡ some (1_890_000_000, 110_000_000)
unfolding seize_collateral mul_div_ceil wide_mul_div
seized = refl

seize_collateral_bounds_example :
    (1_890_000_000 + 110_000_000 ≡ 2_000_000_000)
    × (◌≡◌ {A = ℕ} 500 0 → ◌≡◌ {A = ℕ} 110_000_000 0)
    × (◌≢◌ {A = ℕ} 500 0
        → 0 < 110_000_000
        → (180_000_000 * (bps + 500) * ray ≤ 1_890_000_000 * spot * bps)
          × (1_890_000_000 * spot * bps < 180_000_000 * (bps + 500) * ray + bps * ray + spot * bps))
seize_collateral_bounds_example =
    seize_collateral_bounds ⦃w = exact⦄ 2_000_000_000 180_000_000 spot 500 1_890_000_000 110_000_000
      (omega arith) (omega arith) (omega arith) seized

-- a window of 100 seconds and a cap of 1000
abbrev calls : List Call
calls = consume (pos 10) 900 ∷ restore (pos 20) 100 ∷ consume (pos 60) 500 ∷ []

limited_calls : run 1000 (pos 100) calls (0, pos 0) ≡ some (800, pos 60)
unfolding ratelimit_consume ratelimit_restore ratelimit_decayed saturating_sub ◌-ℤ◌
limited_calls = refl

calls-Ascending : Ascending (pos 0) calls
calls-Ascending = (omega arith, (omega arith, (omega arith, tt)))

run-le-cap_example :
    (outflow calls * 100 ≤ inflow calls * 100 + 1000 * 100 + 1000 * pos_part (pos 60 -ℤ pos 0))
    × (800 ≤ 1000)
run-le-cap_example =
    run-le-cap 1000 100 (omega arith) calls 0 (pos 0) 800 (pos 60) calls-Ascending (omega arith)
      limited_calls

-- ===== src/Money/Tests.antt =====
-- Runs of crates/fusd-math/src/lib.rs, and inputs at which the theorems apply.
use fusion_core.Prelude.{ℕ, ◌≡◌, refl, some, arith, u128_max, narrow, ◌*◌, ◌/◌, ◌≤◌}
use fusion_core.Wide.{exact}
use fusion_core.Money.{ray, ray_pow, mul_div_floor, mul_div_ceil, wide_mul_div}
use fusion_core.Money.Power.{ray_pow-le-ray}
use fusion_core.Money.Rounding.{mul_div_floor_exact}

rounds_down : mul_div_floor ⦃w = exact⦄ 7 5 2 ≡ some 17
unfolding mul_div_floor wide_mul_div
rounds_down = refl

rounds_up : mul_div_ceil ⦃w = exact⦄ 7 5 2 ≡ some 18
unfolding mul_div_ceil wide_mul_div
rounds_up = refl

mul_div_floor_exact_example : mul_div_floor ⦃w = exact⦄ 7 5 2 ≡ narrow u128_max (7 * 5 / 2)
mul_div_floor_exact_example =
    mul_div_floor_exact ⦃w = exact⦄ 7 5 2 (omega arith) (omega arith) (omega arith) (omega arith)

ray_pow-le-ray_example : (r : ℕ) × (ray_pow ⦃w = exact⦄ (ray / 2) 10 ≡ some (some r)) × (r ≤ ray)
ray_pow-le-ray_example = ray_pow-le-ray ⦃w = exact⦄ (ray / 2) 10 (omega arith) (omega arith)

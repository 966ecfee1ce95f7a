-- ===== src/Redemption/Tests.antt =====
-- A run of the functions of crates/fusd-math/src/redemption.rs.
use fusion_core.Prelude.{◌≡◌, refl, ◌/◌}
use fusion_core.Wide.{exact}
use fusion_core.Money.{ray, mul_div_floor, wide_mul_div}
use fusion_core.Redemption.{bump_base_rate}

-- a tenth of the debt redeemed raises the rate by a twentieth
bumped : bump_base_rate ⦃w = exact⦄ 0 100 1000 ≡ ray / 20
unfolding bump_base_rate mul_div_floor wide_mul_div
bumped = refl

-- ===== src/ReactorPool/Tests.antt =====
-- Inputs at which the theorems on crates/fusd-math/src/reactor_pool.rs apply.
use fusion_core.Prelude.{ℕ, ◌*◌, ◌≡◌, refl, List, [], ◌∷◌, ok, arith, Returns, some, none}
use fusion_core.Wide.{exact}
use fusion_core.Money.{mul_div_floor, wide_mul_div}
use fusion_core.ReactorPool.{
  PoolState, offset, update_product, rescale, s_idx, decimal_precision, coll_per_unit, loss_factor,
  roll_product, compounded_deposit, collateral_gain,
}
use fusion_core.ReactorPool.Product.{Rescaled, update_product-Rescaled}
use fusion_core.ReactorPool.Offset.{IsPool, Absorbed, offset-Absorbed}

-- 1000 deposited in a new pool, with a grid of two epochs of two scales
abbrev pool : PoolState
pool = record {
  p = 1_000_000_000_000_000_000;
  epoch = 0;
  scale = 0;
  total_deposits = 1000;
  last_coll_error = 0;
  last_loss_error = 0;
}

abbrev grid : List ℕ
grid = 0 ∷ 0 ∷ 0 ∷ 0 ∷ []

half_product :
    update_product ⦃w = exact⦄ decimal_precision 500_000_000 ≡ ok (500_000_000_000_000_000, 1)
unfolding update_product rescale
half_product = refl

update_product-Rescaled_example :
    (r : ℕ × ℕ) × (update_product ⦃w = exact⦄ decimal_precision 500_000_000 ≡ ok r)
    × Rescaled (decimal_precision * 500_000_000) 4 0 r
update_product-Rescaled_example =
    update_product-Rescaled ⦃w = exact⦄ decimal_precision 500_000_000 (omega arith) (omega arith)
      (omega arith) (omega arith)

pool-IsPool : IsPool pool 2 4
unfolding s_idx
pool-IsPool = record { least = omega arith; most = omega arith; cell = 0; addressed = refl }

-- a tenth of the pool is burned for 50 of collateral
abbrev pool_after : PoolState
pool_after = record {
  p = 899_999_999_999_999_999;
  epoch = 0;
  scale = 0;
  total_deposits = 900;
  last_coll_error = 0;
  last_loss_error = 1000;
}

abbrev grid_after : List ℕ
grid_after = 50_000_000_000_000_000_000_000_000_000_000_000 ∷ 0 ∷ 0 ∷ 0 ∷ []

tenth_burned : offset ⦃w = exact⦄ pool grid 2 100 50 ≡ ok (pool_after, grid_after)
unfolding offset coll_per_unit loss_factor roll_product update_product rescale s_idx
tenth_burned = refl

-- who had deposited everything
tenth_compounded :
    compounded_deposit ⦃w = exact⦄ pool_after 1000
      (record { p = decimal_precision; s = 0; scale = 0; epoch = 0 })
    ≡ some 899
unfolding compounded_deposit mul_div_floor wide_mul_div
tenth_compounded = refl

tenth_gained :
    collateral_gain ⦃w = exact⦄ grid_after 2 1000
      (record { p = decimal_precision; s = 0; scale = 0; epoch = 0 })
    ≡ some (ok 50)
unfolding collateral_gain s_idx mul_div_floor wide_mul_div
tenth_gained = refl

-- of a snapshot at a later scale than the pool's
later_scale_panics :
    compounded_deposit ⦃w = exact⦄ pool_after 1000
      (record { p = decimal_precision; s = 0; scale = 1; epoch = 0 })
    ≡ none
unfolding compounded_deposit
later_scale_panics = refl

offset-Absorbed_example :
    Returns (Absorbed pool grid 2 100 50) (offset ⦃w = exact⦄ pool grid 2 100 50)
offset-Absorbed_example = offset-Absorbed ⦃w = exact⦄ pool grid 2 100 50 pool-IsPool

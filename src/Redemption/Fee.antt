-- ===== src/Redemption/Fee.antt =====
-- The base rate of crates/fusd-math/src/redemption.rs stays a fraction, and the fee stays in its band.
use fusion_core.Prelude.{
  ℕ, ◌+◌, ◌/◌, ◌≤◌, ◌≡◌, min, inl, inr, Bool-cases, ◌||◌, arith, ◌==◌, u128_max, unwrap_or,
  saturating_add,
}
use fusion_core.Prelude.Int.{ℤ, pos_part, i64_max}
use fusion_core.Wide.{Wide}
use fusion_core.Money.{ray, mul_div_floor}
use fusion_core.Money.Power.{ray_mul-le, ray_pow-le-ray}
use fusion_core.Redemption.{
  base_rate_decay_per_minute, base_rate_beta, decay_base_rate, bump_base_rate, effective_fee_bps,
}

module _ ⦃w : Wide⦄ where
  -- For a base rate of at most one ray and a time of 64 bits the decay never raises the rate.
  pub decay_base_rate_le :
      (base_rate : ℕ) (secs : ℤ)
      → base_rate ≤ ray
      → pos_part secs ≤ i64_max
      → decay_base_rate base_rate secs ≤ base_rate
  unfolding decay_base_rate
  decay_base_rate_le base_rate secs h ht =
      elim (Bool-cases (base_rate == 0 || pos_part secs == 0)) [
        | inl still ↦ rw still (omega arith)
        | inr elapsed ↦ elim (Bool-cases (pos_part secs / 60 == 0)) [
          | inl short ↦ rw (elapsed, short) (omega arith)
          | inr minutes ↦
              let (factor, ef, hf) =
                ray_pow-le-ray base_rate_decay_per_minute (pos_part secs / 60) (omega arith)
                  (omega arith) in
              let (q, eq, hq) = ray_mul-le base_rate factor h hf in rw (elapsed, minutes, ef, eq) hq
        ]
      ]

  -- For a base rate of at most one ray a redemption never lowers the rate, and the rate stays at most
  -- one ray.
  pub bump_base_rate_bounds :
      (base_rate redeemed total_debt : ℕ)
      → base_rate ≤ ray
      → (base_rate ≤ bump_base_rate base_rate redeemed total_debt)
        × (bump_base_rate base_rate redeemed total_debt ≤ ray)
  unfolding bump_base_rate
  bump_base_rate_bounds base_rate redeemed total_debt h =
      elim (Bool-cases (total_debt == 0 || (redeemed == 0 || base_rate_beta == 0))) [
        | inl none_redeemed ↦ rw none_redeemed (omega arith, h)
        | inr some_redeemed ↦ rw some_redeemed (
            capped base_rate (unwrap_or 0 (mul_div_floor redeemed ray total_debt) / base_rate_beta)
              h)
      ]
    where
      capped :
          (b f : ℕ)
          → b ≤ ray
          → (b ≤ min (saturating_add u128_max b f) ray)
            × (min (saturating_add u128_max b f) ray ≤ ray)
      capped b f h = omega arith

-- The fee is at least the floor, or the cap where that is lower; at most the cap, and at most the floor
-- and the dynamic maximum together; it rises with the base rate; and with no dynamic
-- maximum it is the flat fee.
pub effective_fee_bps_bounds :
    (base_rate more floor dynamic_max cap : ℕ)
    → let fee = effective_fee_bps base_rate floor dynamic_max cap in
      (min floor cap ≤ fee)
      × (fee ≤ cap)
      × (fee ≤ floor + dynamic_max)
      × (fee ≤ effective_fee_bps (base_rate + more) floor dynamic_max cap)
      × (dynamic_max ≡ 0 → fee ≡ min floor cap)
unfolding effective_fee_bps
effective_fee_bps_bounds base_rate more floor dynamic_max cap = omega arith

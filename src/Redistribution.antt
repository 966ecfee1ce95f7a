-- ===== src/Redistribution.antt =====
-- crates/fusd-math/src/redistribution.rs: reward-per-stake accumulators with error feedback. The
-- bodies are those of the production build. A call that fails has written what stands before the
-- failing step, so the state comes back beside the result.
pub mod Accumulate
pub mod Conserve
pub mod Drift
pub mod Stakes
mod Tests
use fusion_core.Prelude.{
  ℕ, ◌-◌, Bool, ◌||◌, Option, none, some, Result, ok, err, ok_or, ◌>>=◌, ◌==◌, if◌then◌else◌,
  u128_max, checked_add, bind_some,
}
use fusion_core.Wide.{Wide}
use fusion_core.Money.{mul_div_floor}

abbrev pub precision : ℕ
precision = 1_000_000_000_000_000_000

pub data RedistError : Type 0 where
  no_stakes accumulator_overflow math : RedistError

pub record RedistState : Type 0 where
  pub l_coll : ℕ
  pub l_art : ℕ
  pub last_coll_error : ℕ
  pub last_art_error : ℕ

pub record RedistSnapshot : Type 0 where
  pub l_coll : ℕ
  pub l_art : ℕ

abbrev pub new : RedistState
new = record { l_coll = 0; l_art = 0; last_coll_error = 0; last_art_error = 0 }

unfoldable pub snapshot : RedistState → RedistSnapshot
snapshot st = record { l_coll = st.l_coll; l_art = st.l_art }

module _ ⦃w : Wide⦄ where
  open w use {from, mul, div, sub, checked_mul as wide_mul, checked_add as wide_add, to_u128}

  -- The quotient and the remainder of `(amount * 1e18 + last_error) / total_stakes`.
  pub per_unit : ℕ → ℕ → ℕ → Result RedistError (ℕ × ℕ)
  per_unit last_error total_stakes amount =
      ok_or
        (bind_some (wide_mul (from amount) (from precision)) (λ x. wide_add x (from last_error)))
        RedistError.math
      >>= λ numerator.
          let ts = from total_stakes in
          let reward_per_unit = div numerator ts in
          ok_or (to_u128 (sub numerator (mul reward_per_unit ts))) RedistError.math >>= λ rem.
          ok_or (to_u128 reward_per_unit) RedistError.accumulator_overflow >>= λ rpu. ok (rpu, rem)

  -- The second component is `*last_error` after the call.
  unfoldable pub accumulate : ℕ → ℕ → ℕ → ℕ → Result RedistError ℕ × ℕ
  unfolding per_unit
  accumulate l last_error total_stakes amount = elim (per_unit last_error total_stakes amount) [
    | err e ↦ (err e, last_error)
    | ok (rpu, rem) ↦ (ok_or (checked_add u128_max l rpu) RedistError.accumulator_overflow, rem)
  ]

  unfoldable pub redistribute :
      RedistState → ℕ → ℕ → ℕ → Result RedistError (Unit {0}) × RedistState
  redistribute st total_stakes coll art =
      if total_stakes == 0
      then (err RedistError.no_stakes, st)
      else let (r, e) = accumulate st.l_coll st.last_coll_error total_stakes coll in
        elim r [
          | err x ↦ (err x, record st { last_coll_error = e })
          | ok l ↦
              let (r', e') = accumulate st.l_art st.last_art_error total_stakes art in
              elim r' [
                | err x ↦
                    (err x, record st { l_coll = l; last_coll_error = e; last_art_error = e' })
                | ok l' ↦ (
                  ok tt,
                  record { l_coll = l; l_art = l'; last_coll_error = e; last_art_error = e' },
                )
              ]
        ]

  unfoldable pub pending_one : ℕ → ℕ → ℕ → Result RedistError ℕ
  pending_one stake l_now l_snap =
      let delta = l_now - l_snap in
      if stake == 0 || delta == 0
      then ok 0
      else ok_or (mul_div_floor stake delta precision) RedistError.math

  unfoldable pub pending : ℕ → RedistState → RedistSnapshot → Result RedistError (ℕ × ℕ)
  unfolding pending_one
  pending stake st snap = pending_one stake st.l_coll snap.l_coll >>= λ coll.
      pending_one stake st.l_art snap.l_art >>= λ art. ok (coll, art)

  unfoldable pub compute_stake : ℕ → ℕ → ℕ → Result RedistError ℕ
  compute_stake coll total_stakes_snapshot total_collateral_snapshot =
      if total_collateral_snapshot == 0
      then ok coll
      else ok_or (mul_div_floor coll total_stakes_snapshot total_collateral_snapshot)
          RedistError.math

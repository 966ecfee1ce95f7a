-- ===== src/ReactorPool.antt =====
-- crates/fusd-math/src/reactor_pool.rs: the product and sum accounting of the Reactor Pool, in the
-- production build. The grid of sums is a list; an offset that fails leaves no state behind, since
-- its callers revert.
pub mod Product
pub mod Offset
mod Tests
use fusion_core.Prelude.{
  ℕ, zero, suc, ◌+◌, ◌-◌, ◌*◌, ◌/◌, Bool, Option, none, some, List, Result, ok, err, ok_or, require,
  ◌>>=◌, ◌==◌, leb, ltb, if◌then◌else◌, not, length, get_or, set, u64_max, u128_max, narrow,
  checked_add, checked_mul, checked_sub, bind_some, map_some, unwrap_or,
}
use fusion_core.Wide.{Wide}
use fusion_core.Money.{mul_div_floor}

abbrev pub decimal_precision : ℕ
decimal_precision = 1_000_000_000_000_000_000

abbrev pub scale_factor : ℕ
scale_factor = 1_000_000_000

pub data ReactorError : Type 0 where
  no_deposits debt_exceeds_deposits scale_overflow epoch_overflow math : ReactorError

pub record Snapshot : Type 0 where
  pub p : ℕ
  pub s : ℕ
  pub scale : ℕ
  pub epoch : ℕ

pub record PoolState : Type 0 where
  pub p : ℕ
  pub epoch : ℕ
  pub scale : ℕ
  pub total_deposits : ℕ
  pub last_coll_error : ℕ
  pub last_loss_error : ℕ

abbrev pub new : PoolState
new = record {
  p = decimal_precision;
  epoch = 0;
  scale = 0;
  total_deposits = 0;
  last_coll_error = 0;
  last_loss_error = 0;
}

-- `usize` has 64 bits.
unfoldable pub s_idx : ℕ → ℕ → ℕ → ℕ → Option ℕ
s_idx epoch scale stride len =
    if leb stride scale
    then none
    else bind_some (checked_mul u128_max epoch stride) (λ x.
      bind_some (checked_add u128_max x scale)
        (λ y. bind_some (narrow u64_max y) (λ i. if ltb i len then some i else none)))

unfoldable pub snapshot : PoolState → List ℕ → ℕ → Snapshot
snapshot st s_grid stride = record {
  p = st.p;
  s =
      unwrap_or 0
        (map_some (λ i. get_or s_grid i 0) (s_idx st.epoch st.scale stride (length s_grid)));
  scale = st.scale;
  epoch = st.epoch;
}

-- `o.ok_or(ReactorError::Math)?`
abbrev pub or_math {ℓ} : {A : Type ℓ} → Option A → Result ReactorError A
or_math o = ok_or o ReactorError.math

-- The collateral gain of one unit, and the residue.
unfoldable pub coll_per_unit : PoolState → ℕ → Result ReactorError (ℕ × ℕ)
coll_per_unit st coll_to_add =
    or_math (
      bind_some (checked_mul u128_max coll_to_add decimal_precision)
        (λ x. checked_add u128_max x st.last_coll_error))
    >>= λ numerator.
        let gain = numerator / st.total_deposits in ok (gain, numerator - gain * st.total_deposits)

-- The product factor, and the residue of the loss.
unfoldable pub loss_factor : PoolState → ℕ → Result ReactorError (ℕ × ℕ)
loss_factor st debt_to_offset =
    let total = st.total_deposits in
    if debt_to_offset == total
    then ok (0, 0)
    else (or_math (
          bind_some (checked_mul u128_max debt_to_offset decimal_precision)
            (λ x. checked_sub x st.last_loss_error))
        >>= λ numerator.
            let loss_per_unit = numerator / total + 1 in
            or_math (checked_mul u128_max loss_per_unit total) >>= λ covered.
            ok (decimal_precision - loss_per_unit, covered - numerator))

module _ ⦃w : Wide⦄ where
  open w use {U256, from, mul, div, ge, to_u128}

  -- The loop of `update_product`, with `left` rescalings left.
  unfoldable pub rescale : ℕ → ℕ → U256 → Result ReactorError (ℕ × ℕ)
  rescale zero bumps num =
      let new_p = div num (from decimal_precision) in
      if ge new_p (from scale_factor)
      then (or_math (to_u128 new_p) >>= λ p. ok (p, bumps))
      else err ReactorError.math
  rescale (suc left) bumps num =
      let new_p = div num (from decimal_precision) in
      let rest = rescale left (bumps + 1) (mul num (from scale_factor)) in
      if ge new_p (from scale_factor)
      then (or_math (to_u128 new_p) >>= λ p. ok (p, bumps))
      else rest

  unfoldable pub update_product : ℕ → ℕ → Result ReactorError (ℕ × ℕ)
  update_product p factor = rescale 4 0 (mul (from p) (from factor))

  -- The new product, scale and epoch.
  unfoldable pub roll_product : PoolState → ℕ → ℕ → ℕ → Result ReactorError PoolState
  roll_product st stride len factor =
      if factor == 0
      then (ok_or (checked_add u64_max st.epoch 1) ReactorError.epoch_overflow >>= λ new_epoch.
          ok_or (s_idx new_epoch 0 stride len) ReactorError.epoch_overflow >>= λ _.
          ok (record st { epoch = new_epoch; scale = 0; p = decimal_precision }))
      else (update_product st.p factor >>= λ updated.
          if ltb 0 updated.1
          then (ok_or (checked_add u64_max st.scale updated.1) ReactorError.scale_overflow
              >>= λ new_scale.
                  ok_or (s_idx st.epoch new_scale stride len) ReactorError.scale_overflow >>= λ _.
                  ok (record st { scale = new_scale; p = updated.0 }))
          else ok (record st { p = updated.0 }))

  unfoldable pub offset : PoolState → List ℕ → ℕ → ℕ → ℕ → Result ReactorError (PoolState × List ℕ)
  offset st s_grid stride debt_to_offset coll_to_add =
      require (not (st.total_deposits == 0)) ReactorError.no_deposits >>= λ _.
      require (leb debt_to_offset st.total_deposits) ReactorError.debt_exceeds_deposits >>= λ _.
      coll_per_unit st coll_to_add >>= λ gain. loss_factor st debt_to_offset >>= λ loss.
      or_math (checked_mul u128_max gain.0 st.p) >>= λ marginal.
      ok_or (s_idx st.epoch st.scale stride (length s_grid)) ReactorError.epoch_overflow
      >>= λ cur_i. or_math (checked_add u128_max (get_or s_grid cur_i 0) marginal) >>= λ sum.
          roll_product (record st { last_coll_error = gain.1; last_loss_error = loss.1 }) stride
            (length s_grid) loss.0
          >>= λ rolled. ok (
            record rolled { total_deposits = st.total_deposits - debt_to_offset },
            set s_grid cur_i sum,
          )

  -- `none` is the panic of `st.scale - snap.scale` below 0.
  unfoldable pub compounded_deposit : PoolState → ℕ → Snapshot → Option ℕ
  compounded_deposit st initial_deposit snap =
      if initial_deposit == 0
      then some 0
      else if ltb snap.epoch st.epoch
      then some 0
      else map_some
          (λ scale_diff.
            let shrunk = unwrap_or 0 (mul_div_floor initial_deposit st.p snap.p) in
            let compounded =
              if scale_diff == 0
              then shrunk
              else if scale_diff == 1
              then shrunk / scale_factor
              else 0 in
            if ltb compounded (initial_deposit / 1_000_000_000) then 0 else compounded)
          (checked_sub st.scale snap.scale)

  -- `none` is the panic of `snap.scale + 1` above 64 bits.
  unfoldable pub collateral_gain : List ℕ → ℕ → ℕ → Snapshot → Option (Result ReactorError ℕ)
  collateral_gain s_grid stride initial_deposit snap =
      if initial_deposit == 0
      then some (ok 0)
      else map_some
          (λ next_scale.
            let cell = λ (scale : ℕ).
              unwrap_or 0 (
                map_some (λ i. get_or s_grid i 0)
                  (s_idx snap.epoch scale stride (length s_grid))) in
            let first_portion = cell snap.scale - snap.s in
            let second_portion = cell next_scale / scale_factor in
            or_math (checked_add u128_max first_portion second_portion) >>= λ sum.
            or_math (mul_div_floor initial_deposit sum snap.p) >>= λ t. ok (t / decimal_precision))
          (checked_add u64_max snap.scale 1)

-- ===== src/Redistribution/Stakes.antt =====
-- `compute_stake` of crates/fusd-math/src/redistribution.rs.
use native.Mathlib.Nat.{mul-le-mul_right}
use fusion_core.Prelude.{
  ℕ, ◌*◌, ◌≤◌, ◌<◌, ◌≡◌, List, [], ◌∷◌, Result, ok, ◌>>=◌, >>=-eq-ok, ok-injective, le_of_mul_le,
  ok_or-eq-ok, arith, sum, u128_max,
}
use fusion_core.Wide.{Wide}
use fusion_core.Money.{mul_div_floor}
use fusion_core.Money.Rounding.{ne_zero, mul_div_floor_bounds}
use fusion_core.Redistribution.{RedistError, compute_stake}

module _ ⦃w : Wide⦄ where
  -- The stakes of several collaterals under one snapshot.
  abbrev pub stake_each : List ℕ → ℕ → ℕ → Result RedistError (List ℕ)
  stake_each [] tss tcs = ok []
  stake_each (c ∷ cs) tss tcs =
      compute_stake c tss tcs >>= λ s. stake_each cs tss tcs >>= λ ss. ok (s ∷ ss)

  compute_stake_bound :
      (coll tss tcs s : ℕ)
      → coll ≤ u128_max
      → tss ≤ u128_max
      → tcs ≤ u128_max
      → 0 < tcs
      → compute_stake coll tss tcs ≡ ok s
      → s * tcs ≤ coll * tss
  unfolding compute_stake
  compute_stake_bound coll tss tcs s hc ht hk pos h =
      let taken =
        ok_or-eq-ok (mul_div_floor coll tss tcs) RedistError.math (rw (ne_zero tcs pos) at h) in
      (mul_div_floor_bounds coll tss tcs hc ht hk taken).1

  stake_each_bound :
      (colls : List ℕ) (tss tcs : ℕ) (ss : List ℕ)
      → sum colls ≤ u128_max
      → tss ≤ u128_max
      → tcs ≤ u128_max
      → 0 < tcs
      → stake_each colls tss tcs ≡ ok ss
      → sum ss * tcs ≤ sum colls * tss
  stake_each_bound [] tss tcs ss hc ht hk pos h = rw (← ok-injective h) (omega arith)
  stake_each_bound (c ∷ cs) tss tcs ss hc ht hk pos h =
      let (s, es, h') = >>=-eq-ok (compute_stake c tss tcs) _ h in
      let (ss', ess, h'') = >>=-eq-ok (stake_each cs tss tcs) _ h' in
      let one = compute_stake_bound c tss tcs s (omega arith) ht hk pos es in
      let more = stake_each_bound cs tss tcs ss' (omega arith) ht hk pos ess in
      rw (← ok-injective h'') (omega arith)

  -- Under a snapshot of 128 bits of the stakes and of a collateral that is not zero, positions
  -- whose collateral adds up to no more than the snapshot's, and whose stakes are computed, get
  -- stakes that add up to no more than the snapshot's.
  pub stake_each-le-snapshot :
      (colls : List ℕ) (tss tcs : ℕ) (ss : List ℕ)
      → tss ≤ u128_max
      → tcs ≤ u128_max
      → 0 < tcs
      → sum colls ≤ tcs
      → stake_each colls tss tcs ≡ ok ss
      → sum ss ≤ tss
  stake_each-le-snapshot colls tss tcs ss ht hk pos hs h = le_of_mul_le (sum ss) tss tcs pos (
      omega (
        arith,
        stake_each_bound colls tss tcs ss (omega arith) ht hk pos h,
        mul-le-mul_right tss hs,
      ))

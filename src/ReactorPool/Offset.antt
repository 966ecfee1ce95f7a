-- ===== src/ReactorPool/Offset.antt =====
-- `offset` of crates/fusd-math/src/reactor_pool.rs: what an absorbed debt does to the pool.
use fusion_core.Prelude.{
  ℕ, ◌+◌, ◌-◌, ◌*◌, ◌/◌, ◌≤◌, ◌<◌, ◌≡◌, refl, ap, ◌∙◌, not, inl, inr, Bool-cases, some, List, ok,
  ok_or, ok_or-eq-ok, require, ◌==◌, ltb, leb, arith, length, get_or, set, length-set, u64_max,
  u128_max, checked_add, checked_mul, checked_sub, bind_some, div_bounds, div_lt, Returns,
  Returns-bind, Returns-ok,
}
use fusion_core.Wide.{Wide}
use fusion_core.ReactorPool.{
  PoolState, ReactorError, offset, coll_per_unit, loss_factor, roll_product, s_idx,
  decimal_precision, scale_factor, or_math,
}
use fusion_core.ReactorPool.Product.{Rescaled, update_product-Rescaled}

-- The gain of a unit and its residue account for the collateral and the residue before.
abbrev pub Gain : PoolState → ℕ → ℕ × ℕ → Type 0
Gain st coll r =
    (r.0 * st.total_deposits + r.1 ≡ coll * decimal_precision + st.last_coll_error)
    × (r.1 < st.total_deposits)

coll_per_unit-Gain :
    (st : PoolState) (coll : ℕ)
    → 0 < st.total_deposits
    → Returns (Gain st coll) (coll_per_unit st coll)
unfolding coll_per_unit
coll_per_unit-Gain st coll pos =
    Returns-bind
      (or_math (
        bind_some (checked_mul u128_max coll decimal_precision)
          (λ x. checked_add u128_max x st.last_coll_error)))
      _ (numerator_of coll st.last_coll_error)
      (λ n e.
        Returns-ok (n / st.total_deposits, n - n / st.total_deposits * st.total_deposits)
          (omega (arith, div_bounds n st.total_deposits pos, e)))
  where
    numerator_of :
        (c e : ℕ)
        → Returns
            (λ n. n ≡ c * decimal_precision + e)
            (or_math (
              bind_some (checked_mul u128_max c decimal_precision) (λ x. checked_add u128_max x e)))
    numerator_of c e = record { holds = λ n h. ground arith }

-- The arithmetic of the loss of a partial offset, at the factor `k`.
loss_identity :
    (total debt e n q k : ℕ)
    → debt < total
    → n + e ≡ debt * decimal_precision
    → q * total ≤ n
    → n < q * total + total
    → k + (q + 1) ≡ decimal_precision
    → k * total + ((q + 1) * total - n) ≡ decimal_precision * (total - debt) + e
loss_identity total debt e n q k lt e1 h1 h2 h3 = omega (arith, ap (λ (z : ℕ). z * total) h3)

loss_most :
    (total debt n : ℕ)
    → debt < total
    → n ≤ debt * decimal_precision
    → n / total + 1 ≤ decimal_precision
loss_most total debt n lt h =
    omega (arith, div_lt decimal_precision n total (omega arith) (omega arith))

-- In a partial offset the factor and its residue account for the deposits that are left and the
-- residue before, without a remainder; the factor of a drained pool and its residue are zero.
pub record Loss (st : PoolState) (debt : ℕ) (r : ℕ × ℕ) : Type 0 where
  pub most : r.0 ≤ decimal_precision
  pub partial :
      debt < st.total_deposits
      → r.0 * st.total_deposits + r.1
        ≡ decimal_precision * (st.total_deposits - debt) + st.last_loss_error
  pub drained : debt ≡ st.total_deposits → (r.0 ≡ 0) × (r.1 ≡ 0)

loss_factor-Loss :
    (st : PoolState) (debt : ℕ)
    → debt ≤ st.total_deposits
    → Returns (Loss st debt) (loss_factor st debt)
unfolding loss_factor
loss_factor-Loss st debt le = elim (Bool-cases (debt == st.total_deposits)) [
  | inl full ↦ rw full (
      Returns-ok (0, 0)
        (record {
          most = omega arith;
          partial = λ lt. absurd (ground arith);
          drained = λ e. (refl, refl);
        }))
  | inr part ↦ rw part (
      let lt : debt < st.total_deposits = ground arith in
      Returns-bind
        (or_math (
          bind_some (checked_mul u128_max debt decimal_precision)
            (λ x. checked_sub x st.last_loss_error)))
        _ (numerator_of debt st.last_loss_error)
        (λ n e1.
          Returns-bind
            (or_math (checked_mul u128_max (n / st.total_deposits + 1) st.total_deposits)) _
            (product_of (n / st.total_deposits + 1) st.total_deposits)
            (λ covered e2.
              let most = loss_most st.total_deposits debt n lt (omega arith) in
              let bounds = div_bounds n st.total_deposits (omega arith) in
              Returns-ok (decimal_precision - (n / st.total_deposits + 1), covered - n)
                (record {
                  most = omega arith;
                  partial = λ _.
                      ap
                        (λ (c : ℕ).
                          (decimal_precision - (n / st.total_deposits + 1)) * st.total_deposits
                          + (c - n))
                        e2
                      ∙ loss_identity st.total_deposits debt st.last_loss_error n
                          (n / st.total_deposits) (decimal_precision - (n / st.total_deposits + 1))
                          lt e1 bounds.0 bounds.1 (omega (arith, most));
                  drained = λ e. absurd (omega arith);
                }))))
]
  where
    numerator_of :
        (d e : ℕ)
        → Returns
            (λ n. n + e ≡ d * decimal_precision)
            (or_math (bind_some (checked_mul u128_max d decimal_precision) (λ x. checked_sub x e)))
    numerator_of d e = record { holds = λ n h. ground arith }

    product_of : (a b : ℕ) → Returns (λ c. c ≡ a * b) (or_math (checked_mul u128_max a b))
    product_of a b = record { holds = λ c h. ground arith }

-- The product is between the scale factor and one, and the current sum is in the grid.
pub record IsPool (st : PoolState) (stride len : ℕ) : Type 0 where
  pub least : scale_factor ≤ st.p
  pub most : st.p ≤ decimal_precision
  pub cell : ℕ
  pub addressed : s_idx st.epoch st.scale stride len ≡ some cell

-- What a factor above zero does to the product: it is multiplied, and brought back to its range by at most
-- four rescalings, which the scale counts.
pub record Shrunk (st : PoolState) (factor : ℕ) (st' : PoolState) : Type 0 where
  pub bumps : ℕ
  pub product : Rescaled (st.p * factor) 4 0 (st'.p, bumps)
  pub scale : st'.scale ≡ st.scale + bumps
  pub epoch : st'.epoch ≡ st.epoch

-- What a drained pool restarts with.
pub record Restarted (st st' : PoolState) : Type 0 where
  pub product : st'.p ≡ decimal_precision
  pub scale : st'.scale ≡ 0
  pub epoch : st'.epoch ≡ st.epoch + 1

-- What an offset does: the deposits pay the debt, the sum of the current cell grows by the gain of a
-- unit at the product before, the two residues carry what the divisions left, the
-- product shrinks by the factor of the loss, and a drained pool starts a new epoch.
pub record Absorbed (st : PoolState) (s_grid : List ℕ) (stride debt coll : ℕ)
    (r : PoolState × List ℕ) : Type 0 where
  pub pool : IsPool r.0 stride (length r.1)
  pub paid : r.0.total_deposits + debt ≡ st.total_deposits
  pub gain : ℕ
  pub gained : Gain st coll (gain, r.0.last_coll_error)
  pub factor : ℕ
  pub lost : Loss st debt (factor, r.0.last_loss_error)
  pub cell : ℕ
  pub addressed : s_idx st.epoch st.scale stride (length s_grid) ≡ some cell
  pub summed : r.1 ≡ set s_grid cell (get_or s_grid cell 0 + gain * st.p)
  pub shrunk : 0 < factor → Shrunk st factor r.0
  pub drained : factor ≡ 0 → Restarted st r.0
  pub emptied : debt ≡ st.total_deposits → Restarted st r.0

module _ ⦃w : Wide⦄ where
  abbrev Rolled : PoolState → ℕ → ℕ → ℕ → PoolState → Type 0
  Rolled st stride len factor st' =
      IsPool st' stride len
      × (st'.last_coll_error ≡ st.last_coll_error)
      × (st'.last_loss_error ≡ st.last_loss_error)
      × (factor ≡ 0 → Restarted st st')
      × (0 < factor → Shrunk st factor st')

  roll_product-Rolled :
      (st : PoolState) (stride len factor : ℕ)
      → IsPool st stride len
      → factor ≤ decimal_precision
      → Returns (Rolled st stride len factor) (roll_product st stride len factor)
  unfolding roll_product
  roll_product-Rolled st stride len factor h most = elim (Bool-cases (factor == 0)) [
    | inl drained ↦ rw drained (
        Returns-bind (ok_or (checked_add u64_max st.epoch 1) ReactorError.epoch_overflow) _
          (record { holds = λ n e. sum_of st.epoch e })
          (λ epoch e1.
            Returns-bind (ok_or (s_idx epoch 0 stride len) ReactorError.epoch_overflow) _
              (record { holds = λ i e. ok_or-eq-ok _ _ e })
              (λ i e2.
                Returns-ok (record st { epoch = epoch; scale = 0; p = decimal_precision })
                  (
                    record { least = omega arith; most = omega arith; cell = i; addressed = e2 },
                    refl,
                    refl,
                    (λ _. record { product = refl; scale = refl; epoch = e1 }),
                    (λ pos. absurd (ground arith)),
                  ))))
    | inr kept ↦ rw kept (
        let (r, eq, updated) =
          update_product-Rescaled st.p factor h.least h.most (ground arith) most in
        rw eq (elim (Bool-cases (ltb 0 r.1)) [
          | inl bumps ↦ rw bumps (
              Returns-bind (ok_or (checked_add u64_max st.scale r.1) ReactorError.scale_overflow) _
                (record { holds = λ n e. scaled_of st.scale r.1 e })
                (λ scale e1.
                  Returns-bind (ok_or (s_idx st.epoch scale stride len) ReactorError.scale_overflow)
                    _ (record { holds = λ i e. ok_or-eq-ok _ _ e })
                    (λ i e.
                      Returns-ok (record st { scale = scale; p = r.0 })
                        (
                          record {
                            least = updated.least;
                            most = updated.most;
                            cell = i;
                            addressed = e;
                          },
                          refl,
                          refl,
                          (λ z. absurd (ground arith)),
                          (λ _. record {
                            bumps = r.1;
                            product = updated;
                            scale = e1;
                            epoch = refl;
                          }),
                        ))))
          | inr same ↦ rw same (
              Returns-ok (record st { p = r.0 })
                (
                  record {
                    least = updated.least;
                    most = updated.most;
                    cell = h.cell;
                    addressed = h.addressed;
                  },
                  refl,
                  refl,
                  (λ z. absurd (ground arith)),
                  (λ _. record {
                    bumps = r.1;
                    product = updated;
                    scale = ground arith;
                    epoch = refl;
                  }),
                ))
        ]))
  ]
    where
      sum_of :
          (a : ℕ) {c : ℕ}
          → ok_or (checked_add u64_max a 1) ReactorError.epoch_overflow ≡ ok c
          → c ≡ a + 1
      sum_of a e = ground arith

      scaled_of :
          (a b : ℕ) {c : ℕ}
          → ok_or (checked_add u64_max a b) ReactorError.scale_overflow ≡ ok c
          → c ≡ a + b
      scaled_of a b e = ground arith

  -- An offset that returns, from a pool whose product is in range: the deposits pay the debt, the current
  -- sum grows by the gain of a unit at the product before, and the product is the one before times the
  -- factor of the loss, scaled up at most four times, as the scale counts, and rounded down. The factor
  -- and the gain with their residues account for the deposits that are left and the collateral. If the
  -- factor is zero, as it is for a drained pool, a new epoch starts with a product of one at scale zero.
  -- The product stays in range and the new sum in the grid.
  pub offset-Absorbed :
      (st : PoolState) (s_grid : List ℕ) (stride debt coll : ℕ)
      → IsPool st stride (length s_grid)
      → Returns (Absorbed st s_grid stride debt coll) (offset st s_grid stride debt coll)
  unfolding offset
  offset-Absorbed st s_grid stride debt coll h =
      Returns-bind (require (not (st.total_deposits == 0)) ReactorError.no_deposits) _
        (record { holds = λ _ e. nonzero st.total_deposits e })
        (λ _ pos.
          Returns-bind (require (leb debt st.total_deposits) ReactorError.debt_exceeds_deposits) _
            (record { holds = λ _ e. at_most debt st.total_deposits e })
            (λ _ le.
              Returns-bind (coll_per_unit st coll) _ (coll_per_unit-Gain st coll pos) (λ gain e1.
                Returns-bind (loss_factor st debt) _ (loss_factor-Loss st debt le) (λ loss e2.
                  Returns-bind (or_math (checked_mul u128_max gain.0 st.p)) _
                    (record { holds = λ m e. product_of gain.0 st.p e })
                    (λ marginal e3.
                      Returns-bind
                        (ok_or (s_idx st.epoch st.scale stride (length s_grid))
                          ReactorError.epoch_overflow)
                        _ (record { holds = λ i e. ok_or-eq-ok _ _ e })
                        (λ cur_i e4.
                          Returns-bind
                            (or_math (checked_add u128_max (get_or s_grid cur_i 0) marginal)) _
                            (record { holds = λ m e. sum_of (get_or s_grid cur_i 0) marginal e })
                            (λ sum e5.
                              let st1 = record st {
                                last_coll_error = gain.1;
                                last_loss_error = loss.1;
                              } in
                              Returns-bind (roll_product st1 stride (length s_grid) loss.0) _
                                (roll_product-Rolled st1 stride (length s_grid) loss.0
                                  (record {
                                    least = h.least;
                                    most = h.most;
                                    cell = h.cell;
                                    addressed = h.addressed;
                                  })
                                  e2.most)
                                (λ rolled e6.
                                  Returns-ok
                                    (
                                      record rolled { total_deposits = st.total_deposits - debt },
                                      set s_grid cur_i sum,
                                    )
                                    (record {
                                      pool = record {
                                        least = e6.0.least;
                                        most = e6.0.most;
                                        cell = e6.0.cell;
                                        addressed = rw (length-set s_grid cur_i sum) e6.0.addressed;
                                      };
                                      paid = omega (arith, le);
                                      gain = gain.0;
                                      gained = rw (e6.1) e1;
                                      factor = loss.0;
                                      lost = rw (e6.2) e2;
                                      cell = cur_i;
                                      addressed = e4;
                                      summed =
                                          ap (set s_grid cur_i)
                                            (e5 ∙ ap (λ (m : ℕ). get_or s_grid cur_i 0 + m) e3);
                                      shrunk = λ pos.
                                          let k = e6.4 pos in
                                          record {
                                            bumps = k.bumps;
                                            product = k.product;
                                            scale = k.scale;
                                            epoch = k.epoch;
                                          };
                                      drained = λ z. restarted (e6.3 z);
                                      emptied = λ z. restarted (e6.3 (e2.drained z).0);
                                    })))))))))
    where
      restarted :
          {st st' : PoolState} {total c l : ℕ}
          → Restarted (record st { last_coll_error = c; last_loss_error = l }) st'
          → Restarted st (record st' { total_deposits = total })
      restarted k = record { product = k.product; scale = k.scale; epoch = k.epoch }

      nonzero : (n : ℕ) → require (not (n == 0)) ReactorError.no_deposits ≡ ok tt → 0 < n
      nonzero n e = ground arith

      at_most : (a b : ℕ) → require (leb a b) ReactorError.debt_exceeds_deposits ≡ ok tt → a ≤ b
      at_most a b e = ground arith

      product_of : (a b : ℕ) {c : ℕ} → or_math (checked_mul u128_max a b) ≡ ok c → c ≡ a * b
      product_of a b e = ground arith

      sum_of : (a b : ℕ) {c : ℕ} → or_math (checked_add u128_max a b) ≡ ok c → c ≡ a + b
      sum_of a b e = ground arith

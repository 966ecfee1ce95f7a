-- ===== src/Fusd/Handlers/Waterfall.antt =====
-- programs/fusd-core/src/instructions/liquidate.rs: the supply identity and the vault identity
-- through the loss-absorbing tiers.
use fusion_core.Prelude.{
  ℕ, ◌+◌, ◌≡◌, ◌<◌, refl, Bool, inl, inr, Bool-cases, ltb, ok_or, arith, map_err, Returns,
  Returns-bind, Returns-skip, Returns-ok, u64_max, u128_max, narrow, checked_add,
}
use fusion_core.Wide.{Wide}
use fusion_core.Recovery.{Absorption, absorb}
use fusion_core.Recovery.Waterfall.{absorb_conserves, absorb_order}
use fusion_core.Redistribution.{redistribute}
use fusion_core.ReactorPool.{offset}
use fusion_core.Fusd.Error.{Abort, or_overflow, redist_error}
use fusion_core.Fusd.State.{Market}
use fusion_core.Fusd.Redist.{state, write_state}
use fusion_core.Fusd.Programs.{Programs, call}
use fusion_core.Fusd.Calls.{sum_of, narrowed, moves, destroys}
use fusion_core.Fusd.Handlers.Liquidate.{
  Scene, reactor_error, reactor_max_scales, pay_gas_comp, move_to_pool, reactor_tier,
  redistribution_tier, buffer_tier, global_tier, unhomed_tier, backstop_tiers,
}
use fusion_core.Fusd.Handlers.Books.{fields, SameBooks}

-- The two identities while the tiers have still to burn `burn` of fUSD and to place `coll` of
-- collateral. `others` is the fUSD issued for other markets, `donated` what the vault holds beyond
-- the market's counters.
pub record IsOpen (others donated burn coll : ℕ) (s : Scene) : Type 0 where
  pub supplied :
      s.supply + s.market.unminted_interest
      ≡ s.market.agg_recorded_debt + s.market.bad_debt + others + burn
  pub vaulted :
      s.coll_vault
      ≡ s.market.total_collateral + s.market.surplus_collateral + s.market.total_coll_surplus
        + s.market.protocol_collateral + donated + coll

-- What the tiers may rely on of a split.
pub record IsSplit (a : Absorption) (debt : ℕ) : Type 0 where
  pub conserves : a.reactor + a.redist + a.buffer + a.global + a.unhomed ≡ debt
  pub exclusive : 0 < a.redist → a.buffer + a.global + a.unhomed ≡ 0

pub absorb-IsSplit :
    (debt pool : ℕ) (recipients : Bool) (buffer global : ℕ)
    → IsSplit (absorb debt pool recipients buffer global) debt
absorb-IsSplit debt pool recipients buffer global =
    let order = (absorb_order debt pool recipients buffer global).1 in
    record {
      conserves = (absorb_conserves debt pool recipients buffer global).0;
      exclusive = λ pos. grind (arith, order);
    }

module _ ⦃w : Wide⦄ ⦃programs : Programs⦄ (others donated : ℕ) where
  open programs use {move, destroy}

  pub pay_gas_comp-IsOpen :
      (s : Scene) (gas burn coll : ℕ)
      → IsOpen others donated burn (gas + coll) s
      → Returns (IsOpen others donated burn coll) (pay_gas_comp s gas)
  unfolding pay_gas_comp
  pay_gas_comp-IsOpen s gas burn coll h = elim (Bool-cases (ltb 0 gas)) [
    | inl some_gas ↦ rw some_gas (
        Returns-bind (or_overflow (narrow u64_max gas)) _ (narrowed gas) (λ n e1.
          Returns-bind (call (move n s.coll_vault s.liquidator_coll)) _ (moves n _ _) (λ moved e2.
            Returns-ok (record s { coll_vault = moved.0; liquidator_coll = moved.1 })
              (omega (arith, h.supplied, h.vaulted, e1, e2)))))
    | inr no_gas ↦
        let zero_gas : gas ≡ 0 = ground arith in
        rw no_gas (Returns-ok s (omega (arith, h.supplied, h.vaulted, zero_gas)))
  ]

  move_to_pool-IsOpen :
      (s : Scene) (burn sp coll : ℕ)
      → IsOpen others donated burn (sp + coll) s
      → Returns (IsOpen others donated burn coll) (move_to_pool s sp)
  unfolding move_to_pool
  move_to_pool-IsOpen s burn sp coll h = elim (Bool-cases (ltb 0 sp)) [
    | inl moved_some ↦ rw moved_some (
        Returns-bind (or_overflow (narrow u64_max sp)) _ (narrowed sp) (λ n e1.
          Returns-bind (call (move n s.coll_vault s.reactor_coll)) _ (moves n _ _) (λ moved e2.
            Returns-ok (record s { coll_vault = moved.0; reactor_coll = moved.1 })
              (omega (arith, h.supplied, h.vaulted, e1, e2)))))
    | inr nothing ↦
        let zero_sp : sp ≡ 0 = ground arith in
        rw nothing (Returns-ok s (omega (arith, h.supplied, h.vaulted, zero_sp)))
  ]

  pub reactor_tier-IsOpen :
      (s : Scene) (debt sp burn coll : ℕ)
      → (debt ≡ 0 → sp ≡ 0)
      → IsOpen others donated (debt + burn) (sp + coll) s
      → Returns (IsOpen others donated burn coll) (reactor_tier s debt sp)
  unfolding reactor_tier
  reactor_tier-IsOpen s debt sp burn coll none_paid h = elim (Bool-cases (ltb 0 debt)) [
    | inl pays ↦ rw pays (
        Returns-skip
          (map_err (λ e. Abort.error (reactor_error e))
            (offset s.pool s.grid reactor_max_scales debt sp))
          _
          (λ pool. Returns-bind (or_overflow (narrow u64_max debt)) _ (narrowed debt) (λ n e1.
            Returns-bind (call (destroy n s.supply s.reactor_fusd)) _ (destroys n _ _) (λ burned e2.
              move_to_pool-IsOpen
                (record s {
                  pool = pool.0;
                  grid = pool.1;
                  supply = burned.0;
                  reactor_fusd = burned.1;
                })
                burn sp coll (omega (arith, h.supplied, h.vaulted, e1, e2))))))
    | inr idle ↦
        let zero_debt : debt ≡ 0 = ground arith in
        rw idle
          (Returns-ok s (omega (arith, h.supplied, h.vaulted, zero_debt, none_paid zero_debt)))
  ]

  pub redistribution_tier-IsOpen :
      (s : Scene) (debt coll : ℕ)
      → IsOpen others donated 0 coll s
      → Returns (IsOpen others donated 0 0) (redistribution_tier s debt coll)
  unfolding redistribution_tier write_state
  redistribution_tier-IsOpen s debt coll h =
      let (r, st) = redistribute (state s.market) s.market.total_stakes coll debt in
      Returns-skip (map_err (λ e. Abort.error (redist_error e)) r) _ (λ _.
        Returns-bind (or_overflow (checked_add u128_max s.market.total_collateral coll)) _
          (sum_of u128_max _ _) (λ total e. Returns-ok _ (omega (arith, h.supplied, h.vaulted, e))))

  buffer_tier-IsOpen :
      (s : Scene) (debt burn coll : ℕ)
      → IsOpen others donated (debt + burn) coll s
      → Returns (IsOpen others donated burn coll) (buffer_tier s debt)
  unfolding buffer_tier
  buffer_tier-IsOpen s debt burn coll h = elim (Bool-cases (ltb 0 debt)) [
    | inl pays ↦ rw pays (
        Returns-bind (or_overflow (narrow u64_max debt)) _ (narrowed debt) (λ n e1.
          Returns-bind (call (destroy n s.supply s.buffer_fusd)) _ (destroys n _ _) (λ burned e2.
            Returns-skip (or_overflow (checked_add u128_max s.buffer_absorbed debt)) _
              (λ absorbed. Returns-ok _ (omega (arith, h.supplied, h.vaulted, e1, e2))))))
    | inr idle ↦
        let zero_debt : debt ≡ 0 = ground arith in
        rw idle (Returns-ok s (omega (arith, h.supplied, h.vaulted, zero_debt)))
  ]

  global_tier-IsOpen :
      (s : Scene) (debt burn coll : ℕ)
      → IsOpen others donated (debt + burn) coll s
      → Returns (IsOpen others donated burn coll) (global_tier s debt)
  unfolding global_tier
  global_tier-IsOpen s debt burn coll h = elim (Bool-cases (ltb 0 debt)) [
    | inl pays ↦ rw pays (
        Returns-bind (or_overflow (narrow u64_max debt)) _ (narrowed debt) (λ n e1.
          Returns-skip (ok_or s.backstop Abort.panic) _ (λ bs.
            Returns-bind (call (destroy n s.supply bs.balance)) _ (destroys n _ _) (λ burned e2.
              Returns-skip (or_overflow (checked_add u128_max s.market.global_drawn debt)) _
                (λ drawn.
                  Returns-skip (or_overflow (checked_add u128_max bs.total_absorbed debt)) _
                    (λ absorbed. Returns-ok _ (omega (arith, h.supplied, h.vaulted, e1, e2))))))))
    | inr idle ↦
        let zero_debt : debt ≡ 0 = ground arith in
        rw idle (Returns-ok s (omega (arith, h.supplied, h.vaulted, zero_debt)))
  ]

  unhomed_tier-SameBooks : (m : Market) (debt : ℕ) → SameBooks m (unhomed_tier m debt)
  unfolding unhomed_tier
  unhomed_tier-SameBooks m debt = elim (Bool-cases (ltb 0 debt)) [
    | inl unhomed ↦ rw unhomed refl
    | inr homed ↦ rw homed refl
  ]

  pub backstop_tiers-IsOpen :
      (s : Scene) (a : Absorption) (coll : ℕ)
      → IsOpen others donated (a.buffer + a.global) coll s
      → Returns (IsOpen others donated 0 0) (backstop_tiers s a coll)
  unfolding backstop_tiers
  backstop_tiers-IsOpen s a coll h =
      Returns-bind (or_overflow (narrow u64_max coll)) _ (narrowed coll) (λ n e1.
        Returns-bind (or_overflow (checked_add u64_max s.market.protocol_collateral n)) _
          (sum_of u64_max _ _)
          (λ owned e2.
            let s0 = record s { market = record s.market { protocol_collateral = owned } } in
            Returns-bind (buffer_tier s0 a.buffer) _
              (buffer_tier-IsOpen s0 a.buffer a.global 0
                (omega (arith, h.supplied, h.vaulted, e1, e2)))
              (λ s1 h1.
                Returns-bind (global_tier s1 a.global) _
                  (global_tier-IsOpen s1 a.global 0 0 (omega (arith, h1.supplied, h1.vaulted)))
                  (λ s2 h2.
                    Returns-ok (record s2 { market = unhomed_tier s2.market a.unhomed })
                      (omega (
                        arith,
                        h2.supplied,
                        h2.vaulted,
                        fields (unhomed_tier-SameBooks s2.market a.unhomed),
                      ))))))

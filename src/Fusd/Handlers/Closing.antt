-- ===== src/Fusd/Handlers/Closing.antt =====
-- programs/fusd-core/src/instructions/liquidate.rs: the tiers after the Reactor Pool and the end of
-- a liquidation.
use fusion_core.Prelude.{
  ℕ, ◌+◌, ◌≡◌, inl, inr, Bool-cases, ltb, ◌||◌, ok_or, arith, Returns, Returns-bind, Returns-skip,
  Returns-ok, u64_max, checked_add, checked_sub,
}
use fusion_core.Wide.{Wide}
use fusion_core.Recovery.{Absorption}
use fusion_core.Fusd.Error.{Abort}
use fusion_core.Fusd.Accrual.{reweight}
use fusion_core.Fusd.Bucket.{reconcile}
use fusion_core.Fusd.Programs.{Programs}
use fusion_core.Fusd.Handlers.Collateral.{sufficiency_of}
use fusion_core.Fusd.Handlers.Liquidate.{
  Scene, later_tiers, take_snapshots, pay_bond, close_victim, finish,
}
use fusion_core.Fusd.Handlers.Books.{fields, reweight-SameBooks}
use fusion_core.Fusd.Handlers.Waterfall.{
  IsOpen, IsSplit, redistribution_tier-IsOpen, backstop_tiers-IsOpen,
}

-- The vault and the mint hold what the market's books say.
abbrev pub IsSound : (others donated : ℕ) → Scene → Type 0
IsSound others donated s = IsOpen others donated 0 0 s

module _ ⦃w : Wide⦄ ⦃programs : Programs⦄ (others donated : ℕ) where
  pub later_tiers-IsOpen :
      (s : Scene) (a : Absorption) (debt coll : ℕ)
      → IsSplit a debt
      → (a.reactor ≡ debt → coll ≡ 0)
      → IsOpen others donated (a.buffer + a.global) coll s
      → Returns (IsSound others donated) (later_tiers s a coll)
  unfolding later_tiers
  later_tiers-IsOpen s a debt coll split covered h = elim (Bool-cases (ltb 0 a.redist)) [
    | inl shares ↦
        let alone = split.exclusive (ground arith) in
        rw shares (
          redistribution_tier-IsOpen others donated s a.redist coll
            (omega (arith, h.supplied, h.vaulted, alone)))
    | inr no_share ↦
        rw no_share (elim (Bool-cases (ltb 0 a.buffer || (ltb 0 a.global || ltb 0 a.unhomed))) [
          | inl draws ↦ rw draws (backstop_tiers-IsOpen others donated s a coll h)
          | inr nothing ↦
              let zeros : (a.buffer ≡ 0) × (a.global ≡ 0) × (a.unhomed ≡ 0) = ground arith in
              let no_redist : a.redist ≡ 0 = ground arith in
              let whole = covered (omega (arith, split.conserves, zeros, no_redist)) in
              rw nothing (Returns-ok s (omega (arith, h.supplied, h.vaulted, zeros, whole)))
        ])
  ]

  pay_bond-IsSound :
      (s : Scene) → IsSound others donated s → Returns (IsSound others donated) (pay_bond s)
  unfolding pay_bond
  pay_bond-IsSound s h = elim (Bool-cases (ltb 0 s.position.reserve_lamports)) [
    | inl bond ↦ rw bond (
        Returns-skip
          (ok_or (checked_sub s.position_lamports s.position.reserve_lamports) Abort.program_error)
          _
          (λ left.
            Returns-skip
              (ok_or (checked_add u64_max s.liquidator_lamports s.position.reserve_lamports)
                Abort.program_error)
              _
              (λ paid.
                Returns-ok (record s { position_lamports = left; liquidator_lamports = paid })
                  (omega (arith, h.supplied, h.vaulted)))))
    | inr none_posted ↦ rw none_posted (Returns-ok s h)
  ]

  pub finish-IsSound :
      (s : Scene) (old before : ℕ)
      → IsSound others donated s
      → Returns (IsSound others donated) (finish s old before)
  unfolding finish take_snapshots
  finish-IsSound s old before h =
      let s0 = record s { market = take_snapshots s.market } in
      Returns-bind (pay_bond s0) _ (pay_bond-IsSound s0 (omega (arith, h.supplied, h.vaulted)))
        (λ s1 h1.
          let p = close_victim s1.market s1.position in
          Returns-bind (reweight s1.market p old) _ (reweight-SameBooks s1.market p old) (λ m e.
            Returns-skip (reconcile s1.bitmap m p before) _ (λ left.
              Returns-skip (sufficiency_of m s1.coll_vault) _ (λ _.
                Returns-ok (record s1 { market = m; position = left.1; bitmap = left.0 })
                  (omega (arith, h1.supplied, h1.vaulted, fields e))))))

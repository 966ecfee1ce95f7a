-- ===== src/Fusd/Handlers/Reach.antt =====
-- programs/fusd-core/src/instructions/deposit.rs, withdraw.rs, borrow.rs and repay.rs: the instructions
-- of an owner as a transition system.
use fusion_core.Prelude.{ℕ, ◌+◌, ◌≤◌, ◌≡◌, arith, Result, ok}
use fusion_core.Prelude.Int.{ℤ}
use fusion_core.Wide.{Wide}
use fusion_core.Fusd.Error.{Abort}
use fusion_core.Fusd.Programs.{Programs}
use fusion_core.Fusd.Handlers.{World}
use fusion_core.Fusd.Handlers.Collateral.{deposit, withdraw}
use fusion_core.Fusd.Handlers.Debt.{borrow, repay}
use fusion_core.Fusd.Handlers.Sound.{
  IsSound, deposit-IsSound, withdraw-IsSound, borrow-IsSound, repay-IsSound,
}
use fusion_core.Fusd.Handlers.Counted.{
  IsCounted, deposit-IsCounted, withdraw-IsCounted, borrow-IsCounted, repay-IsCounted,
}

-- Each with its amount.
pub data Instruction : Type 0 where
  deposits withdraws borrows repays : ℕ → Instruction

module _ ⦃w : Wide⦄ ⦃programs : Programs⦄ where
  -- An instruction at an instant and a slot.
  abbrev pub perform : World → ℤ → ℕ → Instruction → Result Abort World
  perform s now slot (deposits amount) = deposit s now amount
  perform s now slot (withdraws amount) = withdraw s now slot amount
  perform s now slot (borrows amount) = borrow s now slot amount
  perform s now slot (repays amount) = repay s now amount

  perform-IsSound :
      (s t : World) (now : ℤ) (slot : ℕ) (i : Instruction) (others donated : ℕ)
      → IsSound others donated s
      → perform s now slot i ≡ ok t
      → IsSound others donated t
  perform-IsSound s t now slot (deposits amount) others donated h e =
      (deposit-IsSound s now amount others donated h).holds t e
  perform-IsSound s t now slot (withdraws amount) others donated h e =
      (withdraw-IsSound s now slot amount others donated h).holds t e
  perform-IsSound s t now slot (borrows amount) others donated h e =
      (borrow-IsSound s now slot amount others donated h).holds t e
  perform-IsSound s t now slot (repays amount) others donated h e =
      (repay-IsSound s now amount others donated h).holds t e

  -- The worlds that sequences of instructions reach. An instruction that aborts changes nothing.
  pub data Reaches (s : World) : World → Type 0 where
    start : Reaches s s
    next :
        {t u : World} (now : ℤ) (slot : ℕ) (i : Instruction)
        → Reaches s t
        → perform t now slot i ≡ ok u
        → Reaches s u

  Reaches-IsSound :
      {s t : World} (others donated : ℕ)
      → Reaches s t
      → IsSound others donated s
      → IsSound others donated t
  Reaches-IsSound others donated start h = h
  Reaches-IsSound others donated (next {t} {u} now slot i r e) h =
      perform-IsSound t u now slot i others donated (Reaches-IsSound others donated r h) e

  -- However an owner mixes deposits, withdrawals, borrowings and repayments, from a world where the
  -- supply identity and the vault identity hold: the vault always covers the market's collateral
  -- counters, and the supply of fUSD is at most the recorded debt, the bad debt and what the mint
  -- issued for other markets.
  pub Reaches-covered :
      {s t : World} (others donated : ℕ)
      → Reaches s t
      → IsSound others donated s
      → (t.market.total_collateral + t.market.surplus_collateral + t.market.total_coll_surplus
            + t.market.protocol_collateral
          ≤ t.coll_vault)
        × (t.supply ≤ t.market.agg_recorded_debt + t.market.bad_debt + others)
  Reaches-covered others donated r h =
      let h' = Reaches-IsSound others donated r h in omega (arith, h'.supplied, h'.vaulted)

  perform-IsCounted :
      (s t : World) (now : ℤ) (slot : ℕ) (i : Instruction) (others : ℕ → ℕ)
      → IsCounted others s.bitmap s.position
      → perform s now slot i ≡ ok t
      → IsCounted others t.bitmap t.position
  perform-IsCounted s t now slot (deposits amount) others h e =
      (deposit-IsCounted s now amount others h).holds t e
  perform-IsCounted s t now slot (withdraws amount) others h e =
      (withdraw-IsCounted s now slot amount others h).holds t e
  perform-IsCounted s t now slot (borrows amount) others h e =
      (borrow-IsCounted s now slot amount others h).holds t e
  perform-IsCounted s t now slot (repays amount) others h e =
      (repay-IsCounted s now amount others h).holds t e

  -- However an owner mixes deposits, withdrawals, borrowings and repayments, from a world where a bit
  -- of the redemption bitmap is on exactly if its bucket has a member, and the counts are those of
  -- `others` and of the owner's position, which counts once, in its bucket, exactly if it owes a
  -- debt: the same holds of every world reached, with the same `others`.
  pub Reaches-IsCounted :
      {s t : World} (others : ℕ → ℕ)
      → Reaches s t
      → IsCounted others s.bitmap s.position
      → IsCounted others t.bitmap t.position
  Reaches-IsCounted others start h = h
  Reaches-IsCounted others (next {t} {u} now slot i r e) h =
      perform-IsCounted t u now slot i others (Reaches-IsCounted others r h) e

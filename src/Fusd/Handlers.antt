-- ===== src/Fusd/Handlers.antt =====
-- programs/fusd-core/src/instructions: the handlers `deposit`, `withdraw`, `borrow`, `repay` and `liquidate`, over
-- the accounts that they read or write. The checks that Anchor makes of the accounts before a
-- handler runs, and the events, are left out.
pub mod Collateral
pub mod Debt
pub mod Books
pub mod Sound
pub mod Safe
pub mod Liquidate
pub mod Waterfall
pub mod Fits
pub mod Closing
pub mod Liquidation
pub mod Victim
pub mod Counted
pub mod Reach
mod Tests
use fusion_core.Prelude.{ℕ}
use fusion_core.Fusd.State.{Market, Position, RedemptionBitmap}

-- The balances are those of the collateral vault, the owner's collateral account, the fUSD mint's
-- supply, the owner's fUSD account, and the lamports of the owner and of the position.
pub record World : Type 0 where
  pub market : Market
  pub position : Position
  pub bitmap : RedemptionBitmap
  pub coll_vault : ℕ
  pub owner_coll : ℕ
  pub supply : ℕ
  pub owner_fusd : ℕ
  pub owner_lamports : ℕ
  pub position_lamports : ℕ

abbrev pub max_price_staleness_slots : ℕ
max_price_staleness_slots = 250

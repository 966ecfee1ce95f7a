-- ===== src/StakeView.antt =====
-- crates/fusion-stake-view: views of the accounts of other programs, read at offsets.
mod Tests
pub mod Bytes
pub mod Position
pub mod StakeAccount
pub mod StakePool
pub mod ValidatorList
pub mod VoteState

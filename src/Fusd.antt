-- ===== src/Fusd.antt =====
-- programs/fusd-core: the collateralised-debt engine.
pub mod Supply
pub mod Cdp
pub mod Error
pub mod State
pub mod Redist
pub mod Bucket
pub mod Accrual
pub mod Programs
pub mod Calls
pub mod Handlers
pub mod Sample

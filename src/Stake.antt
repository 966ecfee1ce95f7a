-- ===== src/Stake.antt =====
-- crates/fusion-stake-math/src/lib.rs: the arithmetic of the stake pool's allocation. A product of
-- two numbers of 64 bits fits 128, so it cannot overflow in `u128`.
use fusion_core.Prelude.{ℕ, ◌*◌, ◌/◌, ◌≤◌, ◌<◌, arith, narrow, unwrap_or, u64_max, div_mono}
mod Tests
pub mod Lifecycle
pub mod Churn
pub mod Reserve
pub mod Preference
pub mod Targets

abbrev pub bps_denominator : ℕ
bps_denominator = 10_000

-- Saturates at the largest number of 64 bits.
unfoldable pub bps_of : ℕ → ℕ → ℕ
bps_of amount bps = unwrap_or u64_max (narrow u64_max (amount * bps / bps_denominator))

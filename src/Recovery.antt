-- ===== src/Recovery.antt =====
-- crates/fusd-math/src/recovery.rs: how a liquidated debt is spread over the loss-absorbing tiers.
pub mod Waterfall
mod Tests
use fusion_core.Prelude.{ℕ, ◌-◌, min, Bool, if◌then◌else◌}

pub record Absorption : Type 0 where
  pub reactor : ℕ
  pub redist : ℕ
  pub buffer : ℕ
  pub global : ℕ
  pub unhomed : ℕ

unfoldable pub absorb : ℕ → ℕ → Bool → ℕ → ℕ → Absorption
absorb debt reactor_capacity has_redist_recipients buffer_balance global_available =
    let reactor = min debt reactor_capacity in
    let after_reactor = debt - reactor in
    let redist : ℕ = if has_redist_recipients then after_reactor else 0 in
    let after_redist = after_reactor - redist in
    let buffer = min after_redist buffer_balance in
    let after_buffer = after_redist - buffer in
    let global = min after_buffer global_available in
    record {
      reactor = reactor;
      redist = redist;
      buffer = buffer;
      global = global;
      unhomed = after_buffer - global;
    }

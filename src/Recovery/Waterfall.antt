-- ===== src/Recovery/Waterfall.antt =====
-- What `absorb` of crates/fusd-math/src/recovery.rs promises to `liquidate`.
use fusion_core.Prelude.{ℕ, ◌+◌, ◌≤◌, ◌<◌, ◌≡◌, ◌↔◌, Bool, true, false, arith, refl}
use fusion_core.Recovery.{absorb}

-- The tiers account for the whole debt, and none takes more than it has.
pub absorb_conserves :
    (debt pool : ℕ) (recipients : Bool) (buffer global : ℕ)
    → let a = absorb debt pool recipients buffer global in
      (a.reactor + a.redist + a.buffer + a.global + a.unhomed ≡ debt)
      × (a.reactor ≤ pool)
      × (a.buffer ≤ buffer)
      × (a.global ≤ global)
unfolding absorb
absorb_conserves debt pool true buffer global = omega arith
absorb_conserves debt pool false buffer global = omega arith

-- A tier is drawn only where the tiers before it are spent: anything past the pool empties it,
-- anything past redistribution means that no recipient exists, the reserve is drawn only when the
-- buffer is empty, and a debt is un-homed only when both are.
pub absorb_order :
    (debt pool : ℕ) (recipients : Bool) (buffer global : ℕ)
    → let a = absorb debt pool recipients buffer global in
      (0 < a.redist + a.buffer + a.global + a.unhomed → a.reactor ≡ pool)
      × (0 < a.buffer + a.global + a.unhomed → (recipients ≡ false) × (a.redist ≡ 0))
      × (0 < a.global + a.unhomed → a.buffer ≡ buffer)
      × (0 < a.unhomed → a.global ≡ global)
unfolding absorb
absorb_order debt pool true buffer global = (
  (λ h. omega arith),
  (λ h. absurd (omega arith)),
  (λ h. absurd (omega arith)),
  (λ h. absurd (omega arith)),
)
absorb_order debt pool false buffer global =
    ((λ h. omega arith), (λ h. (refl, refl)), (λ h. omega arith), (λ h. omega arith))

-- Debt is left un-homed exactly when no recipient exists and pool, buffer and reserve together are
-- short of it.
pub unhomed_iff :
    (debt pool : ℕ) (recipients : Bool) (buffer global : ℕ)
    → (0 < (absorb debt pool recipients buffer global).unhomed)
      ↔ ((recipients ≡ false) × (pool + buffer + global < debt))
unfolding absorb
unhomed_iff debt pool true buffer global = ((λ h. absurd (omega arith)), (λ h. absurd (cc h.0)))
unhomed_iff debt pool false buffer global = ((λ h. (refl, omega arith)), (λ h. omega arith))

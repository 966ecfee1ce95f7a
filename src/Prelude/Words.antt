-- ===== src/Prelude/Words.antt =====
-- Rust's unsigned integers as natural numbers: the largest value of each width and the checked and
-- saturating operations of the standard library.
use Prim.Native.Nat.{ℕ, ◌+◌, ◌-◌, ◌*◌, ◌^◌, ◌≤◌, min}
use mathlib.Core.Path.{◌≡◌}
use mathlib.Core.Option.{Option, none, some}
use native.Mathlib.Omega.{arith}
use fusion_core.Prelude.Tests.{leb, if◌then◌else◌}

abbrev pub u16_max : ℕ
u16_max = 2 ^ 16 - 1

abbrev pub u64_max : ℕ
u64_max = 2 ^ 64 - 1

abbrev pub u128_max : ℕ
u128_max = 2 ^ 128 - 1

-- `try_from(x).ok()` into the width whose largest value is `top`.
abbrev pub narrow : ℕ → ℕ → Option ℕ
narrow top x = if leb x top then some x else none

pub narrow-eq_some : (top x : ℕ) {y : ℕ} → narrow top x ≡ some y → (x ≡ y) × (y ≤ top)
narrow-eq_some top x e = ground arith

pub narrow_fits : (top x : ℕ) → x ≤ top → narrow top x ≡ some x
narrow_fits top x h = ground arith

-- `a.checked_add(b)`
abbrev pub checked_add : ℕ → ℕ → ℕ → Option ℕ
checked_add top a b = narrow top (a + b)

-- `a.checked_mul(b)`
abbrev pub checked_mul : ℕ → ℕ → ℕ → Option ℕ
checked_mul top a b = narrow top (a * b)

-- `a.checked_sub(b)`, the same at every width.
abbrev pub checked_sub : ℕ → ℕ → Option ℕ
checked_sub a b = if leb b a then some (a - b) else none

-- `a.saturating_add(b)`; `saturating_sub` is the subtraction of the natural numbers.
abbrev pub saturating_add : ℕ → ℕ → ℕ → ℕ
saturating_add top a b = min top (a + b)

abbrev pub saturating_mul : ℕ → ℕ → ℕ → ℕ
saturating_mul top a b = min top (a * b)

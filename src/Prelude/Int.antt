-- ===== src/Prelude/Int.antt =====
-- Signed integers over the native numbers, and Rust's `i64`. Differences and orders go through the
-- two parts of an integer.
use Prim.Native.Nat.{ℕ, suc, ◌+◌, ◌-◌, ◌^◌, ◌≤◌, min}
use mathlib.Core.Path.{◌≡◌}
use mathlib.Core.Bool.{Bool}
use native.Mathlib.Omega.{arith}
use fusion_core.Prelude.Tests.{ltb, leb, if◌then◌else◌}

-- `negsuc n` is -(n + 1).
pub data ℤ : Type 0 where
  pos : ℕ → ℤ
  negsuc : ℕ → ℤ

abbrev pub pos_part : ℤ → ℕ
pos_part (pos n) = n
pos_part (negsuc n) = 0

abbrev pub neg_part : ℤ → ℕ
neg_part (pos n) = 0
neg_part (negsuc n) = suc n

-- a - b, as an integer.
abbrev pub sub_ℕ : ℕ → ℕ → ℤ
sub_ℕ a b = if leb b a then pos (a - b) else negsuc (b - a - 1)

infixl 65 ◌-ℤ◌
infix 50 ◌≤ℤ◌
unfoldable pub ◌-ℤ◌ : ℤ → ℤ → ℤ
a -ℤ b = sub_ℕ (pos_part a + neg_part b) (neg_part a + pos_part b)

abbrev pub ◌≤ℤ◌ : ℤ → ℤ → Type 0
a ≤ℤ b = pos_part a + neg_part b ≤ pos_part b + neg_part a

abbrev pub leb_ℤ : ℤ → ℤ → Bool
leb_ℤ a b = leb (pos_part a + neg_part b) (pos_part b + neg_part a)

abbrev pub ltb_ℤ : ℤ → ℤ → Bool
ltb_ℤ a b = ltb (pos_part a + neg_part b) (pos_part b + neg_part a)

-- One lemma for each operation lets `omega` work with the operations shut, at any depth.
pub -ℤ_parts :
    (a b : ℤ)
    → pos_part (a -ℤ b) + neg_part a + pos_part b ≡ neg_part (a -ℤ b) + pos_part a + neg_part b
unfolding ◌-ℤ◌
-ℤ_parts a b = ground arith

pub eq_of_parts : (a b : ℤ) → pos_part a + neg_part b ≡ pos_part b + neg_part a → a ≡ b
eq_of_parts a b h = ground arith

pub ruleset int_laws = (arith, -ℤ_parts, eq_of_parts)

-- `i64`: a signed integer of 64 bits.
abbrev pub i64_max : ℕ
i64_max = 2 ^ 63 - 1

-- The nearest signed integer of 64 bits; the least is -(2^63).
abbrev pub clamp_i64 : ℤ → ℤ
clamp_i64 (pos n) = pos (min n i64_max)
clamp_i64 (negsuc n) = negsuc (min n i64_max)

-- `a.saturating_sub(b)`
unfoldable pub saturating_sub : ℤ → ℤ → ℤ
saturating_sub a b = clamp_i64 (a -ℤ b)

-- The positive part of a saturating difference is at most the true one.
pub saturating_sub_le : (a b : ℤ) → pos_part (saturating_sub a b) ≤ pos_part (a -ℤ b)
unfolding saturating_sub
saturating_sub_le a b = elim (a -ℤ b) as (λ z. pos_part (clamp_i64 z) ≤ pos_part z) [
  | pos n ↦ omega arith
  | negsuc n ↦ omega arith
]

-- The time from `b` to a later `a`, as a number.
pub span :
    (a b : ℤ) → b ≤ℤ a → pos_part (a -ℤ b) + pos_part b + neg_part a ≡ pos_part a + neg_part b
unfolding ◌-ℤ◌
span a b h = ground arith

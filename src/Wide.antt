-- ===== src/Wide.antt =====
-- `bnum::types::U256`, the 256-bit integer that crates/fusd-math takes from the crate bnum. It is
-- not code of the repository, so it is an interface: the operations that the crate calls, with
-- their documented behaviour below 2^256 as laws. `value` is the number that an integer stands for.
use Prim.Native.Nat.{compare, Ordering}
use fusion_core.Prelude.{
  ℕ, ◌+◌, ◌-◌, ◌*◌, ◌/◌, ◌%◌, ◌^◌, ◌≤◌, ◌<◌, ◌≡◌, refl, Bool, Option, some, arith, leb, ltb,
  u128_max, narrow,
}

abbrev pub u256_max : ℕ
u256_max = 2 ^ 256 - 1

pub record Wide : Type 1 where
  pub U256 : Type 0
  pub value : U256 → ℕ
  -- `U256::from(n)` for an `n` of at most 128 bits
  pub from : ℕ → U256
  -- `x * y`, `x / y`, `x % y`, `x - y`
  pub mul : U256 → U256 → U256
  pub div : U256 → U256 → U256
  pub rem : U256 → U256 → U256
  pub sub : U256 → U256 → U256
  pub checked_mul : U256 → U256 → Option U256
  pub checked_add : U256 → U256 → Option U256
  -- `u128::try_from(x).ok()`
  pub to_u128 : U256 → Option ℕ
  -- `x != U256::ZERO`, `x >= y`, `x.cmp(&y)`
  pub is_nonzero : U256 → Bool
  pub ge : U256 → U256 → Bool
  pub cmp : U256 → U256 → Ordering
  pub value-from : (n : ℕ) → n ≤ u128_max → value (from n) ≡ n
  pub value-mul : (x y : U256) → value x * value y ≤ u256_max → value (mul x y) ≡ value x * value y
  pub value-div : (x y : U256) → 0 < value y → value (div x y) ≡ value x / value y
  pub value-rem : (x y : U256) → 0 < value y → value (rem x y) ≡ value x % value y
  pub value-sub : (x y : U256) → value y ≤ value x → value (sub x y) ≡ value x - value y
  pub value-checked_mul :
      (x y : U256)
      → value x * value y ≤ u256_max
      → (z : U256) × (checked_mul x y ≡ some z) × (value z ≡ value x * value y)
  pub value-checked_add :
      (x y : U256)
      → value x + value y ≤ u256_max
      → (z : U256) × (checked_add x y ≡ some z) × (value z ≡ value x + value y)
  pub to_u128_lem : (x : U256) → to_u128 x ≡ narrow u128_max (value x)
  pub is_nonzero_lem : (x : U256) → is_nonzero x ≡ ltb 0 (value x)
  pub ge_lem : (x y : U256) → ge x y ≡ leb (value y) (value x)
  pub cmp_lem : (x y : U256) → cmp x y ≡ compare (value x) (value y)

pub narrow-checked : (n : ℕ) → n ≤ u256_max → (z : ℕ) × (narrow u256_max n ≡ some z) × (z ≡ n)
narrow-checked n h = (n, ground arith, refl)

-- The integers as natural numbers: the laws can be met, and the code runs on them.
abbrev pub exact : Wide
exact = record {
  U256 = ℕ;
  value = λ x. x;
  from = λ n. n;
  mul = λ x y. x * y;
  div = λ x y. x / y;
  rem = λ x y. x % y;
  sub = λ x y. x - y;
  checked_mul = λ x y. narrow u256_max (x * y);
  checked_add = λ x y. narrow u256_max (x + y);
  to_u128 = λ x. narrow u128_max x;
  is_nonzero = λ x. ltb 0 x;
  ge = λ x y. leb y x;
  cmp = λ x y. compare x y;
  value-from = λ n h. refl;
  value-mul = λ x y h. refl;
  value-div = λ x y h. refl;
  value-rem = λ x y h. refl;
  value-sub = λ x y h. refl;
  value-checked_mul = λ x y h. narrow-checked (x * y) h;
  value-checked_add = λ x y h. narrow-checked (x + y) h;
  to_u128_lem = λ x. refl;
  is_nonzero_lem = λ x. refl;
  ge_lem = λ x y. refl;
  cmp_lem = λ x y. refl;
}

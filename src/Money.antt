-- ===== src/Money.antt =====
-- crates/fusd-math/src/lib.rs: the exact `a * b / denom` over a 256-bit intermediate, and the WAD and
-- RAY operations built on it. The bodies are those of the production build (`cfg(not(kani))`).
pub mod Rounding
pub mod Power
mod Tests
use fusion_core.Prelude.{
  ℕ, zero, suc, ◌+◌, ◌*◌, ◌/◌, ◌%◌, ◌^◌, Bool, Option, none, some, ◌==◌, if◌then◌else◌, u64_max,
  u128_max, narrow, checked_add, checked_mul, bind_some, map_some,
}
use fusion_core.Wide.{Wide}

abbrev pub wad : ℕ
wad = 1_000_000_000_000_000_000

abbrev pub ray : ℕ
ray = 1_000_000_000_000_000_000_000_000_000

abbrev pub bps_denominator : ℕ
bps_denominator = 10_000

module _ ⦃w : Wide⦄ where
  open w use {from, mul, div, rem, to_u128, is_nonzero}

  unfoldable pub wide_mul_div : ℕ → ℕ → ℕ → Option (ℕ × Bool)
  wide_mul_div a b denom =
      if denom == 0
      then none
      else let prod = mul (from a) (from b) in
        let d = from denom in
        bind_some (to_u128 (div prod d)) (λ q. some (q, is_nonzero (rem prod d)))

  unfoldable pub mul_div_floor : ℕ → ℕ → ℕ → Option ℕ
  unfolding wide_mul_div
  mul_div_floor a b denom = map_some (λ (q, _). q) (wide_mul_div a b denom)

  unfoldable pub mul_div_ceil : ℕ → ℕ → ℕ → Option ℕ
  unfolding wide_mul_div
  mul_div_ceil a b denom =
      bind_some (wide_mul_div a b denom)
        (λ (q, has_rem). if has_rem then checked_add u128_max q 1 else some q)

  unfoldable pub wad_mul : ℕ → ℕ → Option ℕ
  wad_mul a b = mul_div_floor a b wad

  unfoldable pub wad_mul_up : ℕ → ℕ → Option ℕ
  wad_mul_up a b = mul_div_ceil a b wad

  unfoldable pub wad_div : ℕ → ℕ → Option ℕ
  wad_div a b = mul_div_floor a wad b

  unfoldable pub ray_mul : ℕ → ℕ → Option ℕ
  ray_mul a b = mul_div_floor a b ray

  unfoldable pub ray_mul_up : ℕ → ℕ → Option ℕ
  ray_mul_up a b = mul_div_ceil a b ray

  unfoldable pub ray_div : ℕ → ℕ → Option ℕ
  ray_div a b = mul_div_floor a ray b

  unfoldable pub present_debt : ℕ → ℕ → Option ℕ
  present_debt art rate = ray_mul_up art rate

  -- The loop of `ray_pow` on fuel, over its variables `b`, `z` and `exp`; the outer option is that
  -- of the fuel.
  pub ray_pow_loop : ℕ → ℕ → ℕ → ℕ → Option (Option ℕ)
  ray_pow_loop zero b z exp = none
  ray_pow_loop (suc fuel) b z exp = if exp == 0 then some (some z) else elim (ray_mul b b) [
    | none ↦ some none
    | some b' ↦ elim (if exp % 2 == 1 then ray_mul z b' else some z) [
      | none ↦ some none
      | some z' ↦ ray_pow_loop fuel b' z' (exp / 2)
    ]
  ]

  -- An exponent of 64 bits takes at most 64 rounds.
  unfoldable pub ray_pow : ℕ → ℕ → Option (Option ℕ)
  unfolding ray_pow_loop
  ray_pow base exp = ray_pow_loop 64 base (if exp % 2 == 1 then base else ray) (exp / 2)

unfoldable pub apply_bps : ℕ → ℕ → Option ℕ
apply_bps amount bps =
    bind_some (checked_mul u128_max amount bps)
      (λ scaled. narrow u64_max (scaled / bps_denominator))

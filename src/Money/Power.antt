-- ===== src/Money/Power.antt =====
-- `ray_pow` of crates/fusd-math/src/lib.rs on fractions of a ray.
use native.Mathlib.Nat.{mul-le-mul}
use fusion_core.Prelude.{
  ℕ, zero, suc, ◌+◌, ◌*◌, ◌/◌, ◌%◌, ◌^◌, ◌≤◌, ◌<◌, ◌≡◌, refl, ◌∙◌, inl, inr, true, Bool-cases, some,
  arith, ◌==◌, if◌then◌else◌, u64_max, u128_max, narrow_fits, div_lt,
}
use fusion_core.Wide.{Wide}
use fusion_core.Money.{ray, ray_mul, ray_pow, ray_pow_loop}
use fusion_core.Money.Rounding.{mul_div_floor_exact}

module _ ⦃w : Wide⦄ where
  -- A product of two fractions is computed, and at most the first.
  pub ray_mul-le : (x y : ℕ) → x ≤ ray → y ≤ ray → (q : ℕ) × (ray_mul x y ≡ some q) × (q ≤ x)
  unfolding ray_mul
  ray_mul-le x y hx hy =
      let below : x * y ≤ x * ray = mul-le-mul (omega arith) hy in
      let small = div_lt (x + 1) (x * y) ray (omega arith) (omega (arith, below)) in
      (
        x * y / ray,
        mul_div_floor_exact x y ray (omega arith) (omega arith) (omega arith) (omega arith)
            ∙ narrow_fits u128_max (x * y / ray) (omega (arith, small)),
        omega (arith, small),
      )

  ray_pow_loop-le :
      (n b z exp : ℕ)
      → b ≤ ray
      → z ≤ ray
      → exp < 2 ^ n
      → (r : ℕ) × (ray_pow_loop (suc n) b z exp ≡ some (some r)) × (r ≤ z)
  unfolding ray_pow_loop
  ray_pow_loop-le zero b z exp hb hz he =
      let done : (exp == 0) ≡ true = ground arith in (z, rw done refl, omega arith)
  ray_pow_loop-le (suc n) b z exp hb hz he = elim (Bool-cases (exp == 0)) [
    | inl done ↦ (z, rw done refl, omega arith)
    | inr more ↦
        let (b', eb, lb) = ray_mul-le b b hb hb in
        elim (Bool-cases (exp % 2 == 1)) [
          | inl odd ↦
              let (z', ez, lz) = ray_mul-le z b' hz (omega (arith, lb)) in
              let (r, er, lr) =
                ray_pow_loop-le n b' z' (exp / 2) (omega (arith, lb)) (omega (arith, lz))
                  (half exp n he) in
              (r, rw (more, eb, odd, ez) er, omega (arith, lr, lz))
          | inr even ↦
              let (r, er, lr) =
                ray_pow_loop-le n b' z (exp / 2) (omega (arith, lb)) hz (half exp n he) in
              (r, rw (more, eb, even) er, lr)
        ]
  ]
    where
      half : (e n : ℕ) → e < 2 ^ suc n → e / 2 < 2 ^ n
      half e n h = omega arith

  -- For a base of at most one ray and an exponent of 64 bits the loop ends within its fuel, nothing
  -- overflows, and the power is at most one ray.
  pub ray_pow-le-ray :
      (base exp : ℕ)
      → base ≤ ray
      → exp ≤ u64_max
      → (r : ℕ) × (ray_pow base exp ≡ some (some r)) × (r ≤ ray)
  unfolding ray_pow
  ray_pow-le-ray base exp hb he =
      let z = if exp % 2 == 1 then base else ray in
      let hz = start base exp hb in
      let (r, e, le) = ray_pow_loop-le 63 base z (exp / 2) hb hz (omega arith) in
      (r, e, omega (arith, le, hz))
    where
      start : (b e : ℕ) → b ≤ ray → (if e % 2 == 1 then b else ray) ≤ ray
      start b e h = ground arith

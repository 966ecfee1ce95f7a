-- ===== src/Prelude/Steps.antt =====
-- What holds after a step of a chain that returns: checked arithmetic, a test, an option.
use fusion_core.Prelude.{
  ℕ, ◌+◌, ◌≡◌, ◌≤◌, Bool, true, false, refl, Option, some, Result, arith, Returns, Returns-ok,
  checked_add, checked_sub, ok_or, require, narrow-eq_some, ok_or-eq-ok,
}

module _ {ℓ} {E : Type ℓ} where
  pub Returns-sum :
      (top a b : ℕ) (e : E) → Returns (λ c. (c ≡ a + b) × (c ≤ top)) (ok_or (checked_add top a b) e)
  Returns-sum top a b e = record {
    holds = λ c h.
        let (same, fits) = narrow-eq_some top (a + b) (ok_or-eq-ok (checked_add top a b) e h) in
        ground (arith, same, fits);
  }

  pub Returns-difference : (a b : ℕ) (e : E) → Returns (λ c. c + b ≡ a) (ok_or (checked_sub a b) e)
  Returns-difference a b e = record {
    holds = λ c h. let s = ok_or-eq-ok (checked_sub a b) e h in ground (arith, s);
  }

  pub Returns-test : (b : Bool) (e : E) → Returns (λ _. b ≡ true) (require b e)
  Returns-test true e = Returns-ok tt refl
  Returns-test false e = record { holds = λ _ h. cc }

  pub Returns-some {κ} : {A : Type κ} (o : Option A) (e : E) → Returns (λ a. o ≡ some a) (ok_or o e)
  Returns-some o e = record { holds = λ a h. ok_or-eq-ok o e h }

-- What holds of a value, if another holds of it.
pub Returns-map {ℓ κ μ ν} :
    {E : Type ℓ} {A : Type κ} {P : A → Type μ} {Q : A → Type ν} {m : Result E A}
    → Returns P m
    → ((a : A) → P a → Q a)
    → Returns Q m
Returns-map h k = record { holds = λ a e. k a (h.holds a e) }

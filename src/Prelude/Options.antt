-- ===== src/Prelude/Options.antt =====
-- The `?` operator on `Option`, and how a successful chain is taken apart.
use mathlib.Core.Path.{◌≡◌, refl}
use mathlib.Core.Option.{Option, none, some}

module _ {ℓ κ} {A : Type ℓ} {B : Type κ} where
  -- `let a = m?; f a`
  abbrev pub bind_some : Option A → (A → Option B) → Option B
  bind_some none f = none
  bind_some (some a) f = f a

  abbrev pub map_some : (A → B) → Option A → Option B
  map_some f none = none
  map_some f (some a) = some (f a)

  pub bind_some-eq_some :
      (m : Option A) (f : A → Option B) {b : B}
      → bind_some m f ≡ some b
      → (a : A) × (m ≡ some a) × (f a ≡ some b)
  bind_some-eq_some none f h = cc
  bind_some-eq_some (some a) f h = (a, refl, h)

-- `o.unwrap_or(d)`
abbrev pub unwrap_or {ℓ} : {A : Type ℓ} → A → Option A → A
unwrap_or d none = d
unwrap_or d (some a) = a

pub some-injective {ℓ} : {A : Type ℓ} {a b : A} → ◌≡◌ {A = Option A} (some a) (some b) → a ≡ b
some-injective h = cc

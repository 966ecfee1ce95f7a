-- ===== src/Prelude/Results.antt =====
-- Rust's `Result`, with the `?` operator, and `ok_or`.
use mathlib.Core.Path.{◌≡◌, refl, subst}
use mathlib.Core.Bool.{Bool, true, false}
use mathlib.Core.Option.{Option, none, some}

pub data Result {ℓ κ} (E : Type ℓ) (A : Type κ) : Type (ℓ ⊔ κ) where
  ok : A → Result E A
  err : E → Result E A

module _ {ℓ κ μ} {E : Type ℓ} {A : Type κ} {B : Type μ} where
  infixl 5 ◌>>=◌
  -- `let a = mx?; next a`
  abbrev pub ◌>>=◌ : Result E A → (A → Result E B) → Result E B
  err why >>= next = err why
  ok x >>= next = next x

  -- A chain that returns got through its first step.
  pub >>=-eq-ok :
      (mx : Result E A) (next : A → Result E B) {y : B}
      → (mx >>= next) ≡ ok y
      → (x : A) × (mx ≡ ok x) × (next x ≡ ok y)
  >>=-eq-ok (err why) next e = cc
  >>=-eq-ok (ok x) next e = (x, refl, e)

module _ {ℓ κ} {E : Type ℓ} {A : Type κ} where
  -- `o.ok_or(e)`
  abbrev pub ok_or : Option A → E → Result E A
  ok_or none e = err e
  ok_or (some a) e = ok a

  pub ok-injective : {a b : A} → ◌≡◌ {A = Result E A} (ok a) (ok b) → a ≡ b
  ok-injective h = cc

  pub ok_or-eq-ok : (o : Option A) (e : E) {a : A} → ok_or o e ≡ ok a → o ≡ some a
  ok_or-eq-ok none e h = cc
  ok_or-eq-ok (some b) e h = cc

-- `require!(b, e)`
abbrev pub require {ℓ} : {E : Type ℓ} → Bool → E → Result E (Unit {0})
require true e = ok tt
require false e = err e

-- `m.map_err(f)`
abbrev pub map_err {ℓ κ μ} :
    {E : Type ℓ} {F : Type κ} {A : Type μ} → (E → F) → Result E A → Result F A
map_err f (ok a) = ok a
map_err f (err e) = err (f e)

-- What holds of the value that `m` returns, if it returns one.
pub record Returns {ℓ κ μ} {E : Type ℓ} {A : Type κ} (P : A → Type μ) (m : Result E A)
    : Type (ℓ ⊔ κ ⊔ μ) where
  pub holds : (a : A) → m ≡ ok a → P a

-- The rule of `?`.
pub Returns-bind {ℓ κ μ ν ρ} :
    {E : Type ℓ} {A : Type κ} {B : Type μ} {P : A → Type ν} {Q : B → Type ρ} (m : Result E A)
    (f : A → Result E B)
    → Returns P m
    → ((a : A) → P a → Returns Q (f a))
    → Returns Q (m >>= f)
Returns-bind m f h k = record {
  holds = λ b e. let (a, e1, e2) = >>=-eq-ok m f e in (k a (h.holds a e1)).holds b e2;
}

-- A step of which nothing is to be known.
pub Returns-skip {ℓ κ μ ρ} :
    {E : Type ℓ} {A : Type κ} {B : Type μ} {Q : B → Type ρ} (m : Result E A) (f : A → Result E B)
    → ((a : A) → Returns Q (f a))
    → Returns Q (m >>= f)
Returns-skip m f k = record { holds = λ b e. let (a, e1, e2) = >>=-eq-ok m f e in (k a).holds b e2 }

pub Returns-ok {ℓ κ μ} :
    {E : Type ℓ} {A : Type κ} {P : A → Type μ} (a : A) → P a → Returns {E = E} P (ok a)
Returns-ok {P = P} a h = record { holds = λ b e. subst P (ok-injective e) h }

pub Returns-and {ℓ κ μ ν} :
    {E : Type ℓ} {A : Type κ} {P : A → Type μ} {Q : A → Type ν} {m : Result E A}
    → Returns P m
    → Returns Q m
    → Returns (λ a. P a × Q a) m
Returns-and h k = record { holds = λ a e. (h.holds a e, k.holds a e) }

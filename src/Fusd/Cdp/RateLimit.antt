-- ===== src/Fusd/Cdp/RateLimit.antt =====
-- The net-outflow rate limiter of programs/fusd-core/src/cdp.rs over a sequence of calls.
use native.Mathlib.Nat.{mul-le-mul_left, mul-le-mul_right}
use mathlib.Core.Path.{subst}
use fusion_core.Prelude.{
  ℕ, ◌+◌, ◌-◌, ◌*◌, ◌/◌, ◌≤◌, ◌<◌, ◌≡◌, refl, sym, ap, ◌∙◌, min, Option, some, some-injective, List,
  [], ◌∷◌, arith, u128_max, bind_some, bind_some-eq_some, div_bounds,
}
use fusion_core.Prelude.Int.{ℤ, pos, pos_part, ◌-ℤ◌, ◌≤ℤ◌, span, saturating_sub, saturating_sub_le}
use fusion_core.Fusd.Cdp.{ratelimit_decayed, ratelimit_consume, ratelimit_restore}

-- A call at an instant: new debt of some amount, or a repayment.
pub data Call : Type 0 where
  consume : ℤ → ℕ → Call
  restore : ℤ → ℕ → Call

abbrev pub instant : Call → ℤ
instant (consume t _) = t
instant (restore t _) = t

module _ (cap : ℕ) (window : ℤ) where
  -- The fields `rl_accrued` and `rl_last_update` of `Market` after a call. A refused borrow reverts.
  abbrev pub step : Call → ℕ × ℤ → Option (ℕ × ℤ)
  step (consume t x) (accrued, last) =
      bind_some (ratelimit_consume accrued last t cap window x) (λ a. some (a, t))
  step (restore t x) (accrued, last) = some (ratelimit_restore accrued last t cap window x, t)

  abbrev pub run : List Call → ℕ × ℤ → Option (ℕ × ℤ)
  run [] s = some s
  run (c ∷ cs) s = bind_some (step c s) (run cs)

-- The calls come in the order of their instants.
abbrev pub Ascending : ℤ → List Call → Type 0
Ascending t [] = Unit
Ascending t (c ∷ cs) = (t ≤ℤ instant c) × Ascending (instant c) cs

abbrev pub outflow : List Call → ℕ
outflow [] = 0
outflow (consume _ x ∷ cs) = x + outflow cs
outflow (restore _ _ ∷ cs) = outflow cs

abbrev pub inflow : List Call → ℕ
inflow [] = 0
inflow (consume _ _ ∷ cs) = inflow cs
inflow (restore _ x ∷ cs) = x + inflow cs

decayed_ge :
    (accrued cap W : ℕ) (last now : ℤ)
    → 0 < W
    → accrued
      ≤ ratelimit_decayed accrued last now cap (pos W)
        + min u128_max (cap * pos_part (saturating_sub now last)) / W
unfolding ratelimit_decayed
decayed_ge accrued cap W last now h = ground arith

pub ratelimit_decayed_le :
    (accrued cap : ℕ) (window last now : ℤ)
    → ratelimit_decayed accrued last now cap window ≤ accrued
unfolding ratelimit_decayed
ratelimit_decayed_le accrued cap window last now = ground arith

-- What decays away in a time is at most the cap's share of that time.
decayed_bound :
    (accrued cap W : ℕ) (last now : ℤ)
    → 0 < W
    → accrued * W
      ≤ ratelimit_decayed accrued last now cap (pos W) * W + cap * pos_part (now -ℤ last)
decayed_bound accrued cap W last now h =
    let x = min u128_max (cap * pos_part (saturating_sub now last)) in
    omega (
      arith,
      mul-le-mul_right W (decayed_ge accrued cap W last now h),
      (div_bounds x W h).0,
      mul-le-mul_left cap (saturating_sub_le now last),
    )

-- A new debt that passes fits under the cap, and is added to what is left of the pressure.
pub ratelimit_consume-eq_some :
    (accrued : ℕ) (last now : ℤ) (cap : ℕ) (window : ℤ) (x : ℕ) {a : ℕ}
    → ratelimit_consume accrued last now cap window x ≡ some a
    → (a ≡ ratelimit_decayed accrued last now cap window + x) × (a ≤ cap)
unfolding ratelimit_consume
ratelimit_consume-eq_some accrued last now cap window x h = ground arith

outflow-cons : (c : Call) (cs : List Call) → outflow (c ∷ cs) ≡ outflow (c ∷ []) + outflow cs
outflow-cons (consume _ x) cs = omega arith
outflow-cons (restore _ x) cs = omega arith

inflow-cons : (c : Call) (cs : List Call) → inflow (c ∷ cs) ≡ inflow (c ∷ []) + inflow cs
inflow-cons (consume _ x) cs = omega arith
inflow-cons (restore _ x) cs = omega arith

restore_bound : (d x : ℕ) (W : ℕ) → d * W ≤ (d - x) * W + x * W
restore_bound d x W = omega (arith, mul-le-mul_right {m = d} {n = d - x + x} W (omega arith))

flow_join :
    (cap W a b a' o o' i i' s s' : ℕ)
    → o * W + a * W ≤ b * W + i * W + cap * s
    → o' * W + b * W ≤ a' * W + i' * W + cap * s'
    → (o + o') * W + a * W ≤ a' * W + (i + i') * W + cap * (s + s')
flow_join cap W a b a' o o' i i' s s' h h' = omega arith

spans :
    (first mid last : ℤ)
    → first ≤ℤ mid
    → mid ≤ℤ last
    → pos_part (last -ℤ first) ≡ pos_part (mid -ℤ first) + pos_part (last -ℤ mid)
spans first mid last h h' =
    omega (arith, span mid first h, span last mid h', span last first (omega arith))

record Bounded (cap W a : ℕ) (last : ℤ) (out in_ a' : ℕ) (last' : ℤ) : Type 0 where
  flow : out * W + a * W ≤ a' * W + in_ * W + cap * pos_part (last' -ℤ last)
  later : last ≤ℤ last'
  level : a' ≤ cap

module _ (cap W : ℕ) (hW : 0 < W) where
  step-Bounded :
      (c : Call) (a : ℕ) (last : ℤ) (a' : ℕ) (last' : ℤ)
      → last ≤ℤ instant c
      → a ≤ cap
      → step cap (pos W) c (a, last) ≡ some (a', last')
      → Bounded cap W a last (outflow (c ∷ [])) (inflow (c ∷ [])) a' last' × (last' ≡ instant c)
  unfolding ratelimit_restore
  step-Bounded (consume t x) a last a' last' mono full h =
      let d = ratelimit_decayed a last t cap (pos W) in
      let (b, eb, h') = bind_some-eq_some (ratelimit_consume a last t cap (pos W) x) _ h in
      let e = some-injective h' in
      let (sum, fits) = ratelimit_consume-eq_some a last t cap (pos W) x eb in
      let same : b ≡ a' = ap (λ p. p.0) e in
      let product : a' * W ≡ (d + x) * W = ap (λ (n : ℕ). n * W) (sym same ∙ sum) in
      subst (λ l. Bounded cap W a last (x + 0) 0 a' l × (l ≡ t)) (ap (λ p. p.1) e)
        (
          record {
            flow = omega (arith, decayed_bound a cap W last t hW);
            later = mono;
            level = omega arith;
          },
          refl,
        )
  step-Bounded (restore t x) a last a' last' mono full h =
      let d = ratelimit_decayed a last t cap (pos W) in
      let e = some-injective h in
      let same : d - x ≡ a' = ap (λ p. p.0) e in
      let product : (d - x) * W ≡ a' * W = ap (λ (n : ℕ). n * W) same in
      subst (λ l. Bounded cap W a last 0 (x + 0) a' l × (l ≡ t)) (ap (λ p. p.1) e)
        (
          record {
            flow = omega (arith, decayed_bound a cap W last t hW, restore_bound d x W);
            later = mono;
            level = omega (arith, ratelimit_decayed_le a cap (pos W) last t);
          },
          refl,
        )

  run-Bounded :
      (cs : List Call) (a : ℕ) (last : ℤ) (a' : ℕ) (last' : ℤ)
      → Ascending last cs
      → a ≤ cap
      → run cap (pos W) cs (a, last) ≡ some (a', last')
      → Bounded cap W a last (outflow cs) (inflow cs) a' last'
  run-Bounded [] a last a' last' asc full h =
      let e = some-injective h in
      subst (λ (p : ℕ × ℤ). Bounded cap W a last 0 0 p.0 p.1) e
        (record { flow = omega arith; later = omega arith; level = full })
  run-Bounded (c ∷ cs) a last a' last' asc full h =
      let ((b, mid), eb, h') = bind_some-eq_some (step cap (pos W) c (a, last)) _ h in
      let (one, at_instant) = step-Bounded c a last b mid asc.0 full eb in
      let rest = run-Bounded cs b mid a' last' (rw at_instant asc.1) one.level h' in
      record {
        flow =
            rw (outflow-cons, inflow-cons, spans last mid last' one.later rest.later)
              (flow_join cap W a b a' (outflow (c ∷ [])) (outflow cs) (inflow (c ∷ [])) (inflow cs)
                (pos_part (mid -ℤ last)) (pos_part (last' -ℤ mid)) one.flow rest.flow);
        later = omega (arith, one.later, rest.later);
        level = rest.level;
      }

  -- For a window above zero: over calls in the order of their instants that are all accepted,
  -- starting within the cap, the new debt net of the repayments is at most the cap and the cap's
  -- share of the time that passes, and the pressure stays within the cap.
  pub run-le-cap :
      (cs : List Call) (a : ℕ) (last : ℤ) (a' : ℕ) (last' : ℤ)
      → Ascending last cs
      → a ≤ cap
      → run cap (pos W) cs (a, last) ≡ some (a', last')
      → (outflow cs * W ≤ inflow cs * W + cap * W + cap * pos_part (last' -ℤ last)) × (a' ≤ cap)
  run-le-cap cs a last a' last' asc full h =
      let b = run-Bounded cs a last a' last' asc full h in
      (omega (arith, b.flow, mul-le-mul_right W b.level), b.level)

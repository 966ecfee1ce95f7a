-- ===== src/Stake/Targets/Window.antt =====
-- crates/fusion-stake-math/src/targets.rs: the rotated window of the remainder. What a round would
-- grant to its first `k` validators, if none were short of capacity.
use native.Mathlib.Nat.{mod-eq_of_lt, add-mod_right, mul-le-mul_left}
use fusion_core.Prelude.{
  ℕ, ◌+◌, ◌-◌, ◌*◌, ◌/◌, ◌%◌, ◌≡◌, ◌≤◌, ◌<◌, arith, min, ltb, leb, inl, inr, Bool-cases,
  if◌then◌else◌, ◌∙◌, ap,
}

-- How many of the first `k` ordinals of `n` stand in the window of `rem` that begins at `start`.
abbrev pub window : ℕ → ℕ → ℕ → ℕ → ℕ
window rem n start k =
    if leb k start
    then min k (rem + start - n)
    else min start (rem + start - n) + min (k - start) rem

pub given : ℕ → ℕ → ℕ → ℕ → ℕ
given total n start k = total / n * k + window (total % n) n start k

rotated_before : (k n start : ℕ) → k < start → start < n → (k + n - start) % n ≡ k + n - start
rotated_before k n start h lt = mod-eq_of_lt (omega arith)

rotated_after : (k n start : ℕ) → start ≤ k → k < n → (k + n - start) % n ≡ k - start
rotated_after k n start h lt =
    ap (λ x. x % n) {x = k + n - start} {y = k - start + n} (omega arith)
    ∙ (add-mod_right (k - start) n ∙ mod-eq_of_lt (omega arith))

window_step :
    (rem n start k : ℕ)
    → rem < n
    → start < n
    → k < n
    → window rem n start (k + 1)
      ≡ window rem n start k + (if ltb ((k + n - start) % n) rem then 1 else 0)
window_step rem n start k hr hs hk = elim (Bool-cases (ltb k start)) [
  | inl before ↦ rw (rotated_before k n start (ground arith) hs) (ground arith)
  | inr after ↦ rw (rotated_after k n start (ground arith) hk) (ground arith)
]

pub given_step :
    (total n start k : ℕ)
    → start < n
    → k < n
    → given total n start (k + 1)
      ≡ given total n start k + total / n + (if ltb ((k + n - start) % n) (total % n) then 1 else 0)
unfolding given
given_step total n start k hs hk =
    let w = window_step (total % n) n start k (omega arith) hs hk in omega (arith, w)

pub given_all : (total n start : ℕ) → start < n → given total n start n ≡ total
unfolding given
given_all total n start hs =
    let w : window (total % n) n start n ≡ total % n = ground arith in omega (arith, w)

pub given_le : (total n start k : ℕ) → start < n → k ≤ n → given total n start k ≤ total
unfolding given
given_le total n start k hs hk =
    let w : window (total % n) n start k ≤ total % n = ground arith in
    omega (arith, w, mul-le-mul_left (total / n) hk)

pub given_zero : (total n start : ℕ) → given total n start 0 ≡ 0
unfolding given
given_zero total n start = ground arith

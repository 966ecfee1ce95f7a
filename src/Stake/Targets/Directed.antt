-- ===== src/Stake/Targets/Directed.antt =====
-- crates/fusion-stake-math/src/targets.rs: the directed targets of all validators together.
use native.Mathlib.Nat.{mul-le-mul_left}
use fusion_core.Prelude.{
  ℕ, zero, suc, ◌+◌, ◌-◌, ◌*◌, ◌/◌, ◌≡◌, ◌≤◌, ◌<◌, refl, ap, true, false, some, none, List, [], ◌∷◌,
  map, sum, ltb, leb, ◌==◌, arith, div_add, div_bounds, le_of_mul_le,
}
use fusion_core.Stake.Targets.{directed_target, neutral_total}

-- A validator's directed shares and cap.
pub record Share : Type 0 where
  pub shares : ℕ
  pub cap : ℕ

abbrev pub total_shares : List Share → ℕ
total_shares ss = sum (map (λ s. s.shares) ss)

abbrev pub total_targets : ℕ → ℕ → List Share → ℕ
total_targets productive supply ss =
    sum (map (λ s. directed_target productive s.shares supply s.cap) ss)

directed_target_le :
    (productive shares supply cap : ℕ)
    → 0 < supply
    → directed_target productive shares supply cap ≤ productive * shares / supply
unfolding directed_target
directed_target_le productive shares supply cap pos =
    let some_supply : (supply == 0) ≡ false = ground arith in rw some_supply (ground arith)

total_targets_le :
    (productive supply : ℕ) (ss : List Share)
    → 0 < supply
    → total_targets productive supply ss ≤ productive * total_shares ss / supply
total_targets_le productive supply [] pos = omega arith
total_targets_le productive supply (s ∷ ss) pos =
    let one = directed_target_le productive s.shares supply s.cap pos in
    let rest = total_targets_le productive supply ss pos in
    let both = div_add (productive * s.shares) (productive * total_shares ss) supply pos in
    let e : productive * s.shares + productive * total_shares ss
        ≡ productive * (s.shares + total_shares ss) =
      omega arith in
    let e' = ap (λ x. x / supply) e in omega (arith, one, rest, both, e')

no_supply : (productive : ℕ) (ss : List Share) → total_targets productive 0 ss ≡ 0
unfolding directed_target
no_supply productive [] = refl
no_supply productive (s ∷ ss) = omega (arith, no_supply productive ss)

total_targets-productive :
    (productive supply : ℕ) (ss : List Share)
    → total_shares ss ≤ supply
    → total_targets productive supply ss ≤ productive
total_targets-productive productive zero ss h = let z = no_supply productive ss in omega (arith, z)
total_targets-productive productive (suc supply) ss h =
    let le = total_targets_le productive (suc supply) ss (omega arith) in
    let b = (div_bounds (productive * total_shares ss) (suc supply) (omega arith)).0 in
    let m = mul-le-mul_left productive h in
    let top =
      le_of_mul_le (productive * total_shares ss / suc supply) productive (suc supply) (omega arith)
        (omega (arith, b, m)) in
    omega (arith, le, top)

-- The directed targets leave room for the rest exactly if no more shares are directed than there are:
-- the neutral lamports are then what the targets leave of the productive ones, and there is no plan
-- otherwise.
pub neutral_total_iff :
    (productive supply : ℕ) (ss : List Share)
    → (total_shares ss ≤ supply
        → (n : ℕ) × (neutral_total productive
              (total_targets productive supply ss)
              (total_shares ss)
              supply
            ≡ some n)
          × (total_targets productive supply ss + n ≡ productive))
      × (supply < total_shares ss
          → neutral_total productive (total_targets productive supply ss) (total_shares ss) supply
            ≡ none)
unfolding neutral_total
neutral_total_iff productive supply ss =
    let targets = total_targets productive supply ss in
    (
      (λ h.
          let within : ltb supply (total_shares ss) ≡ false = ground arith in
          let le = total_targets-productive productive supply ss h in
          let fits : leb targets productive ≡ true = ground arith in
          (productive - targets, rw (within, fits) refl, omega (arith, le))),
      (λ h. let over : ltb supply (total_shares ss) ≡ true = ground arith in rw over refl),
    )

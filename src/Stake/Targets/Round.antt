-- ===== src/Stake/Targets/Round.antt =====
-- crates/fusion-stake-math/src/targets.rs: one capacity round over the validators.
use fusion_core.Prelude.{
  ℕ, ◌+◌, ◌-◌, ◌/◌, ◌%◌, ◌≡◌, ◌≤◌, ◌<◌, refl, inl, inr, Bool-cases, List, ◌==◌, ltb, leb, false,
  saturating_add, if◌then◌else◌, arith, map, sum, u64_max,
}
use fusion_core.Stake.Targets.{
  NeutralRound, is_complete, in_window, base, grant_to, step, Slot, visit,
}
use fusion_core.Stake.Targets.Window.{given, given_step, given_le}

-- A round of `total` over `n` validators, after some steps.
pub record InRound (total n first : ℕ) (r : NeutralRound) : Type 0 where
  pub total_fits : total ≤ u64_max
  pub n_fits : n ≤ u64_max
  pub first_in : first < n
  pub remaining : r.remaining ≡ total
  pub n_unsaturated : r.n_unsaturated ≡ n
  pub tranche : r.tranche ≡ total / n
  pub remainder : r.remainder ≡ total % n
  pub start : r.start ≡ first
  pub steps_in : r.steps ≤ n
  pub saturated_in : r.saturated ≤ r.steps
  pub bounded : r.granted ≤ given total n first r.steps
  pub exact : r.saturated ≡ 0 → r.granted ≡ given total n first r.steps

-- A validator's cap: what it has and what it can still take.
abbrev pub ceiling : Slot → ℕ
ceiling s = s.capacity + s.target

abbrev pub Fits : Slot → Type 0
Fits s = ceiling s ≤ u64_max

abbrev pub targets : List Slot → ℕ
targets ss = sum (map (λ s. s.target) ss)

abbrev pub one_if_open : Slot → ℕ
one_if_open s = if ltb 0 s.capacity then 1 else 0

-- What a visit does to the round and the slot.
pub record Visited (total n first : ℕ) (r : NeutralRound) (s : Slot) (r' : NeutralRound) (s' : Slot)
    : Type 0 where
  pub in_round : InRound total n first r'
  pub ceiling_kept : ceiling s' ≡ ceiling s
  pub stepped : r'.steps ≡ r.steps + one_if_open s
  pub moved : s'.target + r.granted ≡ s.target + r'.granted
  pub counted : one_if_open s' + r'.saturated ≡ one_if_open s + r.saturated

-- What a step grants a validator that is not short of capacity.
base_lem :
    {total n first : ℕ} (r : NeutralRound)
    → InRound total n first r
    → r.steps < n
    → given total n first (r.steps + 1) ≡ given total n first r.steps + base r
unfolding base in_window
base_lem {total} {n} {first} r h lt =
    let step = given_step total n first r.steps h.first_in lt in
    let le = given_le total n first (r.steps + 1) h.first_in (omega arith) in
    rw (h.tranche, h.remainder, h.n_unsaturated, h.start) (ground (arith, step, le, h.total_fits))

pub grant_to-InRound :
    (total n first : ℕ) (r : NeutralRound) (c : ℕ)
    → InRound total n first r
    → r.steps < n
    → InRound total n first (grant_to r c).0
unfolding grant_to
grant_to-InRound total n first r c h lt =
    let grows = base_lem r h lt in
    let le = given_le total n first (r.steps + 1) h.first_in (omega arith) in
    let s1 : saturating_add u64_max r.steps 1 ≡ r.steps + 1 = omega arith in
    rw s1 (record {
      total_fits = h.total_fits;
      n_fits = h.n_fits;
      first_in = h.first_in;
      remaining = h.remaining;
      n_unsaturated = h.n_unsaturated;
      tranche = h.tranche;
      remainder = h.remainder;
      start = h.start;
      steps_in = omega arith;
      saturated_in = ground (arith, h.saturated_in, h.n_fits);
      bounded = omega (arith, grows, h.bounded);
      exact = ground (arith, grows, h.exact, h.total_fits, le);
    })

pub grant_to_moves :
    (total n first : ℕ) (r : NeutralRound) (c : ℕ)
    → InRound total n first r
    → r.steps < n
    → ((grant_to r c).1 ≤ c)
      × ((grant_to r c).0.granted ≡ r.granted + (grant_to r c).1)
      × ((grant_to r c).0.steps ≡ r.steps + 1)
      × ((grant_to r c).0.saturated ≡ r.saturated + (if c - (grant_to r c).1 == 0 then 1 else 0))
unfolding grant_to
grant_to_moves total n first r c h lt =
    let grows = base_lem r h lt in
    let le = given_le total n first (r.steps + 1) h.first_in (omega arith) in
    (
      omega arith,
      omega (arith, grows, le, h.bounded, h.total_fits),
      omega (arith, h.n_fits),
      ground (arith, h.saturated_in, h.n_fits),
    )

pub visit-Visited :
    (total n first : ℕ) (r : NeutralRound) (s : Slot)
    → InRound total n first r
    → Fits s
    → r.steps + one_if_open s ≤ n
    → Visited total n first r s (visit r s).0 (visit r s).1
unfolding visit step is_complete
visit-Visited total n first r s h fits room = elim (Bool-cases (s.capacity == 0)) [
  | inl full ↦ rw full (record {
    in_round = h;
    ceiling_kept = refl;
    stepped = ground arith;
    moved = refl;
    counted = refl;
  })
  | inr free ↦
      let lt : r.steps < n = ground arith in
      let more : leb r.n_unsaturated r.steps ≡ false = ground (arith, h.n_unsaturated) in
      let (le, granted, steps, saturated) = grant_to_moves total n first r s.capacity h lt in
      rw (free, more)
        (record {
          in_round = grant_to-InRound total n first r s.capacity h lt;
          ceiling_kept = omega (arith, le, fits);
          stepped = ground (arith, steps);
          moved = omega (arith, le, granted, fits);
          counted = ground (arith, saturated);
        })
]

-- ===== src/Controller/Logic/Decide.antt =====
-- `decide_action` of programs/fusion-stake-controller/src/logic.rs: the bounds of an action.
use fusion_core.Prelude.{
  ℕ, ◌+◌, ◌-◌, ◌≡◌, ◌≤◌, ◌<◌, refl, sym, Bool, true, false, inl, inr, Bool-cases, not, ◌⊎◌, ◌||◌,
  ltb, ◌==◌, min, arith,
}
use fusion_core.Stake.Churn.{action_amount, exceeds_hysteresis}
use fusion_core.Stake.Lifecycle.{
  ValidatorStatus, registered, candidate, active, draining, removable,
}
use fusion_core.Controller.Logic.{
  Action, skip, remove, decrease, increase, ActionInputs, amount_for, or_skip, drain, fill_deficit,
  cut_surplus, rebalance, visit_action, decide_action,
}

-- What every move of `a` out of a source respects.
pub record Within (i : ActionInputs) (source a : ℕ) : Type 0 where
  pub moves : 0 < a
  pub least : i.min_delegation ≤ a
  pub budget : a ≤ i.budget_remaining
  pub cap : a ≤ i.validator_move_cap
  pub available : a ≤ source

-- What an action respects, beside the state of the validator.
abbrev pub Bounded : ActionInputs → Action → Type 0
Bounded i skip = Unit {0}
Bounded i remove = i.status ≡ removable
Bounded i (decrease a) =
    Within i (i.active_lamports - i.drained_floor) a × (i.stake_rent ≤ i.reserve_lamports)
Bounded i (increase a) =
    Within i i.reserve_available_for_increase a
    × (i.active_lamports + a ≤ i.final_target)
    × (i.increases_allowed ≡ true)

-- An amount that is no 0 is within the bounds, and at most the deviation.
amount_for-Within :
    (i : ActionInputs) (deviation source : ℕ)
    → (amount_for i deviation source ≡ 0)
      ⊎ (Within i source (amount_for i deviation source)
          × (amount_for i deviation source ≤ deviation))
unfolding action_amount
amount_for-Within i deviation source =
    let amount = min (min (min deviation i.budget_remaining) i.validator_move_cap) source in
    elim (Bool-cases (amount == 0)) [
      | inl zero ↦ inl (ground arith)
      | inr some ↦ elim (Bool-cases (ltb amount i.min_delegation)) [
        | inl small ↦ inl (rw small refl)
        | inr large ↦ inr (
            rw large (
              record {
                moves = ground arith;
                least = ground arith;
                budget = omega arith;
                cap = omega arith;
                available = omega arith;
              },
              omega arith,
            ))
      ]
    ]

-- An action of the amount is bounded if it is for every amount within the bounds.
or_skip-Bounded :
    (i : ActionInputs) (action : ℕ → Action) (deviation source : ℕ)
    → ((a : ℕ) → Within i source a → a ≤ deviation → Bounded i (action a))
    → Bounded i (or_skip action (amount_for i deviation source))
or_skip-Bounded i action deviation source h = elim (amount_for-Within i deviation source) [
  | inl zero ↦ let none : (amount_for i deviation source == 0) ≡ true = ground arith in rw none tt
  | inr (within, le) ↦
      let moves = within.moves in
      let some : (amount_for i deviation source == 0) ≡ false = ground arith in
      rw some (h (amount_for i deviation source) within le)
]

drain-Bounded : (i : ActionInputs) → Bounded i (drain i)
unfolding drain
drain-Bounded i =
    let deviation = i.active_lamports - i.drained_floor in
    elim (Bool-cases (ltb i.reserve_lamports i.stake_rent)) [
      | inl poor ↦ rw poor tt
      | inr funded ↦
          rw funded
            (or_skip-Bounded i decrease deviation deviation (λ a within le. (within, ground arith)))
    ]

both_false : (a b : Bool) → (a || not b) ≡ false → b ≡ true
both_false a true e = refl
both_false true false e = cc
both_false false false e = cc

fill_deficit-Bounded : (i : ActionInputs) → Bounded i (fill_deficit i)
unfolding fill_deficit
fill_deficit-Bounded i =
    let deviation = i.final_target - i.active_lamports in
    let small = not (exceeds_hysteresis deviation i.hysteresis_threshold) in
    elim (Bool-cases (small || not i.increases_allowed)) [
      | inl kept ↦ rw kept tt
      | inr moved ↦ rw moved (
          or_skip-Bounded i increase deviation i.reserve_available_for_increase (λ a within le.
            let moves = within.moves in
            (within, omega arith, both_false small i.increases_allowed moved)))
    ]

cut_surplus-Bounded : (i : ActionInputs) → Bounded i (cut_surplus i)
unfolding cut_surplus
cut_surplus-Bounded i =
    let deviation = i.active_lamports - i.final_target in
    elim (Bool-cases (not (exceeds_hysteresis deviation i.hysteresis_threshold))) [
      | inl small ↦ rw small tt
      | inr large ↦ elim (Bool-cases (ltb i.reserve_lamports i.stake_rent)) [
        | inl poor ↦ rw (large, poor) tt
        | inr funded ↦
            rw (large, funded)
              (or_skip-Bounded i decrease deviation (i.active_lamports - i.drained_floor)
                (λ a within le. (within, ground arith)))
      ]
    ]

rebalance-Bounded : (i : ActionInputs) → Bounded i (rebalance i)
rebalance-Bounded i = elim (Bool-cases (ltb i.active_lamports i.final_target)) [
  | inl deficit ↦ rw deficit (fill_deficit-Bounded i)
  | inr surplus ↦ rw surplus (cut_surplus-Bounded i)
]

visit_action-Bounded :
    (pass : ℕ) (status : ValidatorStatus) (i : ActionInputs)
    → status ≡ i.status
    → Bounded i (visit_action pass status i)
unfolding visit_action
visit_action-Bounded pass registered i e = tt
visit_action-Bounded pass removable i e = elim (Bool-cases (pass == 0)) [
  | inl first ↦ rw first (sym e)
  | inr later ↦ rw later tt
]
visit_action-Bounded pass draining i e = elim (Bool-cases (pass == 0)) [
  | inl first ↦ rw first (drain-Bounded i)
  | inr later ↦ rw later tt
]
visit_action-Bounded pass candidate i e = elim (Bool-cases (pass == 1)) [
  | inl second ↦ rw second (rebalance-Bounded i)
  | inr other ↦ rw other tt
]
visit_action-Bounded pass active i e = elim (Bool-cases (pass == 1)) [
  | inl second ↦ rw second (rebalance-Bounded i)
  | inr other ↦ rw other tt
]

-- A validator that has a transient stake, or has moved in the epoch, is skipped. Of the others only a
-- removable one is removed. A decrease or an increase moves more than nothing and at least the minimum
-- delegation, within the churn budget, the cap per move, and what its source has: a decrease leaves the
-- floor of the stake account and finds its rent in the reserve, an increase takes what the reserve can
-- spare, does not pass the final target, and happens only where increases are allowed.
pub decide_action-Bounded :
    (i : ActionInputs)
    → ((ltb 0 i.transient_lamports || i.acted_this_epoch) ≡ true → decide_action i ≡ skip)
      × Bounded i (decide_action i)
unfolding decide_action
decide_action-Bounded i = (
  (λ busy. rw busy refl),
  elim (Bool-cases (ltb 0 i.transient_lamports || i.acted_this_epoch)) [
    | inl busy ↦ rw busy tt
    | inr free ↦ rw free (visit_action-Bounded i.pass i.status i refl)
  ],
)

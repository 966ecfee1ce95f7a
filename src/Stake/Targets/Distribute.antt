-- ===== src/Stake/Targets/Distribute.antt =====
-- `distribute_neutral` of crates/fusion-stake-math/src/targets.rs: the rounds together.
use fusion_core.Prelude.{
  ℕ, zero, suc, ◌+◌, ◌≡◌, ◌≤◌, ◌<◌, refl, ◌∙◌, sym, ap, ◌⊎◌, ◌/◌, ◌%◌, inl, inr, none, some, List,
  [], ◌∷◌, ◌==◌, ◌||◌, true, false, arith, map, length, All, u64_max, saturating_add,
}
use fusion_core.Stake.Targets.{
  NeutralRound, begin_round, remaining_after, Slot, visit, pass, count_unsaturated, rotation_start,
  NeutralOutcome, distribute_loop, distribute_neutral,
}
use fusion_core.Stake.Targets.Window.{given, given_all, given_zero}
use fusion_core.Stake.Targets.Round.{InRound, ceiling, Fits, targets, visit-Visited}

pub record Passed (total n first : ℕ) (r : NeutralRound) (ss : List Slot) (r' : NeutralRound)
    (ss' : List Slot) : Type 0 where
  pub in_round : InRound total n first r'
  pub ceilings_kept : map ceiling ss' ≡ map ceiling ss
  pub stepped : r'.steps ≡ r.steps + count_unsaturated ss
  pub moved : targets ss' + r.granted ≡ targets ss + r'.granted
  pub counted : count_unsaturated ss' + r'.saturated ≡ count_unsaturated ss + r.saturated

pass-Passed :
    (total n first : ℕ) (r : NeutralRound) (ss : List Slot)
    → InRound total n first r
    → All Fits ss
    → r.steps + count_unsaturated ss ≤ n
    → Passed total n first r ss (pass r ss).0 (pass r ss).1
unfolding pass count_unsaturated
pass-Passed total n first r [] h fits room = record {
  in_round = h;
  ceilings_kept = refl;
  stepped = omega arith;
  moved = refl;
  counted = refl;
}
pass-Passed total n first r (s ∷ ss) h fits room =
    let v = visit-Visited total n first r s h fits.0 (omega arith) in
    let p =
      pass-Passed total n first (visit r s).0 ss v.in_round fits.1 (omega (arith, v.stepped)) in
    record {
      in_round = p.in_round;
      ceilings_kept = cc (v.ceiling_kept, p.ceilings_kept);
      stepped = omega (arith, v.stepped, p.stepped);
      moved = omega (arith, v.moved, p.moved);
      counted = omega (arith, v.counted, p.counted);
    }

ceilings-Fits : (ss ss' : List Slot) → map ceiling ss' ≡ map ceiling ss → All Fits ss → All Fits ss'
ceilings-Fits [] [] e h = tt
ceilings-Fits [] (s' ∷ ss') e h = cc
ceilings-Fits (s ∷ ss) [] e h = cc
ceilings-Fits (s ∷ ss) (s' ∷ ss') e h =
    let e0 : ceiling s' ≡ ceiling s = cc e in
    let e1 : map ceiling ss' ≡ map ceiling ss = cc e in
    (omega (arith, e0, h.0), ceilings-Fits ss ss' e1 h.1)

-- The outcome of a distribution of `neutral` in at most `bound` rounds.
pub record Distributed (neutral bound : ℕ) (ss : List Slot) (r : NeutralOutcome × List Slot)
    : Type 0 where
  pub conserved : targets r.1 + r.0.shortfall ≡ targets ss + neutral
  pub ceilings_kept : map ceiling r.1 ≡ map ceiling ss
  pub full : 0 < r.0.shortfall → count_unsaturated r.1 ≡ 0
  pub few_rounds : r.0.rounds ≤ bound

-- The loop returns, and with such an outcome.
abbrev Ends : ℕ → ℕ → ℕ → ℕ → ℕ → List Slot → Type 0
Ends fuel epoch neutral rounds bound ss =
    (r : NeutralOutcome × List Slot) × (distribute_loop fuel epoch neutral rounds ss ≡ some r)
    × Distributed neutral bound ss r

abbrev pub opened : ℕ → ℕ → ℕ → NeutralRound
opened total n epoch = record {
  remaining = total;
  n_unsaturated = n;
  tranche = total / n;
  remainder = total % n;
  start = rotation_start epoch n;
  steps = 0;
  remainder_used = 0;
  granted = 0;
  saturated = 0;
}

pub begin_round-none :
    (total n epoch : ℕ) → (total ≡ 0) ⊎ (n ≡ 0) → begin_round total n epoch ≡ none
unfolding begin_round
begin_round-none total n epoch e =
    let idle : (total == 0 || n == 0) ≡ true = ground arith in rw idle refl

pub begin_round-some :
    (total n epoch : ℕ)
    → 0 < total
    → 0 < n
    → begin_round total n epoch ≡ some (opened total n epoch)
unfolding begin_round
begin_round-some total n epoch ht hn =
    let busy : (total == 0 || n == 0) ≡ false = ground arith in rw busy refl

nothing_left :
    (fuel epoch neutral rounds bound : ℕ) (ss : List Slot)
    → 0 < fuel
    → rounds ≤ bound
    → (neutral ≡ 0) ⊎ (count_unsaturated ss ≡ 0)
    → Ends fuel epoch neutral rounds bound ss
unfolding distribute_loop
nothing_left zero epoch neutral rounds bound ss pos hb e = absurd (omega arith)
nothing_left (suc fuel) epoch neutral rounds bound ss pos hb e = (
  (record { rounds = rounds; shortfall = neutral }, ss),
  rw (begin_round-none neutral (count_unsaturated ss) epoch e, distribute_loop) refl,
  record { conserved = refl; ceilings_kept = refl; full = ground arith; few_rounds = hb },
)

rotation_start_lt : (epoch n : ℕ) → 0 < n → rotation_start epoch n < n
unfolding rotation_start
rotation_start_lt epoch n h = ground arith

pub opened-InRound :
    (total n epoch : ℕ)
    → total ≤ u64_max
    → n ≤ u64_max
    → 0 < n
    → InRound total n (rotation_start epoch n) (opened total n epoch)
opened-InRound total n epoch ht hn pos =
    let z = given_zero total n (rotation_start epoch n) in
    record {
      total_fits = ht;
      n_fits = hn;
      first_in = rotation_start_lt epoch n pos;
      remaining = refl;
      n_unsaturated = refl;
      tranche = refl;
      remainder = refl;
      start = refl;
      steps_in = omega arith;
      saturated_in = omega arith;
      bounded = omega arith;
      exact = λ _. sym z;
    }

-- A whole round grants no more than there is, and all of it unless it saturates a validator.
whole_round :
    {total n first : ℕ} (r : NeutralRound)
    → InRound total n first r
    → r.steps ≡ n
    → (remaining_after r + r.granted ≡ total) × (r.saturated ≡ 0 → remaining_after r ≡ 0)
unfolding remaining_after
whole_round {total} {n} {first} r h e =
    let all = given_all total n first h.first_in in
    let at_end : given total n first r.steps ≡ total = ap (given total n first) e ∙ all in
    (
      omega (arith, h.remaining, h.bounded, at_end),
      (λ z. omega (arith, h.remaining, h.exact z, at_end)),
    )

pub either_zero : (a b : ℕ) → ((a ≡ 0) ⊎ (b ≡ 0)) ⊎ ((0 < a) × (0 < b))
either_zero zero b = inl (inl refl)
either_zero (suc a) zero = inl (inr refl)
either_zero (suc a) (suc b) = inr (omega arith)

pub distribute_loop-Ends :
    (fuel epoch neutral rounds bound : ℕ) (ss : List Slot)
    → count_unsaturated ss < fuel
    → neutral ≤ u64_max
    → bound ≤ u64_max
    → rounds + count_unsaturated ss ≤ bound
    → All Fits ss
    → Ends fuel epoch neutral rounds bound ss
unfolding distribute_loop
distribute_loop-Ends zero epoch neutral rounds bound ss enough hn hb hr fits = absurd (omega arith)
distribute_loop-Ends (suc fuel) epoch neutral rounds bound ss enough hn hb hr fits =
    elim (either_zero neutral (count_unsaturated ss)) [
      | inl idle ↦
          nothing_left (suc fuel) epoch neutral rounds bound ss (omega arith) (omega arith) idle
      | inr (some_left, some_open) ↦
          let n = count_unsaturated ss in
          let r = opened neutral n epoch in
          let opened_in = opened-InRound neutral n epoch hn (omega (arith, hr)) some_open in
          let p =
            pass-Passed neutral n (rotation_start epoch n) r ss opened_in fits (omega arith) in
          let r' = (pass r ss).0 in
          let ss' = (pass r ss).1 in
          let (left, all_gone) = whole_round r' p.in_round (omega (arith, p.stepped)) in
          let begun = begin_round-some neutral n epoch some_left some_open in
          let rounds' = saturating_add u64_max rounds 1 in
          let tail : Ends fuel epoch (remaining_after r') rounds' bound ss' =
            elim (either_zero r'.saturated 1) [
              | inl unsaturated ↦
                  nothing_left fuel epoch (remaining_after r') rounds' bound ss' (omega arith)
                    (omega arith) (inl (all_gone (omega (arith, unsaturated))))
              | inr (saturates, _) ↦
                  distribute_loop-Ends fuel epoch (remaining_after r') rounds' bound ss'
                    (omega (arith, p.counted)) (omega (arith, left)) hb (omega (arith, p.counted))
                    (ceilings-Fits ss ss' p.ceilings_kept fits)
            ] in
          (
            tail.0,
            rw (begun, distribute_loop) tail.1,
            record {
              conserved = omega (arith, left, p.moved, tail.2.conserved);
              ceilings_kept = tail.2.ceilings_kept ∙ p.ceilings_kept;
              full = tail.2.full;
              few_rounds = tail.2.few_rounds;
            },
          )
    ]

count_le : (ss : List Slot) → count_unsaturated ss ≤ length ss
unfolding count_unsaturated
count_le [] = omega arith
count_le (s ∷ ss) = ground (arith, count_le ss)

-- For an amount of 64 bits, and no more validators and caps than 64 bits count, the loop ends within
-- its fuel. The grants and the shortfall add up to the amount; each validator's target and capacity
-- add up to what they did, so no target passes its cap; a shortfall is left only if no validator has
-- capacity left; and there are no more rounds than there were validators with capacity.
pub distribute_neutral-Distributed :
    (neutral epoch : ℕ) (ss : List Slot)
    → neutral ≤ u64_max
    → length ss ≤ u64_max
    → All Fits ss
    → (r : NeutralOutcome × List Slot) × (distribute_neutral neutral epoch ss ≡ some r)
      × Distributed neutral (count_unsaturated ss) ss r
unfolding distribute_neutral
distribute_neutral-Distributed neutral epoch ss hn hl fits =
    let le = count_le ss in
    distribute_loop-Ends (suc (length ss)) epoch neutral 0 (count_unsaturated ss) ss
      (omega (arith, le)) hn (omega (arith, le, hl)) (omega arith) fits

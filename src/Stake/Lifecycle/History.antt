-- ===== src/Stake/Lifecycle/History.antt =====
-- crates/fusion-stake-math/src/lifecycle.rs over the epochs: a validator's status and streaks, which
-- plan_directed_batch.rs of programs/fusion-stake-controller keeps from epoch to epoch.
use mathlib.Core.Path.{subst}
use fusion_core.Prelude.{
  ℕ, ◌≡◌, ◌<◌, ◌≢◌, ◌⊎◌, ◌↔◌, refl, inl, inr, Bool, true, false, Bool-cases, ◌&&◌, some, All, List,
  [], ◌∷◌, arith,
}
use fusion_core.Stake.Lifecycle.{
  ValidatorStatus, registered, candidate, active, draining, removable, as_u8, from_u8,
  LifecycleInput, advance_lifecycle, next_status, failure_streak, healthy_streak, drains,
}

-- A status byte is read as a status exactly if the status is stored as that byte.
pub from_u8_iff : (v : ℕ) (s : ValidatorStatus) → (from_u8 v ≡ some s) ↔ (v ≡ as_u8 s)
unfolding from_u8 as_u8
from_u8_iff v registered = ground arith
from_u8_iff v candidate = ground arith
from_u8_iff v active = ground arith
from_u8_iff v draining = ground arith
from_u8_iff v removable = ground arith

-- What is observed of a validator in an epoch.
pub record Observation : Type 0 where
  pub commission_ok : Bool
  pub liveness_ok : Bool
  pub has_pool_stake : Bool
  pub guard_active : Bool
  pub zero_stake_and_target : Bool
  pub removal_delay_elapsed : Bool

pub record Life : Type 0 where
  pub status : ValidatorStatus
  pub failures : ℕ
  pub healthy : ℕ

abbrev pub input_of : Life → Observation → LifecycleInput
input_of l o = record {
  commission_ok = o.commission_ok;
  liveness_ok = o.liveness_ok;
  consecutive_failures = l.failures;
  consecutive_healthy = l.healthy;
  has_pool_stake = o.has_pool_stake;
  guard_active = o.guard_active;
  zero_stake_and_target = o.zero_stake_and_target;
  removal_delay_elapsed = o.removal_delay_elapsed;
}

abbrev pub live : Life → Observation → Life
live l o =
    let out = advance_lifecycle l.status (input_of l o) in
    record {
      status = out.status;
      failures = out.consecutive_failures;
      healthy = out.consecutive_healthy;
    }

-- A validator's life after the epochs.
unfoldable pub run : Life → List Observation → Life
run l [] = l
run l (o ∷ os) = run (live l o) os

-- Two epochs in a row, the first with P and the second with Q.
abbrev pub HasPair : (Observation → Type 0) → (Observation → Type 0) → List Observation → Type 0
HasPair P Q [] = ⊥
HasPair P Q (a ∷ []) = ⊥
HasPair P Q (a ∷ b ∷ os) = (P a × Q b) ⊎ HasPair P Q (b ∷ os)

HasPair-later :
    (P Q : Observation → Type 0) (a : Observation) (os : List Observation)
    → HasPair P Q os
    → HasPair P Q (a ∷ os)
HasPair-later P Q a [] h = absurd h
HasPair-later P Q a (b ∷ os) h = inr h

abbrev pub IsHealthy : Observation → Type 0
IsHealthy o = (o.liveness_ok ≡ true) × (o.has_pool_stake ≡ true)

abbrev pub IsDown : Observation → Type 0
IsDown o = o.liveness_ok ≡ false

abbrev pub IsDownUnguarded : Observation → Type 0
IsDownUnguarded o = (o.liveness_ok ≡ false) × (o.guard_active ≡ false)

abbrev pub IsLeaving : ValidatorStatus → Type 0
IsLeaving s = (s ≡ draining) ⊎ (s ≡ removable)

next_leaves : (s : ValidatorStatus) (i : LifecycleInput) → IsLeaving s → IsLeaving (next_status s i)
unfolding next_status
next_leaves removable i h = inr refl
next_leaves draining i h = elim (Bool-cases (i.zero_stake_and_target && i.removal_delay_elapsed)) [
  | inl gone ↦ rw gone (inr refl)
  | inr waits ↦ rw waits (inl refl)
]
next_leaves registered i h = ground arith
next_leaves candidate i h = ground arith
next_leaves active i h = ground arith

-- A validator that drains never comes back.
IsLeaving-stays :
    (l : Life) (os : List Observation) → IsLeaving l.status → IsLeaving (run l os).status
unfolding run advance_lifecycle
IsLeaving-stays l [] h = h
IsLeaving-stays l (o ∷ os) h = IsLeaving-stays (live l o) os (next_leaves l.status (input_of l o) h)

not_active : (s : ValidatorStatus) → IsLeaving s → s ≢ active
not_active s h e = ground arith

abbrev on_probation : ℕ → ℕ → Life
on_probation f h = record { status = candidate; failures = f; healthy = h }

-- What an epoch does to a candidate: it drains, it loses its streak, or it was healthy.
probation_step :
    (f h : ℕ) (o : Observation)
    → IsLeaving (live (on_probation f h) o).status
      ⊎ (live (on_probation f h) o ≡ on_probation (live (on_probation f h) o).failures 0)
      ⊎ (IsHealthy o
          × (h ≡ 0
              → live (on_probation f h) o ≡ on_probation (live (on_probation f h) o).failures 1))
unfolding advance_lifecycle next_status healthy_streak
probation_step f h o = elim (Bool-cases (drains (input_of (on_probation f h) o))) [
  | inl falls ↦ rw falls (inl (inl refl))
  | inr stays ↦ elim (Bool-cases (o.liveness_ok && o.has_pool_stake)) [
    | inl healthy ↦ rw (stays, healthy) (inr (inr ((ground arith, ground arith), λ z. rw z refl)))
    | inr short ↦ rw (stays, short) (inr (inl refl))
  ]
]

abbrev IsActiveAfter : Life → List Observation → Type 0
IsActiveAfter l os = (run l os).status ≡ active

gone : (l : Life) (os : List Observation) → IsLeaving l.status → ¬ IsActiveAfter l os
gone l os h e = not_active (run l os).status (IsLeaving-stays l os h) e

mutual
  unfolding run

  promoted_fresh :
      (f : ℕ) (os : List Observation)
      → IsActiveAfter (on_probation f 0) os
      → HasPair IsHealthy IsHealthy os
  promoted_fresh f [] e = cc
  promoted_fresh f (o ∷ os) e = elim (probation_step f 0 o) [
    | inl falls ↦ absurd (gone _ os falls e)
    | inr (inl short) ↦
        HasPair-later IsHealthy IsHealthy o os
          (promoted_fresh _ os (subst (λ l. IsActiveAfter l os) short e))
    | inr (inr (healthy, more)) ↦
        promoted_after _ o os healthy (subst (λ l. IsActiveAfter l os) (more refl) e)
  ]

  promoted_after :
      (f : ℕ) (p : Observation) (os : List Observation)
      → IsHealthy p
      → IsActiveAfter (on_probation f 1) os
      → HasPair IsHealthy IsHealthy (p ∷ os)
  promoted_after f p [] h e = cc
  promoted_after f p (o ∷ os) h e = elim (probation_step f 1 o) [
    | inl falls ↦ absurd (gone _ os falls e)
    | inr (inl short) ↦ HasPair-later IsHealthy IsHealthy p (o ∷ os) (
        HasPair-later IsHealthy IsHealthy o os
          (promoted_fresh _ os (subst (λ l. IsActiveAfter l os) short e)))
    | inr (inr (healthy, more)) ↦ inl (h, healthy)
  ]

abbrev pub InPool : ValidatorStatus → Type 0
InPool s = (s ≡ candidate) ⊎ (s ≡ active)

streak_cases : (i : LifecycleInput) → (failure_streak i ≡ 0) ⊎ (i.liveness_ok ≡ false)
unfolding failure_streak
streak_cases i = elim (Bool-cases i.liveness_ok) [ inl up ↦ rw up (inl refl) | inr down ↦ inr down ]

drains_why :
    (i : LifecycleInput)
    → i.commission_ok ≡ true
    → drains i ≡ true
    → (i.liveness_ok ≡ false) × (i.guard_active ≡ false) × (0 < i.consecutive_failures)
unfolding drains failure_streak
drains_why i fair d = ground arith

next-InPool :
    (s : ValidatorStatus) (i : LifecycleInput)
    → InPool s
    → drains i ≡ false
    → InPool (next_status s i)
unfolding next_status
next-InPool candidate i h stays = ground arith
next-InPool active i h stays = ground arith
next-InPool registered i h stays = ground arith
next-InPool draining i h stays = ground arith
next-InPool removable i h stays = ground arith

-- What an epoch with a commission in order does to a candidate or an active validator.
pool_step :
    (l : Life) (o : Observation)
    → InPool l.status
    → o.commission_ok ≡ true
    → (IsDownUnguarded o × (0 < l.failures))
      ⊎ (InPool (live l o).status × (((live l o).failures ≡ 0) ⊎ IsDown o))
unfolding advance_lifecycle
pool_step l o h fair = elim (Bool-cases (drains (input_of l o))) [
  | inl falls ↦
      let (down, unguarded, failed) = drains_why (input_of l o) fair falls in
      inl ((down, unguarded), failed)
  | inr stays ↦ inr (next-InPool l.status (input_of l o) h stays, streak_cases (input_of l o))
]

not-IsLeaving : (s : ValidatorStatus) → InPool s → ¬ IsLeaving s
not-IsLeaving s h e = ground arith

mutual
  unfolding run

  drained_fresh :
      (l : Life) (os : List Observation)
      → InPool l.status
      → l.failures ≡ 0
      → All (λ o. o.commission_ok ≡ true) os
      → IsLeaving (run l os).status
      → HasPair IsDown IsDownUnguarded os
  drained_fresh l [] h z fair e = absurd (not-IsLeaving l.status h e)
  drained_fresh l (o ∷ os) h z fair e = elim (pool_step l o h fair.0) [
    | inl (down, failed) ↦ absurd (omega arith)
    | inr (stays, inl fresh) ↦
        HasPair-later IsDown IsDownUnguarded o os (drained_fresh (live l o) os stays fresh fair.1 e)
    | inr (stays, inr down) ↦ drained_after o (live l o) os down stays fair.1 e
  ]

  drained_after :
      (p : Observation) (l : Life) (os : List Observation)
      → IsDown p
      → InPool l.status
      → All (λ o. o.commission_ok ≡ true) os
      → IsLeaving (run l os).status
      → HasPair IsDown IsDownUnguarded (p ∷ os)
  drained_after p l [] d h fair e = absurd (not-IsLeaving l.status h e)
  drained_after p l (o ∷ os) d h fair e = elim (pool_step l o h fair.0) [
    | inl (down, failed) ↦ inl (d, down)
    | inr (stays, inl fresh) ↦ HasPair-later IsDown IsDownUnguarded p (o ∷ os) (
        HasPair-later IsDown IsDownUnguarded o os
          (drained_fresh (live l o) os stays fresh fair.1 e))
    | inr (stays, inr down) ↦
        HasPair-later IsDown IsDownUnguarded p (o ∷ os)
          (drained_after o (live l o) os down stays fair.1 e)
  ]

-- Whatever happens to a candidate whose streak of healthy epochs is empty, it is active after some
-- epochs only if in two of them, one after the other, it was live and carried stake of the pool.
pub promoted-HasPair :
    (f : ℕ) (os : List Observation)
    → (run (record { status = candidate; failures = f; healthy = 0 }) os).status ≡ active
    → HasPair IsHealthy IsHealthy os
promoted-HasPair f os e = promoted_fresh f os e

-- A candidate or an active validator with no failure behind it and a commission in order in every
-- epoch drains only if it failed its liveness checks in two epochs, one after the other, and in the
-- second of them the guard was off.
pub drained-HasPair :
    (l : Life) (os : List Observation)
    → InPool l.status
    → l.failures ≡ 0
    → All (λ o. o.commission_ok ≡ true) os
    → IsLeaving (run l os).status
    → HasPair IsDown IsDownUnguarded os
drained-HasPair l os h z fair e = drained_fresh l os h z fair e

-- ===== src/Controller/PlanNeutral/Slots.antt =====
-- programs/fusion-stake-controller/src/instructions/plan_neutral_batch.rs: the slot that a validator's
-- record stands for, and a step on either.
use fusion_core.Prelude.{
  ℕ, ◌-◌, ◌≡◌, ◌≤◌, ◌<◌, refl, sym, ◌∙◌, ap, Bool, true, false, inl, inr, Bool-cases, ◌&&◌, Option,
  some, none, List, map, Returns, Returns-bind, Returns-skip, Returns-ok, ◌==◌, ltb, leb,
  if◌then◌else◌, checked_add, checked_sub, saturating_add, u64_max, arith,
}
use fusion_core.Prelude.Steps.{Returns-sum, Returns-difference}
use fusion_core.Stake.Lifecycle.{ValidatorStatus, from_u8}
use fusion_core.Stake.Preference.{Address}
use fusion_core.Stake.Targets.{NeutralRound, Slot, is_complete, grant_to, step, visit}
use fusion_core.Controller.Error.{or_overflow}
use fusion_core.Controller.PlanNeutral.{book_grant, grant_member, is_active}
use fusion_core.Controller.Records.{Records}
use fusion_core.Controller.State.{EpochState, ValidatorRecord}

abbrev pub active_code : Option ValidatorStatus → Bool
active_code (some status) = is_active status
active_code none = false

-- The slot that a record stands for: only an active validator has capacity.
abbrev pub slot_of : ValidatorRecord → Slot
slot_of r = record {
  capacity = if active_code (from_u8 r.status) then r.remaining_capacity else 0;
  target = r.final_target;
}

abbrev pub slot_at : Option ValidatorRecord → Slot
slot_at (some r) = slot_of r
slot_at none = record { capacity = 0; target = 0 }

abbrev pub slots : Records → List Address → List Slot
slots records keys = map (λ k. slot_at (records k)) keys

book_grant-target :
    (es : EpochState) (r : ValidatorRecord) (grant : ℕ)
    → grant ≤ r.remaining_capacity
    → r.final_target ≤ u64_max
    → Returns
        (λ (t : EpochState × ValidatorRecord).
          (t.1.status ≡ r.status)
          × (t.1.remaining_capacity ≡ r.remaining_capacity - grant)
          × (t.1.final_target ≡ saturating_add u64_max r.final_target grant)
          × (t.1.final_target ≤ u64_max))
        (book_grant es r grant)
unfolding book_grant
book_grant-target es r grant le fits = elim (Bool-cases (ltb 0 grant)) [
  | inl granted ↦ rw granted (
      Returns-skip (or_overflow (checked_add u64_max r.neutral_granted grant)) _ (λ a.
        Returns-bind (or_overflow (checked_add u64_max r.final_target grant)) _
          (Returns-sum u64_max r.final_target grant _)
          (λ b (sum, top).
            Returns-bind (or_overflow (checked_sub r.remaining_capacity grant)) _
              (Returns-difference r.remaining_capacity grant _)
              (λ c left.
                Returns-skip (or_overflow (checked_add u64_max es.neutral_granted_total grant)) _
                  (λ d. Returns-ok _ (refl, omega (arith, left), omega (arith, sum, top), top))))))
  | inr nothing ↦
      rw nothing (Returns-ok _ (refl, ground (arith, nothing), ground (arith, nothing, fits), fits))
]

-- A record's visit is its slot's.
abbrev pub Refined : NeutralRound → ValidatorRecord → NeutralRound × ValidatorRecord → Type 0
Refined round r (round', r') =
    ((round', slot_of r') ≡ visit round (slot_of r)) × (r'.final_target ≤ u64_max)

visit_idle : (round : NeutralRound) (s : Slot) → s.capacity ≡ 0 → (round, s) ≡ visit round s
unfolding visit
visit_idle round s e = let full : (s.capacity == 0) ≡ true = ground (arith, e) in rw full refl

visit_open :
    (round : NeutralRound) (s : Slot)
    → 0 < s.capacity
    → (
      (step round s.capacity).0,
      record {
        capacity = s.capacity - (step round s.capacity).1;
        target = saturating_add u64_max s.target (step round s.capacity).1;
      },
    )
      ≡ visit round s
unfolding visit
visit_open round s h = let free : (s.capacity == 0) ≡ false = ground arith in rw free refl

step_le : (round : NeutralRound) (capacity : ℕ) → (step round capacity).1 ≤ capacity
unfolding step grant_to is_complete
step_le round capacity = elim (Bool-cases (leb round.n_unsaturated round.steps)) [
  | inl over ↦ rw over (omega arith)
  | inr more ↦ rw more (omega arith)
]

-- The slot of a record of a known status.
slot_lem :
    (r : ValidatorRecord) (status : ValidatorStatus)
    → from_u8 r.status ≡ some status
    → slot_of r ≡ record {
      capacity = if is_active status then r.remaining_capacity else 0;
      target = r.final_target;
    }
slot_lem r status e = simp e refl

member_lem :
    (active : Bool) (r : ValidatorRecord)
    → (active && ltb 0 r.remaining_capacity) ≡ true
    → (active ≡ true) × (0 < r.remaining_capacity)
member_lem true r e = (refl, ground (arith, e))
member_lem false r e = cc e

abbrev slot : ℕ → ℕ → Slot
slot capacity target = record { capacity = capacity; target = target }

slot_active :
    (r : ValidatorRecord) (status : ValidatorStatus)
    → from_u8 r.status ≡ some status
    → is_active status ≡ true
    → slot_of r ≡ slot r.remaining_capacity r.final_target
slot_active r status e act =
    slot_lem r status e ∙ ap (λ b. slot (if b then r.remaining_capacity else 0) r.final_target) act

granted_slot :
    (round : NeutralRound) (r r' : ValidatorRecord) (status : ValidatorStatus) (grant : ℕ)
    → from_u8 r'.status ≡ some status
    → from_u8 r.status ≡ some status
    → is_active status ≡ true
    → 0 < r.remaining_capacity
    → r'.remaining_capacity ≡ r.remaining_capacity - grant
    → r'.final_target ≡ saturating_add u64_max r.final_target grant
    → (step round r.remaining_capacity).1 ≡ grant
    → ((step round r.remaining_capacity).0, slot_of r') ≡ visit round (slot_of r)
granted_slot round r r' status grant e' e act pos left target g =
    let round' = (step round r.remaining_capacity).0 in
    let s = slot r.remaining_capacity r.final_target in
    let after : slot_of r'
        ≡ slot (r.remaining_capacity - grant) (saturating_add u64_max r.final_target grant) =
      slot_active r' status e' act
      ∙ (ap (λ c. slot c r'.final_target) left
          ∙ ap (λ x. slot (r.remaining_capacity - grant) x) target) in
    ap (λ x. (round', x)) after
    ∙ (ap (λ g. (round', slot (r.remaining_capacity - g) (saturating_add u64_max r.final_target g)))
          (sym g)
        ∙ (visit_open round s pos ∙ ap (visit round) (sym (slot_active r status e act))))

other_slot :
    (active : Bool) (r : ValidatorRecord)
    → (active && ltb 0 r.remaining_capacity) ≡ false
    → (if active then r.remaining_capacity else 0) ≡ 0
other_slot true r e = ground (arith, e)
other_slot false r e = refl

pub grant_member-Refined :
    (es : EpochState) (round : NeutralRound) (r : ValidatorRecord) (status : ValidatorStatus)
    → from_u8 r.status ≡ some status
    → r.final_target ≤ u64_max
    → Returns
        (λ (t : EpochState × NeutralRound × ValidatorRecord). Refined round r (t.1, t.2))
        (grant_member (is_active status && ltb 0 r.remaining_capacity) es round r)
unfolding grant_member
grant_member-Refined es round r status e fits =
    elim (Bool-cases (is_active status && ltb 0 r.remaining_capacity)) [
      | inr other ↦ rw other (
          Returns-ok _ (
            visit_idle round (slot_of r) (
                ap (λ (s : Slot). s.capacity) (slot_lem r status e)
                ∙ other_slot (is_active status) r other),
            fits,
          ))
      | inl member ↦ rw member (
          let grant = (step round r.remaining_capacity).1 in
          let (act, pos) = member_lem (is_active status) r member in
          Returns-bind (book_grant es r grant) _
            (book_grant-target es r grant (step_le round r.remaining_capacity) fits)
            (λ t (same, left, target, top). Returns-ok _ (
              granted_slot round r t.1 status grant (ap from_u8 same ∙ e) e act pos left target
                  refl,
              top,
            )))
    ]

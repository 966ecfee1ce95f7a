-- ===== src/Controller/Conservation/Round.antt =====
-- programs/fusion-stake-controller/src/instructions/plan_neutral_batch.rs: a round books what it grants.
use fusion_core.Prelude.{
  ℕ, ◌+◌, ◌-◌, ◌≡◌, ◌≤◌, ◌<◌, sym, ◌∙◌, ap, Bool, true, false, inl, inr, Bool-cases, ◌&&◌, some,
  some-injective, List, [], ◌∷◌, Returns, Returns-bind, Returns-skip, Returns-ok, ◌==◌, ltb, leb,
  if◌then◌else◌, checked_add, checked_sub, u64_max, arith,
}
use mathlib.Core.Path.{subst}
use fusion_core.Stake.Lifecycle.{from_u8}
use fusion_core.Stake.Preference.{Address}
use fusion_core.Stake.Targets.{NeutralRound, begin_round, step, is_complete, rotation_start}
use fusion_core.Stake.Targets.Round.{InRound, grant_to-InRound, grant_to_moves}
use fusion_core.Stake.Targets.Distribute.{
  opened, begin_round-some, begin_round-none, opened-InRound, either_zero,
}
use fusion_core.Prelude.Steps.{Returns-sum}
use fusion_core.Controller.Conservation.{Rounding}
use fusion_core.Controller.Error.{check, or_error, or_overflow, or_panic}
use fusion_core.Controller.Frame.{fold_cases}
use fusion_core.Controller.PlanNeutral.{
  book_grant, grant_member, is_active, visit_record, visit_records,
}
use fusion_core.Controller.Records.{Records, load}
use fusion_core.Controller.State.{
  EpochState, ValidatorRecord, neutral_round, set_neutral_round, fold_preferred_withdraw,
}

-- A step keeps the round, and grants what it adds to the round's grants.
step-InRound :
    (total n first : ℕ) (round : NeutralRound) (capacity : ℕ)
    → InRound total n first round
    → InRound total n first (step round capacity).0
      × ((step round capacity).0.granted ≡ round.granted + (step round capacity).1)
unfolding step is_complete
step-InRound total n first round capacity h =
    elim (Bool-cases (leb round.n_unsaturated round.steps)) [
      | inl over ↦ rw over (h, omega arith)
      | inr more ↦
          let lt : round.steps < n = ground (arith, h.n_unsaturated) in
          rw more (
            grant_to-InRound total n first round capacity h lt,
            (grant_to_moves total n first round capacity h lt).1,
          )
    ]

-- A round that is begun is one over all of what is left.
pub begun_lem :
    (left n epoch : ℕ) (round : NeutralRound)
    → left ≤ u64_max
    → n ≤ u64_max
    → begin_round left n epoch ≡ some round
    → InRound left n (rotation_start epoch n) round × (round.granted ≡ 0)
begun_lem left n epoch round hl hn e = elim (either_zero left n) [
  | inl idle ↦ let nothing = begin_round-none left n epoch idle in cc (nothing, e)
  | inr (pos, pos_n) ↦
      let begun = begin_round-some left n epoch pos pos_n in
      let same : opened left n epoch ≡ round = some-injective (sym begun ∙ e) in
      (
        subst (InRound left n (rotation_start epoch n)) same
            (opened-InRound left n epoch hl hn pos_n),
        ap (λ (r : NeutralRound). r.granted) (sym same),
      )
]

book_grant-Rounding :
    (es : EpochState) (r : ValidatorRecord) (round round' : NeutralRound) (grant : ℕ)
    (h : Rounding es round)
    → InRound h.total h.n h.first round'
    → round'.granted ≡ round.granted + grant
    → Returns (λ t. Rounding t.0 round') (book_grant es r grant)
unfolding book_grant
book_grant-Rounding es r round round' grant h in_round e = elim (Bool-cases (ltb 0 grant)) [
  | inl granted ↦ rw granted (
      Returns-skip (or_overflow (checked_add u64_max r.neutral_granted grant)) _ (λ a.
        Returns-skip (or_overflow (checked_add u64_max r.final_target grant)) _ (λ b.
          Returns-skip (or_overflow (checked_sub r.remaining_capacity grant)) _ (λ c.
            Returns-bind (or_overflow (checked_add u64_max es.neutral_granted_total grant)) _
              (Returns-sum u64_max es.neutral_granted_total grant _)
              (λ d (sum, _). Returns-ok _ (record {
                total = h.total;
                n = h.n;
                first = h.first;
                phase = h.phase;
                fits = h.fits;
                opened = h.opened;
                in_round = in_round;
                whole = omega (arith, h.whole, sum, e);
              }))))))
  | inr nothing ↦ rw nothing (
      Returns-ok _ (record {
        total = h.total;
        n = h.n;
        first = h.first;
        phase = h.phase;
        fits = h.fits;
        opened = h.opened;
        in_round = in_round;
        whole =
            let zero_grant : grant ≡ 0 = ground (arith, nothing) in
            omega (arith, h.whole, e, zero_grant);
      }))
]

grant_member-Rounding :
    (b : Bool) (es : EpochState) (round : NeutralRound) (r : ValidatorRecord)
    → Rounding es round
    → Returns (λ t. Rounding t.0 t.1) (grant_member b es round r)
unfolding grant_member
grant_member-Rounding false es round r h = Returns-ok _ h
grant_member-Rounding true es round r h =
    let (kept, added) = step-InRound h.total h.n h.first round r.remaining_capacity h.in_round in
    let round' = (step round r.remaining_capacity).0 in
    let grant = (step round r.remaining_capacity).1 in
    Returns-bind (book_grant es r grant) _
      (book_grant-Rounding es r round round' grant h kept added) (λ t k. Returns-ok _ k)

-- Changes of what the plan's sums do not read.
folded-Rounding :
    {es : EpochState} {round : NeutralRound} (s : ℕ) (v : Address) (next : ℕ)
    → Rounding es round
    → Rounding
        (record es {
          preferred_withdraw_surplus = s;
          preferred_withdraw_vote = v;
          neutral_cursor = next;
        })
        round
folded-Rounding s v next h = record {
  total = h.total;
  n = h.n;
  first = h.first;
  phase = h.phase;
  fits = h.fits;
  opened = h.opened;
  in_round = h.in_round;
  whole = h.whole;
}

visit_record-Rounding :
    (s : EpochState × NeutralRound × Records) (k : Address × Bool)
    → Rounding s.0 s.1
    → Returns (λ t. Rounding t.0 t.1) (visit_record s k)
unfolding visit_record
visit_record-Rounding (es, round, records) (key, writable) h =
    Returns-skip (check writable _) _ (λ _. Returns-skip (load records key) _ (λ r.
      Returns-skip
        (check (r.plan_epoch == es.controller_epoch && r.validator_list_index == es.neutral_cursor)
          _)
        _
        (λ _. Returns-skip (or_error (from_u8 r.status) _) _ (λ status.
          let member = is_active status && ltb 0 r.remaining_capacity in
          Returns-bind (grant_member member es round r) _
            (grant_member-Rounding member es round r h)
            (λ t k.
              let es1 = t.0 in
              let r' = t.2 in
              let (s, v, e) =
                fold_cases (r'.pool_entry_status == 0) es1 r'.vote_account
                  (r'.last_active_lamports - r'.final_target) in
              Returns-skip
                (or_panic (
                  checked_add u64_max
                    (if r'.pool_entry_status == 0
                      then fold_preferred_withdraw es1 r'.vote_account
                          (r'.last_active_lamports - r'.final_target)
                      else es1).neutral_cursor
                    1))
                _ (λ next. Returns-ok _ (rw e (folded-Rounding s v next k))))))))

pub visit_records-Rounding :
    (s : EpochState × NeutralRound × Records) (ks : List (Address × Bool))
    → Rounding s.0 s.1
    → Returns (λ t. Rounding t.0 t.1) (visit_records s ks)
unfolding visit_records
visit_records-Rounding s [] h = Returns-ok _ h
visit_records-Rounding s (k ∷ ks) h =
    Returns-bind (visit_record s k) _ (visit_record-Rounding s k h)
      (λ t f. visit_records-Rounding t ks f)

-- The round that is written back is the one that is read.
pub saved-Rounding :
    (es : EpochState) (round : NeutralRound)
    → Rounding es round
    → Rounding (set_neutral_round es round) (neutral_round (set_neutral_round es round))
unfolding set_neutral_round neutral_round
saved-Rounding es round h = record {
  total = h.total;
  n = h.n;
  first = h.first;
  phase = h.phase;
  fits = h.fits;
  opened = h.opened;
  in_round = h.in_round;
  whole = h.whole;
}

pub saved-current :
    (es : EpochState) (round : NeutralRound)
    → Rounding es round
    → Rounding (set_neutral_round es round) round
unfolding set_neutral_round
saved-current es round h = record {
  total = h.total;
  n = h.n;
  first = h.first;
  phase = h.phase;
  fits = h.fits;
  opened = h.opened;
  in_round = h.in_round;
  whole = h.whole;
}

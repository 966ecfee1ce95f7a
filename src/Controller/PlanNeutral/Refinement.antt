-- ===== src/Controller/PlanNeutral/Refinement.antt =====
-- programs/fusion-stake-controller/src/instructions/plan_neutral_batch.rs against `distribute_neutral` of
-- crates/fusion-stake-math/src/targets.rs: a batch over the records is a part of a pass over the slots.
use fusion_core.Prelude.{
  ◌-◌, ◌≡◌, ◌≤◌, refl, sym, ◌∙◌, ap, Bool, true, false, inl, inr, Bool-cases, ◌&&◌, some,
  some-injective, List, [], ◌∷◌, map, All, ok, Returns, Returns-bind, Returns-skip, Returns-ok,
  ◌==◌, ltb, if◌then◌else◌, checked_add, u64_max, arith,
}
use mathlib.Core.Path.{subst}
use fusion_core.Prelude.Steps.{Returns-map, Returns-some}
use fusion_core.Stake.Lifecycle.{from_u8}
use fusion_core.Stake.Preference.{Address, same_bytes}
use fusion_core.Stake.Targets.{NeutralRound, Slot, visit, pass}
use fusion_core.Controller.Error.{check, or_error, or_panic}
use fusion_core.Controller.PlanNeutral.{grant_member, is_active, visit_record, visit_records}
use fusion_core.Controller.Records.{Records, put, load}
use fusion_core.Controller.State.{EpochState, ValidatorRecord, fold_preferred_withdraw}
use fusion_core.Controller.PlanNeutral.Slots.{
  slot_of, slot_at, slots, Refined, grant_member-Refined,
}

AllFit : Records → Type 0
AllFit records = (k : Address) (r : ValidatorRecord) → records k ≡ some r → r.final_target ≤ u64_max

-- What a visit does to the store.
record Stored (records : Records) (round : NeutralRound) (key : Address)
    (t : EpochState × NeutralRound × Records) : Type 0 where
  before : ValidatorRecord
  after : ValidatorRecord
  found : records key ≡ some before
  written : t.2 ≡ put records key after
  refined : Refined round before (t.1, after)

visit_record-Stored :
    (es : EpochState) (round : NeutralRound) (records : Records) (key : Address) (b : Bool)
    → AllFit records
    → Returns (Stored records round key) (visit_record (es, round, records) (key, b))
unfolding visit_record AllFit
visit_record-Stored es round records key b fits = Returns-skip (check b _) _ (λ _.
    Returns-bind (load records key) _ (Returns-some (records key) _) (λ r loaded.
      Returns-skip
        (check (r.plan_epoch == es.controller_epoch && r.validator_list_index == es.neutral_cursor)
          _)
        _
        (λ _.
          Returns-bind (or_error (from_u8 r.status) _) _ (Returns-some (from_u8 r.status) _)
            (λ status e.
              let member = is_active status && ltb 0 r.remaining_capacity in
              Returns-bind (grant_member member es round r) _
                (grant_member-Refined es round r status e (fits key r loaded))
                (λ t refined.
                  Returns-skip
                    (or_panic (
                      checked_add u64_max
                        (if t.2.pool_entry_status == 0
                          then fold_preferred_withdraw t.0 t.2.vote_account
                              (t.2.last_active_lamports - t.2.final_target)
                          else t.0).neutral_cursor
                        1))
                    _
                    (λ next. Returns-ok _ (record {
                      before = r;
                      after = t.2;
                      found = loaded;
                      written = refl;
                      refined = refined;
                    })))))))

same_bytes_refl : (xs : Address) → same_bytes xs xs ≡ true
unfolding same_bytes
same_bytes_refl [] = refl
same_bytes_refl (x ∷ xs) = let e : (x == x) ≡ true = ground arith in rw e (same_bytes_refl xs)

put_self : (records : Records) (k : Address) (r : ValidatorRecord) → put records k r k ≡ some r
unfolding put
put_self records k r = rw (same_bytes_refl k) refl

put_other :
    (records : Records) (k q : Address) (r : ValidatorRecord)
    → same_bytes q k ≡ false
    → put records k r q ≡ records q
unfolding put
put_other records k q r e = rw e refl

put-AllFit :
    (records : Records) (k : Address) (r : ValidatorRecord)
    → AllFit records
    → r.final_target ≤ u64_max
    → AllFit (put records k r)
unfolding put AllFit
put-AllFit records k r fits le q r' e = elim (Bool-cases (same_bytes q k)) [
  | inl same ↦
      let e' : r ≡ r' =
        some-injective (subst (λ b. (if b then some r else records q) ≡ some r') same e) in
      subst (λ (x : ValidatorRecord). x.final_target ≤ u64_max) e' le
  | inr other ↦ fits q r' (subst (λ b. (if b then some r else records q) ≡ some r') other e)
]

-- No two of the keys are the same.
abbrev pub AreDistinct : List Address → Type 0
AreDistinct [] = Unit {0}
AreDistinct (k ∷ ks) =
    All (λ q. (same_bytes q k ≡ false) × (same_bytes k q ≡ false)) ks × AreDistinct ks

abbrev pub keys : List (Address × Bool) → List Address
keys ks = map (λ k. k.0) ks

slots-put :
    (records : Records) (k : Address) (r : ValidatorRecord) (ks : List Address)
    → All (λ q. (same_bytes q k ≡ false) × (same_bytes k q ≡ false)) ks
    → slots (put records k r) ks ≡ slots records ks
slots-put records k r [] h = refl
slots-put records k r (q ∷ ks) h =
    let e = ap slot_at (put_other records k q r h.0.0) in
    let e' = slots-put records k r ks h.1 in
    ap (λ s. s ∷ slots (put records k r) ks) e ∙ ap (λ ss. slot_at (records q) ∷ ss) e'

away :
    (k : Address) (ks : List Address)
    → All (λ q. (same_bytes q k ≡ false) × (same_bytes k q ≡ false)) ks
    → All (λ q. same_bytes k q ≡ false) ks
away k [] h = tt
away k (q ∷ ks) h = (h.0.1, away k ks h.1)

pass_cons :
    (round r1 r2 : NeutralRound) (s s' : Slot) (ss ss' : List Slot)
    → (r1, s') ≡ visit round s
    → pass r1 ss ≡ (r2, ss')
    → pass round (s ∷ ss) ≡ (r2, s' ∷ ss')
unfolding pass
pass_cons round r1 r2 s s' ss ss' e h = rw (← e, h) refl

-- A batch is a pass, and leaves the other records alone.
record Passed (records : Records) (round : NeutralRound) (ks : List Address)
    (t : EpochState × NeutralRound × Records) : Type 0 where
  passed : pass round (slots records ks) ≡ (t.1, slots t.2 ks)
  others : (q : Address) → All (λ k. same_bytes q k ≡ false) ks → t.2 q ≡ records q

visit_records-Passed :
    (ks : List (Address × Bool)) (es : EpochState) (round : NeutralRound) (records : Records)
    → AllFit records
    → AreDistinct (keys ks)
    → Returns (Passed records round (keys ks)) (visit_records (es, round, records) ks)
unfolding visit_records pass
visit_records-Passed [] es round records fits d =
    Returns-ok _ (record { passed = refl; others = λ q _. refl })
visit_records-Passed ((k, b) ∷ ks) es round records fits d =
    Returns-bind (visit_record (es, round, records) (k, b)) _
      (visit_record-Stored es round records k b fits)
      (λ t h.
        let all_fit : AllFit t.2 =
          subst AllFit (sym h.written) (put-AllFit records k h.after fits h.refined.1) in
        Returns-map (visit_records-Passed ks t.0 t.1 t.2 all_fit d.1) (λ u rest.
          let here : slot_at (u.2 k) ≡ slot_of h.after = ap slot_at (
            rest.others k (away k (keys ks) d.0)
            ∙ (ap (λ (f : Records). f k) h.written ∙ put_self records k h.after)) in
          let kept : slots t.2 (keys ks) ≡ slots records (keys ks) =
            ap (λ f. slots f (keys ks)) h.written ∙ slots-put records k h.after (keys ks) d.0 in
          let first : (t.1, slot_of h.after) ≡ visit round (slot_at (records k)) =
            h.refined.0 ∙ ap (λ o. visit round (slot_at o)) (sym h.found) in
          record {
            passed =
                pass_cons round t.1 u.1 _ _ _ _ first (ap (pass t.1) (sym kept) ∙ rest.passed)
                ∙ ap (λ s. (u.1, s ∷ slots u.2 (keys ks))) (sym here);
            others = λ q away_from.
                rest.others q away_from.1
                ∙ (ap (λ (f : Records). f q) h.written ∙ put_other records k q h.after away_from.0);
          }))

-- A batch of records that succeeds, of no record twice and with targets of 64 bits, does to the records
-- and the round what a pass of `distribute_neutral` does to the slots that the records stand for: an
-- active validator's remaining capacity and final target.
pub visit_records-pass :
    (ks : List (Address × Bool)) (es es' : EpochState) (round round' : NeutralRound)
    (records records' : Records)
    → ((k : Address) (r : ValidatorRecord) → records k ≡ some r → r.final_target ≤ u64_max)
    → AreDistinct (keys ks)
    → visit_records (es, round, records) ks ≡ ok (es', round', records')
    → pass round (slots records (keys ks)) ≡ (round', slots records' (keys ks))
unfolding AllFit
visit_records-pass ks es es' round round' records records' fits d e =
    ((visit_records-Passed ks es round records fits d).holds (es', round', records') e).passed

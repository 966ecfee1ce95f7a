-- ===== src/StakeView/VoteState/Total.antt =====
-- crates/fusion-stake-view/src/vote_state.rs: the loop over the epoch credits ends on any bytes.
use fusion_core.Prelude.{
  ℕ, zero, suc, ◌+◌, ◌-◌, ◌*◌, ◌≡◌, ◌≤◌, ◌<◌, refl, Bool, false, inl, inr, ◌⊎◌, Bool-cases,
  Option-cases, Option, some, List, Result, ok, err, Returns, Returns-bind, Returns-skip,
  Returns-ok, u64_max, checked_add, checked_mul, narrow-eq_some, ltb, arith,
}
use fusion_core.Prelude.Steps.{Returns-some}
use fusion_core.StakeView.VoteState.{
  VoteStateError, VoteSample, or_malformed, or_short, u64_at, ensure_within, entries_end,
  credits_at, scan_credits, credits_span, sample, finish, walk, parse,
}

Result-cases : {E A : Type 0} (m : Result E A) → ((e : E) × (m ≡ err e)) ⊎ ((a : A) × (m ≡ ok a))
Result-cases (err e) = inl (e, refl)
Result-cases (ok a) = inr (a, refl)

scan_credits-ends :
    (fuel k : ℕ) (xs : List ℕ) (epoch end entry : ℕ) (grew : Bool)
    → k < fuel
    → end ≤ entry + k * 24
    → (r : Result VoteStateError Bool) × (scan_credits fuel xs epoch end entry grew ≡ some r)
unfolding scan_credits
scan_credits-ends zero k xs epoch end entry grew enough far = absurd (omega arith)
scan_credits-ends (suc fuel) k xs epoch end entry grew enough far =
    elim (Bool-cases (ltb entry end)) [
      | inr over ↦ (ok grew, rw (over, scan_credits) refl)
      | inl more ↦ elim (Result-cases (credits_at xs epoch entry grew)) [
        | inl (e, failed) ↦ (err e, rw (more, scan_credits) (rw (failed, scan_credits) refl))
        | inr (grew', read) ↦ elim (Option-cases (checked_add u64_max entry 24)) [
          | inl wide ↦ (
            err VoteStateError.malformed,
            rw (more, scan_credits) (rw (read, scan_credits) (rw (wide, scan_credits) refl)),
          )
          | inr (next, sum) ↦
              let e = (narrow-eq_some u64_max (entry + 24) sum).0 in
              let (r, tail) =
                scan_credits-ends fuel (k - 1) xs epoch end next grew' (ground (arith, more, far))
                  (ground (arith, more, far, e)) in
              (r, rw (more, scan_credits) (rw (read, scan_credits) (rw (sum, scan_credits) tail)))
        ]
      ]
    ]

entries_end_lem :
    (xs : List ℕ) (cur count width : ℕ)
    → Returns (λ end. end ≡ cur + 8 + count * width) (entries_end xs cur count width)
unfolding entries_end
entries_end_lem xs cur count width =
    Returns-bind (or_malformed (checked_add u64_max cur 8)) _
      (Returns-some (checked_add u64_max cur 8) _)
      (λ first e1.
        Returns-bind (or_malformed (checked_mul u64_max count width)) _
          (Returns-some (checked_mul u64_max count width) _)
          (λ total e2.
            Returns-bind (or_malformed (checked_add u64_max first total)) _
              (Returns-some (checked_add u64_max first total) _)
              (λ end e3. Returns-skip (ensure_within xs end) _ (λ _.
                let s1 = (narrow-eq_some u64_max (cur + 8) e1).0 in
                let s2 = (narrow-eq_some u64_max (count * width) e2).0 in
                let s3 = (narrow-eq_some u64_max (first + total) e3).0 in
                Returns-ok _ (omega (arith, s1, s2, s3))))))

credits_span_lem :
    (xs : List ℕ) (cur : ℕ)
    → Returns (λ (t : ℕ × ℕ × ℕ). t.1 ≡ t.0 + t.2 * 24) (credits_span xs cur)
unfolding credits_span
credits_span_lem xs cur = Returns-skip (or_short (u64_at xs cur)) _ (λ count.
    Returns-bind (or_malformed (checked_add u64_max cur 8)) _
      (Returns-some (checked_add u64_max cur 8) _)
      (λ first e1.
        Returns-bind (entries_end xs cur count 24) _ (entries_end_lem xs cur count 24) (λ end e.
          let s1 = (narrow-eq_some u64_max (cur + 8) e1).0 in Returns-ok _ (omega (arith, s1, e)))))

finish-ends :
    (xs : List ℕ) (epoch commission : ℕ) (last_slot : Option ℕ) (cur : ℕ)
    → (r : Result VoteStateError VoteSample) × (finish xs epoch commission last_slot cur ≡ some r)
unfolding finish
finish-ends xs epoch commission last_slot cur = elim (Result-cases (credits_span xs cur)) [
  | inl (e, failed) ↦ (err e, rw (failed, finish) refl)
  | inr ((first, end, count), span) ↦
      let far = (credits_span_lem xs cur).holds (first, end, count) span in
      let (r, scanned) =
        scan_credits-ends (suc count) count xs epoch end first false (omega arith)
          (omega (arith, far)) in
      (sample xs commission last_slot end r, rw (span, finish) (rw (scanned, finish) refl))
]

-- The parser of vote accounts ends on any bytes and for any epoch, with a sample or with an error.
pub parse-ends :
    (xs : List ℕ) (epoch : ℕ) → (r : Result VoteStateError VoteSample) × (parse xs epoch ≡ some r)
unfolding parse
parse-ends xs epoch = elim (Result-cases (walk xs)) [
  | inl (e, failed) ↦ (err e, rw (failed, parse) refl)
  | inr ((commission, last_slot, credits), walked) ↦
      let (r, e) = finish-ends xs epoch commission last_slot credits in (r, rw (walked, parse) e)
]

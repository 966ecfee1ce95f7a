-- ===== src/StakeView/VoteState/Credits.antt =====
-- The loop over the epoch credits in crates/fusion-stake-view/src/vote_state.rs.
use fusion_core.Prelude.{
  ℕ, suc, ◌+◌, ◌*◌, ◌≡◌, ◌≤◌, refl, Bool, true, false, inl, inr, Bool-cases, some, ok, List, [],
  ◌∷◌, ◌++◌, length, All, u64_max, if◌then◌else◌, arith, ltb, ◌==◌, narrow_fits,
}
use fusion_core.StakeView.Bytes.Layout.{to_le, length-to_le}
use fusion_core.StakeView.Bytes.Cursor.{At, At-skip, u64_le-At}
use fusion_core.StakeView.VoteState.{credits_at, scan_credits, u64_at}
use fusion_core.StakeView.VoteState.Account.{Credits, credits_chunks, CreditsFit, flat, grew}

credits_at-entry :
    (xs : List ℕ) (epoch off : ℕ) (before : Bool) (c : Credits) (rest : List (List ℕ))
    → At xs off (credits_chunks c ++ rest)
    → CreditsFit c
    → length xs ≤ u64_max
    → credits_at xs epoch off before
      ≡ ok (if c.epoch == epoch then ltb c.prev_credits c.credits else before)
unfolding credits_at u64_at
credits_at-entry xs epoch off before c rest h (e_fits, c_fits, p_fits) long =
    let w0 = length-to_le 8 c.epoch in
    let w1 = length-to_le 8 c.credits in
    let h1 : At xs (off + 8) (to_le 8 c.credits ∷ to_le 8 c.prev_credits ∷ rest) =
      At-skip (to_le 8 c.epoch ∷ []) _ (off + 8) h (omega (arith, w0)) in
    let h2 : At xs (off + 16) (to_le 8 c.prev_credits ∷ rest) =
      At-skip (to_le 8 c.credits ∷ []) _ (off + 16) h1 (omega (arith, w1)) in
    let first = u64_le-At c.epoch _ h e_fits long in
    elim (Bool-cases (c.epoch == epoch)) [
      | inl same ↦
          rw
            (
              first,
              same,
              narrow_fits u64_max (off + 8) (omega (arith, h1.inside)),
              u64_le-At c.credits _ h1 c_fits long,
              narrow_fits u64_max (off + 16) (omega (arith, h2.inside)),
              u64_le-At c.prev_credits _ h2 p_fits long,
            )
            refl
      | inr other ↦ rw (first, other) refl
    ]

pub scan_credits-entries :
    (cs : List Credits) (xs : List ℕ) (epoch off end : ℕ) (before : Bool) (rest : List (List ℕ))
    → At xs off (flat credits_chunks cs ++ rest)
    → All CreditsFit cs
    → length xs ≤ u64_max
    → off + length cs * 24 ≡ end
    → scan_credits (suc (length cs)) xs epoch end off before ≡ some (ok (grew epoch cs before))
unfolding scan_credits
scan_credits-entries [] xs epoch off end before rest h fits long e =
    let done : ltb off end ≡ false = ground arith in rw (done, scan_credits) refl
scan_credits-entries (c ∷ cs) xs epoch off end before rest h fits long e =
    let more : ltb off end ≡ true = ground arith in
    let w0 = length-to_le 8 c.epoch in
    let w1 = length-to_le 8 c.credits in
    let w2 = length-to_le 8 c.prev_credits in
    let next : At xs (off + 24) (flat credits_chunks cs ++ rest) =
      At-skip (credits_chunks c) _ (off + 24) h (omega (arith, w0, w1, w2)) in
    rw (more, scan_credits)
      (rw (credits_at-entry xs epoch off before c _ h fits.0 long, scan_credits)
        (rw (narrow_fits u64_max (off + 24) (omega (arith, next.inside)), scan_credits)
          (scan_credits-entries cs xs epoch (off + 24) end _ rest next fits.1 long
            (omega (arith, e)))))

-- ===== src/StakeView/VoteState/Fields.antt =====
-- The steps of the walk in crates/fusion-stake-view/src/vote_state.rs over a vote account that is
-- laid out as documented.
use fusion_core.Prelude.{
  ℕ, ◌+◌, ◌-◌, ◌*◌, ◌≡◌, ◌≤◌, refl, ap, Bool, true, false, Option, none, some, ok, List, [], ◌∷◌,
  ◌++◌, length, u64_max, if◌then◌else◌, arith, ltb, leb, narrow_fits, checked_sub,
}
use mathlib.Core.Path.{subst}
use mathlib.Core.List.{append_assoc}
use fusion_core.StakeView.Bytes.Layout.{to_le, length-to_le, size}
use fusion_core.StakeView.Bytes.Cursor.{At, At-skip, u64_le-At, u32_le-At, u8_at-At}
use fusion_core.StakeView.VoteState.{
  ensure_within, entries_end, skip_counted, version, last_vote_slot, skip_root, u64_at,
}
use fusion_core.StakeView.VoteState.Account.{
  Vote, Tower, empty, tower, vote_chunks, flat, tower_count, tower_chunks, root_chunks, tag,
  TowerFits, latest_slot, vote_width, size-votes,
}

-- Where the cursor is after the root slot.
abbrev pub after_root : Option ℕ → ℕ → ℕ
after_root none off = off + 1
after_root (some slot) off = off + 9

pub ensure_within-ok : (xs : List ℕ) (end : ℕ) → end ≤ length xs → ensure_within xs end ≡ ok tt
unfolding ensure_within
ensure_within-ok xs end h = let within : leb end (length xs) ≡ true = ground arith in rw within refl

checked_sub-exact : (end width off : ℕ) → off + width ≡ end → checked_sub end width ≡ some off
checked_sub-exact end width off e =
    let fits : leb width end ≡ true = ground arith in
    rw fits (ap some {x = end - width} {y = off} (omega arith))

module _ {xs : List ℕ} (long : length xs ≤ u64_max) where
  pub version-At :
      (v3 : Bool) (rest : List (List ℕ)) → At xs 0 (to_le 4 (tag v3) ∷ rest) → version xs ≡ ok v3
  unfolding version
  version-At true rest h = rw (u32_le-At 2 rest h (omega arith) long) refl
  version-At false rest h = rw (u32_le-At 1 rest h (omega arith) long) refl

  -- Counted entries: the end that the code computes, and the cursor there.
  pub entries_end-At :
      (n width off : ℕ) (entries rest : List (List ℕ))
      → At xs off (to_le 8 n ∷ (entries ++ rest))
      → size entries ≡ n * width
      → (entries_end xs off n width ≡ ok (off + 8 + n * width)) × At xs (off + 8 + n * width) rest
  unfolding entries_end
  entries_end-At n width off entries rest h wide =
      let w = length-to_le 8 n in
      let h1 : At xs (off + 8) (entries ++ rest) =
        At-skip (to_le 8 n ∷ []) (entries ++ rest) (off + 8) h (omega (arith, w)) in
      let h2 : At xs (off + 8 + n * width) rest =
        At-skip entries rest (off + 8 + n * width) h1 (omega (arith, wide)) in
      (
        rw
            (
              narrow_fits u64_max (off + 8) (omega (arith, h1.inside)),
              narrow_fits u64_max (n * width) (omega (arith, h2.inside)),
              narrow_fits u64_max (off + 8 + n * width) (omega (arith, h2.inside)),
              ensure_within-ok xs (off + 8 + n * width) (omega (arith, h2.inside)),
            )
            refl,
        h2,
      )

  pub skip_counted-At :
      (n width off : ℕ) (entries rest : List (List ℕ))
      → At xs off (to_le 8 n ∷ (entries ++ rest))
      → size entries ≡ n * width
      → n ≤ u64_max
      → skip_counted xs off width ≡ ok (off + 8 + n * width)
  unfolding skip_counted u64_at
  skip_counted-At n width off entries rest h wide small =
      rw (u64_le-At n (entries ++ rest) h small long)
        (entries_end-At n width off entries rest h wide).0

  pub skip_root-At :
      (root : Option ℕ) (off : ℕ) (rest : List (List ℕ))
      → At xs off (root_chunks root ++ rest)
      → (skip_root xs off ≡ ok (after_root root off)) × At xs (after_root root off) rest
  unfolding skip_root
  skip_root-At none off rest h =
      let h1 : At xs (off + 1) rest = At-skip ((0 ∷ []) ∷ []) rest (off + 1) h (omega arith) in
      (rw (u8_at-At 0 rest h, narrow_fits u64_max (off + 1) (omega (arith, h1.inside))) refl, h1)
  skip_root-At (some slot) off rest h =
      let w = length-to_le 8 slot in
      let h1 : At xs (off + 9) rest =
        At-skip ((1 ∷ []) ∷ to_le 8 slot ∷ []) rest (off + 9) h (omega (arith, w)) in
      (
        rw
            (
              u8_at-At 1 (to_le 8 slot ∷ rest) h,
              narrow_fits u64_max (off + 1) (omega (arith, h1.inside)),
              narrow_fits u64_max (off + 1 + 8) (omega (arith, h1.inside)),
              ensure_within-ok xs (off + 1 + 8) (omega (arith, h1.inside)),
            )
            (ap ok {x = off + 1 + 8} {y = off + 9} (omega arith)),
        h1,
      )

  -- The slot in the latest vote's chunks.
  slot-At :
      (v3 : Bool) (v : Vote) (off : ℕ) (rest : List (List ℕ))
      → At xs off (vote_chunks v3 v ++ rest)
      → v.slot ≤ u64_max
      → u64_at xs (off + (if v3 then 1 else 0)) ≡ some v.slot
  unfolding u64_at
  slot-At true v off rest h fits =
      u64_le-At v.slot (to_le 4 v.confirmations ∷ rest)
        (At-skip ((v.latency ∷ []) ∷ []) _ (off + 1) h (omega arith)) fits long
  slot-At false v off rest h fits =
      u64_le-At v.slot (to_le 4 v.confirmations ∷ rest) (At-skip [] _ (off + 0) h (omega arith))
        fits long

  -- The slot of the last vote, from the number and the end of the votes.
  latest-At :
      (v3 : Bool) (v : Vote) (n off end : ℕ) (rest : List (List ℕ))
      → At xs off (vote_chunks v3 v ++ rest)
      → v.slot ≤ u64_max
      → off + vote_width v3 ≡ end
      → last_vote_slot xs v3 (n + 1) end ≡ ok (some v.slot)
  unfolding last_vote_slot
  latest-At true v n off end rest h fits e =
      let some_vote : ltb 0 (n + 1) ≡ true = ground arith in
      let w = length-to_le 8 v.slot in
      rw
        (
          some_vote,
          checked_sub-exact end 13 off (omega (arith, e)),
          narrow_fits u64_max (off + 1) (omega (arith, h.inside, w)),
          slot-At true v off rest h fits,
        )
        refl
  latest-At false v n off end rest h fits e =
      let some_vote : ltb 0 (n + 1) ≡ true = ground arith in
      let w = length-to_le 8 v.slot in
      rw
        (
          some_vote,
          checked_sub-exact end 12 off (omega (arith, e)),
          narrow_fits u64_max (off + 0) (omega (arith, h.inside, w)),
          slot-At false v off rest h fits,
        )
        refl

  pub last_vote_slot-At :
      (v3 : Bool) (t : Tower) (off : ℕ) (rest : List (List ℕ))
      → At xs off (tower_chunks v3 t ++ rest)
      → TowerFits t
      → last_vote_slot xs v3 (tower_count t) (off + tower_count t * vote_width v3)
        ≡ ok (latest_slot t)
  unfolding last_vote_slot
  last_vote_slot-At v3 empty off rest h fits = refl
  last_vote_slot-At v3 (tower earlier latest) off rest h fits =
      let h0 : At xs off (flat (vote_chunks v3) earlier ++ (vote_chunks v3 latest ++ rest)) =
        subst (At xs off)
          (append_assoc (flat (vote_chunks v3) earlier) (vote_chunks v3 latest) rest) h in
      let h1 : At xs (off + length earlier * vote_width v3) (vote_chunks v3 latest ++ rest) =
        At-skip (flat (vote_chunks v3) earlier) _ _ h0
          (ap (λ n. off + n) (size-votes v3 earlier)) in
      latest-At v3 latest (length earlier) _ _ rest h1 fits (omega arith)

-- ===== src/StakeView/VoteState/RoundTrip.antt =====
-- crates/fusion-stake-view/src/vote_state.rs over a vote account that is laid out as documented.
use fusion_core.Prelude.{
  ℕ, ◌+◌, ◌*◌, ◌≡◌, ◌≤◌, refl, Bool, true, false, some, ok, List, [], ◌∷◌, ◌++◌, length, u64_max,
  arith, narrow_fits,
}
use fusion_core.StakeView.Bytes.Layout.{to_le, length-to_le, concat}
use fusion_core.StakeView.Bytes.Cursor.{At, At-start, At-skip, u64_le-At, u8_at-At}
use fusion_core.StakeView.VoteState.{
  entries_end, u64_at, walk, finish, parse, sample, credits_span, last_timestamp, freshness,
}
use fusion_core.StakeView.VoteState.Account.{
  VoteAccount, IsAccount, serialize, chunks, from_votes, from_voters, from_credits,
  timestamp_chunks, voter_chunks, credits_chunks, root_chunks, flat, tower_count, tower_chunks, tag,
  grew, latest_slot, vote_width, size-voters, size-credits, size-tower,
}
use fusion_core.StakeView.VoteState.Credits.{scan_credits-entries}
use fusion_core.StakeView.VoteState.Fields.{
  ensure_within-ok, after_root, version-At, entries_end-At, skip_counted-At, skip_root-At,
  last_vote_slot-At,
}

count-le : (v3 : Bool) (n top : ℕ) → n * vote_width v3 ≤ top → n ≤ top
count-le true n top h = omega (arith, h)
count-le false n top h = omega (arith, h)

module _ (v3 : Bool) (a : VoteAccount) (h : IsAccount a) (xs : List ℕ)
    (long : length xs ≤ u64_max) where
  votes_end : ℕ
  votes_end = 69 + 8 + tower_count a.votes * vote_width v3

  voters_end : ℕ
  voters_end = after_root a.root votes_end + 8 + length a.voters * 40

  pub credits_start : ℕ
  credits_start = voters_end + 1545

  pub walk-At :
      At xs 0 (chunks v3 a)
      → (walk xs ≡ ok (a.commission, latest_slot a.votes, credits_start))
        × At xs credits_start (from_credits a)
  unfolding walk u64_at votes_end voters_end credits_start
  walk-At start =
      let w = length-to_le 4 (tag v3) in
      let at_commission : At xs 68 ((a.commission ∷ []) ∷ from_votes v3 a) =
        At-skip (to_le 4 (tag v3) ∷ a.node ∷ a.withdrawer ∷ []) _ 68 start
          (omega (arith, w, h.node_wide, h.withdrawer_wide)) in
      let at_votes : At xs 69 (from_votes v3 a) =
        At-skip ((a.commission ∷ []) ∷ []) _ 69 at_commission (omega arith) in
      let votes =
        entries_end-At long (tower_count a.votes) (vote_width v3) 69 (tower_chunks v3 a.votes)
          (root_chunks a.root ++ from_voters a) at_votes (size-tower v3 a.votes) in
      let votes_at : At xs (69 + 8)
          (tower_chunks v3 a.votes ++ (root_chunks a.root ++ from_voters a)) =
        At-skip (to_le 8 (tower_count a.votes) ∷ []) _ (69 + 8) at_votes
          (omega (arith, length-to_le 8 (tower_count a.votes))) in
      let root = skip_root-At long a.root votes_end (from_voters a) votes.1 in
      let voters =
        entries_end-At long (length a.voters) 40 (after_root a.root votes_end)
          (flat voter_chunks a.voters) (a.prior_voters ∷ from_credits a) root.1
          (size-voters a.voters h.keys_wide) in
      let credits : At xs credits_start (from_credits a) =
        At-skip (a.prior_voters ∷ []) _ credits_start voters.1 (omega (arith, h.prior_wide)) in
      let count_fits = count-le v3 (tower_count a.votes) u64_max (omega (arith, votes.1.inside)) in
      let voters_fit : length a.voters ≤ u64_max = omega (arith, voters.1.inside) in
      (
        rw
            (
              version-At long v3 _ start,
              u8_at-At a.commission _ at_commission,
              u64_le-At (tower_count a.votes) _ at_votes count_fits long,
              votes.0,
              last_vote_slot-At long v3 a.votes (69 + 8) _ votes_at h.votes_fit,
              root.0,
              skip_counted-At long (length a.voters) 40 _ _ _ root.1
                  (size-voters a.voters h.keys_wide) voters_fit,
              narrow_fits u64_max credits_start (omega (arith, credits.inside)),
              ensure_within-ok xs credits_start (omega (arith, credits.inside)),
            )
            refl,
        credits,
      )

  credits_span-At :
      (n start end : ℕ) (rest : List (List ℕ))
      → At xs start (to_le 8 n ∷ rest)
      → n ≤ u64_max
      → start + 8 ≤ u64_max
      → entries_end xs start n 24 ≡ ok end
      → credits_span xs start ≡ ok (start + 8, end, n)
  unfolding credits_span u64_at
  credits_span-At n start end rest at n_fits fits e =
      rw (u64_le-At n rest at n_fits long, narrow_fits u64_max (start + 8) fits, e) refl

  last_timestamp-At :
      (end slot : ℕ) (rest : List (List ℕ))
      → At xs end (to_le 8 slot ∷ rest)
      → slot ≤ u64_max
      → end + 16 ≤ length xs
      → last_timestamp xs end ≡ ok slot
  unfolding last_timestamp u64_at
  last_timestamp-At end slot rest at slot_fits inside =
      rw
        (
          u64_le-At slot rest at slot_fits long,
          narrow_fits u64_max (end + 16) (omega (arith, inside, long)),
          ensure_within-ok xs (end + 16) inside,
        )
        refl

  -- From the epoch credits on.
  finish-At :
      (epoch start : ℕ)
      → At xs start (from_credits a)
      → finish xs epoch a.commission (latest_slot a.votes) start
        ≡ some (
            ok (record {
              commission = a.commission;
              prior_epoch_credit_growth = grew epoch a.epoch_credits false;
              freshness_slot = freshness (latest_slot a.votes) a.timestamp_slot;
            }))
  unfolding finish sample
  finish-At epoch start at =
      let n = length a.epoch_credits in
      let w = length-to_le 8 n in
      let first : At xs (start + 8) (flat credits_chunks a.epoch_credits ++ timestamp_chunks a) =
        At-skip (to_le 8 n ∷ []) _ (start + 8) at (omega (arith, w)) in
      let entries =
        entries_end-At long n 24 start (flat credits_chunks a.epoch_credits) (timestamp_chunks a) at
          (size-credits a.epoch_credits) in
      let last : At xs (start + 8 + n * 24 + 16) (a.padding ∷ []) =
        At-skip (to_le 8 a.timestamp_slot ∷ to_le 8 a.timestamp ∷ []) _ _ entries.1
          (omega (arith, length-to_le 8 a.timestamp_slot, length-to_le 8 a.timestamp)) in
      let span : credits_span xs start ≡ ok (start + 8, start + 8 + n * 24, n) =
        credits_span-At n start (start + 8 + n * 24) _ at (omega (arith, entries.1.inside))
          (omega (arith, first.inside)) entries.0 in
      let scanned =
        scan_credits-entries a.epoch_credits xs epoch (start + 8) (start + 8 + n * 24) false _ first
          h.credits_fit long (omega arith) in
      let stamped : last_timestamp xs (start + 8 + n * 24) ≡ ok a.timestamp_slot =
        last_timestamp-At (start + 8 + n * 24) a.timestamp_slot _ entries.1 h.timestamp_fits
          (omega (arith, last.inside)) in
      rw (span, finish) (rw (scanned, finish) (rw stamped refl))

-- The walk over the bytes of a vote account of either version ends, and finds the commission, whether
-- the last entry of the given epoch earned credits, and the later of the latest vote and the last
-- timestamp.
pub parse-serialize_votes :
    (v3 : Bool) (a : VoteAccount) (epoch : ℕ)
    → IsAccount a
    → length (serialize v3 a) ≤ u64_max
    → parse (serialize v3 a) epoch
      ≡ some (
          ok (record {
            commission = a.commission;
            prior_epoch_credit_growth = grew epoch a.epoch_credits false;
            freshness_slot = freshness (latest_slot a.votes) a.timestamp_slot;
          }))
unfolding parse serialize
parse-serialize_votes v3 a epoch h long =
    let walked = walk-At v3 a h (concat (chunks v3 a)) long (At-start (chunks v3 a)) in
    rw (walked.0, parse) (finish-At v3 a h (concat (chunks v3 a)) long epoch _ walked.1)

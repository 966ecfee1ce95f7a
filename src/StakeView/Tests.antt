-- ===== src/StakeView/Tests.antt =====
-- Inputs at which the theorems on crates/fusion-stake-view apply.
use fusion_core.Prelude.{
  ℕ, zero, suc, ◌≡◌, ◌≤◌, refl, true, false, some, ok, Result, List, [], ◌∷◌, length, u64_max,
  arith,
}
use fusion_core.StakeView.Bytes.Layout.{to_le}
use fusion_core.StakeView.Position
use fusion_core.StakeView.Position.RoundTrip.{PositionAccount, serialize, parse-serialize}
use fusion_core.StakeView.VoteState
use fusion_core.StakeView.VoteState.{VoteStateError, VoteSample, freshness}
use fusion_core.StakeView.VoteState.Account
use fusion_core.StakeView.VoteState.Account.{VoteAccount, Tower, tower, latest_slot, grew}
use fusion_core.StakeView.VoteState.RoundTrip.{parse-serialize_votes}
use fusion_core.StakeView.VoteState.Total.{parse-ends}

abbrev filled : ℕ → ℕ → List ℕ
filled x zero = []
filled x (suc n) = x ∷ filled x n

abbrev position : PositionAccount
position = record {
  owner = filled 7 32;
  collateral_mint = filled 9 32;
  ink = 5_000_000_000;
  recorded_debt = 300_000_000;
  user_rate_bps = 450;
  bump = 254;
  last_debt_update = 1_700_000_000;
  stake = 5_000_000_000;
  redist_l_coll_snapshot = 0;
  redist_l_art_snapshot = 0;
  reserve_lamports = 2_000_000;
  bucket = 18;
  coll_surplus = 0;
  last_rate_adjust_ts = 1_700_000_000;
  ink_nonce = 3;
  reserved = filled 0 24;
}

parse-serialize_example :
    Position.parse (serialize position)
    ≡ ok (record {
      owner = filled 7 32;
      collateral_mint = filled 9 32;
      ink = 5_000_000_000;
      ink_nonce = 3;
    })
parse-serialize_example = parse-serialize position (record {
  owner_wide = refl;
  mint_wide = refl;
  ink_fits = omega arith;
  nonce_fits = omega arith;
  reserved_wide = refl;
})

-- A validator that voted, and earned credits in the epochs 11 and 12.
abbrev votes : VoteAccount
votes = record {
  node = filled 1 32;
  withdrawer = filled 2 32;
  commission = 5;
  votes = tower [] (record { latency = 1; slot = 5_184_003; confirmations = 31 });
  root = some 5_183_971;
  voters = record { epoch = 12; key = filled 3 32 } ∷ [];
  prior_voters = filled 0 1545;
  epoch_credits =
      record { epoch = 11; credits = 900; prev_credits = 500 }
      ∷ record { epoch = 12; credits = 1000; prev_credits = 900 }
      ∷ [];
  timestamp_slot = 5_184_001;
  timestamp = 1_700_000_000;
  padding = filled 0 5;
}

prior_wide : length (filled 0 1545) ≡ 1545
prior_wide = refl

votes_size : length (Account.serialize true votes) ≤ u64_max
unfolding Account.serialize to_le
votes_size = omega arith

parse-serialize_votes_example :
    VoteState.parse (Account.serialize true votes) 12
    ≡ some (
        ok (record {
          commission = 5;
          prior_epoch_credit_growth = grew 12 votes.epoch_credits false;
          freshness_slot = freshness (latest_slot votes.votes) 5_184_001;
        }))
parse-serialize_votes_example =
    parse-serialize_votes true votes 12
      (record {
        node_wide = refl;
        withdrawer_wide = refl;
        votes_fit = omega arith;
        keys_wide = (refl, tt);
        prior_wide = prior_wide;
        credits_fit = (
          (omega arith, omega arith, omega arith),
          ((omega arith, omega arith, omega arith), tt),
        );
        timestamp_fits = omega arith;
      })
      votes_size

parse-ends_example :
    (r : Result VoteStateError VoteSample) × (VoteState.parse (2 ∷ 0 ∷ 0 ∷ 0 ∷ []) 12 ≡ some r)
parse-ends_example = parse-ends (2 ∷ 0 ∷ 0 ∷ 0 ∷ []) 12

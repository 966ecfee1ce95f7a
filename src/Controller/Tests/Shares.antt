-- ===== src/Controller/Tests/Shares.antt =====
-- Inputs at which the theorems on the preferences apply: a position of 5 SOL, whose owner directs it.
use fusion_core.Prelude.{◌≡◌, ◌<◌, refl, ok}
use fusion_core.Stake.Lifecycle.{from_u8, as_u8}
use fusion_core.Stake.Preference.{same_bytes, countable}
use fusion_core.StakeView.Bytes.{u8_at, read, u64_le, array32, slice}
use fusion_core.StakeView.Bytes.Layout.{to_le}
use fusion_core.StakeView.Position
use fusion_core.StakeView.Position.RoundTrip.{PositionAccount, serialize}
use fusion_core.Controller.Tests.{filled, idle, returned, vote, validator}
use fusion_core.Controller.State.{EpochState, ValidatorRecord, Preference}
use fusion_core.Controller.Preferences.{
  ControllerConfig, PositionInfo, read_position, read_fusol_position, check_directable,
  open_preference, set_preference, preference_view, position_view, add_shares, snapshot_preference,
}
use fusion_core.Controller.Preferences.Counting.{set, counted, counts_later, counts_once}

abbrev config : ControllerConfig
config = record { fusd_core_program = filled 50 32; fusol_collateral_mint = filled 9 32 }

abbrev position : PositionAccount
position = record {
  owner = filled 7 32;
  collateral_mint = filled 9 32;
  ink = 5_000_000_000;
  recorded_debt = 300_000_000;
  user_rate_bps = 450;
  bump = 254;
  last_debt_update = 1_700_000_000;
  stake = 5_000_000_000;
  redist_l_coll_snapshot = 0;
  redist_l_art_snapshot = 0;
  reserve_lamports = 2_000_000;
  bucket = 18;
  coll_surplus = 0;
  last_rate_adjust_ts = 1_700_000_000;
  ink_nonce = 3;
  reserved = filled 0 24;
}

abbrev info : PositionInfo
info = record { key = filled 51 32; owner = filled 50 32; bytes = serialize position }

abbrev unset : Preference
unset = record {
  version = 0;
  fusion_position = filled 0 32;
  owner = filled 0 32;
  vote_account = filled 0 32;
  observed_ink_nonce = 0;
  observed_ink = 0;
  eligible_from_epoch = 0;
  last_counted_epoch = 0;
  change_epoch = 0;
}

-- In the preference window of epoch 11.
abbrev counting : EpochState
counting = record idle {
  controller_epoch = 11;
  phase = 3;
  preference_window_close_slot = 4_752_500;
}

abbrev directs : Preference
directs = returned unset (set_preference config (filled 7 32) info vote validator 10 unset)

abbrev count : Preference × ValidatorRecord
count =
    returned (unset, validator)
      (snapshot_preference config counting 4_752_100 info (directs, validator))

sets : set_preference config (filled 7 32) info vote validator 10 unset ≡ ok directs
unfolding set_preference read_fusol_position read_position check_directable open_preference from_u8
    as_u8 same_bytes Position.parse serialize to_le u8_at read u64_le array32 slice
sets = refl

counts : snapshot_preference config counting 4_752_100 info (directs, validator) ≡ ok count
unfolding set_preference read_fusol_position read_position check_directable open_preference from_u8
    as_u8 same_bytes Position.parse serialize to_le u8_at read u64_le array32 slice
    snapshot_preference preference_view position_view add_shares countable
counts = refl

counts_later_example : 10 < 11
counts_later_example =
    counts_later config counting 4_752_100 info validator count
      (set unset config (filled 7 32) info vote validator 10 sets) counts

counts_once_example : ¬ (
    snapshot_preference config counting 4_752_200 info (count.0, count.1) ≡ ok (count.0, count.1))
counts_once_example =
    counts_once config counting 4_752_200 info count.1 (count.0, count.1)
      (counted directs validator count.1 config counting 4_752_100 info refl counts) refl

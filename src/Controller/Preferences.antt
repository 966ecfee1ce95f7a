-- ===== src/Controller/Preferences.antt =====
-- programs/fusion-stake-controller/src/instructions/set_preference.rs, sync_preference.rs,
-- snapshot_preference.rs and close_preference.rs: the direction of a position's shares. The checks that
-- Anchor makes of the accounts before a handler runs, and the events, are left out.
pub mod Counting
use fusion_core.Prelude.{
  ℕ, Bool, true, false, not, ◌&&◌, ◌||◌, Option, none, some, List, ltb, ◌==◌, if◌then◌else◌, Result,
  ok, err, ◌>>=◌, checked_add, u64_max, map_err,
}
use fusion_core.Stake.Lifecycle.{ValidatorStatus, draining, removable, from_u8}
use fusion_core.Stake.Preference.{Address, same_bytes, PreferenceView, PositionView, countable}
use fusion_core.StakeView.Position
use fusion_core.StakeView.Position.{PositionError}
use fusion_core.Controller.Error.{ControllerError, Abort, check, or_error, or_overflow}
use fusion_core.Controller.State.{EpochState, ValidatorRecord, Preference, phase_preferences}
use fusion_core.Controller.PlanDirected.{same_status}

-- The recorded addresses that the handlers compare.
pub record ControllerConfig : Type 0 where
  pub fusd_core_program : Address
  pub fusol_collateral_mint : Address

-- The account that is given as the position: its key, its owner and its bytes.
pub record PositionInfo : Type 0 where
  pub key : Address
  pub owner : Address
  pub bytes : List ℕ

unfoldable pub read_position : ControllerConfig → PositionInfo → Result Abort Position.PositionView
read_position config info =
    check (same_bytes info.owner config.fusd_core_program) ControllerError.invalid_position_account
    >>= λ _.
        map_err (λ _. Abort.error ControllerError.invalid_position_account)
          (Position.parse info.bytes)

-- With the check that the position is of the market of fuSOL.
unfoldable pub read_fusol_position :
    ControllerConfig → PositionInfo → Result Abort Position.PositionView
read_fusol_position config info = read_position config info >>= λ position.
    check (same_bytes position.collateral_mint config.fusol_collateral_mint)
      ControllerError.invalid_position_account
    >>= λ _. ok position

-- A validator that drains, or has drained, cannot be directed to.
unfoldable pub check_directable : ValidatorRecord → Result Abort (Unit {0})
check_directable r =
    or_error (from_u8 r.status) ControllerError.corrupt_validator_status >>= λ status.
    check (not (same_status status draining || same_status status removable))
      ControllerError.validator_not_eligible_for_preference

-- The record as far as it depends on whether the account is new.
unfoldable pub open_preference : PositionInfo → ℕ → Preference → Result Abort Preference
open_preference info epoch pref =
    if pref.version == 0
    then ok (record pref { version = 1; fusion_position = info.key })
    else check (not (pref.change_epoch == epoch)) ControllerError.preference_change_limit >>= λ _.
        ok pref

-- `owner` has signed, and `epoch` is that of the cluster.
unfoldable pub set_preference :
    ControllerConfig
    → Address
    → PositionInfo
    → Address
    → ValidatorRecord
    → ℕ
    → Preference
    → Result Abort Preference
set_preference config owner info vote r epoch pref = read_fusol_position config info >>= λ position.
    check (same_bytes position.owner owner) ControllerError.preference_owner_mismatch >>= λ _.
    check_directable r >>= λ _. open_preference info epoch pref >>= λ opened.
    or_overflow (checked_add u64_max epoch 1) >>= λ eligible. ok (record opened {
      owner = owner;
      vote_account = vote;
      observed_ink_nonce = position.ink_nonce;
      observed_ink = position.ink;
      eligible_from_epoch = eligible;
      change_epoch = epoch;
    })

unfoldable pub sync_preference :
    ControllerConfig → PositionInfo → ℕ → Preference → Result Abort Preference
sync_preference config info epoch pref = read_fusol_position config info >>= λ position.
    if position.ink_nonce == pref.observed_ink_nonce && same_bytes position.owner pref.owner
    then ok pref
    else or_overflow (checked_add u64_max epoch 1) >>= λ eligible. ok (record pref {
      owner = position.owner;
      observed_ink_nonce = position.ink_nonce;
      observed_ink = position.ink;
      eligible_from_epoch = eligible;
    })

unfoldable pub preference_view : Preference → PreferenceView
preference_view pref = record {
  owner = pref.owner;
  observed_ink_nonce = pref.observed_ink_nonce;
  eligible_from_epoch = pref.eligible_from_epoch;
  last_counted_epoch = pref.last_counted_epoch;
}

unfoldable pub position_view : Position.PositionView → PositionView
position_view position = record {
  owner = position.owner;
  collateral_mint = position.collateral_mint;
  ink = position.ink;
  ink_nonce = position.ink_nonce;
}

-- Shares of an earlier epoch are dropped first.
unfoldable pub add_shares : ValidatorRecord → ℕ → ℕ → Result Abort ValidatorRecord
add_shares r epoch ink =
    let before = if r.directed_shares_epoch == epoch then r.directed_shares else 0 in
    or_overflow (checked_add u64_max before ink) >>= λ shares.
    ok (record r { directed_shares_epoch = epoch; directed_shares = shares })

-- The record is that of the validator of the preference.
unfoldable pub snapshot_preference :
    ControllerConfig
    → EpochState
    → ℕ
    → PositionInfo
    → Preference × ValidatorRecord
    → Result Abort (Preference × ValidatorRecord)
snapshot_preference config es slot info (pref, r) =
    check (es.phase == phase_preferences) ControllerError.preference_window_closed >>= λ _.
    check (ltb slot es.preference_window_close_slot) ControllerError.preference_window_closed
    >>= λ _. read_position config info >>= λ position.
        check
          (countable (preference_view pref) (position_view position) config.fusol_collateral_mint
            es.controller_epoch)
          ControllerError.preference_not_countable
        >>= λ _. check_directable r >>= λ _. add_shares r es.controller_epoch position.ink >>= λ r'.
            ok (record pref { last_counted_epoch = es.controller_epoch }, r')

-- The collateral of the position, or 0 if it is gone.
unfoldable pub live_ink : ControllerConfig → PositionInfo → ℕ
live_ink config info = elim (read_position config info) [ ok position ↦ position.ink | err e ↦ 0 ]

-- May the signer close the preference, with the rent going to `recipient`?
unfoldable pub close_preference :
    ControllerConfig → Address → PositionInfo → Address → ℕ → Preference → Result Abort (Unit {0})
close_preference config closer info recipient epoch pref =
    check (same_bytes recipient pref.owner) ControllerError.invalid_rent_recipient >>= λ _.
    if ltb 0 (live_ink config info)
    then (check (same_bytes closer pref.owner) ControllerError.position_still_open >>= λ _.
        check (not (pref.change_epoch == epoch)) ControllerError.preference_change_limit2)
    else ok tt

-- ===== src/StakeView/StakeAccount.antt =====
-- crates/fusion-stake-view/src/stake_account.rs: the voter of a delegated stake account.
use fusion_core.Prelude.{ℕ, Option, none, List, bind_some, ◌==◌, if◌then◌else◌}
use fusion_core.StakeView.Bytes.{array32, u32_le}

abbrev pub stake_state_tag_stake : ℕ
stake_state_tag_stake = 2

unfoldable pub delegation_voter : List ℕ → Option (List ℕ)
delegation_voter xs =
    bind_some (u32_le xs 0) (λ tag. if tag == stake_state_tag_stake then array32 xs 124 else none)

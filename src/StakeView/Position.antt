-- ===== src/StakeView/Position.antt =====
-- crates/fusion-stake-view/src/position.rs: the view of a position of fusd-core.
pub mod RoundTrip
use fusion_core.Prelude.{
  ℕ, List, [], ◌∷◌, Result, err, ok, ok_or, ◌>>=◌, Option, ltb, if◌then◌else◌, not, length, take,
}
use fusion_core.Stake.Preference.{same_bytes}
use fusion_core.StakeView.Bytes.{array32, u64_le}

abbrev pub position_discriminator : List ℕ
position_discriminator = 170 ∷ 188 ∷ 143 ∷ 228 ∷ 122 ∷ 64 ∷ 247 ∷ 208 ∷ []

abbrev pub position_min_len : ℕ
position_min_len = 213

pub data PositionError : Type 0 where
  too_short bad_discriminator : PositionError

pub record PositionView : Type 0 where
  pub owner : List ℕ
  pub collateral_mint : List ℕ
  pub ink : ℕ
  pub ink_nonce : ℕ

unfoldable pub parse : List ℕ → Result PositionError PositionView
parse xs =
    if ltb (length xs) position_min_len
    then err too_short
    else if not (same_bytes (take 8 xs) position_discriminator)
    then err bad_discriminator
    else ok_or (array32 xs 8) too_short >>= λ owner. ok_or (array32 xs 40) too_short >>= λ mint.
        ok_or (u64_le xs 72) too_short >>= λ ink. ok_or (u64_le xs 181) too_short >>= λ nonce.
        ok (record { owner = owner; collateral_mint = mint; ink = ink; ink_nonce = nonce })

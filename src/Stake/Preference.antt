-- ===== src/Stake/Preference.antt =====
-- crates/fusion-stake-math/src/preference.rs: does a position's preference count in an epoch?
use fusion_core.Prelude.{ℕ, Bool, true, false, not, ◌&&◌, leb, ◌==◌, List, [], ◌∷◌}

-- 32 bytes
abbrev pub Address : Type 0
Address = List ℕ

-- Rust's `==` of byte arrays.
unfoldable pub same_bytes : List ℕ → List ℕ → Bool
same_bytes [] [] = true
same_bytes (x ∷ xs) (y ∷ ys) = x == y && same_bytes xs ys
same_bytes [] (y ∷ ys) = false
same_bytes (x ∷ xs) [] = false

pub record PreferenceView : Type 0 where
  pub owner : Address
  pub observed_ink_nonce : ℕ
  pub eligible_from_epoch : ℕ
  pub last_counted_epoch : ℕ

pub record PositionView : Type 0 where
  pub owner : Address
  pub collateral_mint : Address
  pub ink : ℕ
  pub ink_nonce : ℕ

unfoldable pub countable : PreferenceView → PositionView → Address → ℕ → Bool
countable pref position fusol_mint current_epoch =
    same_bytes position.collateral_mint fusol_mint
    && (same_bytes position.owner pref.owner
        && (position.ink_nonce == pref.observed_ink_nonce
            && (leb pref.eligible_from_epoch current_epoch
                && not (pref.last_counted_epoch == current_epoch))))

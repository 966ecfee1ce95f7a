-- ===== src/StakeView/Position/RoundTrip.antt =====
-- crates/fusion-stake-view/src/position.rs read against programs/fusd-core/src/state/position.rs.
use fusion_core.Prelude.{
  ℕ, ◌≡◌, ◌≤◌, refl, true, List, [], ◌∷◌, ◌++◌, ok, arith, length, u64_max, ltb, false, some, take,
}
use fusion_core.Stake.Preference.{same_bytes}
use fusion_core.StakeView.Bytes.{array32, u64_le}
use fusion_core.StakeView.Bytes.Layout.{
  to_le, length-to_le, concat, size, length-concat, array32-chunk, u64_le-chunk,
}
use fusion_core.StakeView.Position.{parse, position_discriminator, position_min_len}

-- An account of a position: the fields in the order of their declaration, signed ones as the number
-- of their 64 bits.
pub record PositionAccount : Type 0 where
  pub owner : List ℕ
  pub collateral_mint : List ℕ
  pub ink : ℕ
  pub recorded_debt : ℕ
  pub user_rate_bps : ℕ
  pub bump : ℕ
  pub last_debt_update : ℕ
  pub stake : ℕ
  pub redist_l_coll_snapshot : ℕ
  pub redist_l_art_snapshot : ℕ
  pub reserve_lamports : ℕ
  pub bucket : ℕ
  pub coll_surplus : ℕ
  pub last_rate_adjust_ts : ℕ
  pub ink_nonce : ℕ
  pub reserved : List ℕ

pub record IsAccount (p : PositionAccount) : Type 0 where
  pub owner_wide : length p.owner ≡ 32
  pub mint_wide : length p.collateral_mint ≡ 32
  pub ink_fits : p.ink ≤ u64_max
  pub nonce_fits : p.ink_nonce ≤ u64_max
  pub reserved_wide : length p.reserved ≡ 24

-- The fields between the collateral and the nonce.
abbrev pub between : PositionAccount → List (List ℕ)
between p =
    to_le 16 p.recorded_debt
    ∷ to_le 2 p.user_rate_bps
    ∷ to_le 1 p.bump
    ∷ to_le 8 p.last_debt_update
    ∷ to_le 16 p.stake
    ∷ to_le 16 p.redist_l_coll_snapshot
    ∷ to_le 16 p.redist_l_art_snapshot
    ∷ to_le 8 p.reserve_lamports
    ∷ to_le 2 p.bucket
    ∷ to_le 8 p.coll_surplus
    ∷ to_le 8 p.last_rate_adjust_ts
    ∷ []

abbrev pub rest : PositionAccount → List (List ℕ)
rest p = between p ++ to_le 8 p.ink_nonce ∷ p.reserved ∷ []

-- Anchor's serialization: the discriminator, and the fields in Borsh.
abbrev pub chunks : PositionAccount → List (List ℕ)
chunks p = position_discriminator ∷ p.owner ∷ p.collateral_mint ∷ to_le 8 p.ink ∷ rest p

unfoldable pub serialize : PositionAccount → List ℕ
serialize p = concat (chunks p)

module _ (p : PositionAccount) (h : IsAccount p) where
  long : ltb (length (serialize p)) position_min_len ≡ false
  unfolding serialize
  long = ground (arith, length-concat (chunks p), size-chunks)
    where
      size-chunks : size (chunks p) ≡ 213
      size-chunks = omega (arith, length-to_le, h.owner_wide, h.mint_wide, h.reserved_wide)

  marked : same_bytes (take 8 (serialize p)) position_discriminator ≡ true
  unfolding serialize same_bytes
  marked = refl

  owner_at : array32 (serialize p) 8 ≡ some p.owner
  unfolding serialize
  owner_at =
      array32-chunk (position_discriminator ∷ []) (p.collateral_mint ∷ to_le 8 p.ink ∷ rest p)
        p.owner 8 (omega arith) h.owner_wide (omega arith)

  mint_at : array32 (serialize p) 40 ≡ some p.collateral_mint
  unfolding serialize
  mint_at =
      array32-chunk (position_discriminator ∷ p.owner ∷ []) (to_le 8 p.ink ∷ rest p)
        p.collateral_mint 40 (omega (arith, h.owner_wide)) h.mint_wide (omega arith)

  ink_at : u64_le (serialize p) 72 ≡ some p.ink
  unfolding serialize
  ink_at =
      u64_le-chunk (position_discriminator ∷ p.owner ∷ p.collateral_mint ∷ []) (rest p) p.ink 72
        (omega (arith, h.owner_wide, h.mint_wide)) h.ink_fits (omega arith)

  nonce_at : u64_le (serialize p) 181 ≡ some p.ink_nonce
  unfolding serialize
  nonce_at =
      u64_le-chunk
        (position_discriminator ∷ p.owner ∷ p.collateral_mint ∷ to_le 8 p.ink ∷ between p)
        (p.reserved ∷ []) p.ink_nonce 181 (omega (arith, length-to_le, h.owner_wide, h.mint_wide))
        h.nonce_fits (omega arith)

  -- The parser finds in the bytes of a position the owner, the mint, the collateral and the nonce that
  -- were written there.
  pub parse-serialize :
      parse (serialize p)
      ≡ ok (record {
        owner = p.owner;
        collateral_mint = p.collateral_mint;
        ink = p.ink;
        ink_nonce = p.ink_nonce;
      })
  unfolding parse
  parse-serialize = rw (long, marked, owner_at, mint_at, ink_at, nonce_at) refl

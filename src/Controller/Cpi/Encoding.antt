-- ===== src/Controller/Cpi/Encoding.antt =====
-- programs/fusion-stake-controller/src/spl_cpi.rs: what the stake pool reads in the instructions that move
-- stake.
use mathlib.Core.List.{append-nil}
use fusion_core.Prelude.{
  ℕ, ◌≡◌, ◌≤◌, refl, ap, if◌then◌else◌, some, List, [], ◌∷◌, ◌++◌, length, u64_max, arith,
}
use fusion_core.Stake.Preference.{Address}
use fusion_core.StakeView.Bytes.{u8_at, u64_le}
use fusion_core.StakeView.Bytes.Layout.{to_le, length-to_le, concat, u64_le-chunk}
use fusion_core.Controller.Cpi.{
  Chain, Instruction, AccountMeta, ix_increase_validator_stake,
  ix_decrease_validator_stake_with_reserve,
}
use fusion_core.Controller.Cpi.Moves.{
  increase_validator_stake, decrease_validator_stake_with_reserve,
}

-- The keys that sign.
abbrev pub signers : List AccountMeta → List Address
signers [] = []
signers (m ∷ ms) = if m.is_signer then m.pubkey ∷ signers ms else signers ms

-- What an instruction that moves stake says: its tag, the lamports, the seed, and who signs.
pub record Says (ix : Instruction) (tag lamports seed : ℕ) (signer : Address) : Type 0 where
  pub tagged : u8_at ix.ix_data 0 ≡ some tag
  pub amount : u64_le ix.ix_data 1 ≡ some lamports
  pub seeded : u64_le ix.ix_data 9 ≡ some seed
  pub long : length ix.ix_data ≡ 17
  pub signed : signers ix.accounts ≡ signer ∷ []

encoded : ℕ → ℕ → ℕ → List ℕ
encoded tag lamports seed = tag ∷ to_le 8 lamports ++ to_le 8 seed

chunked :
    (tag lamports seed : ℕ)
    → concat ((tag ∷ []) ∷ to_le 8 lamports ∷ to_le 8 seed ∷ []) ≡ encoded tag lamports seed
unfolding encoded
chunked tag lamports seed = ap (λ ys. tag ∷ to_le 8 lamports ++ ys) (append-nil (to_le 8 seed))

amount_at :
    (tag lamports seed : ℕ)
    → lamports ≤ u64_max
    → u64_le (encoded tag lamports seed) 1 ≡ some lamports
amount_at tag lamports seed h =
    rw (← chunked tag lamports seed)
      (u64_le-chunk ((tag ∷ []) ∷ []) (to_le 8 seed ∷ []) lamports 1 (omega arith) h (omega arith))

seed_at :
    (tag lamports seed : ℕ) → seed ≤ u64_max → u64_le (encoded tag lamports seed) 9 ≡ some seed
seed_at tag lamports seed h = rw (← chunked tag lamports seed) (
    u64_le-chunk ((tag ∷ []) ∷ to_le 8 lamports ∷ []) [] seed 9
      (omega (arith, length-to_le 8 lamports)) h (omega arith))

length-encoded : (tag lamports seed : ℕ) → length (encoded tag lamports seed) ≡ 17
unfolding encoded to_le
length-encoded tag lamports seed = refl

tag_at : (tag lamports seed : ℕ) → u8_at (encoded tag lamports seed) 0 ≡ some tag
unfolding encoded u8_at
tag_at tag lamports seed = refl

module _ ⦃chain : Chain⦄ where
  -- The instructions to increase and to decrease a validator's stake, of amounts and seeds of 64 bits, say
  -- at the pool's offsets the tag of the operation, the amount and the seed they were built with, and
  -- nothing after them; the staker alone signs them.
  pub moves-Says :
      (pool staker authority list reserve transient stake vote : Address) (lamports seed : ℕ)
      → lamports ≤ u64_max
      → seed ≤ u64_max
      → Says
          (increase_validator_stake pool staker authority list reserve transient stake vote lamports
            seed)
          ix_increase_validator_stake
          lamports
          seed
          staker
        × Says
            (decrease_validator_stake_with_reserve pool staker authority list reserve stake
              transient lamports seed)
            ix_decrease_validator_stake_with_reserve
            lamports
            seed
            staker
  unfolding increase_validator_stake decrease_validator_stake_with_reserve encoded
  moves-Says pool staker authority list reserve transient stake vote lamports seed hl hs = (
    record {
      tagged = tag_at ix_increase_validator_stake lamports seed;
      amount = amount_at ix_increase_validator_stake lamports seed hl;
      seeded = seed_at ix_increase_validator_stake lamports seed hs;
      long = length-encoded ix_increase_validator_stake lamports seed;
      signed = refl;
    },
    record {
      tagged = tag_at ix_decrease_validator_stake_with_reserve lamports seed;
      amount = amount_at ix_decrease_validator_stake_with_reserve lamports seed hl;
      seeded = seed_at ix_decrease_validator_stake_with_reserve lamports seed hs;
      long = length-encoded ix_decrease_validator_stake_with_reserve lamports seed;
      signed = refl;
    },
  )

  -- Whatever the seed, they say the tag and the amount.
  pub amounts_said :
      (pool staker authority list reserve transient stake vote : Address) (lamports seed : ℕ)
      → lamports ≤ u64_max
      → let up =
          increase_validator_stake pool staker authority list reserve transient stake vote lamports
            seed in
        let down =
          decrease_validator_stake_with_reserve pool staker authority list reserve stake transient
            lamports seed in
        ((u8_at up.ix_data 0 ≡ some ix_increase_validator_stake)
          × (u64_le up.ix_data 1 ≡ some lamports))
        × ((u8_at down.ix_data 0 ≡ some ix_decrease_validator_stake_with_reserve)
            × (u64_le down.ix_data 1 ≡ some lamports))
  unfolding increase_validator_stake decrease_validator_stake_with_reserve encoded
  amounts_said pool staker authority list reserve transient stake vote lamports seed h = (
    (
      tag_at ix_increase_validator_stake lamports seed,
      amount_at ix_increase_validator_stake lamports seed h,
    ),
    (
      tag_at ix_decrease_validator_stake_with_reserve lamports seed,
      amount_at ix_decrease_validator_stake_with_reserve lamports seed h,
    ),
  )

-- ===== src/StakeView/StakePool.antt =====
-- crates/fusion-stake-view/src/stake_pool.rs: the fixed fields of a stake pool.
use fusion_core.Prelude.{
  ℕ, List, Result, err, ok, ok_or, ◌>>=◌, ltb, ◌==◌, not, if◌then◌else◌, length, get_or,
}
use fusion_core.Prelude.Int.{ℤ}
use fusion_core.StakeView.Bytes.{array32, u64_le, u8_at, i64_le}

abbrev pub account_type_stake_pool : ℕ
account_type_stake_pool = 1

abbrev pub stake_pool_fixed_len : ℕ
stake_pool_fixed_len = 346

pub data StakePoolError : Type 0 where
  too_short not_stake_pool : StakePoolError

pub record Lockup : Type 0 where
  pub unix_timestamp : ℤ
  pub epoch : ℕ
  pub custodian : List ℕ

pub record Fee : Type 0 where
  pub denominator : ℕ
  pub numerator : ℕ

pub record StakePoolView : Type 0 where
  pub manager : List ℕ
  pub staker : List ℕ
  pub stake_deposit_authority : List ℕ
  pub stake_withdraw_bump_seed : ℕ
  pub validator_list : List ℕ
  pub reserve_stake : List ℕ
  pub pool_mint : List ℕ
  pub manager_fee_account : List ℕ
  pub token_program : List ℕ
  pub total_lamports : ℕ
  pub pool_token_supply : ℕ
  pub last_update_epoch : ℕ
  pub lockup : Lockup
  pub epoch_fee : Fee

unfoldable pub read32 : List ℕ → ℕ → Result StakePoolError (List ℕ)
read32 xs off = ok_or (array32 xs off) too_short

unfoldable pub read_u64 : List ℕ → ℕ → Result StakePoolError ℕ
read_u64 xs off = ok_or (u64_le xs off) too_short

unfoldable pub parse_lockup : List ℕ → Result StakePoolError Lockup
parse_lockup xs = ok_or (i64_le xs 282) too_short >>= λ timestamp. read_u64 xs 290 >>= λ epoch.
    read32 xs 298 >>= λ custodian.
    ok (record { unix_timestamp = timestamp; epoch = epoch; custodian = custodian })

unfoldable pub parse_fee : List ℕ → Result StakePoolError Fee
parse_fee xs = read_u64 xs 330 >>= λ denominator. read_u64 xs 338 >>= λ numerator.
    ok (record { denominator = denominator; numerator = numerator })

unfoldable pub parse : List ℕ → Result StakePoolError StakePoolView
parse xs =
    if ltb (length xs) stake_pool_fixed_len
    then err too_short
    else if not (get_or xs 0 0 == account_type_stake_pool)
    then err not_stake_pool
    else read32 xs 1 >>= λ manager. read32 xs 33 >>= λ staker. read32 xs 65 >>= λ authority.
        ok_or (u8_at xs 97) too_short >>= λ bump. read32 xs 98 >>= λ list.
        read32 xs 130 >>= λ reserve. read32 xs 162 >>= λ mint. read32 xs 194 >>= λ fee_account.
        read32 xs 226 >>= λ token_program. read_u64 xs 258 >>= λ total.
        read_u64 xs 266 >>= λ supply. read_u64 xs 274 >>= λ last_epoch.
        parse_lockup xs >>= λ lockup. parse_fee xs >>= λ fee. ok (record {
          manager = manager;
          staker = staker;
          stake_deposit_authority = authority;
          stake_withdraw_bump_seed = bump;
          validator_list = list;
          reserve_stake = reserve;
          pool_mint = mint;
          manager_fee_account = fee_account;
          token_program = token_program;
          total_lamports = total;
          pool_token_supply = supply;
          last_update_epoch = last_epoch;
          lockup = lockup;
          epoch_fee = fee;
        })

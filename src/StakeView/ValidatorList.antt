-- ===== src/StakeView/ValidatorList.antt =====
-- crates/fusion-stake-view/src/validator_list.rs: the validators of a stake pool.
use fusion_core.Prelude.{
  ℕ, List, Result, err, ok, ok_or, ◌>>=◌, Option, none, some, ltb, leb, ◌==◌, not, if◌then◌else◌,
  length, get_or, checked_mul, checked_add, bind_some, u64_max,
}
use fusion_core.StakeView.Bytes.{array32, u64_le, u32_le, u8_at, usize_max}

abbrev pub account_type_validator_list : ℕ
account_type_validator_list = 2

abbrev pub entries_offset : ℕ
entries_offset = 9

abbrev pub entry_len : ℕ
entry_len = 73

pub data ValidatorListError : Type 0 where
  too_short not_validator_list entries_truncated : ValidatorListError

pub record ValidatorListHeader : Type 0 where
  pub max_validators : ℕ
  pub len : ℕ

pub record ValidatorEntry : Type 0 where
  pub active_stake_lamports : ℕ
  pub transient_stake_lamports : ℕ
  pub last_update_epoch : ℕ
  pub transient_seed_suffix : ℕ
  pub validator_seed_suffix : ℕ
  pub status : ℕ
  pub vote_account_address : List ℕ

unfoldable pub parse_header : List ℕ → Result ValidatorListError ValidatorListHeader
parse_header xs =
    if ltb (length xs) entries_offset
    then err too_short
    else if not (get_or xs 0 0 == account_type_validator_list)
    then err not_validator_list
    else ok_or (u32_le xs 1) too_short >>= λ max_validators.
        ok_or (u32_le xs 5) too_short >>= λ len.
        ok_or
          (bind_some (checked_mul u64_max len entry_len)
            (λ b. checked_add u64_max b entries_offset))
          entries_truncated
        >>= λ declared_end.
            if ltb (length xs) declared_end
            then err entries_truncated
            else ok (record { max_validators = max_validators; len = len })

-- The fields of the entry at `base`.
unfoldable pub read_entry : List ℕ → ℕ → Option ValidatorEntry
read_entry xs base = bind_some (u64_le xs base) (λ active.
    bind_some (bind_some (checked_add usize_max base 8) (u64_le xs)) (λ transient.
      bind_some (bind_some (checked_add usize_max base 16) (u64_le xs)) (λ epoch.
        bind_some (bind_some (checked_add usize_max base 24) (u64_le xs)) (λ transient_seed.
          bind_some (bind_some (checked_add usize_max base 36) (u32_le xs)) (λ validator_seed.
            bind_some (bind_some (checked_add usize_max base 40) (u8_at xs)) (λ status.
              bind_some (bind_some (checked_add usize_max base 41) (array32 xs)) (λ vote.
                some (record {
                  active_stake_lamports = active;
                  transient_stake_lamports = transient;
                  last_update_epoch = epoch;
                  transient_seed_suffix = transient_seed;
                  validator_seed_suffix = validator_seed;
                  status = status;
                  vote_account_address = vote;
                }))))))))

-- `parse_header(data).ok()`
abbrev pub header? : Result ValidatorListError ValidatorListHeader → Option ValidatorListHeader
header? (ok h) = some h
header? (err e) = none

unfoldable pub entry_at : List ℕ → ℕ → Option ValidatorEntry
entry_at xs i = bind_some (header? (parse_header xs)) (λ header.
    if leb header.len i
    then none
    else bind_some
        (bind_some (checked_mul usize_max i entry_len)
          (λ b. checked_add usize_max entries_offset b))
        (read_entry xs))

-- ===== src/Controller/Cpi.antt =====
-- programs/fusion-stake-controller/src/spl_cpi.rs: the instructions of other programs that this one
-- sends. A key is its 32 bytes, `to_le` is `to_le_bytes`.
pub mod Moves
pub mod Pool
pub mod Encoding
use fusion_core.Prelude.{
  ◌+◌, ◌≡◌, ℕ, Bool, true, false, Option, none, some, map_some, List, [], ◌∷◌, ◌++◌, if◌then◌else◌,
  ◌==◌, not, Result, ok, err, ok_or, ◌>>=◌, length, max,
}
use fusion_core.Stake.Preference.{Address, same_bytes}
use fusion_core.StakeView.Bytes.{from_le}
use fusion_core.StakeView.Bytes.Layout.{to_le}
use fusion_core.Controller.Constants.{
  fusion_stake_pool_program_id, stake_program_id, stake_config_id, upstream_minimum_delegation,
}
use fusion_core.Controller.Error.{ControllerError, Abort, check, or_error, call}

abbrev pub ix_initialize : ℕ
ix_initialize = 0

abbrev pub ix_add_validator_to_pool : ℕ
ix_add_validator_to_pool = 1

abbrev pub ix_remove_validator_from_pool : ℕ
ix_remove_validator_from_pool = 2

abbrev pub ix_increase_validator_stake : ℕ
ix_increase_validator_stake = 4

abbrev pub ix_set_preferred_validator : ℕ
ix_set_preferred_validator = 5

abbrev pub ix_update_validator_list_balance : ℕ
ix_update_validator_list_balance = 6

abbrev pub ix_update_stake_pool_balance : ℕ
ix_update_stake_pool_balance = 7

abbrev pub ix_cleanup_removed_validator_entries : ℕ
ix_cleanup_removed_validator_entries = 8

abbrev pub ix_deposit_stake : ℕ
ix_deposit_stake = 9

abbrev pub ix_deposit_sol : ℕ
ix_deposit_sol = 14

abbrev pub ix_decrease_validator_stake_with_reserve : ℕ
ix_decrease_validator_stake_with_reserve = 21

abbrev pub stake_ix_authorize : ℕ
stake_ix_authorize = 1

abbrev pub stake_ix_get_minimum_delegation : ℕ
stake_ix_get_minimum_delegation = 13

abbrev pub stake_authorize_staker : ℕ
stake_authorize_staker = 0

abbrev pub stake_authorize_withdrawer : ℕ
stake_authorize_withdrawer = 1

abbrev pub preferred_validator_type_withdraw : ℕ
preferred_validator_type_withdraw = 1

pub record AccountMeta : Type 0 where
  pub pubkey : Address
  pub is_signer : Bool
  pub is_writable : Bool

-- `AccountMeta::new` and `AccountMeta::new_readonly`
abbrev pub writable : Address → Bool → AccountMeta
writable k signer = record { pubkey = k; is_signer = signer; is_writable = true }

abbrev pub readonly : Address → Bool → AccountMeta
readonly k signer = record { pubkey = k; is_signer = signer; is_writable = false }

pub record Instruction : Type 0 where
  pub program_id : Address
  pub accounts : List AccountMeta
  pub ix_data : List ℕ

pub record Fee : Type 0 where
  pub denominator : ℕ
  pub numerator : ℕ

abbrev pub write : Fee → List ℕ
write fee = to_le 8 fee.denominator ++ to_le 8 fee.numerator

-- The pairs that `update_validator_list_balance` appends.
abbrev pub pair_metas : List (Address × Address) → List AccountMeta
pair_metas [] = []
pair_metas ((validator_stake, transient_stake) ∷ pairs) =
    writable validator_stake false ∷ writable transient_stake false ∷ pair_metas pairs

abbrev pub preferred_bytes : Option Address → List ℕ
preferred_bytes (some vote) = 1 ∷ vote
preferred_bytes none = 0 ∷ []

-- b"transient"
abbrev pub transient_seed : List ℕ
transient_seed = 116 ∷ 114 ∷ 97 ∷ 110 ∷ 115 ∷ 105 ∷ 101 ∷ 110 ∷ 116 ∷ []

-- The accounts of the stake pool that the program reads, as bytes and balances, and the balance of the
-- account that a crank is paid to; with the instructions that the pool's program was sent and the rewards
-- that were transferred, the latest first, as the runtime records them. No handler reads the latter two.
pub record Accounts : Type 0 where
  pub stake_pool : List ℕ
  pub validator_list : List ℕ
  pub reserve_lamports : ℕ
  pub maintenance_vault : ℕ
  pub crank_reward_account : ℕ
  pub calls : List Instruction
  pub payouts : List ℕ

-- What the program relies on beside its own code: the keys of the system's accounts, the derivation of
-- addresses, and the calls of other programs. `process` is a call with the accounts before and after,
-- `return_data` a call with what it returns, and `transfer` one of the token program, of an amount and
-- with the two balances.
pub record Chain : Type 0 where
  pub clock_id : Address
  pub rent_id : Address
  pub stake_history_id : Address
  pub system_program_id : Address
  pub find_program_address : List (List ℕ) → Address → Address
  pub process : Instruction → Accounts → Option Accounts
  pub return_data : Instruction → Option (Option (Address × List ℕ))
  pub transfer : ℕ → ℕ → ℕ → Option (ℕ × ℕ)
  pub transfer_moves :
      (n source target : ℕ) (r : ℕ × ℕ)
      → transfer n source target ≡ some r
      → (r.0 + n ≡ source) × (r.1 ≡ target + n)

module _ ⦃chain : Chain⦄ where
  open chain use {
    clock_id, rent_id, stake_history_id, system_program_id, find_program_address, process,
    return_data, transfer,
  }

  -- `invoke` and `invoke_signed`
  abbrev pub invoke : Instruction → Accounts → Option Accounts
  invoke ix accounts =
      map_some {A = Accounts}
        (λ after. record after { calls = ix ∷ accounts.calls; payouts = accounts.payouts })
        (process ix accounts)

  -- `token::transfer` from the maintenance vault to the account that a crank is paid to.
  abbrev pub transfer_reward : ℕ → Accounts → Option Accounts
  transfer_reward amount accounts =
      map_some
        (λ moved. record accounts {
          maintenance_vault = moved.0;
          crank_reward_account = moved.1;
          payouts = amount ∷ accounts.payouts;
        })
        (transfer amount accounts.maintenance_vault accounts.crank_reward_account)

  unfoldable pub stake_authorize : Address → Address → Address → ℕ → Instruction
  stake_authorize stake_account current_authority new_authorized role = record {
    program_id = stake_program_id;
    accounts =
        writable stake_account false
        ∷ readonly clock_id false
        ∷ readonly current_authority true
        ∷ [];
    ix_data = to_le 4 stake_ix_authorize ++ (new_authorized ++ (to_le 4 role));
  }

  unfoldable pub stake_get_minimum_delegation : Instruction
  stake_get_minimum_delegation = record {
    program_id = stake_program_id;
    accounts = [];
    ix_data = to_le 4 stake_ix_get_minimum_delegation;
  }

  unfoldable pub derive_validator_stake : Address → Address → ℕ → Address
  derive_validator_stake vote pool seed =
      find_program_address (vote ∷ pool ∷ (if seed == 0 then [] else to_le 4 seed ∷ []))
        fusion_stake_pool_program_id

  unfoldable pub derive_transient_stake : Address → Address → ℕ → Address
  derive_transient_stake vote pool seed =
      find_program_address (transient_seed ∷ vote ∷ pool ∷ to_le 8 seed ∷ [])
        fusion_stake_pool_program_id

  unfoldable pub effective_minimum_delegation : Result Abort ℕ
  effective_minimum_delegation = call (return_data stake_get_minimum_delegation) >>= λ returned.
      or_error returned ControllerError.minimum_delegation_unavailable
      >>= λ (program_id, returned_data).
          check (same_bytes program_id stake_program_id)
            ControllerError.minimum_delegation_unavailable
          >>= λ _.
              check (length returned_data == 8) ControllerError.minimum_delegation_unavailable
              >>= λ _. ok (max (from_le returned_data) upstream_minimum_delegation)

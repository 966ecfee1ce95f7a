-- ===== src/Controller/Cpi/Pool.antt =====
-- programs/fusion-stake-controller/src/spl_cpi.rs: the other instructions that are sent to the stake pool.
use fusion_core.Prelude.{ℕ, Bool, true, false, List, [], ◌∷◌, ◌++◌, if◌then◌else◌}
use fusion_core.Stake.Preference.{Address}
use fusion_core.StakeView.Bytes.Layout.{to_le}
use fusion_core.Controller.Constants.{fusion_stake_pool_program_id, stake_program_id}
use fusion_core.Controller.Cpi.{
  Instruction, Chain, writable, readonly, pair_metas, Fee, write, ix_initialize,
  ix_update_validator_list_balance, ix_update_stake_pool_balance,
  ix_cleanup_removed_validator_entries, ix_deposit_stake, ix_deposit_sol,
}

module _ ⦃chain : Chain⦄ where
  open chain use {clock_id, rent_id, stake_history_id, system_program_id}

  unfoldable pub initialize :
      Address
      → Address
      → Address
      → Address
      → Address
      → Address
      → Address
      → Address
      → Address
      → Address
      → Fee
      → Fee
      → Fee
      → ℕ
      → ℕ
      → Instruction
  initialize stake_pool manager staker withdraw_authority validator_list reserve_stake pool_mint
        manager_fee_account token_program deposit_authority epoch_fee withdrawal_fee deposit_fee
        referral_fee max_validators =
      record {
        program_id = fusion_stake_pool_program_id;
        accounts =
            writable stake_pool false
            ∷ readonly manager true
            ∷ readonly staker false
            ∷ readonly withdraw_authority false
            ∷ writable validator_list false
            ∷ readonly reserve_stake false
            ∷ writable pool_mint false
            ∷ writable manager_fee_account false
            ∷ readonly token_program false
            ∷ readonly deposit_authority true
            ∷ [];
        ix_data =
            ix_initialize ∷ write epoch_fee
            ++ (write withdrawal_fee
                ++ (write deposit_fee ++ (referral_fee ∷ to_le 4 max_validators)));
      }

  unfoldable pub update_stake_pool_balance :
      Address → Address → Address → Address → Address → Address → Address → Instruction
  update_stake_pool_balance stake_pool withdraw_authority validator_list reserve_stake
        manager_fee_account pool_mint token_program =
      record {
        program_id = fusion_stake_pool_program_id;
        accounts =
            writable stake_pool false
            ∷ readonly withdraw_authority false
            ∷ writable validator_list false
            ∷ readonly reserve_stake false
            ∷ writable manager_fee_account false
            ∷ writable pool_mint false
            ∷ readonly token_program false
            ∷ [];
        ix_data = ix_update_stake_pool_balance ∷ [];
      }

  unfoldable pub cleanup_removed_validator_entries : Address → Address → Instruction
  cleanup_removed_validator_entries stake_pool validator_list = record {
    program_id = fusion_stake_pool_program_id;
    accounts = writable stake_pool false ∷ writable validator_list false ∷ [];
    ix_data = ix_cleanup_removed_validator_entries ∷ [];
  }

  unfoldable pub deposit_stake :
      Address
      → Address
      → Address
      → Address
      → Address
      → Address
      → Address
      → Address
      → Address
      → Address
      → Address
      → Address
      → Instruction
  deposit_stake stake_pool validator_list deposit_authority withdraw_authority user_stake
        validator_stake reserve_stake user_pool_token_account manager_fee_account
        referrer_pool_token_account pool_mint token_program =
      record {
        program_id = fusion_stake_pool_program_id;
        accounts =
            writable stake_pool false
            ∷ writable validator_list false
            ∷ readonly deposit_authority true
            ∷ readonly withdraw_authority false
            ∷ writable user_stake false
            ∷ writable validator_stake false
            ∷ writable reserve_stake false
            ∷ writable user_pool_token_account false
            ∷ writable manager_fee_account false
            ∷ writable referrer_pool_token_account false
            ∷ writable pool_mint false
            ∷ readonly clock_id false
            ∷ readonly stake_history_id false
            ∷ readonly token_program false
            ∷ readonly stake_program_id false
            ∷ [];
        ix_data = ix_deposit_stake ∷ [];
      }

  unfoldable pub deposit_sol :
      Address
      → Address
      → Address
      → Address
      → Address
      → Address
      → Address
      → Address
      → Address
      → Address
      → ℕ
      → Instruction
  deposit_sol stake_pool withdraw_authority reserve_stake lamports_from user_pool_token_account
        manager_fee_account referrer_pool_token_account pool_mint token_program
        sol_deposit_authority lamports =
      record {
        program_id = fusion_stake_pool_program_id;
        accounts =
            writable stake_pool false
            ∷ readonly withdraw_authority false
            ∷ writable reserve_stake false
            ∷ writable lamports_from true
            ∷ writable user_pool_token_account false
            ∷ writable manager_fee_account false
            ∷ writable referrer_pool_token_account false
            ∷ writable pool_mint false
            ∷ readonly system_program_id false
            ∷ readonly token_program false
            ∷ readonly sol_deposit_authority true
            ∷ [];
        ix_data = ix_deposit_sol ∷ to_le 8 lamports;
      }

  unfoldable pub update_validator_list_balance :
      Address → Address → Address → Address → List (Address × Address) → ℕ → Bool → Instruction
  update_validator_list_balance stake_pool withdraw_authority validator_list reserve_stake
        stake_pairs start_index no_merge =
      record {
        program_id = fusion_stake_pool_program_id;
        accounts =
            readonly stake_pool false
            ∷ readonly withdraw_authority false
            ∷ writable validator_list false
            ∷ writable reserve_stake false
            ∷ readonly clock_id false
            ∷ readonly stake_history_id false
            ∷ readonly stake_program_id false
            ∷ pair_metas stake_pairs;
        ix_data =
            ix_update_validator_list_balance ∷ to_le 4 start_index
            ++ (if no_merge then 1 else 0) ∷ [];
      }

-- ===== src/Controller/Cpi/Moves.antt =====
-- programs/fusion-stake-controller/src/spl_cpi.rs: the instructions that move stake and members, which the rebalancing sends to the stake pool.
use fusion_core.Prelude.{ℕ, true, false, Option, [], ◌∷◌, ◌++◌}
use fusion_core.Stake.Preference.{Address}
use fusion_core.StakeView.Bytes.Layout.{to_le}
use fusion_core.Controller.Constants.{
  fusion_stake_pool_program_id, stake_program_id, stake_config_id,
}
use fusion_core.Controller.Cpi.{
  Instruction, Chain, writable, readonly, preferred_bytes, ix_add_validator_to_pool,
  ix_remove_validator_from_pool, ix_increase_validator_stake, ix_set_preferred_validator,
  ix_decrease_validator_stake_with_reserve, preferred_validator_type_withdraw,
}

module _ ⦃chain : Chain⦄ where
  open chain use {clock_id, rent_id, stake_history_id, system_program_id}

  unfoldable pub add_validator_to_pool :
      Address → Address → Address → Address → Address → Address → Address → ℕ → Instruction
  add_validator_to_pool stake_pool staker reserve_stake withdraw_authority validator_list
        validator_stake vote_account seed =
      record {
        program_id = fusion_stake_pool_program_id;
        accounts =
            writable stake_pool false
            ∷ readonly staker true
            ∷ writable reserve_stake false
            ∷ readonly withdraw_authority false
            ∷ writable validator_list false
            ∷ writable validator_stake false
            ∷ readonly vote_account false
            ∷ readonly rent_id false
            ∷ readonly clock_id false
            ∷ readonly stake_history_id false
            ∷ readonly stake_config_id false
            ∷ readonly system_program_id false
            ∷ readonly stake_program_id false
            ∷ [];
        ix_data = ix_add_validator_to_pool ∷ to_le 4 seed;
      }

  unfoldable pub remove_validator_from_pool :
      Address → Address → Address → Address → Address → Address → Instruction
  remove_validator_from_pool stake_pool staker withdraw_authority validator_list validator_stake
        transient_stake =
      record {
        program_id = fusion_stake_pool_program_id;
        accounts =
            writable stake_pool false
            ∷ readonly staker true
            ∷ readonly withdraw_authority false
            ∷ writable validator_list false
            ∷ writable validator_stake false
            ∷ writable transient_stake false
            ∷ readonly clock_id false
            ∷ readonly stake_program_id false
            ∷ [];
        ix_data = ix_remove_validator_from_pool ∷ [];
      }

  unfoldable pub increase_validator_stake :
      Address
      → Address
      → Address
      → Address
      → Address
      → Address
      → Address
      → Address
      → ℕ
      → ℕ
      → Instruction
  increase_validator_stake stake_pool staker withdraw_authority validator_list reserve_stake
        transient_stake validator_stake vote_account lamports transient_stake_seed =
      record {
        program_id = fusion_stake_pool_program_id;
        accounts =
            readonly stake_pool false
            ∷ readonly staker true
            ∷ readonly withdraw_authority false
            ∷ writable validator_list false
            ∷ writable reserve_stake false
            ∷ writable transient_stake false
            ∷ readonly validator_stake false
            ∷ readonly vote_account false
            ∷ readonly clock_id false
            ∷ readonly rent_id false
            ∷ readonly stake_history_id false
            ∷ readonly stake_config_id false
            ∷ readonly system_program_id false
            ∷ readonly stake_program_id false
            ∷ [];
        ix_data = ix_increase_validator_stake ∷ to_le 8 lamports ++ (to_le 8 transient_stake_seed);
      }

  unfoldable pub set_preferred_withdraw_validator :
      Address → Address → Address → Option Address → Instruction
  set_preferred_withdraw_validator stake_pool staker validator_list vote_account = record {
    program_id = fusion_stake_pool_program_id;
    accounts =
        writable stake_pool false ∷ readonly staker true ∷ readonly validator_list false ∷ [];
    ix_data =
        ix_set_preferred_validator
        ∷ preferred_validator_type_withdraw
        ∷ preferred_bytes vote_account;
  }

  unfoldable pub decrease_validator_stake_with_reserve :
      Address → Address → Address → Address → Address → Address → Address → ℕ → ℕ → Instruction
  decrease_validator_stake_with_reserve stake_pool staker withdraw_authority validator_list
        reserve_stake validator_stake transient_stake lamports transient_stake_seed =
      record {
        program_id = fusion_stake_pool_program_id;
        accounts =
            readonly stake_pool false
            ∷ readonly staker true
            ∷ readonly withdraw_authority false
            ∷ writable validator_list false
            ∷ writable reserve_stake false
            ∷ writable validator_stake false
            ∷ writable transient_stake false
            ∷ readonly clock_id false
            ∷ readonly stake_history_id false
            ∷ readonly system_program_id false
            ∷ readonly stake_program_id false
            ∷ [];
        ix_data =
            ix_decrease_validator_stake_with_reserve ∷ to_le 8 lamports
            ++ (to_le 8 transient_stake_seed);
      }

-- ===== src/Controller/Constants.antt =====
-- programs/fusion-stake-controller/src/constants.rs: the protocol's constants.
use fusion_core.Prelude.{ℕ, ◌*◌, ◌^◌, ◌-◌, [], ◌∷◌}
use fusion_core.Stake.Preference.{Address}

abbrev pub lamports_per_sol : ℕ
lamports_per_sol = 1_000_000_000

abbrev pub reserve_target_bps : ℕ
reserve_target_bps = 200

abbrev pub reserve_minimum_lamports : ℕ
reserve_minimum_lamports = 10 * lamports_per_sol

abbrev pub preference_window_slot_divisor : ℕ
preference_window_slot_divisor = 32

abbrev pub active_validator_cap_bps : ℕ
active_validator_cap_bps = 200

abbrev pub candidate_cap_bps : ℕ
candidate_cap_bps = 25

abbrev pub min_activation_target_lamports : ℕ
min_activation_target_lamports = 500 * lamports_per_sol

abbrev pub commission_cap_percent : ℕ
commission_cap_percent = 10

abbrev pub global_churn_cap_bps : ℕ
global_churn_cap_bps = 300

abbrev pub validator_move_cap_bps : ℕ
validator_move_cap_bps = 50

abbrev pub hysteresis_min_lamports : ℕ
hysteresis_min_lamports = 50 * lamports_per_sol

abbrev pub hysteresis_bps : ℕ
hysteresis_bps = 5

abbrev pub removal_delay_epochs : ℕ
removal_delay_epochs = 2

abbrev pub vote_freshness_window_divisor : ℕ
vote_freshness_window_divisor = 8

abbrev pub crank_reward_reconcile_batch : ℕ
crank_reward_reconcile_batch = 1_000_000

abbrev pub crank_reward_finalize_pool : ℕ
crank_reward_finalize_pool = 1_000_000

abbrev pub crank_reward_plan_batch : ℕ
crank_reward_plan_batch = 1_000_000

abbrev pub crank_reward_rebalance_action : ℕ
crank_reward_rebalance_action = 2_000_000

abbrev pub crank_epoch_payout_budget : ℕ
crank_epoch_payout_budget = 500_000_000

abbrev pub upstream_minimum_delegation : ℕ
upstream_minimum_delegation = 1_000_000

abbrev pub validator_list_index_unset : ℕ
validator_list_index_unset = 2 ^ 32 - 1

abbrev pub pool_entry_status_none : ℕ
pool_entry_status_none = 2 ^ 8 - 1

abbrev pub fusion_stake_pool_program_id : Address
fusion_stake_pool_program_id =
    41 ∷ 229 ∷ 11 ∷ 198 ∷ 138 ∷ 78 ∷ 59 ∷ 197 ∷ 199 ∷ 217 ∷ 221 ∷ 244 ∷ 223 ∷ 18 ∷ 91 ∷ 179 ∷ 186
    ∷ 22 ∷ 64 ∷ 120 ∷ 191 ∷ 23 ∷ 35 ∷ 247 ∷ 33 ∷ 198 ∷ 112 ∷ 133 ∷ 90 ∷ 175 ∷ 160 ∷ 169 ∷ []

abbrev pub vote_program_id : Address
vote_program_id =
    7 ∷ 97 ∷ 72 ∷ 29 ∷ 53 ∷ 116 ∷ 116 ∷ 187 ∷ 124 ∷ 77 ∷ 118 ∷ 36 ∷ 235 ∷ 211 ∷ 189 ∷ 179 ∷ 216 ∷ 53
    ∷ 94 ∷ 115 ∷ 209 ∷ 16 ∷ 67 ∷ 252 ∷ 13 ∷ 163 ∷ 83 ∷ 128 ∷ 0 ∷ 0 ∷ 0 ∷ 0 ∷ []

abbrev pub stake_program_id : Address
stake_program_id =
    6 ∷ 161 ∷ 216 ∷ 23 ∷ 145 ∷ 55 ∷ 84 ∷ 42 ∷ 152 ∷ 52 ∷ 55 ∷ 189 ∷ 254 ∷ 42 ∷ 122 ∷ 178 ∷ 85 ∷ 127
    ∷ 83 ∷ 92 ∷ 138 ∷ 120 ∷ 114 ∷ 43 ∷ 104 ∷ 164 ∷ 157 ∷ 192 ∷ 0 ∷ 0 ∷ 0 ∷ 0 ∷ []

abbrev pub stake_config_id : Address
stake_config_id =
    6 ∷ 161 ∷ 216 ∷ 23 ∷ 165 ∷ 2 ∷ 5 ∷ 11 ∷ 104 ∷ 7 ∷ 145 ∷ 230 ∷ 206 ∷ 109 ∷ 184 ∷ 142 ∷ 30 ∷ 91
    ∷ 113 ∷ 80 ∷ 246 ∷ 31 ∷ 198 ∷ 121 ∷ 10 ∷ 78 ∷ 180 ∷ 209 ∷ 0 ∷ 0 ∷ 0 ∷ 0 ∷ []

-- ===== src/Fusd/State.antt =====
-- programs/fusd-core/src/state: the accounts `Market`, `Position` and `RedemptionBitmap` with the
-- fields that the modelled instructions read or write. The keys, bumps and reserved bytes are left
-- out. Instants are signed integers, amounts natural numbers.
use fusion_core.Prelude.{ℕ, Bool, ◌==◌, if◌then◌else◌, u64_max, saturating_add, List}
use fusion_core.Prelude.Int.{ℤ}

pub record Market : Type 0 where
  pub agg_recorded_debt : ℕ
  pub agg_weighted_debt_sum : ℕ
  pub unminted_interest : ℕ
  pub last_update_ts : ℤ
  pub spot : ℕ
  pub spot_updated_slot : ℕ
  pub debt_spot : ℕ
  pub mcr_bps : ℕ
  pub debt_ceiling : ℕ
  pub l_coll : ℕ
  pub l_art : ℕ
  pub last_coll_redist_error : ℕ
  pub last_art_redist_error : ℕ
  pub total_stakes : ℕ
  pub total_collateral : ℕ
  pub total_stakes_snapshot : ℕ
  pub total_collateral_snapshot : ℕ
  pub reserve_lamports : ℕ
  pub liq_gas_comp_bps : ℕ
  pub liq_bonus_bps : ℕ
  pub total_coll_surplus : ℕ
  pub bucket_width_bps : ℕ
  pub surplus_collateral : ℕ
  pub mint_frozen : Bool
  pub guardian_paused_until : ℤ
  pub shutdown : Bool
  pub rl_cap : ℕ
  pub rl_accrued : ℕ
  pub rl_last_update : ℤ
  pub ccr_bps : ℕ
  pub liq_grace_until : ℕ
  pub liq_divergence_until : ℕ
  pub bad_debt : ℕ
  pub shutdown_reason : ℕ
  pub min_debt : ℕ
  pub borrow_fee_bps : ℕ
  pub protocol_collateral : ℕ
  pub global_contributed : ℕ
  pub global_drawn : ℕ
  pub liq_infra_flags : ℕ

pub record Position : Type 0 where
  pub ink : ℕ
  pub recorded_debt : ℕ
  pub user_rate_bps : ℕ
  pub last_debt_update : ℤ
  pub stake : ℕ
  pub redist_l_coll_snapshot : ℕ
  pub redist_l_art_snapshot : ℕ
  pub reserve_lamports : ℕ
  pub bucket : ℕ
  pub coll_surplus : ℕ
  pub ink_nonce : ℕ

unfoldable pub set_ink : Position → ℕ → Position
set_ink p new_ink =
    if new_ink == p.ink
    then p
    else record p { ink = new_ink; ink_nonce = saturating_add u64_max p.ink_nonce 1 }

-- The arrays `words` and `counts` are lists.
pub record RedemptionBitmap : Type 0 where
  pub words : List ℕ
  pub counts : List ℕ
  pub zombie_count : ℕ

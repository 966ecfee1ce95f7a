-- ===== src/Fusd/Sample.antt =====
-- Accounts that the tests share: a market in SOL, a position in it, and an empty bitmap.
use fusion_core.Prelude.{ℕ, zero, suc, ◌/◌, ◌%◌, ◌≡◌, refl, arith, false, List, [], ◌∷◌, get_or}
use fusion_core.Bits.{bit-zero}
use fusion_core.Fusd.Bucket.Coupled.{IsCoupled}
use fusion_core.Prelude.Int.{pos}
use fusion_core.Fusd.State.{Market, Position, RedemptionBitmap}

abbrev pub zeros : ℕ → List ℕ
zeros zero = []
zeros (suc n) = 0 ∷ zeros n

abbrev pub empty_bitmap : RedemptionBitmap
empty_bitmap = record { words = zeros 4; counts = zeros 256; zombie_count = 0 }

abbrev pub market : Market
market = record {
  agg_recorded_debt = 0;
  agg_weighted_debt_sum = 0;
  unminted_interest = 0;
  last_update_ts = pos 100;
  spot = 100_000_000_000_000_000_000_000_000;
  spot_updated_slot = 10;
  debt_spot = 100_000_000_000_000_000_000_000_000;
  mcr_bps = 12_000;
  debt_ceiling = 1_000_000_000_000;
  l_coll = 0;
  l_art = 0;
  last_coll_redist_error = 0;
  last_art_redist_error = 0;
  total_stakes = 2_000_000_000;
  total_collateral = 2_000_000_000;
  total_stakes_snapshot = 0;
  total_collateral_snapshot = 0;
  reserve_lamports = 0;
  liq_gas_comp_bps = 50;
  liq_bonus_bps = 500;
  total_coll_surplus = 0;
  bucket_width_bps = 10;
  surplus_collateral = 0;
  mint_frozen = false;
  guardian_paused_until = pos 0;
  shutdown = false;
  rl_cap = 0;
  rl_accrued = 0;
  rl_last_update = pos 0;
  ccr_bps = 0;
  liq_grace_until = 0;
  liq_divergence_until = 0;
  bad_debt = 0;
  shutdown_reason = 0;
  min_debt = 1_000_000;
  borrow_fee_bps = 10;
  protocol_collateral = 0;
  global_contributed = 0;
  global_drawn = 0;
  liq_infra_flags = 0;
}

-- 2 SOL and no debt, at 5 percent
abbrev pub position : Position
position = record {
  ink = 2_000_000_000;
  recorded_debt = 0;
  user_rate_bps = 500;
  last_debt_update = pos 100;
  stake = 2_000_000_000;
  redist_l_coll_snapshot = 0;
  redist_l_art_snapshot = 0;
  reserve_lamports = 0;
  bucket = 0;
  coll_surplus = 0;
  ink_nonce = 0;
}

pub get_or-zeros : (n i : ℕ) → get_or (zeros n) i 0 ≡ 0
get_or-zeros zero i = refl
get_or-zeros (suc n) zero = refl
get_or-zeros (suc n) (suc i) = get_or-zeros n i

pub empty_bitmap-IsCoupled : IsCoupled empty_bitmap
empty_bitmap-IsCoupled = record {
  word_count = refl;
  count_count = refl;
  fits = (omega arith, (omega arith, (omega arith, (omega arith, tt))));
  bits = λ c lt. rw (get_or-zeros 4 (c / 64), get_or-zeros 256 c) (bit-zero (c % 64));
}

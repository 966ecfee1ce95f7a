-- ===== src/Fusd/Redist.antt =====
-- programs/fusd-core/src/redist.rs: the redistribution accumulators in `Market` and `Position`.
use fusion_core.Prelude.{
  ℕ, Result, ok, map_err, ◌>>=◌, bind_some, u128_max, checked_add, checked_sub,
}
use fusion_core.Wide.{Wide}
use fusion_core.Redistribution.{RedistState, RedistSnapshot}
use fusion_core.Redistribution
use fusion_core.Fusd.Error.{Abort, redist_error, or_overflow}
use fusion_core.Fusd.State.{Market, Position}

unfoldable pub state : Market → RedistState
state m = record {
  l_coll = m.l_coll;
  l_art = m.l_art;
  last_coll_error = m.last_coll_redist_error;
  last_art_error = m.last_art_redist_error;
}

unfoldable pub write_state : Market → RedistState → Market
write_state m st = record m {
  l_coll = st.l_coll;
  l_art = st.l_art;
  last_coll_redist_error = st.last_coll_error;
  last_art_redist_error = st.last_art_error;
}

unfoldable pub snapshot_of : Position → RedistSnapshot
snapshot_of p = record { l_coll = p.redist_l_coll_snapshot; l_art = p.redist_l_art_snapshot }

unfoldable pub roll_snapshot : Market → Position → Position
roll_snapshot m p = record p { redist_l_coll_snapshot = m.l_coll; redist_l_art_snapshot = m.l_art }

module _ ⦃w : Wide⦄ where
  unfoldable pub pending : Market → Position → Result Abort (ℕ × ℕ)
  pending m p =
      map_err (λ e. Abort.error (redist_error e))
        (Redistribution.pending p.stake (state m) (snapshot_of p))

  unfoldable pub set_stake : Market → Position → Result Abort (Market × Position)
  set_stake m p =
      map_err (λ e. Abort.error (redist_error e))
        (Redistribution.compute_stake p.ink m.total_stakes_snapshot m.total_collateral_snapshot)
      >>= λ new_stake.
          or_overflow
            (bind_some (checked_sub m.total_stakes p.stake) (λ t. checked_add u128_max t new_stake))
          >>= λ total. ok (record m { total_stakes = total }, record p { stake = new_stake })

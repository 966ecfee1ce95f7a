-- ===== src/Fusd/Supply/Tests.antt =====
-- Inputs at which the theorems on programs/fusd-core/src/supply_transition.rs apply.
use fusion_core.Prelude.{◌+◌, ◌-◌, ◌≡◌, ◌≤◌, refl, some, arith}
use fusion_core.Fusd.Supply.{borrow, repay, refresh, cadd, csub, bps_cut}
use fusion_core.Fusd.Supply.Identity.{Totals, Run, borrows, repays, start, next, Run-Balanced}

abbrev empty : Totals
empty = record { circulating = 0; agg = 0; unminted = 0; bad = 0 }

-- 1000 borrowed for a fee of 5, then 300 repaid
abbrev borrowed : Totals
borrowed = record { circulating = 1000; agg = 1005; unminted = 5; bad = 0 }

abbrev repaid : Totals
repaid = record { circulating = 700; agg = 705; unminted = 5; bad = 0 }

two_steps : Run empty repaid
unfolding borrow repay cadd csub
two_steps =
    next
      (next start (
        borrows 1000 5
          (record { debt_delta = 1005; new_agg = 1005; new_unminted = 5; minted = 1000 }) refl))
      (repays 1005 300 (record { burn = 300; new_position_debt = 705; new_agg = 705 }) refl
        (omega arith))

Run-Balanced_example : (700 ≡ 705 + 0 - 5) × (5 ≤ 705 + 0)
Run-Balanced_example = Run-Balanced two_steps refl

-- 1000 of interest, 1 percent to the keeper, half of the rest against a bad debt of 100, 10 percent to the reserve
refreshed :
    refresh 1000 100 100 5000 1000 50
    ≡ some (record {
      amount = 1000;
      keeper_cut = 10;
      paydown = 100;
      backstop_cut = 50;
      buffer_amount = 840;
      new_unminted = 0;
      new_bad = 0;
    })
unfolding refresh bps_cut csub
refreshed = refl

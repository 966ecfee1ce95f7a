-- ===== src/Recovery/Tests.antt =====
-- Inputs at which the theorems on crates/fusd-math/src/recovery.rs apply.
use fusion_core.Prelude.{◌+◌, ◌<◌, ◌≤◌, ◌≡◌, false, refl}
use fusion_core.Recovery.{absorb}
use fusion_core.Recovery.Waterfall.{absorb_conserves, absorb_order}

-- a debt of 100 against a pool of 30, a buffer of 20 and a reserve of 10, and no recipient
short_of_capital :
    absorb 100 30 false 20 10
    ≡ record { reactor = 30; redist = 0; buffer = 20; global = 10; unhomed = 40 }
unfolding absorb
short_of_capital = refl

absorb_conserves_example :
    let a = absorb 100 30 false 20 10 in
    (a.reactor + a.redist + a.buffer + a.global + a.unhomed ≡ 100)
    × (a.reactor ≤ 30)
    × (a.buffer ≤ 20)
    × (a.global ≤ 10)
absorb_conserves_example = absorb_conserves 100 30 false 20 10

absorb_order_example :
    let a = absorb 100 30 false 20 10 in
    (0 < a.redist + a.buffer + a.global + a.unhomed → a.reactor ≡ 30)
    × (0 < a.buffer + a.global + a.unhomed → (false ≡ false) × (a.redist ≡ 0))
    × (0 < a.global + a.unhomed → a.buffer ≡ 20)
    × (0 < a.unhomed → a.global ≡ 10)
absorb_order_example = absorb_order 100 30 false 20 10

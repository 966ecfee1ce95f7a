-- ===== src/Lib.antt =====
-- Fusion: the core of the fUSD stablecoin, the controller of the stake pool whose token fuSOL is
-- its collateral, both programs on Solana, and the arithmetic they rest on.
--
-- Collateral goes into a position, fUSD is borrowed against it at a rate the borrower picks, and
-- interest accrues to a market as a whole and to each position when it is touched. A position that
-- is short of its collateral ratio is liquidated: its debt goes through the Reactor Pool, the other
-- positions, an insurance buffer and a shared reserve, and what is left is bad debt. Positions are
-- filed by rate in buckets, in the order in which redemptions take them.
--
-- The controller allocates the stake of the pool in a cycle per epoch that anyone may crank, batch
-- by batch: it reconciles the validators' balances, takes over the pool's totals, counts the shares
-- that positions direct to validators, sets each validator's directed target, deals out what is
-- left in equal rounds up to each validator's cap, and then moves stake towards the targets within
-- a churn budget. It reads the positions of the core's program from their bytes, and calls the
-- pool's program.
--
-- The parts, and how they correspond to the code:
--
-- - Prelude: tests on numbers, Rust's integers (`checked_add` and its kin take the largest value of
--   the width), lists, `Option` and `Result` with the `?` operator, signed integers, and `Returns P
--   m`: P holds of what m returns, if it returns.
-- - Bits: the binary digits of numbers.
-- - Wide: the 256-bit integers of the crate bnum, which is not code of the repository, as an
--   interface with its documented laws; `exact` meets it.
-- - Money: crates/fusd-math/src/lib.rs. A product of two numbers of 128 bits fits 256, so the laws
--   of Wide apply wherever the operands keep to their widths. The loop of `ray_pow` halves a 64-bit
--   exponent, so its fuel of 64 rounds is enough (Power).
-- - Interest, Recovery, Redistribution, RateBucket, ReactorPool, Redemption: the files of
--   crates/fusd-math/src of these names. `first_nonzero` is the loop of `first_set`, `rescale` the
--   loop of `update_product`, which tries at most five times, as the code does.
-- - Fusd.Cdp, Fusd.Supply: programs/fusd-core/src/cdp.rs and supply_transition.rs.
-- - Fusd.State, Fusd.Error: the accounts with the fields that the modelled code uses, and the error
--   codes. `Abort` adds the panic and the failed call of another program. An aborted instruction
--   leaves no state.
-- - Fusd.Redist, Fusd.Accrual, Fusd.Bucket: redist.rs, accrual.rs with reconcile.rs, and bucket.rs
--   of programs/fusd-core/src.
-- - Fusd.Programs: the SPL token program and the system program, an interface that says what a call
--   that succeeds does; `lenient` meets it. Fusd.Calls has what the checked arithmetic and these
--   calls return.
-- - Fusd.Handlers: the handlers of programs/fusd-core/src/instructions: Collateral has deposit.rs
--   and withdraw.rs, Debt has borrow.rs and repay.rs, Liquidate has liquidate.rs. A handler is a
--   function from the accounts (`World`, or `Scene` for a liquidation) to the accounts after it.
--   Reach makes a transition system of the first four. Books, Sound, Safe, Counted, Fits,
--   Waterfall, Closing, Liquidation and Victim hold the proofs.
-- - Stake: crates/fusion-stake-math, with Lifecycle, Churn, Reserve (reserve.rs, rewards.rs),
--   Preference and Targets. The loop of `distribute_neutral` runs on fuel, one round more than
--   there are validators. `Lifecycle.History` follows a validator over the epochs.
-- - StakeView: crates/fusion-stake-view. A view is a function of the bytes at its offsets; `usize`
--   has 64 bits. The loop over the epochs' credits of a vote account runs on fuel, one more than
--   their count. RoundTrip and Layout have the layouts as writers of bytes.
-- - Controller.State, Controller.Error, Controller.Constants: the accounts, the errors and the
--   constants of programs/fusion-stake-controller/src. An arithmetic overflow that the code does
--   not check is a panic, as the repository's release build has it.
-- - Controller.Logic, Controller.Maintenance, Controller.Cpi: logic.rs, maintenance.rs and
--   spl_cpi.rs. The programs that are called are the interface `Chain`: what a call leaves in the
--   accounts, what it returns, and a transfer that moves its amount. Nothing is assumed of what the
--   stake pool does.
-- - Controller.Cycle, Reconcile, PlanDirected, PlanNeutral, Rebalance, Preferences: the handlers of
--   programs/fusion-stake-controller/src/instructions. The records of the validators are a store
--   that the batches load from and put back to, so an account that is given twice is read as it was
--   last written. A handler is a function of the state, the accounts and what the clock and the
--   rent say.
-- - Controller.Epoch makes a transition system of the cycle within an epoch. The accounts keep the
--   instructions that the pool's program was sent and the rewards that were transferred, which no
--   handler reads; Epoch.Ledger sums them up. Frame, Budget, Epoch.Planning, Epoch.Rebalancing,
--   Epoch.Counting and Epoch.Moving hold what each handler keeps, Conservation what the plan adds
--   up to, PlanNeutral.Refinement the batches against the driver of crates/fusion-stake-math.
--
-- A market has 256 buckets, in four words of 64 bits; the loops run over lists, and over the digits
-- of a word, 64 of them, so they need no fuel. The width of a field is a hypothesis where a theorem
-- needs it.
--
-- Not modelled: the checks that Anchor makes of accounts before a handler runs, the derivation of
-- addresses and the events; the other handlers of the core and its oracle; the handlers
-- deposit_sol, deposit_stake, initialize_controller and initialize_pool of the controller, of which
-- only the instructions they build are here; the twins of the arithmetic and the harnesses for
-- other verifiers; the vendored stake pool, which the controller calls through `Chain`; clients,
-- scripts and tests.
pub mod Prelude
pub mod Bits
pub mod Wide
pub mod Money
pub mod RateBucket
pub mod Interest
pub mod Recovery
pub mod Redistribution
pub mod ReactorPool
pub mod Redemption
pub mod Fusd
pub mod Stake
pub mod StakeView
pub mod Controller

-- ===== src/Controller.antt =====
-- programs/fusion-stake-controller: the program that allocates the stake pool's lamports, epoch by
-- epoch, in a cycle of phases that anyone may crank.
mod Tests
pub mod Error
pub mod Constants
pub mod Logic
pub mod State
pub mod Cpi
pub mod Maintenance
pub mod Cycle
pub mod Records
pub mod PlanDirected
pub mod PlanNeutral
pub mod Rebalance
pub mod Preferences
pub mod Reconcile
pub mod Frame
pub mod Budget
pub mod Epoch
pub mod Conservation

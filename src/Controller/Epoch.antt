-- ===== src/Controller/Epoch.antt =====
-- programs/fusion-stake-controller: the cycle of an epoch as a transition system.
pub mod Planning
pub mod Rebalancing
pub mod Ledger
pub mod Counting
pub mod Moving
pub mod Invariant
use fusion_core.Prelude.{ℕ, ◌≡◌, Bool, List, Option, some, Result, ok}
use fusion_core.Stake.Preference.{Address}
use fusion_core.Controller.State.{EpochState, ValidatorRecord}
use fusion_core.Controller.Cpi.{Chain}
use fusion_core.Controller.Maintenance.{Keys, Crank}
use fusion_core.Controller.Cycle.{
  Clock, finalize_pool, close_preference_window, finalize_plan, finish_epoch,
}
use fusion_core.Controller.Records.{Records, put}
use fusion_core.Controller.Reconcile.{Quad, reconcile_batch}
use fusion_core.Controller.PlanDirected.{Pair, plan_directed_batch}
use fusion_core.Controller.PlanNeutral.{plan_neutral_batch}
use fusion_core.Controller.Rebalance.{Target, execute_next_action}

abbrev pub World : Type 0
World = Crank × Records

module _ ⦃chain : Chain⦄ where
  -- A crank that succeeds within an epoch: of anyone, at any time, with any accounts.
  pub data Steps : World → World → Type 0 where
    reconciles :
        {s t : World} (keys : Keys) (clock : Clock) (slots : ℕ) (quads : List Quad)
        → reconcile_batch keys clock slots quads s ≡ ok t
        → Steps s t
    finalizes :
        {w w' : Crank} {rs : Records} (keys : Keys) (clock : Clock) (slots : ℕ)
        → finalize_pool keys clock slots w ≡ ok w'
        → Steps (w, rs) (w', rs)
    closes :
        {w : Crank} {rs : Records} {es : EpochState} (clock : Clock)
        → close_preference_window clock w.es ≡ ok es
        → Steps (w, rs) (record w { es = es }, rs)
    directs :
        {s t : World} (keys : Keys) (clock : Clock) (stake_rent slots : ℕ) (pairs : List Pair)
        → plan_directed_batch keys clock stake_rent slots pairs s ≡ ok t
        → Steps s t
    distributes :
        {s t : World} (keys : Keys) (accounts : List (Address × Bool))
        → plan_neutral_batch keys accounts s ≡ ok t
        → Steps s t
    plans :
        {w w' : Crank} {rs : Records} (keys : Keys)
        → finalize_plan keys w ≡ ok w'
        → Steps (w, rs) (w', rs)
    acts :
        {w w' : Crank} {rs : Records} (keys : Keys) (target : Target) (stake_rent : ℕ)
        (key : Address) (r r' : ValidatorRecord)
        → rs key ≡ some r
        → execute_next_action keys target stake_rent w r ≡ ok (w', r')
        → Steps (w, rs) (w', put rs key r')
    finishes :
        {w w' : Crank} {rs : Records} (keys : Keys)
        → finish_epoch keys w ≡ ok w'
        → Steps (w, rs) (w', rs)

  pub data Reaches (s : World) : World → Type 0 where
    start : Reaches s s
    next : {t u : World} → Reaches s t → Steps t u → Reaches s u

-- ===== src/Stake/Lifecycle.antt =====
-- crates/fusion-stake-math/src/lifecycle.rs: the life of a validator in the pool.
pub mod History
use fusion_core.Prelude.{
  ℕ, ◌*◌, ◌^◌, ◌-◌, Bool, true, false, not, ◌&&◌, Option, none, some, ltb, leb, ◌==◌, if◌then◌else◌,
  saturating_add,
}
use fusion_core.Stake.{bps_of}

pub data ValidatorStatus : Type 0 where
  registered candidate active draining removable : ValidatorStatus

unfoldable pub as_u8 : ValidatorStatus → ℕ
as_u8 registered = 0
as_u8 candidate = 1
as_u8 active = 2
as_u8 draining = 3
as_u8 removable = 4

unfoldable pub from_u8 : ℕ → Option ValidatorStatus
from_u8 v =
    if v == 0
    then some registered
    else if v == 1
    then some candidate
    else if v == 2
    then some active
    else if v == 3
    then some draining
    else if v == 4
    then some removable
    else none

abbrev pub liveness_failure_epochs : ℕ
liveness_failure_epochs = 2

abbrev pub candidate_healthy_epochs : ℕ
candidate_healthy_epochs = 2

abbrev pub u8_max : ℕ
u8_max = 2 ^ 8 - 1

-- One completed epoch's observations of a validator.
pub record LifecycleInput : Type 0 where
  pub commission_ok : Bool
  pub liveness_ok : Bool
  pub consecutive_failures : ℕ
  pub consecutive_healthy : ℕ
  pub has_pool_stake : Bool
  pub guard_active : Bool
  pub zero_stake_and_target : Bool
  pub removal_delay_elapsed : Bool

pub record LifecycleOutcome : Type 0 where
  pub status : ValidatorStatus
  pub consecutive_failures : ℕ
  pub consecutive_healthy : ℕ
  pub increases_frozen : Bool

unfoldable pub failure_streak : LifecycleInput → ℕ
failure_streak i = if i.liveness_ok then 0 else saturating_add u8_max i.consecutive_failures 1

unfoldable pub healthy_streak : LifecycleInput → ℕ
healthy_streak i =
    if i.liveness_ok && i.has_pool_stake then saturating_add u8_max i.consecutive_healthy 1 else 0

-- Does a candidate or an active validator drain?
unfoldable pub drains : LifecycleInput → Bool
drains i =
    if not i.commission_ok
    then true
    else leb liveness_failure_epochs (failure_streak i) && not i.guard_active

unfoldable pub next_status : ValidatorStatus → LifecycleInput → ValidatorStatus
next_status registered i = registered
next_status removable i = removable
next_status draining i =
    if i.zero_stake_and_target && i.removal_delay_elapsed then removable else draining
next_status candidate i =
    if drains i
    then draining
    else if leb candidate_healthy_epochs (healthy_streak i)
    then active
    else candidate
next_status active i = if drains i then draining else active

unfoldable pub advance_lifecycle : ValidatorStatus → LifecycleInput → LifecycleOutcome
advance_lifecycle current i = record {
  status = next_status current i;
  consecutive_failures = failure_streak i;
  consecutive_healthy = healthy_streak i;
  increases_frozen = not i.liveness_ok;
}

unfoldable pub global_liveness_guard : ℕ → ℕ → Bool
global_liveness_guard healthy total = ltb (healthy * 2) total

unfoldable pub lifecycle_cap : ValidatorStatus → ℕ → ℕ → ℕ → ℕ
lifecycle_cap candidate total candidate_cap_bps active_cap_bps = bps_of total candidate_cap_bps
lifecycle_cap active total candidate_cap_bps active_cap_bps = bps_of total active_cap_bps
lifecycle_cap registered total candidate_cap_bps active_cap_bps = 0
lifecycle_cap draining total candidate_cap_bps active_cap_bps = 0
lifecycle_cap removable total candidate_cap_bps active_cap_bps = 0

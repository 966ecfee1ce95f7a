-- ===== src/Controller/Epoch/Ledger.antt =====
-- programs/fusion-stake-controller: the counters of an epoch against the instructions that the stake pool
-- was sent and the rewards that were transferred.
use fusion_core.Prelude.{
  ℕ, ◌+◌, ◌≡◌, refl, sym, ◌∙◌, ap, Bool, false, inl, inr, Bool-cases, ◌||◌, Option, none, some,
  map_some, unwrap_or, List, [], ◌∷◌, Returns, Returns-bind, Returns-skip, Returns-ok, checked_add,
  u64_max, ◌==◌, if◌then◌else◌, sum, not, arith,
}
use fusion_core.Prelude.Steps.{Returns-map, Returns-sum}
use fusion_core.Stake.Preference.{same_bytes}
use fusion_core.StakeView.Bytes.{u8_at, u64_le}
use fusion_core.Controller.Constants.{global_churn_cap_bps}
use fusion_core.Controller.Cpi.{
  Accounts, Chain, Instruction, invoke, transfer_reward, ix_increase_validator_stake,
  ix_decrease_validator_stake_with_reserve,
}
use fusion_core.Controller.Error.{check, or_overflow, call}
use fusion_core.Controller.Frame.{Frame}
use fusion_core.Controller.Maintenance.{Keys, Crank, pay, pay_crank_reward}
use fusion_core.Controller.State.{EpochState}
use fusion_core.Stake.Churn.{global_churn_budget}

-- Is it the tag of an instruction that moves a validator's stake?
abbrev pub moves_stake : Option ℕ → Bool
moves_stake none = false
moves_stake (some tag) =
    tag == ix_increase_validator_stake || tag == ix_decrease_validator_stake_with_reserve

-- The lamports that the pool reads in an instruction that moves stake, and none in another.
unfoldable pub lamports_of : Instruction → ℕ
lamports_of ix = if moves_stake (u8_at ix.ix_data 0) then unwrap_or 0 (u64_le ix.ix_data 1) else 0

-- The lamports that the pool was asked to move.
abbrev pub asked : List Instruction → ℕ
asked [] = 0
asked (ix ∷ ixs) = lamports_of ix + asked ixs

-- The budget is the cap's share of the pool's total.
abbrev pub IsCapped : EpochState → Type 0
IsCapped es = es.churn_budget_total ≡ global_churn_budget es.nav_total_lamports global_churn_cap_bps

-- What a crank moves and pays, it counts.
pub record Counts (w w' : Crank) : Type 0 where
  pub moved :
      asked w'.accounts.calls + w.es.churn_budget_used
      ≡ asked w.accounts.calls + w'.es.churn_budget_used
  pub paid :
      sum w'.accounts.payouts + w.es.epoch_payout_budget_used
      ≡ sum w.accounts.payouts + w'.es.epoch_payout_budget_used
  pub capped : IsCapped w.es → IsCapped w'.es

pub Counts-nothing : {w : Crank} → Counts w w
Counts-nothing = record { moved = refl; paid = refl; capped = λ h. h }

pub and-Counts : {a b c : Crank} → Counts a b → Counts b c → Counts a c
and-Counts f g = record {
  moved = omega (arith, f.moved, g.moved);
  paid = omega (arith, f.paid, g.paid);
  capped = λ h. g.capped (f.capped h);
}

-- The accounts after calls that move no stake.
pub record Quiet (a a' : Accounts) : Type 0 where
  pub calls : asked a'.calls ≡ asked a.calls
  pub payouts : sum a'.payouts ≡ sum a.payouts

pub Quiet-nothing : {a : Accounts} → Quiet a a
Quiet-nothing = record { calls = refl; payouts = refl }

pub and-Quiet : {a b c : Accounts} → Quiet a b → Quiet b c → Quiet a c
and-Quiet f g = record { calls = g.calls ∙ f.calls; payouts = g.payouts ∙ f.payouts }

-- The state but for what no one counts by.
pub record Kept (es es' : EpochState) : Type 0 where
  pub spent : es'.churn_budget_used ≡ es.churn_budget_used
  pub paid : es'.epoch_payout_budget_used ≡ es.epoch_payout_budget_used
  pub capped : IsCapped es → IsCapped es'

pub Kept-nothing : {es : EpochState} → Kept es es
Kept-nothing = record { spent = refl; paid = refl; capped = λ h. h }

pub and-Kept : {a b c : EpochState} → Kept a b → Kept b c → Kept a c
and-Kept f g = record {
  spent = g.spent ∙ f.spent;
  paid = g.paid ∙ f.paid;
  capped = λ h. g.capped (f.capped h);
}

pub Frame-Kept : {es es' : EpochState} → Frame es es' → Kept es es'
Frame-Kept f = record {
  spent = f.spent;
  paid = f.paid;
  capped = λ h. f.budget ∙ h ∙ ap (λ nav. global_churn_budget nav global_churn_cap_bps) (sym f.nav);
}

pub Kept-Counts : {w w' : Crank} → Kept w.es w'.es → Quiet w.accounts w'.accounts → Counts w w'
Kept-Counts k q = record {
  moved = omega (arith, k.spent, q.calls);
  paid = omega (arith, k.paid, q.payouts);
  capped = k.capped;
}

module _ ⦃chain : Chain⦄ where
  open chain use {process, transfer}

  -- A call adds what it asks for.
  pub invoke_lem :
      (ix : Instruction) (a : Accounts)
      → Returns
          (λ a'. (asked a'.calls ≡ lamports_of ix + asked a.calls) × (a'.payouts ≡ a.payouts))
          (call (invoke ix a))
  invoke_lem ix a = logged (process ix a)
    where
      logged :
          (o : Option Accounts)
          → Returns
              (λ a'. (asked a'.calls ≡ lamports_of ix + asked a.calls) × (a'.payouts ≡ a.payouts))
              (call (
                map_some {A = Accounts}
                  (λ after. record after { calls = ix ∷ a.calls; payouts = a.payouts })
                  o))
      logged none = record { holds = λ a' h. cc }
      logged (some after) = Returns-ok _ (refl, refl)

  pub invoke-Quiet :
      (ix : Instruction) (a : Accounts)
      → lamports_of ix ≡ 0
      → Returns (Quiet a) (call (invoke ix a))
  invoke-Quiet ix a e =
      Returns-map (invoke_lem ix a) (λ a' (calls, payouts). record {
        calls = omega (arith, calls, e);
        payouts = ap sum payouts;
      })

  transfer_reward_lem :
      (amount : ℕ) (a : Accounts)
      → Returns
          (λ a'. (a'.calls ≡ a.calls) × (sum a'.payouts ≡ amount + sum a.payouts))
          (call (transfer_reward amount a))
  transfer_reward_lem amount a = logged (transfer amount a.maintenance_vault a.crank_reward_account)
    where
      logged :
          (o : Option (ℕ × ℕ))
          → Returns
              (λ a'. (a'.calls ≡ a.calls) × (sum a'.payouts ≡ amount + sum a.payouts))
              (call (
                map_some
                  (λ moved. record a {
                    maintenance_vault = moved.0;
                    crank_reward_account = moved.1;
                    payouts = amount ∷ a.payouts;
                  })
                  o))
      logged none = record { holds = λ a' h. cc }
      logged (some moved) = Returns-ok _ (refl, refl)

  pay-Counts : (amount : ℕ) (w : Crank) → Returns (Counts w) (pay amount w)
  unfolding pay
  pay-Counts amount w = elim (Bool-cases (amount == 0)) [
    | inl nothing ↦ rw nothing (Returns-ok w Counts-nothing)
    | inr due ↦ rw due (
        Returns-bind (call (transfer_reward amount w.accounts)) _
          (transfer_reward_lem amount w.accounts)
          (λ a' (calls, payouts).
            Returns-bind (or_overflow (checked_add u64_max w.es.epoch_payout_budget_used amount)) _
              (Returns-sum u64_max w.es.epoch_payout_budget_used amount _)
              (λ used (total, _). Returns-ok _ (record {
                moved = ap (λ (ixs : List Instruction). asked ixs + w.es.churn_budget_used) calls;
                paid = omega (arith, payouts, total);
                capped = λ h. h;
              }))))
  ]

  pub pay_crank_reward-Counts :
      (keys : Keys) (reward : ℕ) (w : Crank) → Returns (Counts w) (pay_crank_reward keys reward w)
  unfolding pay_crank_reward
  pay_crank_reward-Counts keys reward w =
      Returns-skip (check (not (same_bytes keys.crank_reward_account keys.maintenance_vault)) _) _
        (λ _. pay-Counts _ w)

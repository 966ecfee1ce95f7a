-- ===== src/Controller/Preferences/Counting.antt =====
-- programs/fusion-stake-controller/src/instructions/snapshot_preference.rs: when the shares of a position
-- count.
use fusion_core.Prelude.{
  ℕ, ◌+◌, ◌≡◌, ◌≤◌, ◌<◌, refl, ◌∙◌, Bool, true, false, inl, inr, Bool-cases, not, ◌&&◌, ok, Returns,
  Returns-bind, Returns-skip, Returns-ok, checked_add, u64_max, ◌==◌, ltb, leb, arith,
}
use fusion_core.Stake.Preference.{Address, same_bytes, countable}
use fusion_core.StakeView.Position
use fusion_core.Prelude.Steps.{Returns-sum, Returns-test}
use fusion_core.Controller.Error.{check, or_overflow}
use fusion_core.Controller.Preferences.{
  ControllerConfig, PositionInfo, read_position, read_fusol_position, check_directable,
  open_preference, set_preference, sync_preference, preference_view, position_view, add_shares,
  snapshot_preference,
}
use fusion_core.Controller.State.{EpochState, ValidatorRecord, Preference, phase_preferences}

-- A preference as its owner set it, or as it was synchronized with a position that had changed, in an
-- epoch of the cluster.
pub data Written : Preference → ℕ → Type 0 where
  set :
      (pref : Preference) {pref' : Preference} (config : ControllerConfig) (owner : Address)
      (info : PositionInfo) (vote : Address) (r : ValidatorRecord) (epoch : ℕ)
      → set_preference config owner info vote r epoch pref ≡ ok pref'
      → Written pref' epoch
  synced :
      (pref : Preference) {pref' : Preference} (config : ControllerConfig) (info : PositionInfo)
      (position : Position.PositionView) (epoch : ℕ)
      → read_fusol_position config info ≡ ok position
      → (position.ink_nonce == pref.observed_ink_nonce && same_bytes position.owner pref.owner)
        ≡ false
      → sync_preference config info epoch pref ≡ ok pref'
      → Written pref' epoch

-- A preference that was counted in an epoch of the controller, and since then at most set and
-- synchronized.
pub data Counted (e : ℕ) : Preference → Type 0 where
  counted :
      (pref : Preference) {pref' : Preference} (r r' : ValidatorRecord) (config : ControllerConfig)
      (es : EpochState) (slot : ℕ) (info : PositionInfo)
      → es.controller_epoch ≡ e
      → snapshot_preference config es slot info (pref, r) ≡ ok (pref', r')
      → Counted e pref'
  then_set :
      (pref : Preference) {pref' : Preference} (config : ControllerConfig) (owner : Address)
      (info : PositionInfo) (vote : Address) (r : ValidatorRecord) (epoch : ℕ)
      → Counted e pref
      → set_preference config owner info vote r epoch pref ≡ ok pref'
      → Counted e pref'
  then_synced :
      (pref : Preference) {pref' : Preference} (config : ControllerConfig) (info : PositionInfo)
      (epoch : ℕ)
      → Counted e pref
      → sync_preference config info epoch pref ≡ ok pref'
      → Counted e pref'

open_preference_lem :
    (info : PositionInfo) (epoch : ℕ) (pref : Preference)
    → Returns
        (λ p. p.last_counted_epoch ≡ pref.last_counted_epoch)
        (open_preference info epoch pref)
unfolding open_preference
open_preference_lem info epoch pref = elim (Bool-cases (pref.version == 0)) [
  | inl fresh ↦ rw fresh (Returns-ok _ refl)
  | inr old ↦
      rw old (Returns-skip (check (not (pref.change_epoch == epoch)) _) _ (λ _. Returns-ok _ refl))
]

set_preference_lem :
    (config : ControllerConfig) (owner : Address) (info : PositionInfo) (vote : Address)
    (r : ValidatorRecord) (epoch : ℕ) (pref : Preference)
    → Returns
        (λ p.
          (p.eligible_from_epoch ≡ epoch + 1) × (p.last_counted_epoch ≡ pref.last_counted_epoch))
        (set_preference config owner info vote r epoch pref)
unfolding set_preference
set_preference_lem config owner info vote r epoch pref =
    Returns-skip (read_fusol_position config info) _ (λ position.
      Returns-skip (check (same_bytes position.owner owner) _) _ (λ _.
        Returns-skip (check_directable r) _ (λ _.
          Returns-bind (open_preference info epoch pref) _ (open_preference_lem info epoch pref)
            (λ opened same.
              Returns-bind (or_overflow (checked_add u64_max epoch 1)) _
                (Returns-sum u64_max epoch 1 _) (λ eligible (sum, _). Returns-ok _ (sum, same))))))

sync_preference_lem :
    (config : ControllerConfig) (info : PositionInfo) (epoch : ℕ) (pref : Preference)
    → Returns
        (λ p. p.last_counted_epoch ≡ pref.last_counted_epoch)
        (sync_preference config info epoch pref)
unfolding sync_preference
sync_preference_lem config info epoch pref =
    Returns-skip (read_fusol_position config info) _ (λ position.
      elim (Bool-cases
        (position.ink_nonce == pref.observed_ink_nonce && same_bytes position.owner pref.owner)) [
          | inl same ↦ rw same (Returns-ok _ refl)
          | inr changed ↦ rw changed (
              Returns-skip (or_overflow (checked_add u64_max epoch 1)) _
                (λ eligible. Returns-ok _ refl))
        ])

sync_preference-delays :
    (config : ControllerConfig) (info : PositionInfo) (position : Position.PositionView) (epoch : ℕ)
    (pref : Preference)
    → read_fusol_position config info ≡ ok position
    → (position.ink_nonce == pref.observed_ink_nonce && same_bytes position.owner pref.owner)
      ≡ false
    → Returns (λ p. p.eligible_from_epoch ≡ epoch + 1) (sync_preference config info epoch pref)
unfolding sync_preference
sync_preference-delays config info position epoch pref read changed =
    rw (read, changed)
      (Returns-bind (or_overflow (checked_add u64_max epoch 1)) _ (Returns-sum u64_max epoch 1 _)
        (λ eligible (sum, _). Returns-ok _ sum))

Written-eligible : {pref : Preference} {c : ℕ} → Written pref c → pref.eligible_from_epoch ≡ c + 1
Written-eligible (set pref {pref'} config owner info vote r epoch e) =
    ((set_preference_lem config owner info vote r epoch pref).holds pref' e).0
Written-eligible (synced pref {pref'} config info position epoch read changed e) =
    (sync_preference-delays config info position epoch pref read changed).holds pref' e

all_true :
    (a b c d e : Bool)
    → (a && (b && (c && (d && not e)))) ≡ true
    → (c ≡ true) × (d ≡ true) × (e ≡ false)
all_true true true true true false h = (refl, refl, refl)
all_true true true true true true h = cc
all_true true true true false e h = cc
all_true true true false d e h = cc
all_true true false c d e h = cc
all_true false b c d e h = cc

snapshot_lem :
    (config : ControllerConfig) (es : EpochState) (slot : ℕ) (info : PositionInfo)
    (pref : Preference) (r : ValidatorRecord)
    → Returns
        (λ (t : Preference × ValidatorRecord).
          (pref.eligible_from_epoch ≤ es.controller_epoch)
          × ((pref.last_counted_epoch == es.controller_epoch) ≡ false)
          × (t.0.last_counted_epoch ≡ es.controller_epoch))
        (snapshot_preference config es slot info (pref, r))
unfolding snapshot_preference countable preference_view position_view
snapshot_lem config es slot info pref r =
    Returns-skip (check (es.phase == phase_preferences) _) _ (λ _.
      Returns-skip (check (ltb slot es.preference_window_close_slot) _) _ (λ _.
        Returns-skip (read_position config info) _ (λ position.
          Returns-bind
            (check
              (countable (preference_view pref) (position_view position)
                config.fusol_collateral_mint es.controller_epoch)
              _)
            _
            (Returns-test
              (countable (preference_view pref) (position_view position)
                config.fusol_collateral_mint es.controller_epoch)
              _)
            (λ _ e.
              let (_, eligible, fresh) =
                all_true (same_bytes position.collateral_mint config.fusol_collateral_mint)
                  (same_bytes position.owner pref.owner)
                  (position.ink_nonce == pref.observed_ink_nonce)
                  (leb pref.eligible_from_epoch es.controller_epoch)
                  (pref.last_counted_epoch == es.controller_epoch) e in
              Returns-skip (check_directable r) _ (λ _.
                Returns-skip (add_shares r es.controller_epoch position.ink) _
                  (λ r'. Returns-ok _ (ground (arith, eligible), fresh, refl)))))))

-- A preference that was set, or synchronized with a position that had changed, in an epoch of the cluster
-- is not counted in that epoch of the controller, nor in an earlier one.
pub counts_later :
    {pref : Preference} {c : ℕ} (config : ControllerConfig) (es : EpochState) (slot : ℕ)
    (info : PositionInfo) (r : ValidatorRecord) (t : Preference × ValidatorRecord)
    → Written pref c
    → snapshot_preference config es slot info (pref, r) ≡ ok t
    → c < es.controller_epoch
counts_later {pref} {c} config es slot info r t w e =
    let (le, _, _) = (snapshot_lem config es slot info pref r).holds t e in
    omega (arith, Written-eligible w, le)

Counted-stamped : {e : ℕ} {pref : Preference} → Counted e pref → pref.last_counted_epoch ≡ e
Counted-stamped (counted pref {pref'} r r' config es slot info epoch h) =
    ((snapshot_lem config es slot info pref r).holds (pref', r') h).2 ∙ epoch
Counted-stamped (then_set pref {pref'} config owner info vote r epoch c h) =
    ((set_preference_lem config owner info vote r epoch pref).holds pref' h).1 ∙ Counted-stamped c
Counted-stamped (then_synced pref {pref'} config info epoch c h) =
    (sync_preference_lem config info epoch pref).holds pref' h ∙ Counted-stamped c

-- A preference that was counted in an epoch of the controller is not counted again in that epoch, however
-- it is set and synchronized in between.
pub counts_once :
    {pref : Preference} {e : ℕ} (config : ControllerConfig) (es : EpochState) (slot : ℕ)
    (info : PositionInfo) (r : ValidatorRecord) (t : Preference × ValidatorRecord)
    → Counted e pref
    → es.controller_epoch ≡ e
    → ¬ (snapshot_preference config es slot info (pref, r) ≡ ok t)
counts_once {pref} {e} config es slot info r t c epoch h =
    let (_, fresh, _) = (snapshot_lem config es slot info pref r).holds t h in
    let stamped = Counted-stamped c in ground (arith, fresh, stamped, epoch)

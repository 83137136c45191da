-- ===== src/Runtime/Recovery.antt =====
-- client_core/include/client_core/runtime/RecoveryResolver.h: which store the client starts from
-- after a cut-over. Ids and epochs are natural numbers; the tests `<= 0` and `> 0` read 0 and the
-- negative numbers alike.
use jitong_app.Base.{
  ℕ, ◌<◌, ◌≡◌, ◌↔◌, ◌⊎◌, Bool, true, false, not, ◌&&◌, ◌||◌, arith, ltb, ◌==◌, if◌then◌else◌,
}

pub data CutoverState : Type 0 where
  missing corrupt legacy prepared no_write dirty : CutoverState

pub data RecoveryAction : Type 0 where
  use_legacy use_native repair : RecoveryAction

abbrev same_state : CutoverState → CutoverState → Bool
same_state missing missing = true
same_state corrupt corrupt = true
same_state legacy legacy = true
same_state prepared prepared = true
same_state no_write no_write = true
same_state dirty dirty = true
same_state _ _ = false

pub record CutoverEvidence : Type 0 where
  pub state : CutoverState
  pub owner_id : ℕ
  pub epoch : ℕ

abbrev absent : CutoverEvidence → Bool
absent e = same_state e.state missing

abbrev valid : ℕ → CutoverEvidence → Bool
valid owner e =
    not (same_state e.state corrupt) && (absent e || (e.owner_id == owner && ltb 0 e.epoch))

unfoldable pub resolve_recovery :
    ℕ → CutoverEvidence → CutoverEvidence → Bool → Bool → RecoveryAction
resolve_recovery owner db mirror exists loadable =
    if owner == 0 || not (valid owner db) || not (valid owner mirror)
    then repair
    else if absent db && absent mirror
    then (if exists then repair else use_legacy)
    else if absent db
        || absent mirror
        || not (same_state db.state mirror.state)
        || not (db.epoch == mirror.epoch)
    then repair
    else if same_state db.state legacy || same_state db.state prepared
    then use_legacy
    else if same_state db.state no_write || same_state db.state dirty
    then (if exists && loadable then use_native else repair)
    else repair

-- Both pieces of evidence are of this owner, with one state and one positive epoch.
pub record Agree (owner : ℕ) (db mirror : CutoverEvidence) : Type 0 where
  pub owned : 0 < owner
  pub db_owner : db.owner_id ≡ owner
  pub mirror_owner : mirror.owner_id ≡ owner
  pub states : db.state ≡ mirror.state
  pub epochs : db.epoch ≡ mirror.epoch
  pub positive : 0 < db.epoch

-- The native store is used exactly if both pieces of evidence are of this owner and agree on the
-- state and on a positive epoch, the state says that the cut-over has happened (NoWrite or Dirty),
-- and the native store exists and can be loaded.
pub resolve_recovery-native :
    (owner : ℕ) (db mirror : CutoverEvidence) (exists loadable : Bool)
    → (resolve_recovery owner db mirror exists loadable ≡ use_native) ↔ (
        Agree owner db mirror
        × ((db.state ≡ no_write) ⊎ (db.state ≡ dirty))
        × (exists ≡ true)
        × (loadable ≡ true))
unfolding resolve_recovery
resolve_recovery-native owner db mirror exists loadable = (λ e. ground arith, λ e. ground arith)

-- The legacy store is used exactly if the owner's id is positive and either no evidence is there and
-- no native store exists, or both pieces of evidence are of this owner and agree on a positive epoch
-- and on the state Legacy or Prepared.
pub resolve_recovery-legacy :
    (owner : ℕ) (db mirror : CutoverEvidence) (exists loadable : Bool)
    → (resolve_recovery owner db mirror exists loadable ≡ use_legacy) ↔ (
        ((0 < owner) × (db.state ≡ missing) × (mirror.state ≡ missing) × (exists ≡ false))
        ⊎ (Agree owner db mirror × ((db.state ≡ legacy) ⊎ (db.state ≡ prepared))))
unfolding resolve_recovery
resolve_recovery-legacy owner db mirror exists loadable = (λ e. ground arith, λ e. ground arith)

-- ===== src/Wake.antt =====
-- src-tauri/src/wake_coordinator.rs: the set of wake reasons, and the sleep inhibitor that is
-- driven from it. `WakeCoordinator` holds the core behind the mutex and the shared log; a method
-- that takes `&self` and locks the core returns the new value beside its result.
pub mod Tests
pub mod Reasons
pub mod Laws
pub mod History
pub mod Calls
pub mod Events
pub mod Platform
pub mod Handles
use chiu.Common.{
  ◌≡◌, refl, List, [], ◌∷◌, String, Bool, true, false, not, ◌||◌, if◌then◌else◌, arith,
}
use chiu.Common.Result.{Result, ok, err, is_ok, is_err}
use chiu.Common.BTreeSet.{contains, insert, remove, is_empty, set_eq}
use chiu.Log.{SafeEvent, ProtectionAction, EventOutcome}
use chiu.Inhibitor.{NativeInhibitor, InhibitorState, Fault, facade_acquire, facade_release}
pub use Reasons.{WakeReason, automatic_download, manual_keep_awake, reason_ord}

pub data ProtectionState : Type 0 where
  inactive active : ProtectionState

pub record WakeSnapshot : Type 0 where
  pub active_reasons : List WakeReason
  pub protection_state : ProtectionState

-- The trait `SleepInhibitor`, over the inhibitor's own state `D` and its errors `E`, which
-- `to_string` displays.
pub record SleepInhibitor (D E : Type 0) : Type 0 where
  pub state : D → ProtectionState
  pub acquire : D → D × Result (Unit {0}) E
  pub release : D → D × Result (Unit {0}) E
  pub to_string : E → String

abbrev protection_of : InhibitorState → ProtectionState
protection_of InhibitorState.inactive = inactive
protection_of InhibitorState.active = active

-- `impl SleepInhibitor for IdleSleepInhibitor`.
abbrev pub idle_sleep_inhibitor :
    {D : Type 0} → NativeInhibitor D → (Fault → String) → SleepInhibitor D Fault
idle_sleep_inhibitor native to_string = record {
  state = λ d. protection_of (native.state d);
  acquire = facade_acquire native;
  release = facade_release native;
  to_string = to_string;
}

pub record WakeCoordinator (D : Type 0) : Type 0 where
  pub active_reasons : List WakeReason
  pub inhibitor : D
  pub log : List SafeEvent

abbrev pub log_event : {D : Type 0} → SafeEvent → WakeCoordinator D → WakeCoordinator D
log_event e w = record w { log = e ∷ w.log }

abbrev pub protection_eq : ProtectionState → ProtectionState → Bool
protection_eq inactive inactive = true
protection_eq active active = true
protection_eq _ _ = false

abbrev pub outcome_of {ℓ κ} : {A : Type ℓ} {E : Type κ} → Result A E → EventOutcome
outcome_of (ok _) = EventOutcome.succeeded
outcome_of (err _) = EventOutcome.failed

module _ {D E : Type 0} (inhibitor : SleepInhibitor D E) where
  unfoldable pub new : D → WakeCoordinator D
  new d = record { active_reasons = []; inhibitor = d; log = [] }

  unfoldable pub snapshot : WakeCoordinator D → WakeSnapshot
  snapshot w = record {
    active_reasons = w.active_reasons;
    protection_state = inhibitor.state w.inhibitor;
  }

  abbrev after_call :
      WakeCoordinator D → D × Result (Unit {0}) E → WakeCoordinator D × Result (Unit {0}) E
  after_call w (d, result) = (record w { inhibitor = d }, result)

  -- Acquire if there are reasons and no protection, release if it is the other way round.
  unfoldable pub reconcile : WakeCoordinator D → WakeCoordinator D × Result (Unit {0}) E
  reconcile w = elim (is_empty w.active_reasons) [
    | true ↦ elim (inhibitor.state w.inhibitor) [
      | active ↦ after_call w (inhibitor.release w.inhibitor)
      | inactive ↦ (w, ok tt)
    ]
    | false ↦ elim (inhibitor.state w.inhibitor) [
      | inactive ↦ after_call w (inhibitor.acquire w.inhibitor)
      | active ↦ (w, ok tt)
    ]
  ]

  abbrev with_reason : WakeReason → Bool → List WakeReason → List WakeReason
  with_reason reason wanted reasons =
      if wanted then insert reason reasons else remove reason reasons

  record_reasons : List WakeReason → WakeSnapshot → WakeCoordinator D → WakeCoordinator D
  record_reasons prior s w =
      if set_eq prior s.active_reasons
      then w
      else log_event
          (SafeEvent.wake_reasons_changed (contains automatic_download s.active_reasons)
            (contains manual_keep_awake s.active_reasons))
          w

  record_protection :
      ProtectionState → WakeSnapshot → Result (Unit {0}) E → WakeCoordinator D → WakeCoordinator D
  record_protection prior s result w =
      if not (protection_eq prior s.protection_state) || is_err result
      then log_event
          (SafeEvent.native_protection
            (if is_empty s.active_reasons
              then ProtectionAction.release
              else ProtectionAction.acquire)
            (outcome_of result))
          w
      else w

  abbrev returning : WakeSnapshot → Result (Unit {0}) E → Result WakeSnapshot E
  returning s (ok _) = ok s
  returning s (err e) = err e

  unfoldable pub set_reason_active :
      WakeReason → Bool → WakeCoordinator D → WakeCoordinator D × Result WakeSnapshot E
  unfolding reconcile snapshot record_reasons record_protection
  set_reason_active reason wanted w =
      let prior_protection = inhibitor.state w.inhibitor in
      let changed = record w { active_reasons = with_reason reason wanted w.active_reasons } in
      let (reconciled, result) = reconcile changed in
      let s = snapshot reconciled in
      (
        record_protection prior_protection s result (record_reasons w.active_reasons s reconciled),
        returning s result,
      )

  unfoldable pub shutdown : WakeCoordinator D → WakeCoordinator D × Result (Unit {0}) E
  unfolding reconcile
  shutdown w =
      let prior_protection = inhibitor.state w.inhibitor in
      let (reconciled, result) = reconcile (record w { active_reasons = [] }) in
      let noted : WakeCoordinator D =
        if is_empty w.active_reasons
        then reconciled
        else log_event (SafeEvent.wake_reasons_changed false false) reconciled in
      (
        if protection_eq prior_protection active || is_err result
            then log_event
                (SafeEvent.native_protection ProtectionAction.release (outcome_of result)) noted
            else noted,
        result,
      )

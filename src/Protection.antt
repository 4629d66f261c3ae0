-- ===== src/Protection.antt =====
-- src-tauri/src/automatic_protection.rs: the policy that turns the detector's intent, the settings
-- and the power source into the automatic wake reason. `AutomaticProtectionController` holds a
-- handle of the wake coordinator and the same log, so the model keeps the coordinator, with its
-- log, in the controller's state.
pub mod Tests
pub mod Policy
pub mod Laws
pub mod Service
pub mod Persisting
use chiu.Common.{
  String, Bool, true, false, not, ◌&&◌, ◌||◌, if◌then◌else◌, Option, none, some, is_some, bool_eq,
  List, ◌∷◌,
}
use chiu.Common.Result.{Result, ok, err}
use chiu.Log.{SafeEvent, EventOutcome}
use chiu.Wake.{
  WakeReason, automatic_download, SleepInhibitor, WakeCoordinator, WakeSnapshot, log_event,
  set_reason_active,
}

pub data PowerSource : Type 0 where
  external limited unknown : PowerSource

pub record AutomaticProtectionSettings : Type 0 where
  pub automatic_download_protection_enabled : Bool
  pub protect_on_battery : Bool

pub data AutomaticProtectionSuppression : Type 0 where
  automatic_disabled limited_power unknown_power : AutomaticProtectionSuppression

pub record AutomaticProtectionSnapshot : Type 0 where
  pub detector_intent : Bool
  pub settings : AutomaticProtectionSettings
  pub power_source : PowerSource
  pub desired_automatic_reason : Bool
  pub suppression_reason : Option AutomaticProtectionSuppression
  pub latest_coordination_failure : Option String

pub record AutomaticProtectionState : Type 0 where
  pub detector_intent : Bool
  pub settings : AutomaticProtectionSettings
  pub power_source : PowerSource
  pub last_commanded_desired : Bool
  pub latest_coordination_failure : Option String

pub record AutomaticProtectionController (D : Type 0) : Type 0 where
  pub state : AutomaticProtectionState
  pub coordinator : WakeCoordinator D

abbrev pub is_external : PowerSource → Bool
is_external external = true
is_external _ = false

unfoldable pub desired_automatic_reason : AutomaticProtectionState → Bool
desired_automatic_reason s =
    s.detector_intent
    && s.settings.automatic_download_protection_enabled
    && (s.settings.protect_on_battery || is_external s.power_source)

abbrev power_suppression : PowerSource → Option AutomaticProtectionSuppression
power_suppression limited = some limited_power
power_suppression unknown = some unknown_power
power_suppression external = none

unfoldable pub suppression_reason : AutomaticProtectionState → Option AutomaticProtectionSuppression
suppression_reason s =
    if not s.detector_intent || desired_automatic_reason s
    then none
    else if not s.settings.automatic_download_protection_enabled
    then some automatic_disabled
    else power_suppression s.power_source

unfoldable pub snapshot : AutomaticProtectionState → AutomaticProtectionSnapshot
snapshot s = record {
  detector_intent = s.detector_intent;
  settings = s.settings;
  power_source = s.power_source;
  desired_automatic_reason = desired_automatic_reason s;
  suppression_reason = suppression_reason s;
  latest_coordination_failure = s.latest_coordination_failure;
}

unfoldable pub suppression_name : Option AutomaticProtectionSuppression → String
suppression_name none = "none"
suppression_name (some automatic_disabled) = "automatic-disabled"
suppression_name (some limited_power) = "limited-power"
suppression_name (some unknown_power) = "unknown-power"

-- `==` on the optional suppression.
abbrev pub suppression_eq :
    Option AutomaticProtectionSuppression → Option AutomaticProtectionSuppression → Bool
suppression_eq none none = true
suppression_eq (some automatic_disabled) (some automatic_disabled) = true
suppression_eq (some limited_power) (some limited_power) = true
suppression_eq (some unknown_power) (some unknown_power) = true
suppression_eq _ _ = false

abbrev initial_state : AutomaticProtectionSettings → AutomaticProtectionState
initial_state settings = record {
  detector_intent = false;
  settings = settings;
  power_source = unknown;
  last_commanded_desired = false;
  latest_coordination_failure = none;
}

module _ {D E : Type 0} (inhibitor : SleepInhibitor D E) where
  unfoldable pub new :
      AutomaticProtectionSettings → WakeCoordinator D → AutomaticProtectionController D
  new settings coordinator = record { state = initial_state settings; coordinator = coordinator }

  -- The `match` on the coordinator's answer in `reconcile`.
  settle :
      AutomaticProtectionState
      → Bool
      → WakeCoordinator D × Result WakeSnapshot E
      → AutomaticProtectionController D
  settle s desired (w, ok _) = record {
    state = record s { latest_coordination_failure = none };
    coordinator = log_event (SafeEvent.automatic_reconciliation desired EventOutcome.succeeded) w;
  }
  settle s desired (w, err e) = record {
    state = record s { latest_coordination_failure = some (inhibitor.to_string e) };
    coordinator = log_event (SafeEvent.automatic_reconciliation desired EventOutcome.failed) w;
  }

  unfoldable pub reconcile : AutomaticProtectionController D → AutomaticProtectionController D
  unfolding settle
  reconcile c =
      let desired = desired_automatic_reason c.state in
      if bool_eq desired c.state.last_commanded_desired
        && not (is_some c.state.latest_coordination_failure)
      then c
      else settle (record c.state { last_commanded_desired = desired }) desired
          (set_reason_active inhibitor automatic_download desired c.coordinator)

  unfoldable pub record_eligibility :
      AutomaticProtectionSnapshot
      → AutomaticProtectionSnapshot
      → AutomaticProtectionController D
      → AutomaticProtectionController D
  record_eligibility previous current c =
      if not (bool_eq previous.desired_automatic_reason current.desired_automatic_reason)
        || not (suppression_eq previous.suppression_reason current.suppression_reason)
      then record c {
        coordinator =
            log_event
              (SafeEvent.automatic_eligibility_changed current.desired_automatic_reason
                (suppression_name current.suppression_reason))
              c.coordinator;
      }
      else c

  -- What the three setters share: change the state, reconcile, and record the eligibility.
  unfoldable pub apply_change :
      (AutomaticProtectionState → AutomaticProtectionState)
      → AutomaticProtectionController D
      → AutomaticProtectionController D × AutomaticProtectionSnapshot
  apply_change change c =
      let previous = snapshot c.state in
      let reconciled = reconcile (record c { state = change c.state }) in
      let current = snapshot reconciled.state in
      (record_eligibility previous current reconciled, current)

  unfoldable pub set_detector_intent :
      Bool
      → AutomaticProtectionController D
      → AutomaticProtectionController D × AutomaticProtectionSnapshot
  set_detector_intent b = apply_change (λ s. record s { detector_intent = b })

  unfoldable pub set_power_source :
      PowerSource
      → AutomaticProtectionController D
      → AutomaticProtectionController D × AutomaticProtectionSnapshot
  set_power_source p = apply_change (λ s. record s { power_source = p })

  unfoldable pub set_settings :
      AutomaticProtectionSettings
      → AutomaticProtectionController D
      → AutomaticProtectionController D × AutomaticProtectionSnapshot
  set_settings t = apply_change (λ s. record s { settings = t })

  -- The trait method `set_automatic_intent`; the error is the failure's text.
  unfoldable pub set_automatic_intent :
      Bool
      → AutomaticProtectionController D
      → AutomaticProtectionController D × Result (Unit {0}) String
  set_automatic_intent b c =
      let (c', s) = set_detector_intent b c in
      (c', elim s.latest_coordination_failure [ none ↦ ok tt | some failure ↦ err failure ])

-- ===== src/Log/Text.antt =====
-- src-tauri/src/local_log.rs, `SafeEvent::render` and `safe_version`: the text of an event. A version
-- is looked at by its characters: the ones outside ASCII, which take several bytes, are refused.
use chiu.Common.{
  ℕ, String, Bool, true, false, not, ◌&&◌, ◌||◌, ◌==◌, leb, ltb, if◌then◌else◌, Option, none, some,
  List, [], ◌∷◌, length,
}
use chiu.Common.Bytes.{codes}
use chiu.Log.{SafeEvent, EventOutcome, ProtectionAction, DetectorStateEvent, ManualCommandEvent}
use Prim.Native.String.{◌++◌}

unfoldable pub outcome_name : EventOutcome → String
outcome_name EventOutcome.succeeded = "succeeded"
outcome_name EventOutcome.failed = "failed"
outcome_name EventOutcome.rejected = "rejected"

unfoldable pub level : EventOutcome → String
level EventOutcome.succeeded = "INFO"
level EventOutcome.failed = "WARN"
level EventOutcome.rejected = "INFO"

unfoldable pub protection_action : ProtectionAction → String
protection_action ProtectionAction.acquire = "acquire"
protection_action ProtectionAction.release = "release"

unfoldable pub detector_state : DetectorStateEvent → String
detector_state DetectorStateEvent.idle = "idle"
detector_state DetectorStateEvent.active = "active"
detector_state DetectorStateEvent.hold = "hold"

unfoldable pub manual_command : ManualCommandEvent → String
manual_command ManualCommandEvent.start = "start"
manual_command ManualCommandEvent.add = "add"
manual_command ManualCommandEvent.convert = "convert"
manual_command ManualCommandEvent.stop = "stop"

abbrev bool_text : Bool → String
bool_text true = "true"
bool_text false = "false"

abbrev between : ℕ → ℕ → ℕ → Bool
between low high c = leb low c && leb c high

-- An ASCII letter or digit, a full stop, a hyphen or a plus sign.
abbrev pub is_version_byte : ℕ → Bool
is_version_byte c =
    between 48 57 c || between 65 90 c || between 97 122 c || c == 46 || c == 45 || c == 43

abbrev pub all_version_bytes : List ℕ → Bool
all_version_bytes [] = true
all_version_bytes (c ∷ cs) = is_version_byte c && all_version_bytes cs

abbrev pub is_empty_list : List ℕ → Bool
is_empty_list [] = true
is_empty_list (_ ∷ _) = false

abbrev pub is_redacted : List ℕ → Bool
is_redacted cs = is_empty_list cs || ltb 64 (length cs) || not (all_version_bytes cs)

unfoldable pub safe_version : Option String → String
safe_version none = "unknown"
safe_version (some version) = if is_redacted (codes version) then "redacted" else version

unfoldable pub updater_available : Option String → SafeEvent
updater_available version = SafeEvent.updater_available (safe_version version)

-- `version` is the package's, and `decimal` the text of a usize.
module _ (version : String) (decimal : ℕ → String) where
  unfoldable pub render : SafeEvent → String
  render SafeEvent.process_started = "INFO process.started version=" ++ version
  render SafeEvent.process_stopped = "INFO process.stopped"
  render SafeEvent.application_ready = "INFO application.ready"
  render SafeEvent.application_degraded = "WARN application.degraded"
  render SafeEvent.application_failed = "ERROR application.failed"
  render SafeEvent.shutdown_requested = "INFO application.shutdown-requested"
  render (SafeEvent.cleanup_failed capability) =
      "ERROR application.cleanup-failed capability=" ++ capability
  render (SafeEvent.optional_capability_unavailable capability) =
      "WARN capability.unavailable capability=" ++ capability
  render (SafeEvent.settings_loaded condition persistence recoveries) =
      "INFO settings.loaded condition="
      ++ condition
      ++ " persistence="
      ++ persistence
      ++ " recoveries="
      ++ decimal recoveries
  render (SafeEvent.settings_changed field) = "INFO settings.changed field=" ++ field
  render (SafeEvent.settings_write_failed field) = "WARN settings.write-failed field=" ++ field
  render (SafeEvent.manual_command command outcome) =
      level outcome
      ++ " manual.command command="
      ++ manual_command command
      ++ " outcome="
      ++ outcome_name outcome
  render (SafeEvent.manual_expired outcome) =
      level outcome ++ " manual.expired outcome=" ++ outcome_name outcome
  render (SafeEvent.detector_transition from to) =
      "INFO detector.transition from=" ++ detector_state from ++ " to=" ++ detector_state to
  render SafeEvent.detector_continuity_reset = "WARN detector.continuity-reset"
  render (SafeEvent.automatic_eligibility_changed eligible suppression) =
      "INFO automatic.eligibility eligible=" ++ bool_text eligible ++ " suppression=" ++ suppression
  render (SafeEvent.automatic_reconciliation active outcome) =
      level outcome
      ++ " automatic.reconciliation active="
      ++ bool_text active
      ++ " outcome="
      ++ outcome_name outcome
  render (SafeEvent.power_changed source health) =
      "INFO power.changed source=" ++ source ++ " health=" ++ health
  render (SafeEvent.wake_reasons_changed automatic manual) =
      "INFO wake.reasons-changed automatic="
      ++ bool_text automatic
      ++ " manual="
      ++ bool_text manual
  render (SafeEvent.native_protection action outcome) =
      level outcome
      ++ " wake.native-protection action="
      ++ protection_action action
      ++ " outcome="
      ++ outcome_name outcome
  render (SafeEvent.network_availability status) = "INFO network.availability status=" ++ status
  render SafeEvent.network_continuity_reset = "WARN network.continuity-reset"
  render (SafeEvent.network_topology_changed interfaces) =
      "INFO network.topology-changed interfaces=" ++ decimal interfaces
  render (SafeEvent.launch_at_login action outcome stage) =
      level outcome
      ++ " launch-at-login action="
      ++ action
      ++ " outcome="
      ++ outcome_name outcome
      ++ " stage="
      ++ stage
  render (SafeEvent.updater action outcome stage) =
      level outcome
      ++ " updater action="
      ++ action
      ++ " outcome="
      ++ outcome_name outcome
      ++ " stage="
      ++ stage
  render (SafeEvent.updater_available version) = "INFO updater.update-available version=" ++ version
  render (SafeEvent.diagnostics_action action outcome) =
      level outcome ++ " diagnostics action=" ++ action ++ " outcome=" ++ outcome_name outcome
  render (SafeEvent.presentation_failure stage) = "ERROR presentation.failed stage=" ++ stage

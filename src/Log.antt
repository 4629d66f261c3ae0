-- ===== src/Log.antt =====
-- src-tauri/src/local_log.rs: the events that the components record. A component's model keeps
-- the events of its run in a list, the newest first.
pub mod Writer
pub mod Shifting
pub mod Rotation
pub mod Local
pub mod Text
pub mod Redaction
pub mod Opening
pub mod Names
pub mod Pruning
pub mod Removal
pub mod Tests
use chiu.Common.{ℕ, String, Bool}

pub data EventOutcome : Type 0 where
  succeeded failed rejected : EventOutcome

pub data ProtectionAction : Type 0 where
  acquire release : ProtectionAction

pub data DetectorStateEvent : Type 0 where
  idle active hold : DetectorStateEvent

pub data ManualCommandEvent : Type 0 where
  start add convert stop : ManualCommandEvent

pub data SafeEvent : Type 0 where
  process_started process_stopped application_ready application_degraded : SafeEvent
  application_failed shutdown_requested : SafeEvent
  cleanup_failed : (capability : String) → SafeEvent
  optional_capability_unavailable : (capability : String) → SafeEvent
  settings_loaded : (condition persistence : String) (recoveries : ℕ) → SafeEvent
  settings_changed : (field : String) → SafeEvent
  settings_write_failed : (field : String) → SafeEvent
  manual_command : (command : ManualCommandEvent) (outcome : EventOutcome) → SafeEvent
  manual_expired : (outcome : EventOutcome) → SafeEvent
  detector_transition : (from to : DetectorStateEvent) → SafeEvent
  detector_continuity_reset : SafeEvent
  automatic_eligibility_changed : (eligible : Bool) (suppression : String) → SafeEvent
  automatic_reconciliation : (active : Bool) (outcome : EventOutcome) → SafeEvent
  power_changed : (source health : String) → SafeEvent
  wake_reasons_changed : (automatic manual : Bool) → SafeEvent
  native_protection : (action : ProtectionAction) (outcome : EventOutcome) → SafeEvent
  network_availability : (status : String) → SafeEvent
  network_continuity_reset : SafeEvent
  network_topology_changed : (interfaces : ℕ) → SafeEvent
  launch_at_login : (action : String) (outcome : EventOutcome) (stage : String) → SafeEvent
  updater : (action : String) (outcome : EventOutcome) (stage : String) → SafeEvent
  updater_available : (version : String) → SafeEvent
  diagnostics_action : (action : String) (outcome : EventOutcome) → SafeEvent
  presentation_failure : (stage : String) → SafeEvent

-- ===== src/Detector.antt =====
-- src-tauri/src/automatic_download.rs: the detector of sustained download activity. Durations are
-- nanoseconds. The monitor's intent consumer is the interface `IntentConsumer`.
pub mod Tests
pub mod Phases
pub mod Timing
pub mod Intent
pub mod Tuning
pub mod Persisting
use chiu.Common.{
  ℕ, ◌-◌, ◌*◌, ◌/◌, ◌≡◌, String, Bool, true, false, not, Option, none, some, if◌then◌else◌, leb,
  ◌==◌, min, List, [], ◌∷◌,
}
use chiu.Common.Result.{Result, ok, err}
use chiu.Common.Time.{saturating_add, nanos_per_second, from_secs}
use chiu.Log.{SafeEvent, DetectorStateEvent}
use chiu.Network.{
  ReceiveActivitySample, NetworkActivityEvent, sample, continuity_lost, availability_changed,
}

pub record AutomaticDownloadSettings : Type 0 where
  pub meaningful_receive_rate_bytes_per_second : ℕ
  pub activation_qualification : ℕ
  pub grace : ℕ

pub data AutomaticDownloadSettingsError : Type 0 where
  zero_meaningful_receive_rate zero_activation_qualification : AutomaticDownloadSettingsError

-- `AutomaticDownloadSettings::try_new`.
unfoldable pub try_new_settings :
    ℕ → ℕ → ℕ → Result AutomaticDownloadSettings AutomaticDownloadSettingsError
try_new_settings rate qualification grace =
    if rate == 0
    then err zero_meaningful_receive_rate
    else if qualification == 0
    then err zero_activation_qualification
    else ok (record {
      meaningful_receive_rate_bytes_per_second = rate;
      activation_qualification = qualification;
      grace = grace;
    })

abbrev pub default_settings : AutomaticDownloadSettings
default_settings = record {
  meaningful_receive_rate_bytes_per_second = 1024 * 1024;
  activation_qualification = from_secs 5;
  grace = from_secs 120;
}

pub data DetectorPhase : Type 0 where
  idle : (activation_elapsed : ℕ) → DetectorPhase
  active : DetectorPhase
  hold : (quiet_elapsed : ℕ) → DetectorPhase

pub data AutomaticDownloadState : Type 0 where
  idle active : AutomaticDownloadState
  hold : (remaining_grace : ℕ) → AutomaticDownloadState

pub record MonitorCore : Type 0 where
  pub phase : DetectorPhase
  pub latest_receive_rate_bytes_per_second : Option ℕ
  pub settings : AutomaticDownloadSettings

pub record AutomaticDownloadSnapshot : Type 0 where
  pub state : AutomaticDownloadState
  pub latest_receive_rate_bytes_per_second : Option ℕ
  pub settings : AutomaticDownloadSettings

-- The trait `AutomaticIntentConsumer`, over the consumer's state `S`, with the log that the monitor
-- shares with it.
pub record IntentConsumer (S : Type 0) : Type 0 where
  pub set_automatic_intent : Bool → S → S × Result (Unit {0}) String
  pub record_event : SafeEvent → S → S

pub record AutomaticDownloadMonitor (S : Type 0) : Type 0 where
  pub core : MonitorCore
  pub consumer : S

unfoldable pub reset : MonitorCore → MonitorCore
reset core = record core {
  phase = DetectorPhase.idle 0;
  latest_receive_rate_bytes_per_second = none;
}

abbrev pub receive_rate : ReceiveActivitySample → ℕ
receive_rate s = s.received_bytes * 1000000000 / s.observed_over

abbrev pub is_meaningful : AutomaticDownloadSettings → ReceiveActivitySample → Bool
is_meaningful t s = leb t.meaningful_receive_rate_bytes_per_second (receive_rate s)

-- The `match` of `apply_sample`.
unfoldable pub next_phase :
    AutomaticDownloadSettings → Bool → (observed_over : ℕ) → DetectorPhase → DetectorPhase
next_phase t meaningful observed_over (idle activation_elapsed) =
    if meaningful
    then (let elapsed =
          min (saturating_add activation_elapsed observed_over) t.activation_qualification in
        if leb t.activation_qualification elapsed then active else idle elapsed)
    else idle 0
next_phase t meaningful observed_over active =
    if not meaningful
    then (if leb t.grace observed_over then idle 0 else hold observed_over)
    else active
next_phase t meaningful observed_over (hold quiet_elapsed) =
    if meaningful
    then active
    else (let quiet = min (saturating_add quiet_elapsed observed_over) t.grace in
        if leb t.grace quiet then idle 0 else hold quiet)

unfoldable pub apply_sample : ReceiveActivitySample → MonitorCore → MonitorCore
apply_sample s core = record core {
  latest_receive_rate_bytes_per_second = some (receive_rate s);
  phase = next_phase core.settings (is_meaningful core.settings s) s.observed_over core.phase;
}

unfoldable pub detector_event : DetectorPhase → DetectorStateEvent
detector_event (idle _) = DetectorStateEvent.idle
detector_event active = DetectorStateEvent.active
detector_event (hold _) = DetectorStateEvent.hold

abbrev pub is_idle : DetectorPhase → Bool
is_idle (idle _) = true
is_idle _ = false

abbrev state_of : MonitorCore → DetectorPhase → AutomaticDownloadState
state_of core (idle _) = idle
state_of core active = active
state_of core (hold quiet_elapsed) = hold (core.settings.grace - quiet_elapsed)

unfoldable pub snapshot_from : MonitorCore → AutomaticDownloadSnapshot
snapshot_from core = record {
  state = state_of core core.phase;
  latest_receive_rate_bytes_per_second = core.latest_receive_rate_bytes_per_second;
  settings = core.settings;
}

-- The change that an event makes to the core.
unfoldable pub observe : NetworkActivityEvent → MonitorCore → MonitorCore
unfolding apply_sample reset
observe (sample s) core = apply_sample s core
observe (continuity_lost _) core = reset core
observe (availability_changed _) core = core

abbrev is_continuity_lost : NetworkActivityEvent → Bool
is_continuity_lost (continuity_lost _) = true
is_continuity_lost _ = false

abbrev state_event_eq : DetectorStateEvent → DetectorStateEvent → Bool
state_event_eq DetectorStateEvent.idle DetectorStateEvent.idle = true
state_event_eq DetectorStateEvent.active DetectorStateEvent.active = true
state_event_eq DetectorStateEvent.hold DetectorStateEvent.hold = true
state_event_eq _ _ = false

module _ {S : Type 0} (intent : IntentConsumer S) where
  unfoldable pub new : AutomaticDownloadSettings → S → AutomaticDownloadMonitor S
  new settings consumer = record {
    core = record {
      phase = DetectorPhase.idle 0;
      latest_receive_rate_bytes_per_second = none;
      settings = settings;
    };
    consumer = consumer;
  }

  record_continuity : NetworkActivityEvent → S → S
  record_continuity e s =
      if is_continuity_lost e then intent.record_event SafeEvent.detector_continuity_reset s else s

  record_transition : DetectorStateEvent → DetectorStateEvent → S → S
  record_transition before after s =
      if not (state_event_eq before after)
      then intent.record_event (SafeEvent.detector_transition before after) s
      else s

  unfoldable pub consume :
      NetworkActivityEvent → AutomaticDownloadMonitor S → AutomaticDownloadMonitor S
  unfolding record_continuity record_transition
  consume e m =
      let before = detector_event m.core.phase in
      let core' = observe e m.core in
      let after = detector_event core'.phase in
      let desired = not (is_idle core'.phase) in
      let told = (intent.set_automatic_intent desired m.consumer).0 in
      record { core = core'; consumer = record_transition before after (record_continuity e told) }

  unfoldable pub apply_settings :
      AutomaticDownloadSettings
      → AutomaticDownloadMonitor S
      → AutomaticDownloadMonitor S × AutomaticDownloadSnapshot
  unfolding reset
  apply_settings t m =
      let core' = reset (record m.core { settings = t }) in
      (
        record { core = core'; consumer = (intent.set_automatic_intent false m.consumer).0 },
        snapshot_from core',
      )

  unfoldable pub shutdown :
      AutomaticDownloadMonitor S → AutomaticDownloadMonitor S × Result (Unit {0}) String
  unfolding reset
  shutdown m =
      let (consumer', result) = intent.set_automatic_intent false m.consumer in
      (record { core = reset m.core; consumer = consumer' }, result)

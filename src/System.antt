-- ===== src/System.antt =====
-- The parts as src-tauri/src/product_composition.rs wires them: the detector drives the automatic
-- protection controller, which the power source observer and the settings drive too, and the
-- controller and the manual session share one wake coordinator and one log. Each part's call runs
-- under that part's lock, so a run of the threads is a sequence of calls.
pub mod Coherence
pub mod Causes
pub mod Reasons
pub mod Feed
pub mod Tests
use chiu.Common.{Option, none, String, Bool, List, [], ◌∷◌, ℕ}
use chiu.Common.Result.{Result}
use chiu.Wake.{SleepInhibitor, WakeCoordinator, log_event}
use chiu.Wake
use chiu.Protection.{
  PowerSource, AutomaticProtectionSettings, AutomaticProtectionState, AutomaticProtectionController,
  set_automatic_intent, set_settings,
}
use chiu.Protection
use chiu.Power.{
  PowerSourceFailure, PowerSourceObserverSnapshot, PowerSourceObserver, initial_snapshot, publish,
  stopped,
}
use chiu.Network.{NetworkActivityEvent}
use chiu.Detector.{
  AutomaticDownloadSettings, MonitorCore, IntentConsumer, AutomaticDownloadMonitor, consume,
  apply_settings, shutdown,
}
use chiu.Detector
use chiu.Manual.{
  ManualSessionCommand, ManualSessionCore, ManualSession, command, expire_due,
  request_scheduler_shutdown,
}
use chiu.Manual

pub record System (D : Type 0) : Type 0 where
  pub detector : MonitorCore
  pub protection : AutomaticProtectionState
  pub power : PowerSourceObserverSnapshot
  pub manual : ManualSessionCore
  pub coordinator : WakeCoordinator D

-- The calls that the threads make, and the cleanups of the lifecycle: `stop_coordinator` is the
-- coordinator's, which comes last.
pub data Action : Type 0 where
  network : NetworkActivityEvent → Action
  tune : AutomaticDownloadSettings → Action
  stop_detector : Action
  power_report : Result PowerSource PowerSourceFailure → Action
  power_end : Option PowerSourceFailure → Action
  change_settings : AutomaticProtectionSettings → Action
  manual_command : ManualSessionCommand → (now later : ℕ) → Action
  manual_timer : (now : ℕ) → Action
  stop_manual : Action
  stop_coordinator : Action

module _ {D E : Type 0} (i : SleepInhibitor D E) where
  -- `impl AutomaticIntentConsumer for AutomaticProtectionController`.
  abbrev pub controller_consumer : IntentConsumer (AutomaticProtectionController D)
  controller_consumer = record {
    set_automatic_intent = set_automatic_intent i;
    record_event = λ e c. record c { coordinator = log_event e c.coordinator };
  }

  abbrev pub controller : System D → AutomaticProtectionController D
  controller s = record { state = s.protection; coordinator = s.coordinator }

  abbrev pub with_controller : System D → AutomaticProtectionController D → System D
  with_controller s c = record s { protection = c.state; coordinator = c.coordinator }

  abbrev pub monitor : System D → AutomaticDownloadMonitor (AutomaticProtectionController D)
  monitor s = record { core = s.detector; consumer = controller s }

  abbrev pub with_monitor :
      System D → AutomaticDownloadMonitor (AutomaticProtectionController D) → System D
  with_monitor s m = record (with_controller s m.consumer) { detector = m.core }

  abbrev pub observer : System D → PowerSourceObserver D
  observer s = record { state = s.power; controller = controller s }

  abbrev pub with_observer : System D → PowerSourceObserver D → System D
  with_observer s o = record (with_controller s o.controller) { power = o.state }

  abbrev pub session : System D → ManualSession D
  session s = record { core = s.manual; coordinator = s.coordinator }

  abbrev pub with_session : System D → ManualSession D → System D
  with_session s m = record s { manual = m.core; coordinator = m.coordinator }

  unfoldable pub start : AutomaticDownloadSettings → AutomaticProtectionSettings → D → System D
  start detection protection d =
      let w = Wake.new i d in
      let c = Protection.new i protection w in
      record {
        detector = (Detector.new controller_consumer detection c).core;
        protection = c.state;
        power = initial_snapshot;
        manual = (Manual.new i w).core;
        coordinator = w;
      }

  unfoldable pub step : Action → System D → System D
  step (network e) s = with_monitor s (consume controller_consumer e (monitor s))
  step (tune t) s = with_monitor s (apply_settings controller_consumer t (monitor s)).0
  step stop_detector s = with_monitor s (shutdown controller_consumer (monitor s)).0
  step (power_report r) s = with_observer s (publish i r (observer s))
  step (power_end f) s = with_observer s (stopped i f (observer s))
  step (change_settings t) s = with_controller s (set_settings i t (controller s)).0
  step (manual_command c now later) s = with_session s (command i c now later (session s)).0
  step (manual_timer now) s = with_session s (expire_due i now (session s))
  step stop_manual s = with_session s (request_scheduler_shutdown i (session s))
  step stop_coordinator s = record s { coordinator = (Wake.shutdown i s.coordinator).0 }

  unfoldable pub run : List Action → System D → System D
  run [] s = s
  run (a ∷ actions) s = run actions (step a s)

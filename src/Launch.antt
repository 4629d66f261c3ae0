-- ===== src/Launch.antt =====
-- src-tauri/src/launch_at_login.rs: the saved choice and the registration with the operating system.
-- The adapter is a parameter; the service has the same log as the settings service, so the records
-- go to that one. `none` as an answer is a panic of the settings.
pub mod Laws
pub mod Toggling
pub mod Tests
use chiu.Common.{
  String, Bool, true, false, not, if◌then◌else◌, Option, none, some, bool_eq, List, ◌∷◌,
}
use chiu.Common.Result.{Result, ok, err}
use chiu.Log.{SafeEvent, EventOutcome}
use chiu.Settings.{Settings, SettingsUpdate, SettingsUpdateError, PersistenceCondition}
use chiu.Settings.Files.{FileSystem, Serde, AtomicReplace}
use chiu.Settings.Service.{update}
use chiu.Settings.Step.{SettingsService, Stop, returned, panicked}

-- The trait, over a state of the operating system; errors are their texts.
pub record LaunchAtLoginAdapter (A : Type 0) : Type 0 where
  pub observe : A → A × Result Bool String
  pub set_enabled : Bool → A → A × Result (Unit {0}) String

pub data Registration : Type 0 where
  enabled disabled unknown : Registration

pub data LaunchAtLoginFailureStage : Type 0 where
  initialize enable disable verify : LaunchAtLoginFailureStage

pub record LaunchAtLoginFailure : Type 0 where
  pub stage : LaunchAtLoginFailureStage
  pub message : String

pub data LaunchAtLoginCommandError : Type 0 where
  unavailable : LaunchAtLoginCommandError
  settings : SettingsUpdateError → LaunchAtLoginCommandError
  native : LaunchAtLoginFailure → LaunchAtLoginCommandError

pub record LaunchAtLoginSnapshot : Type 0 where
  pub desired : Bool
  pub observed : Registration
  pub available : Bool
  pub latest_failure : Option LaunchAtLoginFailure

pub data LaunchAtLoginBackend : Type 0 where
  available : LaunchAtLoginBackend
  unavailable : LaunchAtLoginFailure → LaunchAtLoginBackend

-- The service, with its state, and the operating system that its adapter calls.
pub record LaunchAtLoginService (F A : Type 0) : Type 0 where
  pub settings : SettingsService F
  pub backend : LaunchAtLoginBackend
  pub observed : Registration
  pub latest_failure : Option LaunchAtLoginFailure
  pub system : A

abbrev pub registration : Bool → Registration
registration true = enabled
registration false = disabled

unfoldable pub launch_failure_stage : LaunchAtLoginFailureStage → String
launch_failure_stage initialize = "initialize"
launch_failure_stage enable = "enable"
launch_failure_stage disable = "disable"
launch_failure_stage verify = "verify"

abbrev is_available : LaunchAtLoginBackend → Bool
is_available available = true
is_available (unavailable _) = false

abbrev pub is_writable : PersistenceCondition → Bool
is_writable PersistenceCondition.writable = true
is_writable _ = false

abbrev pub new_failure : LaunchAtLoginFailureStage → String → LaunchAtLoginFailure
new_failure stage message = record { stage = stage; message = message }

abbrev observed_registration : Result Bool String → Registration
observed_registration (ok b) = registration b
observed_registration (err _) = unknown

module _ {F A : Type 0} where
  unfoldable pub new_available : SettingsService F → A → LaunchAtLoginService F A
  new_available service system = record {
    settings = service;
    backend = available;
    observed = unknown;
    latest_failure = none;
    system = system;
  }

  unfoldable pub new_unavailable :
      SettingsService F → LaunchAtLoginFailure → A → LaunchAtLoginService F A
  new_unavailable service failure system = record {
    settings = service;
    backend = unavailable failure;
    observed = unknown;
    latest_failure = some failure;
    system = system;
  }

  -- The choice that is saved.
  abbrev pub saved : LaunchAtLoginService F A → Bool
  saved s = s.settings.state.snapshot.launch_at_login

  unfoldable pub snapshot : LaunchAtLoginService F A → LaunchAtLoginSnapshot
  snapshot s = record {
    desired = saved s;
    observed = s.observed;
    available = is_available s.backend;
    latest_failure = s.latest_failure;
  }

  abbrev record_event : SafeEvent → LaunchAtLoginService F A → LaunchAtLoginService F A
  record_event e s = record s { settings = record s.settings { log = e ∷ s.settings.log } }

  unfoldable pub record_success :
      Bool
      → LaunchAtLoginService F A
      → LaunchAtLoginService F A × Result LaunchAtLoginSnapshot LaunchAtLoginFailure
  record_success observed s =
      let s' =
        record_event (SafeEvent.launch_at_login "reconcile" EventOutcome.succeeded "verified")
          (record s { observed = registration observed; latest_failure = none }) in
      (s', ok (snapshot s'))

  unfoldable pub record_failure :
      Registration
      → LaunchAtLoginFailureStage
      → String
      → LaunchAtLoginService F A
      → LaunchAtLoginService F A × Result LaunchAtLoginSnapshot LaunchAtLoginFailure
  record_failure observed stage message s = (
    record_event
        (SafeEvent.launch_at_login "reconcile" EventOutcome.failed (launch_failure_stage stage))
        (record s { observed = observed; latest_failure = some (new_failure stage message) }),
    err (new_failure stage message),
  )

  -- What follows the two calls of the adapter in `apply_and_verify`.
  abbrev pub verified :
      Bool
      → Result (Unit {0}) String
      → Result Bool String
      → LaunchAtLoginService F A
      → LaunchAtLoginService F A × Result LaunchAtLoginSnapshot LaunchAtLoginFailure
  verified desired (err message) verification s =
      record_failure (observed_registration verification) (if desired then enable else disable)
        message s
  verified desired (ok _) (err message) s = record_failure unknown verify message s
  verified desired (ok _) (ok observed) s =
      if bool_eq observed desired
      then record_success observed s
      else record_failure (registration observed) verify
          "observed registration did not match the saved preference" s

  abbrev pub native_answer :
      LaunchAtLoginService F A × Result LaunchAtLoginSnapshot LaunchAtLoginFailure
      → LaunchAtLoginService F A × Option (Result LaunchAtLoginSnapshot LaunchAtLoginCommandError)
  native_answer (s, ok shown) = (s, some (ok shown))
  native_answer (s, err failure) = (s, some (err (native failure)))

module _ {F A : Type 0} (adapter : LaunchAtLoginAdapter A) where
  unfoldable pub apply_and_verify :
      Bool
      → LaunchAtLoginService F A
      → LaunchAtLoginService F A × Result LaunchAtLoginSnapshot LaunchAtLoginFailure
  apply_and_verify desired s =
      let (a1, applied) = adapter.set_enabled desired s.system in
      let (a2, verification) = adapter.observe a1 in
      verified desired applied verification (record s { system = a2 })

  abbrev as_observed :
      Bool
      → Result Bool String
      → LaunchAtLoginService F A
      → LaunchAtLoginService F A × Result LaunchAtLoginSnapshot LaunchAtLoginFailure
  as_observed desired (err _) s = apply_and_verify desired s
  as_observed desired (ok observed) s =
      if bool_eq observed desired then record_success observed s else apply_and_verify desired s

  unfoldable pub reconcile_locked :
      Bool
      → LaunchAtLoginService F A
      → LaunchAtLoginService F A × Result LaunchAtLoginSnapshot LaunchAtLoginFailure
  reconcile_locked desired s =
      let (a, observed) = adapter.observe s.system in
      as_observed desired observed (record s { system = a })

  abbrev reconcile_with :
      LaunchAtLoginBackend
      → LaunchAtLoginService F A
      → LaunchAtLoginService F A × Result LaunchAtLoginSnapshot LaunchAtLoginFailure
  reconcile_with (unavailable failure) s = (s, err failure)
  reconcile_with available s =
      if is_writable s.settings.state.health.persistence
      then reconcile_locked (saved s) s
      else record_failure unknown verify "saved launch-at-login preference is unavailable" s

  unfoldable pub reconcile :
      LaunchAtLoginService F A
      → LaunchAtLoginService F A × Result LaunchAtLoginSnapshot LaunchAtLoginFailure
  reconcile s = reconcile_with s.backend s

  abbrev pub after_update :
      Bool
      → LaunchAtLoginService F A
      → SettingsService F × Result Settings Stop
      → LaunchAtLoginService F A × Option (Result LaunchAtLoginSnapshot LaunchAtLoginCommandError)
  after_update target s (settings', ok _) =
      native_answer (apply_and_verify target (record s { settings = settings' }))
  after_update target s (settings', err (returned e)) =
      (record s { settings = settings' }, some (err (settings e)))
  after_update target s (settings', err panicked) = (record s { settings = settings' }, none)

  module _ {B : Type 0} (fs : FileSystem F B) (serde : Serde B) (replacer : AtomicReplace F) where
    abbrev pub toggle_with :
        LaunchAtLoginBackend
        → LaunchAtLoginService F A
        → LaunchAtLoginService F A × Option (Result LaunchAtLoginSnapshot LaunchAtLoginCommandError)
    toggle_with (unavailable _) s = (s, some (err unavailable))
    toggle_with available s =
        let target = not (saved s) in
        after_update target s
          (update fs serde replacer (SettingsUpdate.launch_at_login target) s.settings)

    unfoldable pub toggle :
        LaunchAtLoginService F A
        → LaunchAtLoginService F A × Option (Result LaunchAtLoginSnapshot LaunchAtLoginCommandError)
    toggle s = toggle_with s.backend s

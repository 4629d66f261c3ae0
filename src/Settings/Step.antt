-- ===== src/Settings/Step.antt =====
-- The state of `SettingsService` in src-tauri/src/settings.rs, with the directory's files and the
-- count of quarantines, and the steps of an update as a monad of state, error and panic.
use chiu.Common.{ℕ, Bool, true, false, Option, none, some, List, [], ◌∷◌, ◌++◌}
use chiu.Common.Result.{Result, ok, err}
use chiu.Log.{SafeEvent}
use chiu.Settings.{
  Settings, SettingsHealth, LoadCondition, quarantine_cleanup, SettingsPersistenceFailure,
  PersistenceCondition, SettingsUpdateError,
}

pub record SettingsState (F : Type 0) : Type 0 where
  pub snapshot : Settings
  pub health : SettingsHealth
  pub preservation_required : Bool
  pub files : F
  pub next_quarantine : ℕ

pub record SettingsService (F : Type 0) : Type 0 where
  pub state : SettingsState F
  pub log : List SafeEvent

-- The two checks before a change is tried.
abbrev pub blocked : LoadCondition → PersistenceCondition → Option SettingsUpdateError
blocked (LoadCondition.unsupported_future_schema version) p =
    some (SettingsUpdateError.unsupported_future_schema version)
blocked _ PersistenceCondition.unavailable =
    some (SettingsUpdateError.persistence SettingsPersistenceFailure.unavailable)
blocked _ _ = none

-- The conditions under which the primary file is kept before it is overwritten.
abbrev pub needs_preservation : LoadCondition → Bool
needs_preservation LoadCondition.schema_metadata_recovered = true
needs_preservation LoadCondition.malformed_defaulted = true
needs_preservation LoadCondition.recovered_from_backup = true
needs_preservation _ = false

-- How a step of an update ends early: the error that it returns, or a panic.
pub data Stop : Type 0 where
  returned : SettingsUpdateError → Stop
  panicked : Stop

abbrev pub Step : Type 0 → Type 0 → Type 0
Step F A = SettingsState F → SettingsState F × Result A Stop

module _ {F A C : Type 0} where
  abbrev pub continue :
      SettingsState F × Result A Stop → (A → Step F C) → SettingsState F × Result C Stop
  continue (s, ok a) next = next a s
  continue (s, err e) next = (s, err e)

  infixl 5 ◌>>=◌
  abbrev pub ◌>>=◌ : Step F A → (A → Step F C) → Step F C
  ◌>>=◌ m next s = continue (m s) next

infixl 5 ◌>>◌
abbrev pub ◌>>◌ : {F C : Type 0} → Step F (Unit {0}) → Step F C → Step F C
m >> next = m >>= λ _. next

module _ {F : Type 0} where
  abbrev pub return : {A : Type 0} → A → Step F A
  return a s = (s, ok a)

  abbrev pub gets : {A : Type 0} → (SettingsState F → A) → Step F A
  gets f s = (s, ok (f s))

  abbrev pub modify : (SettingsState F → SettingsState F) → Step F (Unit {0})
  modify f s = (f s, ok tt)

  abbrev pub stop : {A : Type 0} → SettingsUpdateError → Step F A
  stop e s = (s, err (returned e))

  abbrev pub when : Bool → Step F (Unit {0}) → Step F (Unit {0})
  when true m = m
  when false m = return tt

  -- `record_persistence_failure`, and the error that it gives is returned.
  unfoldable pub record_persistence_failure : {A : Type 0} → SettingsPersistenceFailure → Step F A
  record_persistence_failure failure s = (
    record s { health = record s.health { last_save_failure = some failure } },
    err (returned (SettingsUpdateError.persistence failure)),
  )

  -- `expect`
  abbrev pub expect : {A : Type 0} → Option A → Step F A
  expect none s = (s, err panicked)
  expect (some a) s = (s, ok a)

  abbrev pub or_failure : {A : Type 0} → SettingsPersistenceFailure → Option A → Step F A
  or_failure failure none = record_persistence_failure failure
  or_failure failure (some a) = return a

  abbrev pub settled : SettingsPersistenceFailure → Bool → Step F (Unit {0})
  settled failure true = return tt
  settled failure false = record_persistence_failure failure

  -- An operation on the files, and the failure that it is recorded as.
  abbrev pub on_files : SettingsPersistenceFailure → (F → F × Bool) → Step F (Unit {0})
  on_files failure operation s =
      let (f, succeeded) = operation s.files in settled failure succeeded (record s { files = f })

  abbrev pub warned : F × Bool → SettingsState F → SettingsState F
  warned (f, true) s = record s { files = f }
  warned (f, false) s = record s {
    files = f;
    health = record s.health {
      artifact_warnings = s.health.artifact_warnings ++ quarantine_cleanup ∷ [];
    };
  }

  abbrev pub unless_stopped : Option SettingsUpdateError → Step F (Unit {0})
  unless_stopped none = return tt
  unless_stopped (some e) = stop e

  abbrev pub applied : Result Settings SettingsUpdateError → Step F Settings
  applied (ok settings) = return settings
  applied (err e) = stop e

-- ===== src/Settings.antt =====
-- src-tauri/src/settings.rs: the settings with their changes, and the values that describe how they
-- were loaded and saved. The children model the document, the files, loading and the service.
pub mod Json
pub mod Persisted
pub mod Document
pub mod RoundTrip
pub mod Recovery
pub mod Fitting
pub mod Files
pub mod Loading
pub mod Step
pub mod Service
pub mod Disk
pub mod Leaving
pub mod Conditions
pub mod Staging
pub mod Updating
pub mod Starting
pub mod Reloading
pub mod Blocking
pub mod Succeeding
pub mod Answers
pub mod Tests
use chiu.Common.{
  ℕ, String, Bool, true, false, not, ◌&&◌, Option, none, some, is_some, List, [], ◌∷◌,
}
use chiu.Common.Result.{Result, ok, err}
use chiu.Common.Time.{from_millis, as_millis}
use chiu.Detector.{
  AutomaticDownloadSettings, AutomaticDownloadSettingsError, try_new_settings, default_settings,
}

pub record Settings : Type 0 where
  pub automatic_download_protection_enabled : Bool
  pub protect_on_battery : Bool
  pub launch_at_login : Bool
  pub automatic_update_checks_enabled : Bool
  pub last_automatic_update_check_unix_seconds : Option ℕ
  pub automatic_download : AutomaticDownloadSettings

abbrev pub default : Settings
default = record {
  automatic_download_protection_enabled = true;
  protect_on_battery = false;
  launch_at_login = true;
  automatic_update_checks_enabled = true;
  last_automatic_update_check_unix_seconds = none;
  automatic_download = default_settings;
}

pub data LoadCondition : Type 0 where
  first_run current_version partial_recovery recovered_from_backup : LoadCondition
  malformed_defaulted persistence_unavailable schema_metadata_recovered : LoadCondition
  unsupported_future_schema : (found : ℕ) → LoadCondition

pub data PersistenceCondition : Type 0 where
  writable unavailable blocked_by_future_schema : PersistenceCondition

unfoldable pub load_condition_name : LoadCondition → String
load_condition_name first_run = "first-run"
load_condition_name current_version = "current-version"
load_condition_name partial_recovery = "partial-recovery"
load_condition_name recovered_from_backup = "recovered-from-backup"
load_condition_name malformed_defaulted = "malformed-defaulted"
load_condition_name persistence_unavailable = "persistence-unavailable"
load_condition_name schema_metadata_recovered = "schema-metadata-recovered"
load_condition_name (unsupported_future_schema _) = "unsupported-future-schema"

unfoldable pub persistence_condition_name : PersistenceCondition → String
persistence_condition_name writable = "writable"
persistence_condition_name unavailable = "unavailable"
persistence_condition_name blocked_by_future_schema = "blocked-future-schema"

pub data ArtifactWarning : Type 0 where
  stale_temporary quarantine_failed quarantine_cleanup : ArtifactWarning

pub data SettingPath : Type 0 where
  automatic_download_protection_enabled protect_on_battery launch_at_login : SettingPath
  automatic_update_checks_enabled last_automatic_update_check_unix_seconds : SettingPath
  meaningful_receive_rate_bytes_per_second activation_qualification_milliseconds : SettingPath
  grace_milliseconds : SettingPath

pub data RecoveryReason : Type 0 where
  missing wrong_type invalid_value : RecoveryReason

pub record FieldRecovery : Type 0 where
  pub path : SettingPath
  pub reason : RecoveryReason

pub data SettingsPersistenceFailure : Type 0 where
  unavailable create_directory preserve_source serialize : SettingsPersistenceFailure
  write_backup write_primary replace_backup replace_primary : SettingsPersistenceFailure

pub record SettingsHealth : Type 0 where
  pub load_condition : LoadCondition
  pub field_recoveries : List FieldRecovery
  pub persistence : PersistenceCondition
  pub artifact_warnings : List ArtifactWarning
  pub last_save_failure : Option SettingsPersistenceFailure

pub data SettingsUpdate : Type 0 where
  automatic_download_protection_enabled protect_on_battery launch_at_login : Bool → SettingsUpdate
  automatic_update_checks_enabled : Bool → SettingsUpdate
  last_automatic_update_check_unix_seconds : Option ℕ → SettingsUpdate
  automatic_download_tuning :
      (meaningful_receive_rate_bytes_per_second activation_qualification_milliseconds
        grace_milliseconds : ℕ)
      → SettingsUpdate

pub data SettingsUpdateError : Type 0 where
  invalid_automatic_download : AutomaticDownloadSettingsError → SettingsUpdateError
  persistence : SettingsPersistenceFailure → SettingsUpdateError
  unsupported_future_schema : ℕ → SettingsUpdateError

unfoldable pub settings_update_field : SettingsUpdate → String
settings_update_field (automatic_download_protection_enabled _) = "automatic-protection"
settings_update_field (protect_on_battery _) = "protect-on-battery"
settings_update_field (launch_at_login _) = "launch-at-login"
settings_update_field (automatic_update_checks_enabled _) = "automatic-update-checks"
settings_update_field (last_automatic_update_check_unix_seconds _) = "last-update-check"
settings_update_field (automatic_download_tuning _ _ _) = "automatic-download-tuning"

abbrev tuned :
    Settings
    → Result AutomaticDownloadSettings AutomaticDownloadSettingsError
    → Result Settings SettingsUpdateError
tuned s (ok t) = ok (record s { automatic_download = t })
tuned s (err e) = err (invalid_automatic_download e)

-- `Settings::apply`; on an error the caller drops the settings.
unfoldable pub apply : SettingsUpdate → Settings → Result Settings SettingsUpdateError
apply (automatic_download_protection_enabled b) s =
    ok (record s { automatic_download_protection_enabled = b })
apply (protect_on_battery b) s = ok (record s { protect_on_battery = b })
apply (launch_at_login b) s = ok (record s { launch_at_login = b })
apply (automatic_update_checks_enabled b) s = ok (record s { automatic_update_checks_enabled = b })
apply (last_automatic_update_check_unix_seconds t) s =
    ok (record s { last_automatic_update_check_unix_seconds = t })
apply (automatic_download_tuning rate activation grace) s =
    tuned s (try_new_settings rate (from_millis activation) (from_millis grace))

abbrev is_clean_condition : LoadCondition → Bool
is_clean_condition first_run = true
is_clean_condition current_version = true
is_clean_condition _ = false

abbrev no_warnings : List ArtifactWarning → Bool
no_warnings [] = true
no_warnings (_ ∷ _) = false

unfoldable pub is_clean : SettingsHealth → Bool
is_clean h =
    is_clean_condition h.load_condition
    && no_warnings h.artifact_warnings
    && not (is_some h.last_save_failure)

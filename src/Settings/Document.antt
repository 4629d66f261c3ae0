-- ===== src/Settings/Document.antt =====
-- The settings' document: reading it field by field with recovery, and the value that is written.
use chiu.Common.{
  ℕ, ◌==◌, String, Bool, true, false, ◌&&◌, if◌then◌else◌, Option, none, some, List, [], ◌∷◌, ◌++◌,
}
use chiu.Common.Result.{Result, ok, err}
use chiu.Common.Time.{from_millis, as_millis}
use chiu.Detector.{AutomaticDownloadSettings, AutomaticDownloadSettingsError, try_new_settings}
use chiu.Settings.{
  Settings, default, SettingPath, RecoveryReason, missing, wrong_type, invalid_value, FieldRecovery,
}
use chiu.Settings.Json.{Value, null, bool, object, Map, get, get_of, as_u64, is_number, as_object}

abbrev pub schema_version : ℕ
schema_version = 1

abbrev pub recovery : SettingPath → RecoveryReason → List FieldRecovery → List FieldRecovery
recovery path reason recoveries = recoveries ++ (record { path = path; reason = reason }) ∷ []

-- The value that a reader gives, and the recoveries so far.
abbrev pub bool_of :
    Option Value → SettingPath → Bool → List FieldRecovery → Bool × List FieldRecovery
bool_of (some (bool b)) path default_value rs = (b, rs)
bool_of (some _) path default_value rs = (default_value, recovery path wrong_type rs)
bool_of none path default_value rs = (default_value, recovery path missing rs)

unfoldable pub read_bool :
    Map → String → SettingPath → Bool → List FieldRecovery → Bool × List FieldRecovery
read_bool o key = bool_of (get key o)

abbrev pub number_of :
    Value → Option ℕ → SettingPath → Option ℕ → List FieldRecovery → Option ℕ × List FieldRecovery
number_of v (some n) path default_value rs = (some n, rs)
number_of v none path default_value rs =
    (default_value, recovery path (if is_number v then invalid_value else wrong_type) rs)

abbrev pub optional_u64_of :
    Option Value → SettingPath → Option ℕ → List FieldRecovery → Option ℕ × List FieldRecovery
optional_u64_of none path default_value rs = (default_value, recovery path missing rs)
optional_u64_of (some null) path default_value rs = (none, rs)
optional_u64_of (some v) path default_value rs = number_of v (as_u64 v) path default_value rs

unfoldable pub read_optional_u64 :
    Map → String → SettingPath → Option ℕ → List FieldRecovery → Option ℕ × List FieldRecovery
read_optional_u64 o key = optional_u64_of (get key o)

abbrev pub and_get : String → Option Map → Option Value
and_get key none = none
and_get key (some o) = get key o

abbrev pub nested_u64_of :
    Option Value
    → SettingPath
    → (default_value : ℕ) → (non_zero : Bool) → RecoveryReason
    → List FieldRecovery
    → ℕ × List FieldRecovery
nested_u64_of none path d non_zero unavailable_reason rs = (d, recovery path unavailable_reason rs)
nested_u64_of (some v) path d non_zero unavailable_reason rs = elim (as_u64 v) [
  | none ↦ (d, recovery path wrong_type rs)
  | some n ↦ if n == 0 && non_zero then (d, recovery path invalid_value rs) else (n, rs)
]

unfoldable pub read_nested_u64 :
    Option Map
    → String
    → SettingPath
    → (default_value : ℕ) → (non_zero : Bool) → RecoveryReason
    → List FieldRecovery
    → ℕ × List FieldRecovery
read_nested_u64 o key = nested_u64_of (and_get key o)

-- The object of the detector's settings, and the reason to give where a field of it is not there.
abbrev pub detector_of : Option Value → Option Map × RecoveryReason
detector_of (some (object detector)) = (some detector, missing)
detector_of (some _) = (none, wrong_type)
detector_of none = (none, missing)

-- The settings of the values read; `none` is the panic of `expect` on the detector's settings.
abbrev pub settings_of :
    (protection battery launch checks : Bool)
    → (last_check : Option ℕ) → Result AutomaticDownloadSettings AutomaticDownloadSettingsError
    → List FieldRecovery
    → Option (Settings × List FieldRecovery)
settings_of protection battery launch checks last_check (err _) rs = none
settings_of protection battery launch checks last_check (ok t) rs = some (
  record {
    automatic_download_protection_enabled = protection;
    protect_on_battery = battery;
    launch_at_login = launch;
    automatic_update_checks_enabled = checks;
    last_automatic_update_check_unix_seconds = last_check;
    automatic_download = t;
  },
  rs,
)

-- `Settings::from_object`. The
-- defaults in milliseconds are constants that fit u64.
unfoldable pub from_object : Map → Option (Settings × List FieldRecovery)
unfolding read_bool read_optional_u64 read_nested_u64
from_object o =
    let (protection, r1) =
      read_bool o "automatic_download_protection_enabled"
        SettingPath.automatic_download_protection_enabled
        default.automatic_download_protection_enabled [] in
    let (battery, r2) =
      read_bool o "protect_on_battery" SettingPath.protect_on_battery default.protect_on_battery
        r1 in
    let (launch, r3) =
      read_bool o "launch_at_login" SettingPath.launch_at_login default.launch_at_login r2 in
    let (checks, r4) =
      read_bool o "automatic_update_checks_enabled" SettingPath.automatic_update_checks_enabled
        default.automatic_update_checks_enabled r3 in
    let (last_check, r5) =
      read_optional_u64 o "last_automatic_update_check_unix_seconds"
        SettingPath.last_automatic_update_check_unix_seconds
        default.last_automatic_update_check_unix_seconds r4 in
    let (detector, reason) = detector_of (get "automatic_download" o) in
    let (threshold, r6) =
      read_nested_u64 detector "meaningful_receive_rate_bytes_per_second"
        SettingPath.meaningful_receive_rate_bytes_per_second
        default.automatic_download.meaningful_receive_rate_bytes_per_second true reason r5 in
    let (activation, r7) =
      read_nested_u64 detector "activation_qualification_milliseconds"
        SettingPath.activation_qualification_milliseconds
        (as_millis default.automatic_download.activation_qualification) true reason r6 in
    let (grace, r8) =
      read_nested_u64 detector "grace_milliseconds" SettingPath.grace_milliseconds
        (as_millis default.automatic_download.grace) false reason r7 in
    settings_of protection battery launch checks last_check
      (try_new_settings threshold (from_millis activation) (from_millis grace)) r8

abbrev pub version_of : Value → Option ℕ
version_of value = elim (get_of "schema_version" value) [ none ↦ none | some v ↦ as_u64 v ]

abbrev pub is_version : ℕ → Option ℕ → Bool
is_version n none = false
is_version n (some found) = found == n

-- `Settings::from_document`: `none` where the value is no current document, and `some none` a panic.
unfoldable pub from_document : Value → Option (Option (Settings × List FieldRecovery))
unfolding from_object
from_document value = elim (as_object value) [
  | none ↦ none
  | some o ↦ if is_version schema_version (version_of value) then some (from_object o) else none
]

unfoldable pub from_unversioned_document : Value → Option (Option (Settings × List FieldRecovery))
unfolding from_object
from_unversioned_document value = elim (as_object value) [
  | none ↦ none
  | some o ↦ some (from_object o)
]

-- ===== src/Settings/Persisted.antt =====
-- src-tauri/src/settings.rs: what is written of the settings, and the value that stands for it.
use chiu.Common.{ℕ, Bool, if◌then◌else◌, leb, Option, none, some}
use chiu.Common.Time.{as_millis, u64_max}
use chiu.Settings.{Settings}
use chiu.Settings.Document.{schema_version}
use chiu.Settings.Json.{Value, null, bool, number, object, Map, end, entry}

pub record PersistedAutomaticDownload : Type 0 where
  pub meaningful_receive_rate_bytes_per_second : ℕ
  pub activation_qualification_milliseconds : ℕ
  pub grace_milliseconds : ℕ

pub record PersistedSettingsV1 : Type 0 where
  pub schema_version : ℕ
  pub automatic_download_protection_enabled : Bool
  pub protect_on_battery : Bool
  pub launch_at_login : Bool
  pub automatic_update_checks_enabled : Bool
  pub last_automatic_update_check_unix_seconds : Option ℕ
  pub automatic_download : PersistedAutomaticDownload

-- The whole milliseconds of a duration where they fit u64, and none for the panic of `expect`.
abbrev pub persisted_millis : ℕ → Option ℕ
persisted_millis d = if leb (as_millis d) u64_max then some (as_millis d) else none

abbrev persisted_detector : ℕ → Option ℕ → Option ℕ → Option PersistedAutomaticDownload
persisted_detector rate none grace = none
persisted_detector rate (some activation) none = none
persisted_detector rate (some activation) (some grace) = some (record {
  meaningful_receive_rate_bytes_per_second = rate;
  activation_qualification_milliseconds = activation;
  grace_milliseconds = grace;
})

-- `Settings::to_persisted`; `none` is the panic of an `expect`.
unfoldable pub to_persisted : Settings → Option PersistedSettingsV1
to_persisted s =
    elim (persisted_detector s.automatic_download.meaningful_receive_rate_bytes_per_second
      (persisted_millis s.automatic_download.activation_qualification)
      (persisted_millis s.automatic_download.grace)) [
        | none ↦ none
        | some detector ↦ some (record {
          schema_version = schema_version;
          automatic_download_protection_enabled = s.automatic_download_protection_enabled;
          protect_on_battery = s.protect_on_battery;
          launch_at_login = s.launch_at_login;
          automatic_update_checks_enabled = s.automatic_update_checks_enabled;
          last_automatic_update_check_unix_seconds = s.last_automatic_update_check_unix_seconds;
          automatic_download = detector;
        })
      ]

abbrev pub optional_number : Option ℕ → Value
optional_number none = null
optional_number (some n) = number (some n)

abbrev detector_fields : PersistedAutomaticDownload → Map
detector_fields p =
    entry "meaningful_receive_rate_bytes_per_second"
      (number (some p.meaningful_receive_rate_bytes_per_second))
      (entry "activation_qualification_milliseconds"
        (number (some p.activation_qualification_milliseconds))
        (entry "grace_milliseconds" (number (some p.grace_milliseconds)) end))

-- The derived `Serialize`: an object with a key for each field, in their order.
unfoldable pub to_value : PersistedSettingsV1 → Value
to_value p = object (
    entry "schema_version" (number (some p.schema_version)) (
      entry "automatic_download_protection_enabled" (bool p.automatic_download_protection_enabled) (
        entry "protect_on_battery" (bool p.protect_on_battery) (
          entry "launch_at_login" (bool p.launch_at_login) (
            entry "automatic_update_checks_enabled" (bool p.automatic_update_checks_enabled) (
              entry "last_automatic_update_check_unix_seconds"
                (optional_number p.last_automatic_update_check_unix_seconds)
                (entry "automatic_download" (object (detector_fields p.automatic_download))
                  end)))))))

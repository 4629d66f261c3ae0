-- ===== src/Settings/RoundTrip.antt =====
-- What is written is read back.
use chiu.Common.{◌≤◌, ◌<◌, ◌≡◌, some, arith, []}
use chiu.Common.Time.{from_millis, as_millis, u64_max}
use chiu.Detector.{AutomaticDownloadSettings, try_new_settings}
use chiu.Settings.{Settings}
use chiu.Settings.Document.{schema_version, from_object, from_document}
use chiu.Settings.Persisted.{PersistedSettingsV1, to_persisted, to_value}

-- What the constructor, the document and the updates give: whole milliseconds that fit u64, and no
-- zero threshold or qualification.
pub record IsPersistable (t : AutomaticDownloadSettings) : Type 0 where
  pub rate : 0 < t.meaningful_receive_rate_bytes_per_second
  pub qualification : 0 < t.activation_qualification
  pub qualification_whole :
      from_millis (as_millis t.activation_qualification) ≡ t.activation_qualification
  pub qualification_fits : as_millis t.activation_qualification ≤ u64_max
  pub grace_whole : from_millis (as_millis t.grace) ≡ t.grace
  pub grace_fits : as_millis t.grace ≤ u64_max

-- What is written of such settings.
abbrev pub persisted : Settings → PersistedSettingsV1
persisted s = record {
  schema_version = schema_version;
  automatic_download_protection_enabled = s.automatic_download_protection_enabled;
  protect_on_battery = s.protect_on_battery;
  launch_at_login = s.launch_at_login;
  automatic_update_checks_enabled = s.automatic_update_checks_enabled;
  last_automatic_update_check_unix_seconds = s.last_automatic_update_check_unix_seconds;
  automatic_download = record {
    meaningful_receive_rate_bytes_per_second =
        s.automatic_download.meaningful_receive_rate_bytes_per_second;
    activation_qualification_milliseconds = as_millis s.automatic_download.activation_qualification;
    grace_milliseconds = as_millis s.automatic_download.grace;
  };
}

pub to_persisted_lem :
    (s : Settings) → IsPersistable s.automatic_download → to_persisted s ≡ some (persisted s)
unfolding to_persisted
to_persisted_lem s h = ground (arith, h)

pub from_document-to_value :
    (s : Settings)
    → IsPersistable s.automatic_download
    → from_document (to_value (persisted s)) ≡ some (some (s, []))
unfolding to_value from_document from_object try_new_settings
from_document-to_value s h = ground (arith, h)

-- Settings whose durations are whole milliseconds that fit u64 are written without a panic, and what
-- is written is a current document from which they are read back, with nothing recovered.
pub to_persisted-from_document :
    (s : Settings)
    → IsPersistable s.automatic_download
    → (p : PersistedSettingsV1) × (to_persisted s ≡ some p)
      × (from_document (to_value p) ≡ some (some (s, [])))
to_persisted-from_document s h = (persisted s, to_persisted_lem s h, from_document-to_value s h)

-- ===== src/Detector/Tuning.antt =====
-- src-tauri/src/automatic_download.rs, `AutomaticDownloadTuningService`: a changed setting of the
-- detector is saved first and then applied. `none` as an answer is a panic: of the settings, or of
-- the `expect` in `duration_milliseconds`.
use chiu.Common.{ℕ, ◌==◌, Bool, ◌&&◌, if◌then◌else◌, Option, none, some}
use chiu.Common.Result.{Result, ok, err}
use chiu.Settings.{Settings, SettingsUpdate, SettingsUpdateError}
use chiu.Settings.Persisted.{persisted_millis}
use chiu.Settings.Files.{FileSystem, Serde, AtomicReplace}
use chiu.Settings.Step.{SettingsService, Stop, returned, panicked}
use chiu.Detector.{
  AutomaticDownloadSettings, AutomaticDownloadSettingsError, try_new_settings, IntentConsumer,
  AutomaticDownloadMonitor, AutomaticDownloadSnapshot, snapshot_from, apply_settings,
}

pub record AutomaticDownloadTuningService (F S : Type 0) : Type 0 where
  pub settings : SettingsService F
  pub monitor : AutomaticDownloadMonitor S

-- `==` on the settings.
abbrev pub settings_eq : AutomaticDownloadSettings → AutomaticDownloadSettings → Bool
settings_eq a b =
    a.meaningful_receive_rate_bytes_per_second == b.meaningful_receive_rate_bytes_per_second
    && a.activation_qualification == b.activation_qualification
    && a.grace == b.grace

abbrev pub Answer : Type 0
Answer = Option (Result AutomaticDownloadSnapshot SettingsUpdateError)

module _ {F B S : Type 0} (fs : FileSystem F B) (serde : Serde B) (replacer : AtomicReplace F)
    (intent : IntentConsumer S) where
  abbrev pub apply_persisted :
      AutomaticDownloadSettings
      → AutomaticDownloadMonitor S
      → SettingsService F × Result Settings Stop
      → AutomaticDownloadTuningService F S × Answer
  apply_persisted updated monitor (settings, ok _) =
      let (monitor', shown) = apply_settings intent updated monitor in
      (record { settings = settings; monitor = monitor' }, some (ok shown))
  apply_persisted updated monitor (settings, err (returned e)) =
      (record { settings = settings; monitor = monitor }, some (err e))
  apply_persisted updated monitor (settings, err panicked) =
      (record { settings = settings; monitor = monitor }, none)

  -- The two durations in milliseconds are `duration_milliseconds` of the source.
  abbrev pub persist :
      AutomaticDownloadSettings
      → Option ℕ
      → Option ℕ
      → AutomaticDownloadTuningService F S
      → AutomaticDownloadTuningService F S × Answer
  persist updated none grace s = (s, none)
  persist updated (some activation) none s = (s, none)
  persist updated (some activation) (some grace) s = apply_persisted updated s.monitor (
      chiu.Settings.Service.update fs serde replacer
        (SettingsUpdate.automatic_download_tuning updated.meaningful_receive_rate_bytes_per_second
          activation grace)
        s.settings)

  abbrev pub update_to :
      Result AutomaticDownloadSettings AutomaticDownloadSettingsError
      → AutomaticDownloadTuningService F S
      → AutomaticDownloadTuningService F S × Answer
  update_to (err e) s = (s, some (err (SettingsUpdateError.invalid_automatic_download e)))
  update_to (ok updated) s =
      if settings_eq updated s.monitor.core.settings
      then (s, some (ok (snapshot_from s.monitor.core)))
      else persist updated (persisted_millis updated.activation_qualification)
          (persisted_millis updated.grace) s

  unfoldable pub set_threshold :
      ℕ → AutomaticDownloadTuningService F S → AutomaticDownloadTuningService F S × Answer
  set_threshold rate s =
      let current = s.monitor.core.settings in
      update_to (try_new_settings rate current.activation_qualification current.grace) s

  unfoldable pub set_grace :
      ℕ → AutomaticDownloadTuningService F S → AutomaticDownloadTuningService F S × Answer
  set_grace grace s =
      let current = s.monitor.core.settings in
      update_to
        (try_new_settings current.meaningful_receive_rate_bytes_per_second
          current.activation_qualification grace)
        s

-- ===== src/Settings/Service.antt =====
-- src-tauri/src/settings.rs, `SettingsService`: its state with the directory's files and the count
-- of quarantines, which is a static of the process, and the log's records, the last one first.
use chiu.Common.{ℕ, Bool, false, if◌then◌else◌, Option, none, some, List, ◌∷◌, length}
use chiu.Common.Result.{Result, ok, err}
use chiu.Log.{SafeEvent}
use chiu.Settings.{
  Settings, SettingsHealth, LoadCondition, load_condition_name, persistence_condition_name,
  ArtifactWarning, quarantine_cleanup, SettingsPersistenceFailure, create_directory,
  preserve_source, serialize, write_backup, write_primary, replace_backup, replace_primary,
  PersistenceCondition, SettingsUpdate, SettingsUpdateError, apply, settings_update_field,
}
use chiu.Settings.Persisted.{to_persisted}
use chiu.Settings.Files.{
  FileSystem, Serde, AtomicReplace, Name, primary_file, primary_temp_file, backup_file,
  backup_temp_file, next_sequence, write_synchronized, prune_quarantines,
}
use chiu.Settings.Loading.{Loaded, load_settings, unavailable_load}
use chiu.Settings.Step.{
  SettingsState, SettingsService, blocked, needs_preservation, Stop, returned, panicked, Step,
  ◌>>=◌, ◌>>◌, return, gets, modify, when, expect, or_failure, on_files, warned, unless_stopped,
  applied,
}

module _ {F B : Type 0} (fs : FileSystem F B) (serde : Serde B) (replacer : AtomicReplace F) where
  unfoldable pub serialized : Settings → Step F B
  serialized settings = do
    document ← expect (to_persisted settings)
    or_failure serialize (serde.to_vec_pretty document)

  -- The source that was loaded is kept before its first overwriting.
  unfoldable pub preserve : Step F (Unit {0})
  preserve = do
    sequence ← gets SettingsState.next_quarantine
    modify (λ s. record s { next_quarantine = next_sequence sequence })
    on_files preserve_source (chiu.Settings.Files.preserve_source fs sequence)
    modify (λ s. record s { preservation_required = false })
    modify (λ s. warned (prune_quarantines fs s.files) s)

  unfoldable pub back_up : Step F (Unit {0})
  unfolding serialized
  back_up = do
    snapshot ← gets SettingsState.snapshot
    bytes ← serialized snapshot
    on_files write_backup (write_synchronized fs backup_temp_file bytes)
    on_files replace_backup (replacer.replace backup_temp_file backup_file)

  unfoldable pub commit : Settings → Step F Settings
  commit proposed = do
    on_files replace_primary (replacer.replace primary_temp_file primary_file)
    modify (λ s. record s {
      snapshot = proposed;
      health = record s.health { last_save_failure = none };
    })
    return proposed

  -- What follows once the new document is in the temporary file.
  unfoldable pub overwrite : Settings → Step F Settings
  unfolding preserve back_up commit
  overwrite proposed = do
    required ← gets SettingsState.preservation_required
    when required preserve
    present ← gets (λ s. fs.exists primary_file s.files)
    when present back_up
    commit proposed

  unfoldable pub update_inner : SettingsUpdate → Step F Settings
  unfolding serialized overwrite
  update_inner update = do
    refusal ← gets (λ s. blocked s.health.load_condition s.health.persistence)
    unless_stopped refusal
    result ← gets (λ s. apply update s.snapshot)
    proposed ← applied result
    bytes ← serialized proposed
    on_files create_directory fs.create_dir_all
    on_files write_primary (write_synchronized fs primary_temp_file bytes)
    overwrite proposed

  abbrev pub logged :
      SettingsUpdate
      → List SafeEvent
      → SettingsState F × Result Settings Stop
      → SettingsService F × Result Settings Stop
  logged update log (s, ok settings) = (
    record { state = s; log = SafeEvent.settings_changed (settings_update_field update) ∷ log },
    ok settings,
  )
  logged update log (s, err (returned e)) = (
    record {
      state = s;
      log = SafeEvent.settings_write_failed (settings_update_field update) ∷ log;
    },
    err (returned e),
  )
  logged update log (s, err panicked) = (record { state = s; log = log }, err panicked)

  unfoldable pub update :
      SettingsUpdate → SettingsService F → SettingsService F × Result Settings Stop
  update change service = logged change service.log (update_inner change service.state)

  abbrev pub loaded_event : SettingsHealth → SafeEvent
  loaded_event health =
      SafeEvent.settings_loaded (load_condition_name health.load_condition)
        (persistence_condition_name health.persistence) (length health.field_recoveries)

  -- `record_loaded` of a new service.
  abbrev pub record_loaded : Bool → List SafeEvent → Loaded F → SettingsService F
  record_loaded preservation_required log l = record {
    state = record {
      snapshot = l.snapshot;
      health = l.health;
      preservation_required = preservation_required;
      files = l.files;
      next_quarantine = l.next_quarantine;
    };
    log = loaded_event l.health ∷ log;
  }

  abbrev pub service_of : List SafeEvent → Option (Loaded F) → Option (SettingsService F)
  service_of log none = none
  service_of log (some l) = some (
      record_loaded
        (if fs.exists primary_file l.files
          then needs_preservation l.health.load_condition
          else false)
        log l)

  -- `SettingsService::load`; `none` is a panic.
  unfoldable pub load : (is_absolute : Bool) → List SafeEvent → F → ℕ → Option (SettingsService F)
  load is_absolute log f n = service_of log (load_settings fs serde is_absolute f n)

  unfoldable pub unavailable : List SafeEvent → F → ℕ → SettingsService F
  unavailable log f n = record_loaded false log (unavailable_load f n)

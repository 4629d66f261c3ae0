-- ===== src/Settings/Loading.antt =====
-- src-tauri/src/settings.rs, `load_settings` and what it calls: the settings and their health at the
-- start, from the primary file, the backup or the defaults. `none` is the panic of `from_object`.
use chiu.Common.{ℕ, Bool, true, false, ltb, if◌then◌else◌, Option, none, some, List, [], ◌∷◌, ◌++◌}
use chiu.Settings.{
  Settings, default, SettingsHealth, LoadCondition, PersistenceCondition, ArtifactWarning,
  FieldRecovery, quarantine_failed, quarantine_cleanup,
}
use chiu.Settings.Json.{Value}
use chiu.Settings.Document.{
  schema_version, version_of, is_version, from_document, from_unversioned_document,
}
use chiu.Settings.Files.{
  FileSystem, Serde, Reading, found, not_found, unreadable, primary_file, backup_file,
  next_sequence, cleanup_stale_temporary_files, quarantine, prune_quarantines,
}

pub record Loaded (F : Type 0) : Type 0 where
  pub snapshot : Settings
  pub health : SettingsHealth
  pub files : F
  pub next_quarantine : ℕ

-- The health of settings that were loaded this way.
abbrev pub health_of :
    LoadCondition
    → PersistenceCondition
    → List FieldRecovery
    → List ArtifactWarning
    → SettingsHealth
health_of condition persistence recoveries warnings = record {
  load_condition = condition;
  field_recoveries = recoveries;
  persistence = persistence;
  artifact_warnings = warnings;
  last_save_failure = none;
}

pub data BackupLoad : Type 0 where
  clean : Settings → BackupLoad
  unsupported_future_schema : ℕ → BackupLoad
  unusable : BackupLoad

-- The version of a document from a later program.
abbrev pub future_version : Option ℕ → Option ℕ
future_version none = none
future_version (some version) = if ltb schema_version version then some version else none

abbrev pub clean_backup : Option (Option (Settings × List FieldRecovery)) → Option BackupLoad
clean_backup none = some unusable
clean_backup (some none) = none
clean_backup (some (some (settings, []))) = some (clean settings)
clean_backup (some (some (settings, _ ∷ _))) = some unusable

abbrev pub backup_of_value : Value → Option ℕ → Option BackupLoad
backup_of_value value (some version) = some (unsupported_future_schema version)
backup_of_value value none = clean_backup (from_document value)

abbrev pub backup_of : Option Value → Option BackupLoad
backup_of none = some unusable
backup_of (some value) = backup_of_value value (future_version (version_of value))

abbrev pub condition_of : List FieldRecovery → LoadCondition
condition_of [] = LoadCondition.current_version
condition_of (_ ∷ _) = LoadCondition.partial_recovery

module _ {F : Type 0} where
  abbrev pub loaded : Settings → SettingsHealth → F → ℕ → Loaded F
  loaded settings health f n = record {
    snapshot = settings;
    health = health;
    files = f;
    next_quarantine = n;
  }

  unfoldable pub unavailable_load : F → ℕ → Loaded F
  unavailable_load =
      loaded default
        (health_of LoadCondition.persistence_unavailable PersistenceCondition.unavailable [] [])

  unfoldable pub unsupported_future_load : ℕ → List ArtifactWarning → F → ℕ → Loaded F
  unsupported_future_load version warnings = loaded default (
      health_of (LoadCondition.unsupported_future_schema version)
        PersistenceCondition.blocked_by_future_schema [] warnings)

module _ {F B : Type 0} (fs : FileSystem F B) (serde : Serde B) where
  abbrev pub backup_reading : Reading B → Option BackupLoad
  backup_reading (found bytes) = backup_of (serde.from_slice bytes)
  backup_reading not_found = some unusable
  backup_reading unreadable = some unusable

  unfoldable pub load_backup : F → Option BackupLoad
  load_backup f = backup_reading (fs.read backup_file f)

  -- The match on `load_backup`, the condition that stands for an unusable backup given.
  abbrev pub from_backup :
      LoadCondition → List ArtifactWarning → F → ℕ → Option BackupLoad → Option (Loaded F)
  from_backup condition warnings f n none = none
  from_backup condition warnings f n (some (clean settings)) = some (
      loaded settings
        (health_of LoadCondition.recovered_from_backup PersistenceCondition.writable [] warnings) f
        n)
  from_backup condition warnings f n (some (unsupported_future_schema version)) =
      some (unsupported_future_load version warnings f n)
  from_backup condition warnings f n (some unusable) =
      some (loaded default (health_of condition PersistenceCondition.writable [] warnings) f n)

  abbrev pub warn : Bool → ArtifactWarning → List ArtifactWarning → List ArtifactWarning
  warn true warning warnings = warnings
  warn false warning warnings = warnings ++ warning ∷ []

  unfoldable pub malformed_or_backup : List ArtifactWarning → F → ℕ → Option (Loaded F)
  malformed_or_backup warnings f n =
      let (f1, quarantined) = quarantine fs n f in
      let (f2, pruned) = prune_quarantines fs f1 in
      from_backup LoadCondition.malformed_defaulted
        (warn pruned quarantine_cleanup (warn quarantined quarantine_failed warnings)) f2
        (next_sequence n) (load_backup f2)

  -- What a document with the current version gives, and one with none that is known.
  abbrev pub load_document :
      (List FieldRecovery → LoadCondition)
      → List ArtifactWarning
      → F
      → ℕ
      → Option (Option (Settings × List FieldRecovery))
      → Option (Loaded F)
  load_document condition warnings f n none = malformed_or_backup warnings f n
  load_document condition warnings f n (some none) = none
  load_document condition warnings f n (some (some (settings, recoveries))) = some (
      loaded settings
        (health_of (condition recoveries) PersistenceCondition.writable recoveries warnings) f n)

  abbrev pub load_value : Value → Option ℕ → List ArtifactWarning → F → ℕ → Option (Loaded F)
  load_value value (some version) warnings f n = some (unsupported_future_load version warnings f n)
  load_value value none warnings f n =
      if is_version schema_version (version_of value)
      then load_document condition_of warnings f n (from_document value)
      else load_document (λ _. LoadCondition.schema_metadata_recovered) warnings f n
          (from_unversioned_document value)

  abbrev pub load_bytes : Option Value → List ArtifactWarning → F → ℕ → Option (Loaded F)
  load_bytes none warnings f n = malformed_or_backup warnings f n
  load_bytes (some value) warnings f n =
      load_value value (future_version (version_of value)) warnings f n

  abbrev pub load_reading : Reading B → List ArtifactWarning → F → ℕ → Option (Loaded F)
  load_reading (found bytes) warnings f n = load_bytes (serde.from_slice bytes) warnings f n
  load_reading not_found warnings f n =
      from_backup LoadCondition.first_run warnings f n (load_backup f)
  load_reading unreadable warnings f n = some (unavailable_load f n)

  unfoldable pub load_settings : (is_absolute : Bool) → F → ℕ → Option (Loaded F)
  load_settings false f n = some (unavailable_load f n)
  load_settings true f n =
      let (f1, warnings) = cleanup_stale_temporary_files fs f in
      load_reading (fs.read primary_file f1) warnings f1 n

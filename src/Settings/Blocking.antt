-- ===== src/Settings/Blocking.antt =====
-- A document from a later program, or a directory that cannot be used: no update touches the files.
use chiu.Common.{
  ℕ, ◌≡◌, ◌≢◌, ◌<◌, refl, ap, ◌∙◌, true, false, Option, some, List, [], ◌∷◌, arith, if◌then◌else◌,
}
use chiu.Common.Result.{err}
use chiu.Log.{SafeEvent}
use chiu.Settings.{
  LoadCondition, ArtifactWarning, SettingsUpdate, SettingsUpdateError, settings_update_field,
}
use chiu.Settings.Json.{Value}
use chiu.Settings.Document.{schema_version, version_of}
use chiu.Settings.Files.{
  FileSystem, Serde, AtomicReplace, Name, unreadable, primary_file, cleanup_stale_temporary_files,
}
use chiu.Settings.Disk.{IsDisk}
use chiu.Settings.Leaving.{cleanup-primary}
use chiu.Settings.Loading.{load_settings, load_bytes, unsupported_future_load, future_version}
use chiu.Settings.Service.{load, update, update_inner, record_loaded}
use chiu.Settings.Step.{SettingsState, SettingsService, returned, blocked, needs_preservation}
use chiu.Settings.Reloading.{primary-found}

module _ {F B : Type 0} (fs : FileSystem F B) (serde : Serde B) (replacer : AtomicReplace F) where
  -- Updates one after another, their results dropped.
  abbrev pub update_all : List SettingsUpdate → SettingsService F → SettingsService F
  update_all [] service = service
  update_all (u ∷ us) service = update_all us (update fs serde replacer u service).0

  -- Where loading found a document from a later program, or could not use the directory, an update
  -- returns that error, whatever it is about, and only the log is written.
  pub update-blocked :
      (u : SettingsUpdate) (service : SettingsService F) (e : SettingsUpdateError)
      → blocked service.state.health.load_condition service.state.health.persistence ≡ some e
      → update fs serde replacer u service ≡ (
        record service {
          log = SafeEvent.settings_write_failed (settings_update_field u) ∷ service.log;
        },
        err (returned e),
      )
  unfolding update update_inner
  update-blocked u service e h = rw h

  pub update_all-blocked :
      (us : List SettingsUpdate) (service : SettingsService F) (e : SettingsUpdateError)
      → blocked service.state.health.load_condition service.state.health.persistence ≡ some e
      → (update_all us service).state ≡ service.state
  update_all-blocked [] service e h = refl
  update_all-blocked (u ∷ us) service e h =
      rw (update_all, update-blocked u service e h) (update_all-blocked us _ e h)

  module _ (content : F → Name → Option B) (empty : B) (disk : IsDisk content empty fs) where
    future_version_lem :
        (version : ℕ) → schema_version < version → future_version (some version) ≡ some version
    future_version_lem version h = ground arith

    load_bytes-future :
        (v : Value) (ws : List ArtifactWarning) (f : F) (n version : ℕ)
        → version_of v ≡ some version
        → schema_version < version
        → load_bytes fs serde (some v) ws f n ≡ some (unsupported_future_load version ws f n)
    load_bytes-future v ws f n version h k = rw (h, future_version_lem version k)

    -- Where the primary file can be read and holds a document with a later version than this
    -- program's, loading reports that version, and after any updates the file holds the same.
    pub load-future :
        (b : B) (v : Value) (version : ℕ) (f : F) (n : ℕ) (log : List SafeEvent)
        (us : List SettingsUpdate)
        → content f primary_file ≡ some b
        → fs.read primary_file (cleanup_stale_temporary_files fs f).0 ≢ unreadable
        → serde.from_slice b ≡ some v
        → version_of v ≡ some version
        → schema_version < version
        → (service : SettingsService F) × (load fs serde replacer true log f n ≡ some service)
          × (service.state.health.load_condition ≡ LoadCondition.unsupported_future_schema version)
          × (content (update_all us service).state.files primary_file ≡ some b)
    unfolding load load_settings unsupported_future_load
    load-future b v version f n log us held readable parsed versioned later =
        let ws = (cleanup_stale_temporary_files fs f).1 in
        let f1 = (cleanup_stale_temporary_files fs f).0 in
        let l = unsupported_future_load version ws f1 n in
        let reading = primary-found fs serde replacer content empty disk f b held readable in
        let service =
          record_loaded fs serde replacer
            (if fs.exists primary_file f1
              then needs_preservation l.health.load_condition
              else false)
            log l in
        (
          service,
          rw (reading, parsed, load_bytes-future v ws f1 n version versioned later),
          refl,
          ap (λ s. content (SettingsState.files s) primary_file)
                (update_all-blocked us service
                  (SettingsUpdateError.unsupported_future_schema version) refl)
              ∙ cleanup-primary fs content empty disk f
              ∙ held,
        )

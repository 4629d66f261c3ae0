-- ===== src/Settings/Reloading.antt =====
-- What a successful update wrote is what the next start loads, and a document from a later program
-- is never overwritten.
use chiu.Common.{ℕ, ◌≡◌, ◌≢◌, refl, sym, ap, subst, ◌∙◌, true, Option, some, List, []}
use mathlib.Core.Option.{some-injective}
use chiu.Common.Result.{Result, ok, err, ok-injective}
use chiu.Log.{SafeEvent}
use chiu.Settings.{Settings, LoadCondition, PersistenceCondition, ArtifactWarning, SettingsUpdate}
use chiu.Settings.Persisted.{to_value}
use chiu.Settings.RoundTrip.{IsPersistable, persisted, to_persisted_lem, from_document-to_value}
use chiu.Settings.Fitting.{IsInRange, apply-IsPersistable}
use chiu.Settings.Files.{
  FileSystem, Serde, AtomicReplace, Name, Reading, found, not_found, unreadable, primary_file,
  cleanup_stale_temporary_files,
}
use chiu.Settings.Disk.{IsDisk, IsAtomic, IsSerde}
use chiu.Settings.Leaving.{cleanup-primary}
use chiu.Settings.Loading.{Loaded, health_of, load_settings, load_bytes}
use chiu.Settings.Service.{update, update_inner, logged}
use chiu.Settings.Step.{SettingsState, SettingsService, Stop, returned}
use chiu.Settings.Staging.{Holds, Changed, Refused}
use chiu.Settings.Updating.{update_inner-Post}
use chiu.Settings.Conditions.{Post}

module _ {F B : Type 0} (fs : FileSystem F B) where
  -- The files after loading begins, and what was warned about.
  abbrev pub starting : F → F × List ArtifactWarning
  starting = cleanup_stale_temporary_files fs

  -- The load of a current document with nothing to recover.
  abbrev pub current : Settings → F → ℕ → Loaded F
  current settings f n = record {
    snapshot = settings;
    health =
        health_of LoadCondition.current_version PersistenceCondition.writable [] (starting f).1;
    files = (starting f).0;
    next_quarantine = n;
  }

module _ {F B : Type 0} (fs : FileSystem F B) (serde : Serde B) (replacer : AtomicReplace F)
    (content : F → Name → Option B) (empty : B) (disk : IsDisk content empty fs) where
  -- A file that holds something and can be read is found.
  reading-found :
      (n : Name) (f : F) (b : B) (r : Reading B)
      → fs.read n f ≡ r
      → content f n ≡ some b
      → r ≢ unreadable
      → r ≡ found b
  reading-found n f b (found c) e h k =
      ap found (some-injective c b (sym (disk.read_found n f c e) ∙ h))
  reading-found n f b not_found e h k = cc (disk.read_missing n f e)
  reading-found n f b unreadable e h k = elim (k refl) [ ]

  pub primary-found :
      (f : F) (b : B)
      → content f primary_file ≡ some b
      → fs.read primary_file (starting fs f).0 ≢ unreadable
      → fs.read primary_file (starting fs f).0 ≡ found b
  primary-found f b h k =
      reading-found primary_file (starting fs f).0 b _ refl
        (cleanup-primary fs content empty disk f ∙ h) k

  load_value-persisted :
      (settings : Settings) (ws : List ArtifactWarning) (f : F) (n : ℕ)
      → IsPersistable settings.automatic_download
      → load_bytes fs serde (some (to_value (persisted settings))) ws f n
        ≡ some (record {
          snapshot = settings;
          health = health_of LoadCondition.current_version PersistenceCondition.writable [] ws;
          files = f;
          next_quarantine = n;
        })
  unfolding to_value
  load_value-persisted settings ws f n h = rw (from_document-to_value settings h)

  -- Where the primary file holds the document of settings whose durations are whole milliseconds that
  -- fit u64, and it can be read, loading gives those settings, with nothing recovered and writable.
  pub load_settings-Holds :
      IsSerde serde
      → (settings : Settings) (f : F) (n : ℕ) → IsPersistable settings.automatic_download
      → Holds fs serde replacer content empty settings f
      → fs.read primary_file (starting fs f).0 ≢ unreadable
      → load_settings fs serde true f n ≡ some (current fs settings f n)
  unfolding load_settings
  load_settings-Holds laws settings f n h (p, b, document, bytes, held) k =
      let e = some-injective p (persisted settings) (sym document ∙ to_persisted_lem settings h) in
      let parsed = laws.from_slice-to_vec_pretty p b bytes in
      rw (primary-found f b held k, parsed, e)
        (load_value-persisted settings (starting fs f).1 (starting fs f).0 n h)

-- The result and the state of an update are those of its body.
Post-ok :
    {F A : Type 0} (Q : A → SettingsState F → Type 0) (E : Stop → SettingsState F → Type 0)
    (r : SettingsState F × Result A Stop) (a : A)
    → Post Q E r
    → r.1 ≡ ok a
    → Q a r.0
Post-ok Q E (s, ok b) a h e = subst (λ c. Q c s) (ok-injective e) h
Post-ok Q E (s, err b) a h e = cc

module _ {F B : Type 0} (fs : FileSystem F B) (serde : Serde B) (replacer : AtomicReplace F) where
  logged-result :
      (u : SettingsUpdate) (log : List SafeEvent) (r : SettingsState F × Result Settings Stop)
      → ((logged fs serde replacer u log r).0.state ≡ r.0)
        × ((logged fs serde replacer u log r).1 ≡ r.1)
  logged-result u log (s, ok _) = (refl, refl)
  logged-result u log (s, err (returned _)) = (refl, refl)
  logged-result u log (s, err Stop.panicked) = (refl, refl)

  pub update-result :
      (u : SettingsUpdate) (service : SettingsService F)
      → ((update fs serde replacer u service).0.state
          ≡ (update_inner fs serde replacer u service.state).0)
        × ((update fs serde replacer u service).1
            ≡ (update_inner fs serde replacer u service.state).1)
  unfolding update
  update-result u service =
      logged-result u service.log (update_inner fs serde replacer u service.state)

  module _ (content : F → Name → Option B) (empty : B) (disk : IsDisk content empty fs)
      (atomic : IsAtomic content empty replacer) (laws : IsSerde serde) (u : SettingsUpdate)
      (service : SettingsService F)
      (persistable : IsPersistable service.state.snapshot.automatic_download)
      (in_range : IsInRange u) where
    pub update-Changed :
        (settings : Settings)
        → (update fs serde replacer u service).1 ≡ ok settings
        → Changed fs serde replacer content empty u service.state settings
            (update fs serde replacer u service).0.state
    update-Changed settings e =
        let (state, result) = update-result u service in
        let post =
          update_inner-Post fs serde replacer content empty disk atomic u service.state persistable
            in_range in
        subst (Changed fs serde replacer content empty u service.state settings) (sym state) (
          Post-ok (Changed fs serde replacer content empty u service.state)
            (Refused fs serde replacer content empty u service.state) _ settings post
            (sym result ∙ e))

    -- After an update that succeeded, the next start from the same directory loads the settings that
    -- the update returned and that the service has, with nothing recovered and writable, if the
    -- primary file can be read then; provided that the durations are whole milliseconds that fit u64.
    pub update-load_settings :
        (settings : Settings) (n : ℕ)
        → (update fs serde replacer u service).1 ≡ ok settings
        → fs.read primary_file
            (cleanup_stale_temporary_files fs (update fs serde replacer u service).0.state.files).0
          ≢ unreadable
        → ((update fs serde replacer u service).0.state.snapshot ≡ settings)
          × (load_settings fs serde true (update fs serde replacer u service).0.state.files n
              ≡ some (current fs settings (update fs serde replacer u service).0.state.files n))
    update-load_settings settings n e k =
        let (done, snapshot, failure, held) = update-Changed settings e in
        (
          snapshot,
          load_settings-Holds fs serde replacer content empty disk laws settings _ n
              (apply-IsPersistable u service.state.snapshot settings in_range persistable done) held
              k,
        )

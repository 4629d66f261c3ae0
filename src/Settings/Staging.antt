-- ===== src/Settings/Staging.antt =====
-- What holds while an update is under way: the new document is in the temporary file, and nothing
-- else has changed.
use chiu.Common.{◌≡◌, ◌⊎◌, inr, refl, ◌∙◌, Bool, true, false, Option, none, some}
use chiu.Common.Result.{ok}
use chiu.Common.Bytes.{bytes_differ}
use chiu.Settings.{
  Settings, SettingsUpdate, SettingsUpdateError, SettingsPersistenceFailure, serialize,
  create_directory, preserve_source, write_primary, write_backup, replace_backup, replace_primary,
  apply,
}
use chiu.Settings.Persisted.{PersistedSettingsV1, to_persisted}
use chiu.Settings.Files.{
  FileSystem, Serde, AtomicReplace, Name, primary_file, primary_temp_file, backup_file,
  backup_temp_file, next_sequence, write_synchronized, prune_quarantines,
}
use chiu.Settings.RoundTrip.{IsPersistable, to_persisted_lem}
use chiu.Settings.Disk.{IsDisk, IsAtomic}
use chiu.Settings.Leaving.{
  Leaves, write_synchronized-Leaves, preserve_source-Leaves, prune_quarantines-Leaves,
}
use chiu.Settings.Service.{preserve, back_up}
use chiu.Settings.Step.{
  SettingsState, Stop, returned, panicked, Step, settled, on_files, warned, when,
  record_persistence_failure,
}
use chiu.Settings.Conditions.{Post, continue-Post, serialized-Post}

module _ {F B : Type 0} (fs : FileSystem F B) (serde : Serde B) (replacer : AtomicReplace F)
    (content : F → Name → Option B) (empty : B) where
  -- The primary file holds the document of these settings.
  abbrev pub Holds : Settings → F → Type 0
  Holds settings f =
      (p : PersistedSettingsV1) × (b : B) × (to_persisted settings ≡ some p)
      × (serde.to_vec_pretty p ≡ some b)
      × (content f primary_file ≡ some b)

  abbrev pub Changed : SettingsUpdate → SettingsState F → Settings → SettingsState F → Type 0
  Changed u s settings s' =
      (apply u s.snapshot ≡ ok settings)
      × (s'.snapshot ≡ settings)
      × (s'.health.last_save_failure ≡ none)
      × Holds settings s'.files

  abbrev pub OldOrNew : SettingsUpdate → SettingsState F → F → Type 0
  OldOrNew u s f =
      (content f primary_file ≡ content s.files primary_file)
      ⊎ ((settings : Settings) × (apply u s.snapshot ≡ ok settings) × Holds settings f)

  -- Which failure is kept, or that nothing happened; there is no panic.
  abbrev pub Reported : SettingsState F → Stop → SettingsState F → Type 0
  Reported s panicked s' = ⊥
  Reported s (returned (SettingsUpdateError.persistence failure)) s' =
      (s' ≡ s) ⊎ (s'.health.last_save_failure ≡ some failure)
  Reported s (returned _) s' = s' ≡ s

  abbrev pub Refused : SettingsUpdate → SettingsState F → Stop → SettingsState F → Type 0
  Refused u s e s' = (s'.snapshot ≡ s.snapshot) × OldOrNew u s s'.files × Reported s e s'

  -- While an update is under way: memory and the primary file as they were, the new document beside.
  abbrev pub Staged : SettingsState F → B → SettingsState F → Type 0
  Staged s0 b s =
      (s.snapshot ≡ s0.snapshot)
      × (content s.files primary_file ≡ content s0.files primary_file)
      × (content s.files primary_temp_file ≡ some b)

  -- A step that ends keeps it, and reports a failure where it stops.
  abbrev pub StagedStop : SettingsState F → B → Stop → SettingsState F → Type 0
  StagedStop s0 b e s = Staged s0 b s × Reported s0 e s

  module _ (disk : IsDisk content empty fs) (atomic : IsAtomic content empty replacer) where
    settled-Staged :
        (s0 : SettingsState F) (b : B) (failure : SettingsPersistenceFailure) (done : Bool)
        (s : SettingsState F)
        → Staged s0 b s
        → Post (λ _. Staged s0 b) (StagedStop s0 b) (settled failure done s)
    unfolding record_persistence_failure
    settled-Staged s0 b failure true s st = st
    settled-Staged s0 b failure false s st = (st, inr refl)

    -- An operation on another file.
    on_files-Staged :
        (s0 : SettingsState F) (b : B) (failure : SettingsPersistenceFailure)
        (operation : F → F × Bool) (s : SettingsState F)
        → Leaves fs content empty primary_file s.files (operation s.files)
        → Leaves fs content empty primary_temp_file s.files (operation s.files)
        → Staged s0 b s
        → Post (λ _. Staged s0 b) (StagedStop s0 b) (on_files failure operation s)
    on_files-Staged s0 b failure operation s h k st =
        settled-Staged s0 b failure (operation s.files).1
          (record s { files = (operation s.files).0 }) (st.0, h ∙ st.1, k ∙ st.2)

    warned-Staged :
        (s0 : SettingsState F) (b : B) (s : SettingsState F) (r : F × Bool)
        → Leaves fs content empty primary_file s.files r
        → Leaves fs content empty primary_temp_file s.files r
        → Staged s0 b s
        → Staged s0 b (warned r s)
    warned-Staged s0 b s (f, true) h k st = (st.0, h ∙ st.1, k ∙ st.2)
    warned-Staged s0 b s (f, false) h k st = (st.0, h ∙ st.1, k ∙ st.2)

    pub preserve-Staged :
        (s0 : SettingsState F) (b : B) (s : SettingsState F)
        → Staged s0 b s
        → Post (λ _. Staged s0 b) (StagedStop s0 b) (preserve fs serde replacer s)
    unfolding preserve
    preserve-Staged s0 b s st =
        let n = s.next_quarantine in
        let s1 = record s { next_quarantine = next_sequence n } in
        let keep = chiu.Settings.Files.preserve_source fs n in
        continue-Post (λ _. Staged s0 b) (StagedStop s0 b) (λ _. Staged s0 b)
          (on_files preserve_source keep s1) _
          (on_files-Staged s0 b preserve_source keep s1
            (preserve_source-Leaves fs content empty disk primary_file n refl s.files)
            (preserve_source-Leaves fs content empty disk primary_temp_file n refl s.files) st)
          (λ _ s2 st2.
            warned-Staged s0 b (record s2 { preservation_required = false })
              (prune_quarantines fs s2.files)
              (prune_quarantines-Leaves fs content empty disk primary_file refl s2.files)
              (prune_quarantines-Leaves fs content empty disk primary_temp_file refl s2.files) st2)

    pub back_up-Staged :
        (s0 : SettingsState F) (b : B) (s : SettingsState F)
        → IsPersistable s0.snapshot.automatic_download
        → Staged s0 b s
        → Post (λ _. Staged s0 b) (StagedStop s0 b) (back_up fs serde replacer s)
    unfolding back_up
    back_up-Staged s0 b s h st =
        serialized-Post (λ _. Staged s0 b) (StagedStop s0 b) fs serde replacer s.snapshot s _
          (λ e. (st, cc (to_persisted_lem s0.snapshot h))) (λ p e. (st, inr refl))
          (λ p bytes e w.
            continue-Post (λ _. Staged s0 b) (StagedStop s0 b) (λ _. Staged s0 b)
              (on_files write_backup (write_synchronized fs backup_temp_file bytes) s) _
              (on_files-Staged s0 b write_backup (write_synchronized fs backup_temp_file bytes) s
                (write_synchronized-Leaves fs content empty disk primary_file backup_temp_file bytes
                  (bytes_differ primary_file backup_temp_file refl) s.files)
                (write_synchronized-Leaves fs content empty disk primary_temp_file backup_temp_file
                  bytes (bytes_differ primary_temp_file backup_temp_file refl) s.files)
                st)
              (λ _ s2.
                on_files-Staged s0 b replace_backup (replacer.replace backup_temp_file backup_file)
                  s2
                  (atomic.other backup_temp_file backup_file s2.files primary_file
                    (bytes_differ primary_file backup_temp_file refl)
                    (bytes_differ primary_file backup_file refl))
                  (atomic.other backup_temp_file backup_file s2.files primary_temp_file
                    (bytes_differ primary_temp_file backup_temp_file refl)
                    (bytes_differ primary_temp_file backup_file refl))))

    pub when-Staged :
        (s0 : SettingsState F) (b : B) (c : Bool) (step : Step F (Unit {0})) (s : SettingsState F)
        → Staged s0 b s
        → Post (λ _. Staged s0 b) (StagedStop s0 b) (step s)
        → Post (λ _. Staged s0 b) (StagedStop s0 b) (when c step s)
    when-Staged s0 b true step s st h = h
    when-Staged s0 b false step s st h = st

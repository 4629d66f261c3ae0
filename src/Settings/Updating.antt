-- ===== src/Settings/Updating.antt =====
-- An update is all or nothing: on the disk, in memory and in what is reported.
use chiu.Common.{◌≡◌, inl, inr, refl, ◌∙◌, Option, some}
use chiu.Common.Result.{Result, ok, err}
use chiu.Common.Bytes.{bytes_differ}
use chiu.Settings.{
  Settings, SettingsUpdate, SettingsUpdateError, create_directory, write_primary, replace_primary,
  apply,
}
use chiu.Settings.Persisted.{PersistedSettingsV1, to_persisted}
use chiu.Settings.Files.{
  FileSystem, Serde, AtomicReplace, Name, primary_file, primary_temp_file, write_synchronized,
}
use chiu.Settings.RoundTrip.{IsPersistable, to_persisted_lem}
use chiu.Settings.Fitting.{IsInRange, apply-IsPersistable}
use chiu.Settings.Disk.{IsDisk, IsAtomic}
use chiu.Settings.Leaving.{write_synchronized-Leaves, written_synchronized}
use chiu.Settings.Service.{preserve, back_up, update_inner, commit, overwrite}
use chiu.Settings.Step.{SettingsState, Stop, returned, continue, on_files, when, blocked}
use chiu.Settings.Conditions.{
  Post, continue-Post, unless_stopped-Post, applied-Post, on_files-Post, serialized-Post,
}
use chiu.Settings.Staging.{
  Changed, Refused, Staged, StagedStop, when-Staged, preserve-Staged, back_up-Staged,
}

module _ {F B : Type 0} (fs : FileSystem F B) (serde : Serde B) (replacer : AtomicReplace F)
    (content : F → Name → Option B) (empty : B) (disk : IsDisk content empty fs)
    (atomic : IsAtomic content empty replacer) where
  module _ (u : SettingsUpdate) (s0 : SettingsState F)
      (persistable : IsPersistable s0.snapshot.automatic_download) where
    at_once-Refused :
        (e : SettingsUpdateError) → Refused fs serde replacer content empty u s0 (returned e) s0
    at_once-Refused (SettingsUpdateError.persistence failure) = (refl, inl refl, inl refl)
    at_once-Refused (SettingsUpdateError.unsupported_future_schema n) = (refl, inl refl, refl)
    at_once-Refused (SettingsUpdateError.invalid_automatic_download e) = (refl, inl refl, refl)

    unfinished-Refused :
        (b : B) (A : Type 0) (r : SettingsState F × Result A Stop)
        → Post
            (λ _. Staged fs serde replacer content empty s0 b)
            (StagedStop fs serde replacer content empty s0 b)
            r
        → Post
            (λ _. Staged fs serde replacer content empty s0 b)
            (Refused fs serde replacer content empty u s0)
            r
    unfinished-Refused b A (s, ok a) h = h
    unfinished-Refused b A (s, err e) h = (h.0.0, inl h.0.1, h.1)

    module _ (proposed : Settings) (p : PersistedSettingsV1) (b : B)
        (done : apply u s0.snapshot ≡ ok proposed) (document : to_persisted proposed ≡ some p)
        (bytes : serde.to_vec_pretty p ≡ some b) where
      commit-Post :
          (s : SettingsState F)
          → Staged fs serde replacer content empty s0 b s
          → Post
              (Changed fs serde replacer content empty u s0)
              (Refused fs serde replacer content empty u s0)
              (commit fs serde replacer proposed s)
      unfolding commit
      commit-Post s st =
          let operation = replacer.replace primary_temp_file primary_file in
          on_files-Post (Changed fs serde replacer content empty u s0)
            (Refused fs serde replacer content empty u s0) replace_primary operation s _
            (λ _. (
              st.0,
              elim (atomic.old_or_new primary_temp_file primary_file s.files) [
                | inl old ↦ inl (old ∙ st.1)
                | inr new ↦ inr (proposed, done, (p, b, document, bytes, new ∙ st.2))
              ],
              inr refl,
            ))
            (λ replaced.
              let held = atomic.replaced primary_temp_file primary_file s.files replaced ∙ st.2 in
              (done, refl, refl, (p, b, document, bytes, held)))

      overwrite-Post :
          (s : SettingsState F)
          → Staged fs serde replacer content empty s0 b s
          → Post
              (Changed fs serde replacer content empty u s0)
              (Refused fs serde replacer content empty u s0)
              (overwrite fs serde replacer proposed s)
      unfolding overwrite
      overwrite-Post s st =
          continue-Post (Changed fs serde replacer content empty u s0)
            (Refused fs serde replacer content empty u s0)
            (λ _. Staged fs serde replacer content empty s0 b)
            (when s.preservation_required (preserve fs serde replacer) s) _
            (unfinished-Refused b Unit _ (
              when-Staged fs serde replacer content empty disk atomic s0 b s.preservation_required
                (preserve fs serde replacer) s st
                (preserve-Staged fs serde replacer content empty disk atomic s0 b s st)))
            (λ _ s1 st1.
              continue-Post (Changed fs serde replacer content empty u s0)
                (Refused fs serde replacer content empty u s0)
                (λ _. Staged fs serde replacer content empty s0 b)
                (when (fs.exists primary_file s1.files) (back_up fs serde replacer) s1) _
                (unfinished-Refused b Unit _ (
                  when-Staged fs serde replacer content empty disk atomic s0 b
                    (fs.exists primary_file s1.files) (back_up fs serde replacer) s1 st1
                    (back_up-Staged fs serde replacer content empty disk atomic s0 b s1 persistable
                      st1)))
                (λ _. commit-Post))

      write-Post :
          (s : SettingsState F)
          → s.snapshot ≡ s0.snapshot
          → content s.files primary_file ≡ content s0.files primary_file
          → Post
              (Changed fs serde replacer content empty u s0)
              (Refused fs serde replacer content empty u s0)
              (continue
                (on_files write_primary (write_synchronized fs primary_temp_file b) s)
                (λ _. overwrite fs serde replacer proposed))
      write-Post s h k =
          let operation = write_synchronized fs primary_temp_file b in
          let kept =
            write_synchronized-Leaves fs content empty disk primary_file primary_temp_file b
              (bytes_differ primary_file primary_temp_file refl) s.files
            ∙ k in
          on_files-Post (Changed fs serde replacer content empty u s0)
            (Refused fs serde replacer content empty u s0) write_primary operation s _
            (λ _. (h, inl kept, inr refl))
            (λ wrote.
              overwrite-Post (record s { files = (operation s.files).0 })
                (
                  h,
                  kept,
                  written_synchronized fs content empty disk primary_temp_file b s.files wrote,
                ))

    -- An update is all or nothing. Where it returns settings, they are the ones before with the
    -- change applied, they are the service's settings, and the primary file holds their document.
    -- Where it returns an error, the service's settings are as before, the primary file holds what
    -- it held or the complete new document, and a persistence failure that was met on the way is
    -- kept in the health. It does not panic if the settings' durations are whole milliseconds that fit u64 and so are the change's.
    pub update_inner-Post :
        IsInRange u
        → Post
            (Changed fs serde replacer content empty u s0)
            (Refused fs serde replacer content empty u s0)
            (update_inner fs serde replacer u s0)
    unfolding update_inner
    update_inner-Post r =
        unless_stopped-Post (Changed fs serde replacer content empty u s0)
          (Refused fs serde replacer content empty u s0)
          (blocked s0.health.load_condition s0.health.persistence) s0 _ (λ e _. at_once-Refused e)
          (λ _.
            applied-Post (Changed fs serde replacer content empty u s0)
              (Refused fs serde replacer content empty u s0) (apply u s0.snapshot) s0 _
              (λ e _. at_once-Refused e)
              (λ proposed done.
                serialized-Post (Changed fs serde replacer content empty u s0)
                  (Refused fs serde replacer content empty u s0) fs serde replacer proposed s0 _
                  (λ e. cc (
                    to_persisted_lem proposed
                      (apply-IsPersistable u s0.snapshot proposed r persistable done)))
                  (λ p e. (refl, inl refl, inr refl))
                  (λ p b document bytes.
                    on_files-Post (Changed fs serde replacer content empty u s0)
                      (Refused fs serde replacer content empty u s0) create_directory
                      fs.create_dir_all s0 _
                      (λ _. (refl, inl (disk.create_dir_all s0.files primary_file), inr refl))
                      (λ _.
                        write-Post proposed p b done document bytes
                          (record s0 { files = (fs.create_dir_all s0.files).0 }) refl
                          (disk.create_dir_all s0.files primary_file)))))

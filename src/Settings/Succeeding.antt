-- ===== src/Settings/Succeeding.antt =====
-- Where the system does what it is asked to, an update succeeds.
use chiu.Common.{◌≡◌, refl, sym, ◌∙◌, Bool, true, false, none, some}
use chiu.Common.Result.{Result, ok, ok-injective}
use chiu.Settings.{
  Settings, SettingsUpdate, SettingsPersistenceFailure, create_directory, preserve_source,
  write_primary, write_backup, replace_backup, replace_primary, apply,
}
use chiu.Settings.Persisted.{PersistedSettingsV1}
use chiu.Settings.Files.{
  FileSystem, Serde, AtomicReplace, Name, primary_file, primary_temp_file, backup_file,
  backup_temp_file, next_sequence, write_synchronized, and_then, quarantine_name,
}
use chiu.Settings.RoundTrip.{IsPersistable, to_persisted_lem}
use chiu.Settings.Fitting.{IsInRange, apply-IsPersistable}
use chiu.Settings.Step.{SettingsState, Stop, Step, settled, on_files, warned, when, blocked}
use chiu.Settings.Service.{preserve, back_up, commit, overwrite, update_inner}
use chiu.Settings.Conditions.{
  Post, continue-Post, unless_stopped-Post, applied-Post, on_files-Post, serialized-Post,
}

-- Every call that an update waits on succeeds.
pub record IsWorking {F B : Type 0} (fs : FileSystem F B) (serde : Serde B)
    (replacer : AtomicReplace F) : Type 0 where
  pub create_dir_all : (f : F) → (fs.create_dir_all f).1 ≡ true
  pub create : (n : Name) (f : F) → (fs.create n f).1 ≡ true
  pub write_all : (n : Name) (b : B) (f : F) → (fs.write_all n b f).1 ≡ true
  pub sync_all : (n : Name) (f : F) → (fs.sync_all n f).1 ≡ true
  pub copy : (a b : Name) (f : F) → (fs.copy a b f).1 ≡ true
  pub replace : (a b : Name) (f : F) → (replacer.replace a b f).1 ≡ true
  pub to_vec_pretty : (p : PersistedSettingsV1) → (b : B) × (serde.to_vec_pretty p ≡ some b)

and_then-true :
    {F : Type 0} (r : F × Bool) (next : F → F × Bool)
    → r.1 ≡ true
    → ((f : F) → (next f).1 ≡ true)
    → (and_then r next).1 ≡ true
and_then-true (f, true) next h k = k f
and_then-true (f, false) next h k = cc

-- The step goes on, and the settings in memory are these.
abbrev GoesOn : {F A : Type 0} → Settings → SettingsState F × Result A Stop → Type 0
GoesOn settings = Post (λ _ s. s.snapshot ≡ settings) (λ _ _. ⊥)

-- The update returns these settings, and they are the service's.
abbrev pub Updated : {F : Type 0} → Settings → SettingsState F × Result Settings Stop → Type 0
Updated proposed = Post (λ result s. (result ≡ proposed) × (s.snapshot ≡ proposed)) (λ _ _. ⊥)

settled-GoesOn :
    {F : Type 0} (settings : Settings) (failure : SettingsPersistenceFailure) (done : Bool)
    (s : SettingsState F)
    → done ≡ true
    → s.snapshot ≡ settings
    → GoesOn settings (settled failure done s)
settled-GoesOn settings failure true s h k = k
settled-GoesOn settings failure false s h k = cc

warned-snapshot :
    {F : Type 0} (r : F × Bool) (s : SettingsState F) → (warned r s).snapshot ≡ s.snapshot
warned-snapshot (f, true) s = refl
warned-snapshot (f, false) s = refl

when-GoesOn :
    {F : Type 0} (settings : Settings) (c : Bool) (step : Step F (Unit {0})) (s : SettingsState F)
    → s.snapshot ≡ settings
    → GoesOn settings (step s)
    → GoesOn settings (when c step s)
when-GoesOn settings true step s k h = h
when-GoesOn settings false step s k h = k

module _ {F B : Type 0} (fs : FileSystem F B) (serde : Serde B) (replacer : AtomicReplace F)
    (working : IsWorking fs serde replacer) where
  write_synchronized-true : (n : Name) (b : B) (f : F) → (write_synchronized fs n b f).1 ≡ true
  unfolding write_synchronized
  write_synchronized-true n b f =
      and_then-true (and_then (fs.create n f) (fs.write_all n b)) (fs.sync_all n)
        (and_then-true (fs.create n f) (fs.write_all n b) (working.create n f)
          (working.write_all n b))
        (working.sync_all n)

  module _ (settings : Settings) (persistable : IsPersistable settings.automatic_download) where
    preserve-GoesOn :
        (s : SettingsState F)
        → s.snapshot ≡ settings
        → GoesOn settings (preserve fs serde replacer s)
    unfolding preserve chiu.Settings.Files.preserve_source
    preserve-GoesOn s k =
        let n = s.next_quarantine in
        let s1 = record s { next_quarantine = next_sequence n } in
        let keep = chiu.Settings.Files.preserve_source fs n in
        let name = quarantine_name (fs.now_millis s.files) n in
        continue-Post (λ _ s2. s2.snapshot ≡ settings) (λ _ _. ⊥) (λ _ s2. s2.snapshot ≡ settings)
          (on_files preserve_source keep s1) _
          (settled-GoesOn settings preserve_source (keep s.files).1
            (record s1 { files = (keep s.files).0 })
            (and_then-true (fs.copy primary_file name s.files) (fs.sync_all name)
              (working.copy primary_file name s.files) (working.sync_all name))
            k)
          (λ _ s2 k2. warned-snapshot _ (record s2 { preservation_required = false }) ∙ k2)

    back_up-GoesOn :
        (s : SettingsState F)
        → s.snapshot ≡ settings
        → GoesOn settings (back_up fs serde replacer s)
    unfolding back_up
    back_up-GoesOn s k =
        serialized-Post (λ _ s2. s2.snapshot ≡ settings) (λ _ _. ⊥) fs serde replacer s.snapshot s _
          (λ e. cc (to_persisted_lem settings persistable)) (λ p e. cc (working.to_vec_pretty p).1)
          (λ p bytes e w.
            continue-Post (λ _ s2. s2.snapshot ≡ settings) (λ _ _. ⊥)
              (λ _ s2. s2.snapshot ≡ settings)
              (on_files write_backup (write_synchronized fs backup_temp_file bytes) s) _
              (settled-GoesOn settings write_backup _ _
                (write_synchronized-true backup_temp_file bytes s.files) k)
              (λ _ s2 k2.
                settled-GoesOn settings replace_backup _ _
                  (working.replace backup_temp_file backup_file s2.files) k2))

    module _ (proposed next : Settings) (same : next ≡ proposed) where
      commit-Updated : (s : SettingsState F) → Updated proposed (commit fs serde replacer next s)
      unfolding commit
      commit-Updated s =
          on_files-Post (λ result s'. (result ≡ proposed) × (s'.snapshot ≡ proposed)) (λ _ _. ⊥)
            replace_primary (replacer.replace primary_temp_file primary_file) s _
            (λ e. cc (working.replace primary_temp_file primary_file s.files)) (λ _. (same, same))

      overwrite-Updated :
          (s : SettingsState F)
          → s.snapshot ≡ settings
          → Updated proposed (overwrite fs serde replacer next s)
      unfolding overwrite
      overwrite-Updated s k =
          continue-Post (λ result s'. (result ≡ proposed) × (s'.snapshot ≡ proposed)) (λ _ _. ⊥)
            (λ _ s'. s'.snapshot ≡ settings)
            (when s.preservation_required (preserve fs serde replacer) s) _
            (when-GoesOn settings s.preservation_required (preserve fs serde replacer) s k
              (preserve-GoesOn s k))
            (λ _ s1 k1.
              continue-Post (λ result s'. (result ≡ proposed) × (s'.snapshot ≡ proposed)) (λ _ _. ⊥)
                (λ _ s'. s'.snapshot ≡ settings)
                (when (fs.exists primary_file s1.files) (back_up fs serde replacer) s1) _
                (when-GoesOn settings (fs.exists primary_file s1.files) (back_up fs serde replacer)
                  s1 k1 (back_up-GoesOn s1 k1))
                (λ _ s2 _. commit-Updated s2))

  -- An update succeeds where every call it waits on does: if the service is not blocked and the
  -- change fits the settings, it returns the settings with the change applied, and they are the
  -- service's. This is for settings whose durations are whole milliseconds that fit u64, and for
  -- such a change.
  pub update_inner_succeeds :
      (u : SettingsUpdate) (s : SettingsState F) (proposed : Settings)
      → IsPersistable s.snapshot.automatic_download
      → IsInRange u
      → blocked s.health.load_condition s.health.persistence ≡ none
      → apply u s.snapshot ≡ ok proposed
      → Updated proposed (update_inner fs serde replacer u s)
  unfolding update_inner
  update_inner_succeeds u s proposed persistable r admitted done =
      unless_stopped-Post (λ result s'. (result ≡ proposed) × (s'.snapshot ≡ proposed)) (λ _ _. ⊥)
        (blocked s.health.load_condition s.health.persistence) s _ (λ e h. cc)
        (λ _.
          applied-Post (λ result s'. (result ≡ proposed) × (s'.snapshot ≡ proposed)) (λ _ _. ⊥)
            (apply u s.snapshot) s _ (λ e h. cc)
            (λ next h.
              serialized-Post (λ result s'. (result ≡ proposed) × (s'.snapshot ≡ proposed))
                (λ _ _. ⊥) fs serde replacer next s _
                (λ e.
                  cc
                    (to_persisted_lem next (apply-IsPersistable u s.snapshot next r persistable h)))
                (λ p e. cc (working.to_vec_pretty p).1)
                (λ p bytes document written.
                  on_files-Post (λ result s'. (result ≡ proposed) × (s'.snapshot ≡ proposed))
                    (λ _ _. ⊥) create_directory fs.create_dir_all s _
                    (λ e. cc (working.create_dir_all s.files))
                    (λ _.
                      on_files-Post (λ result s'. (result ≡ proposed) × (s'.snapshot ≡ proposed))
                        (λ _ _. ⊥) write_primary (write_synchronized fs primary_temp_file bytes)
                        (record s { files = (fs.create_dir_all s.files).0 }) _
                        (λ e. cc (
                          write_synchronized-true primary_temp_file bytes
                            (fs.create_dir_all s.files).0))
                        (λ _.
                          overwrite-Updated s.snapshot persistable proposed next
                            (ok-injective (sym h ∙ done)) _ refl)))))

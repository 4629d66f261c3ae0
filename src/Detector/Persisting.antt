-- ===== src/Detector/Persisting.antt =====
-- The detector follows the saved settings.
use chiu.Common.{
  ℕ, ◌≤◌, ◌≡◌, sym, ap, subst, ◌∙◌, refl, Option, none, some, List, [], ◌∷◌, arith, Bool-cases, inl,
  inr,
}
use chiu.Common.Result.{Result, ok, err}
use chiu.Common.Time.{from_millis, as_millis, u64_max}
use chiu.Settings.{Settings, SettingsUpdate, apply}
use chiu.Settings.Persisted.{persisted_millis}
use chiu.Settings.RoundTrip.{IsPersistable}
use chiu.Settings.Fitting.{IsInRange, apply_tuning}
use chiu.Settings.Files.{FileSystem, Serde, AtomicReplace, Name}
use chiu.Settings.Disk.{IsDisk, IsAtomic}
use chiu.Settings.Step.{SettingsService, Stop, returned, panicked}
use chiu.Settings.Answers.{Answered, Became, Stayed, update-Became}
use chiu.Detector.{
  AutomaticDownloadSettings, AutomaticDownloadSettingsError, try_new_settings, IntentConsumer,
  AutomaticDownloadMonitor, apply_settings, reset,
}
use chiu.Detector.Tuning.{
  AutomaticDownloadTuningService, settings_eq, apply_persisted, persist, update_to, set_threshold,
  set_grace,
}

-- The detector has the saved settings, and they can be written again.
pub record IsInSync {F S : Type 0} (s : AutomaticDownloadTuningService F S) : Type 0 where
  pub agrees : s.monitor.core.settings ≡ s.settings.state.snapshot.automatic_download
  pub persistable : IsPersistable s.settings.state.snapshot.automatic_download

-- A change whose durations are whole milliseconds.
pub record IsWhole (t : AutomaticDownloadSettings) : Type 0 where
  pub activation : from_millis (as_millis t.activation_qualification) ≡ t.activation_qualification
  pub grace : from_millis (as_millis t.grace) ≡ t.grace

-- A change of the detector's settings that the menu gives.
pub data Tuning : Type 0 where
  threshold : ℕ → Tuning
  grace_milliseconds : ℕ → Tuning

module _ {F B S : Type 0} (fs : FileSystem F B) (serde : Serde B) (replacer : AtomicReplace F)
    (intent : IntentConsumer S) where
  abbrev pub tune : Tuning → AutomaticDownloadTuningService F S → AutomaticDownloadTuningService F S
  tune (threshold rate) s = (set_threshold fs serde replacer intent rate s).0
  tune (grace_milliseconds n) s = (set_grace fs serde replacer intent (from_millis n) s).0

  abbrev pub tune_all :
      List Tuning → AutomaticDownloadTuningService F S → AutomaticDownloadTuningService F S
  tune_all [] s = s
  tune_all (c ∷ cs) s = tune_all cs (tune c s)

module _ {F B S : Type 0} (fs : FileSystem F B) (serde : Serde B) (replacer : AtomicReplace F)
    (intent : IntentConsumer S) (content : F → Name → Option B) (empty : B)
    (disk : IsDisk content empty fs) (atomic : IsAtomic content empty replacer) where
  abbrev tuning_of : AutomaticDownloadSettings → SettingsUpdate
  tuning_of t =
      SettingsUpdate.automatic_download_tuning t.meaningful_receive_rate_bytes_per_second
        (as_millis t.activation_qualification) (as_millis t.grace)

  applied-settings :
      (t : AutomaticDownloadSettings) (s s' : Settings)
      → IsWhole t
      → apply (tuning_of t) s ≡ ok s'
      → t ≡ s'.automatic_download
  applied-settings t s s' w e = cc (
    w.activation,
    w.grace,
    (apply_tuning s s' t.meaningful_receive_rate_bytes_per_second
        (as_millis t.activation_qualification) (as_millis t.grace) e).2,
  )

  apply_settings-settings :
      (t : AutomaticDownloadSettings) (m : AutomaticDownloadMonitor S)
      → (apply_settings intent t m).0.core.settings ≡ t
  unfolding apply_settings reset
  apply_settings-settings t m = refl

  apply_persisted-IsInSync :
      (t : AutomaticDownloadSettings) (s : AutomaticDownloadTuningService F S) (h : IsInSync s)
      (range : IsInRange (tuning_of t))
      → IsWhole t
      → (r : SettingsService F × Result Settings Stop)
      → Answered
          (Became fs serde replacer content empty disk atomic
            (tuning_of t)
            s.settings
            h.persistable
            range)
          (Stayed fs serde replacer content empty disk atomic
            (tuning_of t)
            s.settings
            h.persistable
            range)
          r
      → IsInSync (apply_persisted fs serde replacer intent t s.monitor r).0
  apply_persisted-IsInSync t s h range w (settings, ok s') (done, snapshot, p) = record {
    agrees =
        apply_settings-settings t s.monitor
        ∙ applied-settings t s.settings.state.snapshot s' w done
        ∙ ap Settings.automatic_download (sym snapshot);
    persistable = subst (λ t. IsPersistable (Settings.automatic_download t)) (sym snapshot) p;
  }
  apply_persisted-IsInSync t s h range w (settings, err (returned e)) k = record {
    agrees = h.agrees ∙ ap Settings.automatic_download (sym k);
    persistable = subst (λ t. IsPersistable (Settings.automatic_download t)) (sym k) h.persistable;
  }
  apply_persisted-IsInSync t s h range w (settings, err panicked) k = record {
    agrees = h.agrees ∙ ap Settings.automatic_download (sym k);
    persistable = subst (λ t. IsPersistable (Settings.automatic_download t)) (sym k) h.persistable;
  }

  persisted_millis-some :
      (d n : ℕ) → persisted_millis d ≡ some n → (n ≡ as_millis d) × (as_millis d ≤ u64_max)
  persisted_millis-some d n h = ground arith

  persist-IsInSync :
      (t : AutomaticDownloadSettings) (s : AutomaticDownloadTuningService F S)
      (activation grace : Option ℕ)
      → persisted_millis t.activation_qualification ≡ activation
      → persisted_millis t.grace ≡ grace
      → IsWhole t
      → IsInSync s
      → IsInSync (persist fs serde replacer intent t activation grace s).0
  persist-IsInSync t s none grace ha hg w h = h
  persist-IsInSync t s (some a) none ha hg w h = h
  persist-IsInSync t s (some a) (some g) ha hg w h =
      let (ea, fa) = persisted_millis-some t.activation_qualification a ha in
      let (eg, fg) = persisted_millis-some t.grace g hg in
      rw (ea, eg)
        (apply_persisted-IsInSync t s h (fa, fg) w _
          (update-Became fs serde replacer content empty disk atomic (tuning_of t) s.settings
            h.persistable (fa, fg)))

  update_to-IsInSync :
      (r : Result AutomaticDownloadSettings AutomaticDownloadSettingsError)
      (s : AutomaticDownloadTuningService F S)
      → ((t : AutomaticDownloadSettings) → r ≡ ok t → IsWhole t)
      → IsInSync s
      → IsInSync (update_to fs serde replacer intent r s).0
  update_to-IsInSync (err e) s w h = h
  update_to-IsInSync (ok t) s w h = elim (Bool-cases (settings_eq t s.monitor.core.settings)) [
    | inl same ↦ rw same h
    | inr other ↦ rw other (persist-IsInSync t s _ _ refl refl (w t refl) h)
  ]

  constructed :
      (rate activation grace : ℕ) (t : AutomaticDownloadSettings)
      → try_new_settings rate activation grace ≡ ok t
      → (activation ≡ t.activation_qualification) × (grace ≡ t.grace)
  unfolding try_new_settings
  constructed rate activation grace t e = ground arith

  constructed-IsWhole :
      (rate activation grace : ℕ) (t : AutomaticDownloadSettings)
      → from_millis (as_millis activation) ≡ activation
      → from_millis (as_millis grace) ≡ grace
      → try_new_settings rate activation grace ≡ ok t
      → IsWhole t
  constructed-IsWhole rate activation grace t ha hg e =
      let (a, g) = constructed rate activation grace t e in
      record {
        activation = subst (λ d. from_millis (as_millis d) ≡ d) a ha;
        grace = subst (λ d. from_millis (as_millis d) ≡ d) g hg;
      }

  current-IsWhole :
      (s : AutomaticDownloadTuningService F S) → IsInSync s → IsWhole s.monitor.core.settings
  current-IsWhole s h =
      subst IsWhole (sym h.agrees) (record {
        activation = h.persistable.qualification_whole;
        grace = h.persistable.grace_whole;
      })

  from_millis-whole : (n : ℕ) → from_millis (as_millis (from_millis n)) ≡ from_millis n
  from_millis-whole n = omega arith

  tune-IsInSync :
      (c : Tuning) (s : AutomaticDownloadTuningService F S)
      → IsInSync s
      → IsInSync (tune fs serde replacer intent c s)
  unfolding set_threshold set_grace
  tune-IsInSync (threshold rate) s h =
      let current = s.monitor.core.settings in
      update_to-IsInSync (try_new_settings rate current.activation_qualification current.grace) s
        (λ t.
          constructed-IsWhole rate current.activation_qualification current.grace t
            (current-IsWhole s h).activation (current-IsWhole s h).grace)
        h
  tune-IsInSync (grace_milliseconds n) s h =
      let current = s.monitor.core.settings in
      update_to-IsInSync
        (try_new_settings current.meaningful_receive_rate_bytes_per_second
          current.activation_qualification (from_millis n))
        s
        (λ t.
          constructed-IsWhole current.meaningful_receive_rate_bytes_per_second
            current.activation_qualification (from_millis n) t (current-IsWhole s h).activation
            (from_millis-whole n))
        h

  -- If the detector has the saved settings, it has them after any changes of the threshold and of
  -- the grace in milliseconds, whether a change is refused, saving it fails or it succeeds.
  pub tune_all-IsInSync :
      (cs : List Tuning) (s : AutomaticDownloadTuningService F S)
      → IsInSync s
      → IsInSync (tune_all fs serde replacer intent cs s)
  tune_all-IsInSync [] s h = h
  tune_all-IsInSync (c ∷ cs) s h =
      tune_all-IsInSync cs (tune fs serde replacer intent c s) (tune-IsInSync c s h)

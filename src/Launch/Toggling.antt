-- ===== src/Launch/Toggling.antt =====
-- A toggle saves first and then changes the registration.
use chiu.Common.{◌≡◌, refl, sym, ap, ◌∙◌, String, Bool, true, false, not, Option, none, some}
use chiu.Common.Result.{Result, ok, err, ok-injective}
use chiu.Settings.{Settings, SettingsUpdate, apply}
use chiu.Settings.RoundTrip.{IsPersistable}
use chiu.Settings.Files.{FileSystem, Serde, AtomicReplace, Name}
use chiu.Settings.Disk.{IsDisk, IsAtomic}
use chiu.Settings.Step.{SettingsService, Stop, returned, panicked}
use chiu.Settings.Answers.{Answered, update-Answered}
use chiu.Settings.Staging.{Changed, Refused}
use chiu.Launch.{
  LaunchAtLoginAdapter, LaunchAtLoginService, available, LaunchAtLoginSnapshot,
  LaunchAtLoginFailure, LaunchAtLoginCommandError, registration, saved, verified, apply_and_verify,
  record_success, record_failure, toggle, toggle_with, LaunchAtLoginBackend, after_update,
  native_answer,
}
use chiu.Launch.Laws.{Honest, apply_and_verify-Honest}

module _ {F A : Type 0} where
  -- After a toggle: on success and on a failure of the operating system the choice is the other one,
  -- saved, and the registration was observed to be it or the failure is kept; on a failure to save,
  -- the choice is as before and the operating system was not called.
  abbrev pub Toggled :
      LaunchAtLoginService F A
      → LaunchAtLoginService F A × Option (Result LaunchAtLoginSnapshot LaunchAtLoginCommandError)
      → Type 0
  Toggled s (s', none) = ⊥
  Toggled s (s', some (ok shown)) =
      (saved s' ≡ not (saved s))
      × (s'.observed ≡ registration (not (saved s)))
      × (s'.latest_failure ≡ none)
  Toggled s (s', some (err LaunchAtLoginCommandError.unavailable)) = ⊥
  Toggled s (s', some (err (LaunchAtLoginCommandError.settings e))) =
      (saved s' ≡ saved s) × (s'.system ≡ s.system)
  Toggled s (s', some (err (LaunchAtLoginCommandError.native failure))) =
      (saved s' ≡ not (saved s)) × (s'.latest_failure ≡ some failure)

  verified-saved :
      (wanted : Bool) (applied : Result (Unit {0}) String) (verification : Result Bool String)
      (s : LaunchAtLoginService F A)
      → saved (verified wanted applied verification s).0 ≡ saved s
  unfolding record_success record_failure
  verified-saved wanted (err _) verification s = refl
  verified-saved wanted (ok _) (err _) s = refl
  verified-saved true (ok _) (ok true) s = refl
  verified-saved true (ok _) (ok false) s = refl
  verified-saved false (ok _) (ok true) s = refl
  verified-saved false (ok _) (ok false) s = refl

  native_answer-Toggled :
      (s : LaunchAtLoginService F A)
      (r : LaunchAtLoginService F A × Result LaunchAtLoginSnapshot LaunchAtLoginFailure)
      → Honest (not (saved s)) r
      → saved r.0 ≡ not (saved s)
      → Toggled s (native_answer r)
  native_answer-Toggled s (s', ok shown) h k = (k, h.1, h.2)
  native_answer-Toggled s (s', err failure) h k = (k, h)

module _ {F A B : Type 0} (adapter : LaunchAtLoginAdapter A) (fs : FileSystem F B) (serde : Serde B)
    (replacer : AtomicReplace F) (content : F → Name → Option B) (empty : B) where
  apply_and_verify-saved :
      (wanted : Bool) (s : LaunchAtLoginService F A)
      → saved (apply_and_verify adapter wanted s).0 ≡ saved s
  unfolding apply_and_verify
  apply_and_verify-saved wanted s =
      let (a1, applied) = adapter.set_enabled wanted s.system in
      let (a2, verification) = adapter.observe a1 in
      verified-saved wanted applied verification (record s { system = a2 })

  after_update-Toggled :
      (s : LaunchAtLoginService F A) (r : SettingsService F × Result Settings Stop)
      → Answered
          (Changed fs serde replacer content empty
            (SettingsUpdate.launch_at_login (not (saved s)))
            s.settings.state)
          (Refused fs serde replacer content empty
            (SettingsUpdate.launch_at_login (not (saved s)))
            s.settings.state)
          r
      → Toggled s (after_update adapter (not (saved s)) s r)
  unfolding apply
  after_update-Toggled s (settings', ok changed) (done, snapshot, _, _) =
      let wanted = not (saved s) in
      let s1 = record s { settings = settings' } in
      native_answer-Toggled s (apply_and_verify adapter wanted s1)
        (apply_and_verify-Honest adapter wanted s1)
        (apply_and_verify-saved wanted s1
          ∙ ap Settings.launch_at_login snapshot
          ∙ ap Settings.launch_at_login (sym (ok-injective done)))
  after_update-Toggled s (settings', err (returned e)) (snapshot, _, _) =
      (ap Settings.launch_at_login snapshot, refl)
  after_update-Toggled s (settings', err panicked) (_, _, never) = never

  module _ (disk : IsDisk content empty fs) (atomic : IsAtomic content empty replacer)
      (s : LaunchAtLoginService F A)
      (persistable : IsPersistable s.settings.state.snapshot.automatic_download) where
    toggle_with-Toggled :
        (backend : LaunchAtLoginBackend)
        → backend ≡ available
        → Toggled s (toggle_with adapter fs serde replacer backend s)
    toggle_with-Toggled available h = after_update-Toggled s _ (
        update-Answered fs serde replacer content empty disk atomic
          (SettingsUpdate.launch_at_login (not (saved s))) s.settings persistable tt)
    toggle_with-Toggled (LaunchAtLoginBackend.unavailable failure) h = cc

    -- A toggle where the adapter is there and the settings can be written does not panic. On success
    -- the choice is the other one, saved, and the registration was observed to be it; on a failure of
    -- the operating system the choice is the other one, saved, and the failure is kept; on a failure
    -- to save, the choice is as before and the operating system was not called.
    pub toggle-Toggled : s.backend ≡ available → Toggled s (toggle adapter fs serde replacer s)
    unfolding toggle
    toggle-Toggled h = toggle_with-Toggled s.backend h

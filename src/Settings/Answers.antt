-- ===== src/Settings/Answers.antt =====
-- What the clients of the settings service rely on: the state behind an answer.
use chiu.Common.{◌≡◌, Option, List}
use chiu.Common.Result.{Result, ok, err}
use chiu.Log.{SafeEvent}
use chiu.Settings.{Settings, SettingsUpdate, apply}
use chiu.Settings.RoundTrip.{IsPersistable}
use chiu.Settings.Fitting.{IsInRange, apply-IsPersistable}
use chiu.Settings.Files.{FileSystem, Serde, AtomicReplace, Name}
use chiu.Settings.Disk.{IsDisk, IsAtomic}
use chiu.Settings.Service.{logged, update, update_inner}
use chiu.Settings.Step.{SettingsState, SettingsService, Stop, returned, panicked}
use chiu.Settings.Conditions.{Post}
use chiu.Settings.Staging.{Changed, Refused}
use chiu.Settings.Updating.{update_inner-Post}

abbrev pub Answered :
    {F : Type 0}
    → (Settings → SettingsState F → Type 0)
    → (Stop → SettingsState F → Type 0)
    → SettingsService F × Result Settings Stop
    → Type 0
Answered Q E (service, ok settings) = Q settings service.state
Answered Q E (service, err e) = E e service.state

module _ {F B : Type 0} (fs : FileSystem F B) (serde : Serde B) (replacer : AtomicReplace F) where
  logged-Answered :
      (Q : Settings → SettingsState F → Type 0) (E : Stop → SettingsState F → Type 0)
      (u : SettingsUpdate) (log : List SafeEvent) (r : SettingsState F × Result Settings Stop)
      → Post Q E r
      → Answered Q E (logged fs serde replacer u log r)
  logged-Answered Q E u log (s, ok _) h = h
  logged-Answered Q E u log (s, err (returned _)) h = h
  logged-Answered Q E u log (s, err panicked) h = h

  module _ (content : F → Name → Option B) (empty : B) (disk : IsDisk content empty fs)
      (atomic : IsAtomic content empty replacer) (u : SettingsUpdate) (service : SettingsService F)
      (persistable : IsPersistable service.state.snapshot.automatic_download)
      (in_range : IsInRange u) where
    pub update-Answered :
        Answered
          (Changed fs serde replacer content empty u service.state)
          (Refused fs serde replacer content empty u service.state)
          (update fs serde replacer u service)
    unfolding update
    update-Answered =
        logged-Answered (Changed fs serde replacer content empty u service.state)
          (Refused fs serde replacer content empty u service.state) u service.log
          (update_inner fs serde replacer u service.state)
          (update_inner-Post fs serde replacer content empty disk atomic u service.state persistable
            in_range)

    -- Where settings are returned, they are the changed ones and the service's, and they can be
    -- written again; where not, the service's are as before.
    abbrev pub Became : Settings → SettingsState F → Type 0
    Became settings s =
        (apply u service.state.snapshot ≡ ok settings)
        × (s.snapshot ≡ settings)
        × IsPersistable settings.automatic_download

    abbrev pub Stayed : Stop → SettingsState F → Type 0
    Stayed e s = s.snapshot ≡ service.state.snapshot

    weakened :
        (r : SettingsService F × Result Settings Stop)
        → Answered
            (Changed fs serde replacer content empty u service.state)
            (Refused fs serde replacer content empty u service.state)
            r
        → Answered Became Stayed r
    weakened (s, ok settings) (done, snapshot, _, _) = (
      done,
      snapshot,
      apply-IsPersistable u service.state.snapshot settings in_range persistable done,
    )
    weakened (s, err e) h = h.0

    pub update-Became : Answered Became Stayed (update fs serde replacer u service)
    update-Became = weakened (update fs serde replacer u service) update-Answered

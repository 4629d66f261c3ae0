-- ===== src/Protection/Persisting.antt =====
-- The policy follows the saved settings.
use chiu.Common.{◌≡◌, sym, ap, subst, ◌∙◌, Option, List, [], ◌∷◌}
use chiu.Common.Result.{Result, ok, err}
use chiu.Wake.{SleepInhibitor}
use chiu.Settings.{Settings, SettingsUpdate}
use chiu.Settings.RoundTrip.{IsPersistable}
use chiu.Settings.Fitting.{IsInRange}
use chiu.Settings.Files.{FileSystem, Serde, AtomicReplace, Name}
use chiu.Settings.Disk.{IsDisk, IsAtomic}
use chiu.Settings.Step.{SettingsService, Stop, returned, panicked}
use chiu.Settings.Answers.{Answered, Became, Stayed, update-Became}
use chiu.Protection.{AutomaticProtectionSettings, AutomaticProtectionController, set_settings}
use chiu.Protection.Laws.{apply_change-state}
use chiu.Protection.Service.{
  AutomaticProtectionService, from_settings, apply_persisted, update_locked,
  toggle_automatic_download_protection, toggle_protect_on_battery,
}

-- The policy has the saved settings, and they can be written again.
pub record IsInSync {F D : Type 0} (s : AutomaticProtectionService F D) : Type 0 where
  pub agrees : s.controller.state.settings ≡ from_settings s.settings.state.snapshot
  pub persistable : IsPersistable s.settings.state.snapshot.automatic_download

-- The two commands that the menu gives.
pub data Toggle : Type 0 where
  automatic_download_protection protect_on_battery : Toggle

module _ {F B D E : Type 0} (fs : FileSystem F B) (serde : Serde B) (replacer : AtomicReplace F)
    (inhibitor : SleepInhibitor D E) where
  abbrev pub toggle : Toggle → AutomaticProtectionService F D → AutomaticProtectionService F D
  toggle automatic_download_protection s =
      (toggle_automatic_download_protection fs serde replacer inhibitor s).0
  toggle protect_on_battery s = (toggle_protect_on_battery fs serde replacer inhibitor s).0

  abbrev pub toggle_all :
      List Toggle → AutomaticProtectionService F D → AutomaticProtectionService F D
  toggle_all [] s = s
  toggle_all (t ∷ ts) s = toggle_all ts (toggle t s)

  set_settings-settings :
      (t : AutomaticProtectionSettings) (c : AutomaticProtectionController D)
      → (set_settings inhibitor t c).0.state.settings ≡ t
  unfolding set_settings
  set_settings-settings t c = (apply_change-state inhibitor (λ s. record s { settings = t }) c).1

  module _ (content : F → Name → Option B) (empty : B) (disk : IsDisk content empty fs)
      (atomic : IsAtomic content empty replacer) where
    apply_persisted-IsInSync :
        (u : SettingsUpdate) (s : AutomaticProtectionService F D) (h : IsInSync s)
        (range : IsInRange u) (r : SettingsService F × Result Settings Stop)
        → Answered
            (Became fs serde replacer content empty disk atomic u s.settings h.persistable range)
            (Stayed fs serde replacer content empty disk atomic u s.settings h.persistable range)
            r
        → IsInSync (apply_persisted fs serde replacer inhibitor s.controller r).0
    apply_persisted-IsInSync u s h range (settings, ok persisted) (done, snapshot, p) = record {
      agrees =
          set_settings-settings (from_settings persisted) s.controller
          ∙ ap from_settings (sym snapshot);
      persistable = subst (λ t. IsPersistable (Settings.automatic_download t)) (sym snapshot) p;
    }
    apply_persisted-IsInSync u s h range (settings, err (returned e)) k = record {
      agrees = h.agrees ∙ ap from_settings (sym k);
      persistable =
          subst (λ t. IsPersistable (Settings.automatic_download t)) (sym k) h.persistable;
    }
    apply_persisted-IsInSync u s h range (settings, err panicked) k = record {
      agrees = h.agrees ∙ ap from_settings (sym k);
      persistable =
          subst (λ t. IsPersistable (Settings.automatic_download t)) (sym k) h.persistable;
    }

    update_locked-IsInSync :
        (u : SettingsUpdate) (s : AutomaticProtectionService F D)
        → IsInRange u
        → IsInSync s
        → IsInSync (update_locked fs serde replacer inhibitor u s).0
    unfolding update_locked
    update_locked-IsInSync u s range h =
        apply_persisted-IsInSync u s h range _ (
          update-Became fs serde replacer content empty disk atomic u s.settings h.persistable
            range)

    toggle-IsInSync :
        (t : Toggle) (s : AutomaticProtectionService F D) → IsInSync s → IsInSync (toggle t s)
    unfolding toggle_automatic_download_protection toggle_protect_on_battery
    toggle-IsInSync automatic_download_protection s h = update_locked-IsInSync _ s tt h
    toggle-IsInSync protect_on_battery s h = update_locked-IsInSync _ s tt h

    -- If the policy has the saved settings, it has the saved settings after any toggles of the two
    -- choices, whether saving them succeeds or fails.
    pub toggle_all-IsInSync :
        (ts : List Toggle) (s : AutomaticProtectionService F D)
        → IsInSync s
        → IsInSync (toggle_all ts s)
    toggle_all-IsInSync [] s h = h
    toggle_all-IsInSync (t ∷ ts) s h = toggle_all-IsInSync ts (toggle t s) (toggle-IsInSync t s h)

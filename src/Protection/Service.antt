-- ===== src/Protection/Service.antt =====
-- src-tauri/src/automatic_protection.rs, `AutomaticProtectionService`: a choice is saved first and
-- then handed to the policy. Its two parts write to one log; each keeps its own records here. `none`
-- as an answer is a panic of the settings.
use chiu.Common.{not, Option, none, some}
use chiu.Common.Result.{Result, ok, err}
use chiu.Wake.{SleepInhibitor}
use chiu.Settings.{Settings, SettingsUpdate, SettingsUpdateError}
use chiu.Settings.Files.{FileSystem, Serde, AtomicReplace}
use chiu.Settings.Step.{SettingsService, Stop, returned, panicked}
use chiu.Protection.{
  AutomaticProtectionSettings, AutomaticProtectionController, AutomaticProtectionSnapshot,
  set_settings,
}

pub record AutomaticProtectionService (F D : Type 0) : Type 0 where
  pub settings : SettingsService F
  pub controller : AutomaticProtectionController D

abbrev pub from_settings : Settings → AutomaticProtectionSettings
from_settings s = record {
  automatic_download_protection_enabled = s.automatic_download_protection_enabled;
  protect_on_battery = s.protect_on_battery;
}

module _ {F B D E : Type 0} (fs : FileSystem F B) (serde : Serde B) (replacer : AtomicReplace F)
    (inhibitor : SleepInhibitor D E) where
  abbrev pub apply_persisted :
      AutomaticProtectionController D
      → SettingsService F × Result Settings Stop
      → AutomaticProtectionService F D
        × Option (Result AutomaticProtectionSnapshot SettingsUpdateError)
  apply_persisted controller (settings, ok persisted) =
      let (controller', shown) = set_settings inhibitor (from_settings persisted) controller in
      (record { settings = settings; controller = controller' }, some (ok shown))
  apply_persisted controller (settings, err (returned e)) =
      (record { settings = settings; controller = controller }, some (err e))
  apply_persisted controller (settings, err panicked) =
      (record { settings = settings; controller = controller }, none)

  unfoldable pub update_locked :
      SettingsUpdate
      → AutomaticProtectionService F D
      → AutomaticProtectionService F D
        × Option (Result AutomaticProtectionSnapshot SettingsUpdateError)
  update_locked change s =
      apply_persisted s.controller
        (chiu.Settings.Service.update fs serde replacer change s.settings)

  unfoldable pub toggle_automatic_download_protection :
      AutomaticProtectionService F D
      → AutomaticProtectionService F D
        × Option (Result AutomaticProtectionSnapshot SettingsUpdateError)
  unfolding update_locked
  toggle_automatic_download_protection s =
      let enabled = not s.controller.state.settings.automatic_download_protection_enabled in
      update_locked (SettingsUpdate.automatic_download_protection_enabled enabled) s

  unfoldable pub toggle_protect_on_battery :
      AutomaticProtectionService F D
      → AutomaticProtectionService F D
        × Option (Result AutomaticProtectionSnapshot SettingsUpdateError)
  unfolding update_locked
  toggle_protect_on_battery s =
      let enabled = not s.controller.state.settings.protect_on_battery in
      update_locked (SettingsUpdate.protect_on_battery enabled) s

-- ===== src/Protection/Tests.antt =====
-- The automatic protection controller at concrete inputs.
use chiu.Common.{◌≡◌, ◌↔◌, refl, true, false, [], ◌∷◌, none, some, is_some, List}
use chiu.Common.BTreeSet.{contains}
use chiu.Wake.{automatic_download, manual_keep_awake, reason_ord}
use chiu.Testing.{Scripted, scripted, willing, refusing, coordinator_with}
use chiu.Protection.{
  AutomaticProtectionSettings, AutomaticProtectionState, AutomaticProtectionController, external,
  limited, limited_power, desired_automatic_reason, suppression_reason, set_detector_intent,
  set_power_source, set_settings,
}
use chiu.Protection.Policy.{Cause, suppression_exact}
use chiu.Protection.Laws.{IsAligned, setters-IsAligned}
use chiu.Settings.Json.{null}
use chiu.Settings.Fitting.{default-IsPersistable}
use chiu.Testing.MemoryDisk.{
  Directory, memory, memory-IsDisk, values, replacing, replacing-IsAtomic, service,
}
use chiu.Protection.Service.{AutomaticProtectionService, from_settings}
use chiu.Protection.Persisting.{
  IsInSync, Toggle, automatic_download_protection, protect_on_battery, toggle_all,
  toggle_all-IsInSync,
}

-- Automatic protection, on external power only.
abbrev on_power : AutomaticProtectionSettings
on_power = record { automatic_download_protection_enabled = true; protect_on_battery = false }

abbrev waiting : AutomaticProtectionState
waiting = record {
  detector_intent = false;
  settings = on_power;
  power_source = external;
  last_commanded_desired = false;
  latest_coordination_failure = none;
}

-- A download on battery.
abbrev on_battery : AutomaticProtectionState
on_battery = record waiting { detector_intent = true; power_source = limited }

-- A download whose acquisition was refused once.
abbrev failed_once : AutomaticProtectionController Scripted
failed_once = record {
  state = record waiting {
    detector_intent = true;
    last_commanded_desired = true;
    latest_coordination_failure = some "scripted failure";
  };
  coordinator = coordinator_with (automatic_download ∷ []) willing;
}

abbrev idle_controller : AutomaticProtectionController Scripted
idle_controller = record {
  state = waiting;
  coordinator = coordinator_with (manual_keep_awake ∷ []) refusing;
}

idle-IsAligned : IsAligned idle_controller
unfolding desired_automatic_reason contains
idle-IsAligned = record { commanded = refl; reason = refl; sorted = (tt, tt) }

suppression_exact_example :
    ((is_some (suppression_reason on_battery) ≡ true)
      ↔ ((true ≡ true) × (desired_automatic_reason on_battery ≡ false)))
    × ((suppression_reason on_battery ≡ some limited_power)
        ↔ ((true ≡ true) × Cause on_battery limited_power))
suppression_exact_example = suppression_exact on_battery limited_power

setters-IsAligned_example :
    IsAligned (set_detector_intent scripted true idle_controller).0
    × IsAligned (set_power_source scripted limited idle_controller).0
    × IsAligned (set_settings scripted on_power idle_controller).0
setters-IsAligned_example =
    setters-IsAligned scripted idle_controller idle-IsAligned true limited on_power

-- The policy with the saved defaults.
abbrev saving : AutomaticProtectionService Directory Scripted
saving = record {
  settings = service;
  controller = record idle_controller {
    state = record waiting { settings = from_settings service.state.snapshot };
  };
}

abbrev saving_sync : IsInSync saving
saving_sync = record { agrees = refl; persistable = default-IsPersistable }

abbrev both : List Toggle
both = automatic_download_protection ∷ protect_on_battery ∷ []

toggle_all-IsInSync_example : IsInSync (toggle_all memory values replacing scripted both saving)
toggle_all-IsInSync_example =
    toggle_all-IsInSync memory values replacing scripted (λ f n. f n) null memory-IsDisk
      replacing-IsAtomic both saving saving_sync

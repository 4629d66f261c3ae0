-- ===== src/Power/Tests.antt =====
-- The power source observer at a concrete input.
use chiu.Common.{◌≡◌, refl, true, false, none, some, [], ◌∷◌}
use chiu.Common.Result.{err}
use chiu.Common.BTreeSet.{contains}
use chiu.Wake.{automatic_download, manual_keep_awake, reason_ord}
use chiu.Testing.{Scripted, scripted, refusing, coordinator_with}
use chiu.Protection.{AutomaticProtectionController, external, unknown, desired_automatic_reason}
use chiu.Protection.Laws.{IsAligned}
use chiu.Power.{PowerSourceObserver, PowerSourceFailure, observing, sample, publish, stopped}
use chiu.Power.Policy.{unknown_power_drops}

abbrev idle_controller : AutomaticProtectionController Scripted
idle_controller = record {
  state = record {
    detector_intent = false;
    settings = record { automatic_download_protection_enabled = true; protect_on_battery = false };
    power_source = external;
    last_commanded_desired = false;
    latest_coordination_failure = none;
  };
  coordinator = coordinator_with (manual_keep_awake ∷ []) refusing;
}

idle-IsAligned : IsAligned idle_controller
unfolding desired_automatic_reason contains
idle-IsAligned = record { commanded = refl; reason = refl; sorted = (tt, tt) }

abbrev observer : PowerSourceObserver Scripted
observer = record {
  state = record { source = external; health = observing; latest_failure = none };
  controller = idle_controller;
}

abbrev sample_failure : PowerSourceFailure
sample_failure = record { operation = sample; code = some 5 }

unknown_power_drops_example :
    (contains automatic_download
        (publish scripted (err sample_failure) observer).controller.coordinator.active_reasons
      ≡ false)
    × (contains automatic_download
          (stopped scripted none observer).controller.coordinator.active_reasons
        ≡ false)
    × ((publish scripted (err sample_failure) observer).state.source ≡ unknown)
    × ((stopped scripted none observer).state.source ≡ unknown)
unknown_power_drops_example =
    unknown_power_drops scripted observer sample_failure none idle-IsAligned refl

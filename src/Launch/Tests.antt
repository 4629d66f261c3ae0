-- ===== src/Launch/Tests.antt =====
-- The registration in a system that does what it is told.
use chiu.Common.{◌≡◌, refl, Bool, true, false, none}
use chiu.Common.Result.{ok, err}
use chiu.Settings.Fitting.{default-IsPersistable}
use chiu.Testing.MemoryDisk.{
  Directory, memory, memory-IsDisk, values, replacing, replacing-IsAtomic, service,
}
use chiu.Settings.Json.{null}
use chiu.Launch.{
  Registration, LaunchAtLoginAdapter, LaunchAtLoginService, LaunchAtLoginSnapshot, available,
  reconcile, toggle,
}
use chiu.Launch.Laws.{Honest, IsObedient, reconcile-Honest, reconcile-registered}
use chiu.Launch.Toggling.{Toggled, toggle-Toggled}

abbrev obedient : LaunchAtLoginAdapter Bool
obedient = record { observe = λ b. (b, ok b); set_enabled = λ b _. (b, ok tt) }

obedient-IsObedient : IsObedient obedient (λ b. b)
obedient-IsObedient = record {
  observed = λ a. refl;
  observe_keeps = λ a. refl;
  set_ok = λ b a. refl;
  set = λ b a. refl;
}

abbrev refusing : LaunchAtLoginAdapter Bool
refusing = record { observe = λ b. (b, ok b); set_enabled = λ _ b. (b, err "refused") }

abbrev starting : LaunchAtLoginService Directory Bool
starting = record {
  settings = service;
  backend = available;
  observed = Registration.unknown;
  latest_failure = none;
  system = false;
}

reconcile-Honest_example : Honest true (reconcile refusing starting)
reconcile-Honest_example = reconcile-Honest refusing starting refl

reconcile-registered_example :
    (shown : LaunchAtLoginSnapshot) × ((reconcile obedient starting).1 ≡ ok shown)
    × ((reconcile obedient starting).0.system ≡ true)
reconcile-registered_example =
    reconcile-registered obedient (λ b. b) obedient-IsObedient starting refl refl

toggle-Toggled_example : Toggled starting (toggle refusing memory values replacing starting)
toggle-Toggled_example =
    toggle-Toggled refusing memory values replacing (λ f n. f n) null memory-IsDisk
      replacing-IsAtomic starting default-IsPersistable refl

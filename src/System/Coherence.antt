-- ===== src/System/Coherence.antt =====
-- The wake reasons of the whole program while the coordinator runs: each is exactly as its part asks.
use chiu.Common.{◌≡◌, refl, sym, ◌∙◌, Bool, false, not, arith, List, [], ◌∷◌, All}
use chiu.Common.BTreeSet.{contains, IsSorted}
use chiu.Wake.{automatic_download, manual_keep_awake, reason_ord, SleepInhibitor, WakeCoordinator}
use chiu.Wake
use chiu.Protection.{
  PowerSource, external, AutomaticProtectionSettings, AutomaticProtectionState,
  AutomaticProtectionController, desired_automatic_reason, set_automatic_intent,
  set_detector_intent, set_power_source, set_settings, is_external,
}
use chiu.Protection
use chiu.Protection.Laws.{
  IsAligned, apply_change-IsAligned, apply_change-manual, apply_change-state,
}
use chiu.Power.{
  PowerSourceObserverSnapshot, update_to, publish, stopped, observed, at_end, initial_snapshot,
}
use chiu.Detector.{
  AutomaticDownloadSettings, MonitorCore, is_idle, consume, apply_settings, shutdown,
}
use chiu.Detector
use chiu.Manual.{ManualSessionCommand, command, expire_due, request_scheduler_shutdown}
use chiu.Manual
use chiu.Manual.Commands.{
  IsSynced, is_inactive, command-IsSynced, expire_due-IsSynced, manual-automatic,
}
use chiu.System.{
  System, Action, network, tune, stop_detector, power_report, power_end, change_settings,
  manual_command, manual_timer, stop_manual, stop_coordinator, controller, observer, session,
  with_observer, start, step, run,
}

-- The coordinator is not shut down.
abbrev pub IsRunning : Action → Type 0
IsRunning stop_coordinator = ⊥
IsRunning _ = Unit

-- Each reason is as its part asks, and the parts agree on the intent and the power source.
pub record IsCoherent {D : Type 0} (s : System D) : Type 0 where
  pub automatic :
      contains automatic_download s.coordinator.active_reasons
      ≡ desired_automatic_reason s.protection
  pub commanded : s.protection.last_commanded_desired ≡ desired_automatic_reason s.protection
  pub manual :
      contains manual_keep_awake s.coordinator.active_reasons ≡ not (is_inactive s.manual.intent)
  pub sorted : IsSorted s.coordinator.active_reasons
  pub intent : s.protection.detector_intent ≡ not (is_idle s.detector.phase)
  pub source : s.protection.power_source ≡ s.power.source

module _ {D E : Type 0} (i : SleepInhibitor D E) where
  -- What a change of the controller's state leaves, seen from the other parts.
  record Changed (change : AutomaticProtectionState → AutomaticProtectionState)
      (c c' : AutomaticProtectionController D) : Type 0 where
    automatic :
        contains automatic_download c'.coordinator.active_reasons
        ≡ desired_automatic_reason c'.state
    commanded : c'.state.last_commanded_desired ≡ desired_automatic_reason c'.state
    manual :
        contains manual_keep_awake c'.coordinator.active_reasons
        ≡ contains manual_keep_awake c.coordinator.active_reasons
    sorted : IsSorted c'.coordinator.active_reasons
    intent : c'.state.detector_intent ≡ (change c.state).detector_intent
    source : c'.state.power_source ≡ (change c.state).power_source

  changed :
      (change : AutomaticProtectionState → AutomaticProtectionState) (s : System D)
      → IsCoherent s
      → (change s.protection).last_commanded_desired ≡ s.protection.last_commanded_desired
      → Changed change (controller i s) (Protection.apply_change i change (controller i s)).0
  changed change s h kept = record {
    automatic = a.reason ∙ a.commanded;
    commanded = a.commanded;
    manual = apply_change-manual i change (controller i s) kept before;
    sorted = a.sorted;
    intent = (apply_change-state i change (controller i s)).0;
    source = (apply_change-state i change (controller i s)).2;
  }
    where
      before : IsAligned (controller i s)
      before = record {
        commanded = h.commanded;
        reason = h.automatic ∙ sym h.commanded;
        sorted = h.sorted;
      }

      a : IsAligned (Protection.apply_change i change (controller i s)).0
      a = apply_change-IsAligned i change (controller i s) kept before

  told :
      (b : Bool) (s : System D)
      → IsCoherent s
      → Changed
          (λ p. record p { detector_intent = b })
          (controller i s)
          (set_automatic_intent i b (controller i s)).0
  unfolding set_automatic_intent set_detector_intent
  told b s h = changed (λ p. record p { detector_intent = b }) s h refl

  reset_settings :
      (t : AutomaticProtectionSettings) (s : System D)
      → IsCoherent s
      → Changed
          (λ p. record p { settings = t })
          (controller i s)
          (set_settings i t (controller i s)).0
  unfolding set_settings
  reset_settings t s h = changed (λ p. record p { settings = t }) s h refl

  -- The observer's two calls hand their source to the controller.
  updated :
      (next : PowerSourceObserverSnapshot) (s : System D)
      → IsCoherent s
      → Changed
          (λ p. record p { power_source = next.source })
          (controller i s)
          (set_power_source i next.source (controller i s)).0
  unfolding set_power_source
  updated next s h = changed (λ p. record p { power_source = next.source }) s h refl

  update_to-IsCoherent :
      (next : PowerSourceObserverSnapshot) (s : System D)
      → IsCoherent s
      → IsCoherent (with_observer i s (update_to i next (observer i s)))
  unfolding update_to
  update_to-IsCoherent next s h = ground (arith, updated next s h)

  session-IsSynced : (s : System D) → IsCoherent s → IsSynced (session i s)
  session-IsSynced s h = record { synced = h.manual; sorted = h.sorted }

  step-IsCoherent :
      (a : Action) (s : System D) → IsRunning a → IsCoherent s → IsCoherent (step i a s)
  unfolding step consume apply_settings shutdown publish stopped request_scheduler_shutdown
  step-IsCoherent (network e) s running h =
      ground (arith, told (not (is_idle (Detector.observe e s.detector).phase)) s h)
  step-IsCoherent (tune t) s running h = ground (arith, told false s h)
  step-IsCoherent stop_detector s running h = ground (arith, told false s h)
  step-IsCoherent (power_report r) s running h = update_to-IsCoherent (observed r) s h
  step-IsCoherent (power_end f) s running h = update_to-IsCoherent (at_end f s.power) s h
  step-IsCoherent (change_settings t) s running h = ground (arith, reset_settings t s h)
  step-IsCoherent (manual_command c now later) s running h = ground (
    arith,
    command-IsSynced i c now later (session i s) (session-IsSynced s h),
    manual-automatic i c now later (session i s) (session-IsSynced s h),
  )
  step-IsCoherent (manual_timer now) s running h = ground (
    arith,
    expire_due-IsSynced i now (session i s) (session-IsSynced s h),
    manual-automatic i ManualSessionCommand.stop now now (session i s) (session-IsSynced s h),
  )
  step-IsCoherent stop_manual s running h = ground arith
  step-IsCoherent stop_coordinator s running h = absurd running

  pub run-IsCoherent :
      (actions : List Action) (s : System D)
      → All IsRunning actions
      → IsCoherent s
      → IsCoherent (run i actions s)
  unfolding run
  run-IsCoherent [] s running h = h
  run-IsCoherent (a ∷ actions) s running h =
      run-IsCoherent actions (step i a s) running.1 (step-IsCoherent a s running.0 h)

  pub start-IsCoherent :
      (t : AutomaticDownloadSettings) (p : AutomaticProtectionSettings) (d : D)
      → IsCoherent (start i t p d)
  unfolding start desired_automatic_reason contains Wake.new Protection.new Detector.new Manual.new
      initial_snapshot
  start-IsCoherent t p d = ground arith

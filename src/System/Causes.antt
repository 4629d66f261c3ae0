-- ===== src/System/Causes.antt =====
-- Each wake reason has its cause, after any sequence of the program's calls: also once the coordinator
-- is shut down, which drops the reasons and tells no other part.
use chiu.Common.{ℕ, ◌≡◌, refl, Bool, false, not, ◌&&◌, arith, List, [], ◌∷◌, inl, inr}
use chiu.Common.Result.{Result-cases}
use chiu.Common.BTreeSet.{contains, IsSorted}
use chiu.Wake.{
  automatic_download, manual_keep_awake, reason_ord, SleepInhibitor, WakeCoordinator,
  set_reason_active,
}
use chiu.Wake
use chiu.Wake.Laws.{set_reason_active-IsSorted, set_reason_active-contains}
use chiu.Protection.{
  AutomaticProtectionSettings, AutomaticProtectionState, AutomaticProtectionController,
  desired_automatic_reason, set_automatic_intent, set_detector_intent, set_power_source,
  set_settings, apply_change, record_eligibility, reconcile,
}
use chiu.Power.{PowerSourceObserverSnapshot, update_to, publish, stopped, observed, at_end}
use chiu.Detector.{AutomaticDownloadSettings, is_idle, consume, apply_settings, shutdown}
use chiu.Detector
use chiu.Manual.{
  ManualSession, ManualSessionCommand, next_intent, command, command_inner, expire_due,
  request_scheduler_shutdown, reason_active,
}
use chiu.Manual.Commands.{is_inactive, next_intent_active}
use chiu.System.{
  System, Action, network, tune, stop_detector, power_report, power_end, change_settings,
  manual_command, manual_timer, stop_manual, stop_coordinator, controller, observer, session,
  with_observer, step, run,
}
use chiu.System.Coherence.{IsCoherent}

-- A reason that is active has its cause, and the parts agree on the intent and the power source.
pub record IsCaused {D : Type 0} (s : System D) : Type 0 where
  pub automatic :
      contains automatic_download s.coordinator.active_reasons
        && not (desired_automatic_reason s.protection)
      ≡ false
  pub commanded : s.protection.last_commanded_desired ≡ desired_automatic_reason s.protection
  pub manual :
      contains manual_keep_awake s.coordinator.active_reasons && is_inactive s.manual.intent ≡ false
  pub sorted : IsSorted s.coordinator.active_reasons
  pub intent : s.protection.detector_intent ≡ not (is_idle s.detector.phase)
  pub source : s.protection.power_source ≡ s.power.source

pub IsCoherent-IsCaused : {D : Type 0} (s : System D) → IsCoherent s → IsCaused s
IsCoherent-IsCaused s h = record {
  automatic = ground (arith, h.automatic);
  commanded = h.commanded;
  manual = ground (arith, h.manual);
  sorted = h.sorted;
  intent = h.intent;
  source = h.source;
}

module _ {D E : Type 0} (i : SleepInhibitor D E) where
  -- What a change of the controller's state leaves, seen from the other parts.
  record Changed (change : AutomaticProtectionState → AutomaticProtectionState)
      (c c' : AutomaticProtectionController D) : Type 0 where
    automatic :
        contains automatic_download c'.coordinator.active_reasons
          && not (desired_automatic_reason c'.state)
        ≡ false
    commanded : c'.state.last_commanded_desired ≡ desired_automatic_reason c'.state
    manual :
        contains manual_keep_awake c'.coordinator.active_reasons
        ≡ contains manual_keep_awake c.coordinator.active_reasons
    sorted : IsSorted c'.coordinator.active_reasons
    intent : c'.state.detector_intent ≡ (change c.state).detector_intent
    source : c'.state.power_source ≡ (change c.state).power_source

  -- Before a reconciliation the desired reason may have moved away from the last command.
  reconcile-Changed :
      (c : AutomaticProtectionController D)
      → contains automatic_download c.coordinator.active_reasons
          && not c.state.last_commanded_desired
        ≡ false
      → IsSorted c.coordinator.active_reasons
      → Changed (λ p. p) c (reconcile i c)
  unfolding reconcile desired_automatic_reason
  reconcile-Changed c r s =
      let desired = desired_automatic_reason c.state in
      ground (
        arith,
        set_reason_active-contains i automatic_download automatic_download desired c.coordinator s,
        set_reason_active-contains i automatic_download manual_keep_awake desired c.coordinator s,
        set_reason_active-IsSorted i automatic_download desired c.coordinator s,
      )

  changed :
      (change : AutomaticProtectionState → AutomaticProtectionState) (s : System D)
      → IsCaused s
      → (change s.protection).last_commanded_desired ≡ s.protection.last_commanded_desired
      → Changed change (controller i s) (apply_change i change (controller i s)).0
  unfolding apply_change record_eligibility
  changed change s h kept = ground (
    arith,
    h,
    reconcile-Changed (record (controller i s) { state = change s.protection }) (ground (arith, h))
        h.sorted,
  )

  told :
      (b : Bool) (s : System D)
      → IsCaused s
      → Changed
          (λ p. record p { detector_intent = b })
          (controller i s)
          (set_automatic_intent i b (controller i s)).0
  unfolding set_automatic_intent set_detector_intent
  told b s h = changed (λ p. record p { detector_intent = b }) s h refl

  reset_settings :
      (t : AutomaticProtectionSettings) (s : System D)
      → IsCaused s
      → Changed
          (λ p. record p { settings = t })
          (controller i s)
          (set_settings i t (controller i s)).0
  unfolding set_settings
  reset_settings t s h = changed (λ p. record p { settings = t }) s h refl

  updated :
      (next : PowerSourceObserverSnapshot) (s : System D)
      → IsCaused s
      → Changed
          (λ p. record p { power_source = next.source })
          (controller i s)
          (set_power_source i next.source (controller i s)).0
  unfolding set_power_source
  updated next s h = changed (λ p. record p { power_source = next.source }) s h refl

  update_to-IsCaused :
      (next : PowerSourceObserverSnapshot) (s : System D)
      → IsCaused s
      → IsCaused (with_observer i s (update_to i next (observer i s)))
  unfolding update_to
  update_to-IsCaused next s h = ground (arith, updated next s h)

  -- What a call of the manual session leaves.
  record Kept (m m' : ManualSession D) : Type 0 where
    manual :
        contains manual_keep_awake m'.coordinator.active_reasons && is_inactive m'.core.intent
        ≡ false
    automatic :
        contains automatic_download m'.coordinator.active_reasons
        ≡ contains automatic_download m.coordinator.active_reasons
    sorted : IsSorted m'.coordinator.active_reasons

  command-Kept :
      (c : ManualSessionCommand) (now later : ℕ) (m : ManualSession D)
      → contains manual_keep_awake m.coordinator.active_reasons && is_inactive m.core.intent ≡ false
      → IsSorted m.coordinator.active_reasons
      → Kept m (command i c now later m).0
  unfolding command command_inner
  command-Kept c now later m h s = elim (Result-cases (next_intent {E = E} c now m.core.intent)) [
    | inr (e, bad) ↦ rw (bad, command) (ground arith)
    | inl (next, good) ↦
        let b = reason_active c in
        let w = m.coordinator in
        rw (good, command)
          (ground (
            arith,
            next_intent_active c now m.core.intent next good,
            set_reason_active-contains i manual_keep_awake manual_keep_awake b w s,
            set_reason_active-contains i manual_keep_awake automatic_download b w s,
            set_reason_active-IsSorted i manual_keep_awake b w s,
          ))
  ]

  expire_due-Kept :
      (now : ℕ) (m : ManualSession D)
      → contains manual_keep_awake m.coordinator.active_reasons && is_inactive m.core.intent ≡ false
      → IsSorted m.coordinator.active_reasons
      → Kept m (expire_due i now m)
  unfolding expire_due
  expire_due-Kept now m h s = ground (
    arith,
    set_reason_active-contains i manual_keep_awake manual_keep_awake false m.coordinator s,
    set_reason_active-contains i manual_keep_awake automatic_download false m.coordinator s,
    set_reason_active-IsSorted i manual_keep_awake false m.coordinator s,
  )

  pub shutdown-active_reasons : (w : WakeCoordinator D) → (Wake.shutdown i w).0.active_reasons ≡ []
  unfolding Wake.shutdown
  shutdown-active_reasons w = ground arith

  stopped-IsCaused : (s : System D) → IsCaused s → IsCaused (step i stop_coordinator s)
  unfolding step contains
  stopped-IsCaused s h = ground (arith, h, shutdown-active_reasons s.coordinator)

  pub step-IsCaused : (a : Action) (s : System D) → IsCaused s → IsCaused (step i a s)
  unfolding step consume apply_settings shutdown publish stopped request_scheduler_shutdown
  step-IsCaused (network e) s h =
      ground (arith, told (not (is_idle (Detector.observe e s.detector).phase)) s h)
  step-IsCaused (tune t) s h = ground (arith, told false s h)
  step-IsCaused stop_detector s h = ground (arith, told false s h)
  step-IsCaused (power_report r) s h = update_to-IsCaused (observed r) s h
  step-IsCaused (power_end f) s h = update_to-IsCaused (at_end f s.power) s h
  step-IsCaused (change_settings t) s h = ground (arith, reset_settings t s h)
  step-IsCaused (manual_command c now later) s h =
      ground (arith, h, command-Kept c now later (session i s) h.manual h.sorted)
  step-IsCaused (manual_timer now) s h =
      ground (arith, h, expire_due-Kept now (session i s) h.manual h.sorted)
  step-IsCaused stop_manual s h = ground (arith, h)
  step-IsCaused stop_coordinator s h = stopped-IsCaused s h

  pub run-IsCaused :
      (actions : List Action) (s : System D) → IsCaused s → IsCaused (run i actions s)
  unfolding run
  run-IsCaused [] s h = h
  run-IsCaused (a ∷ actions) s h = run-IsCaused actions (step i a s) (step-IsCaused a s h)

-- ===== src/Manual/Scheduler.antt =====
-- The scheduler thread: when it waits, when it expires a session, and when it ends.
use chiu.Common.{
  ℕ, ◌+◌, ◌-◌, ◌≤◌, ◌<◌, ◌≡◌, refl, ◌↔◌, true, false, arith, none, List, [], ◌∷◌, String, ◌∙◌,
}
use chiu.Common.Result.{Result, err, is_ok}
use chiu.Common.BTreeSet.{contains}
use chiu.Wake.{manual_keep_awake, reason_ord, SleepInhibitor, set_reason_active}
use chiu.Manual.{
  inactive, finite, ManualSessionCore, ManualSessionCommand, ManualSession, unavailable, command,
  command_inner, expire_due, request_scheduler_shutdown, exits, expires, waits_for,
  scheduler_action, start_scheduler, already_started,
}
use chiu.Manual.Commands.{IsSynced, expire_due-IsSynced}

-- The thread waits with a timeout exactly while it takes commands and a deadline is ahead, and the
-- timeout ends at the deadline.
pub waits_for_iff :
    (now d : ℕ) (core : ManualSessionCore)
    → (scheduler_action now core ≡ waits_for d)
      ↔ ((core.accepting_commands ≡ true) × (0 < d) × (core.intent ≡ finite (now + d)))
unfolding scheduler_action
waits_for_iff now d core = (λ h. (ground arith, ground arith, ground arith), λ h. ground arith)

module _ {D E : Type 0} (i : SleepInhibitor D E) where
  -- Before the deadline an expiry changes nothing, also where it was decided on before time was
  -- added.
  pub expire_due_early :
      (now deadline : ℕ) (m : ManualSession D)
      → m.core.intent ≡ finite deadline
      → now < deadline
      → expire_due i now m ≡ m
  unfolding expire_due
  expire_due_early now deadline m e h = ground arith

  -- From the deadline on, an expiry ends the session and drops the manual reason, also if the
  -- native call fails; the failure is then kept in the session.
  pub expire_due_late :
      (now deadline : ℕ) (m : ManualSession D)
      → IsSynced m
      → m.core.intent ≡ finite deadline
      → deadline ≤ now
      → let m' = expire_due i now m in
        (m'.core.intent ≡ inactive)
        × (contains manual_keep_awake m'.coordinator.active_reasons ≡ false)
        × ((m'.core.background_failure ≡ none)
            ↔ (is_ok (set_reason_active i manual_keep_awake false m.coordinator).1 ≡ true))
  unfolding expire_due
  expire_due_late now deadline m y e h = (
    ground arith,
    ground (arith, expire_due-IsSynced i now m y),
    (λ q. ground arith, λ q. ground arith),
  )

  -- Where the manual reason is active exactly while a session is, and the thread goes to wait for
  -- `d`: its next turn at or after the end of that wait decides to expire, and the expiry ends the
  -- session and drops its reason, also if the native call fails.
  pub session_ends :
      (now d at : ℕ) (m : ManualSession D)
      → IsSynced m
      → scheduler_action now m.core ≡ waits_for d
      → now + d ≤ at
      → (scheduler_action at m.core ≡ expires)
        × ((expire_due i at m).core.intent ≡ inactive)
        × (contains manual_keep_awake (expire_due i at m).coordinator.active_reasons ≡ false)
  unfolding scheduler_action
  session_ends now d at m y h late =
      let (accepting, ahead, e) = (waits_for_iff now d m.core).0 h in
      let (ended, dropped, _) = expire_due_late at (now + d) m y e late in
      (ground arith, ended, dropped)

  -- Where the thread goes to wait for `d`, the session does not end early: at a turn before the
  -- end of the wait the thread waits for what is left, and an expiry at that time changes nothing.
  pub session_lasts :
      (now d at : ℕ) (m : ManualSession D)
      → scheduler_action now m.core ≡ waits_for d
      → at < now + d
      → (scheduler_action at m.core ≡ waits_for (now + d - at)) × (expire_due i at m ≡ m)
  unfolding scheduler_action
  session_lasts now d at m h early =
      let (accepting, ahead, e) = (waits_for_iff now d m.core).0 h in
      (ground arith, expire_due_early at (now + d) m e early)

  unfoldable pub run_commands :
      List (ManualSessionCommand × ℕ × ℕ) → ManualSession D → ManualSession D
  run_commands [] m = m
  run_commands ((c, now, later) ∷ rest) m = run_commands rest (command i c now later m).0

  refused :
      (c : ManualSessionCommand) (now later : ℕ) (m : ManualSession D)
      → m.core.accepting_commands ≡ false
      → let (m', result) = command i c now later m in
        (m'.core ≡ m.core)
        × (m'.coordinator.active_reasons ≡ m.coordinator.active_reasons)
        × (m'.coordinator.inhibitor ≡ m.coordinator.inhibitor)
        × (result ≡ err unavailable)
  unfolding command command_inner
  refused c now later m a = ground arith

  stays_shut :
      (cs : List (ManualSessionCommand × ℕ × ℕ)) (c : ManualSessionCommand) (now later : ℕ)
      (m : ManualSession D) (spawned : Result (Unit {0}) String)
      → m.core.accepting_commands ≡ false
      → let m' = run_commands cs m in
        (m'.core ≡ m.core)
        × (m'.coordinator.active_reasons ≡ m.coordinator.active_reasons)
        × (m'.coordinator.inhibitor ≡ m.coordinator.inhibitor)
        × ((command i c now later m').1 ≡ err unavailable)
        × (scheduler_action now m'.core ≡ exits)
        × ((start_scheduler spawned m'.core).1 ≡ err already_started)
  unfolding run_commands scheduler_action start_scheduler
  stays_shut [] c now later m sp a =
      (refl, refl, refl, (refused c now later m a).3, ground arith, ground arith)
  stays_shut ((b, t, u) ∷ cs) c now later m sp a =
      let m' = (command i b t u m).0 in
      let (core, reasons, inhibitor, _) = refused b t u m a in
      let (core', reasons', inhibitor', result, action, started) =
        stays_shut cs c now later m' sp (ground arith) in
      (core' ∙ core, reasons' ∙ reasons, inhibitor' ∙ inhibitor, result, action, started)

  -- Requesting the shutdown of the scheduler, in any state, ends the taking of commands and changes
  -- nothing else of the session, the reasons or the inhibitor; after any further commands they are
  -- still as they were. Each command is then answered `unavailable`, the thread exits, and no
  -- second one starts.
  pub shutdown_is_final :
      (m0 : ManualSession D) (cs : List (ManualSessionCommand × ℕ × ℕ)) (c : ManualSessionCommand)
      (now later : ℕ) (spawned : Result (Unit {0}) String)
      → let m = run_commands cs (request_scheduler_shutdown i m0) in
        (m.core ≡ record m0.core { accepting_commands = false })
        × (m.coordinator.active_reasons ≡ m0.coordinator.active_reasons)
        × (m.coordinator.inhibitor ≡ m0.coordinator.inhibitor)
        × ((command i c now later m).1 ≡ err unavailable)
        × (scheduler_action now m.core ≡ exits)
        × ((start_scheduler spawned m.core).1 ≡ err already_started)
  unfolding request_scheduler_shutdown
  shutdown_is_final m0 cs c now later spawned =
      stays_shut cs c now later (request_scheduler_shutdown i m0) spawned refl

-- ===== src/Manual/Commands.antt =====
-- What a command or an expiry does to the session and to the shared wake coordinator.
use chiu.Common.{ℕ, ◌≡◌, ◌≢◌, ◌↔◌, Bool, true, false, not, arith, inl, inr}
use chiu.Common.Result.{ok, err, Result-cases}
use chiu.Common.BTreeSet.{contains, IsSorted}
use chiu.Wake.{
  automatic_download, manual_keep_awake, reason_ord, SleepInhibitor, WakeCoordinator,
  set_reason_active,
}
use chiu.Wake.Laws.{set_reason_active-IsSorted, set_reason_active-contains}
use chiu.Manual.{
  ManualSessionIntent, inactive, ManualSessionCommand, start, ManualSession, ManualSessionError,
  next_intent, command, command_inner, expire_due, reason_active, unavailable, wake_coordination,
}

abbrev pub is_inactive : ManualSessionIntent → Bool
is_inactive inactive = true
is_inactive _ = false

-- The manual reason is active exactly while a session is, in a sorted set of reasons.
pub record IsSynced {D : Type 0} (m : ManualSession D) : Type 0 where
  pub synced :
      contains manual_keep_awake m.coordinator.active_reasons ≡ not (is_inactive m.core.intent)
  pub sorted : IsSorted m.coordinator.active_reasons

abbrev pub is_rejection : {E : Type 0} → ManualSessionError E → Bool
is_rejection (wake_coordination _) = false
is_rejection _ = true

next_intent_available :
    {E : Type 0} (c : ManualSessionCommand) (now : ℕ) (intent : ManualSessionIntent)
    → next_intent {E = E} c now intent ≢ err unavailable
unfolding next_intent
next_intent_available (start p) now intent h = ground arith
next_intent_available c now intent h = ground arith

-- An accepted command makes the session active exactly if it commands the reason active.
pub next_intent_active :
    {E : Type 0} (c : ManualSessionCommand) (now : ℕ) (intent next : ManualSessionIntent)
    → next_intent {E = E} c now intent ≡ ok next
    → not (is_inactive next) ≡ reason_active c
unfolding next_intent
next_intent_active (start p) now intent next h = ground arith
next_intent_active c now intent next h = ground arith

module _ {D E : Type 0} (i : SleepInhibitor D E) where
  -- The manual command to the coordinator, on a session in any state.
  module _ (b : Bool) (w : WakeCoordinator D) (s : IsSorted w.active_reasons) where
    coordinated :
        contains manual_keep_awake (set_reason_active i manual_keep_awake b w).0.active_reasons ≡ b
    coordinated = set_reason_active-contains i manual_keep_awake manual_keep_awake b w s

    coordinated-IsSorted : IsSorted (set_reason_active i manual_keep_awake b w).0.active_reasons
    coordinated-IsSorted = set_reason_active-IsSorted i manual_keep_awake b w s

  -- If the manual reason is active exactly while a session is, every command, accepted or not,
  -- also one whose native call fails, keeps it so.
  pub command-IsSynced :
      (c : ManualSessionCommand) (now later : ℕ) (m : ManualSession D)
      → IsSynced m
      → IsSynced (command i c now later m).0
  unfolding command command_inner
  command-IsSynced c now later m y = elim (Result-cases (next_intent {E = E} c now m.core.intent)) [
    | inr (e, bad) ↦ rw (bad, command) (ground arith)
    | inl (next, good) ↦
        rw (good, command)
          (ground (
            arith,
            next_intent_active c now m.core.intent next good,
            coordinated (reason_active c) m.coordinator y.sorted,
            coordinated-IsSorted (reason_active c) m.coordinator y.sorted,
          ))
  ]

  pub expire_due-IsSynced :
      (now : ℕ) (m : ManualSession D) → IsSynced m → IsSynced (expire_due i now m)
  unfolding expire_due
  expire_due-IsSynced now m y = ground (
    arith,
    coordinated false m.coordinator y.sorted,
    coordinated-IsSorted false m.coordinator y.sorted,
  )

  -- Neither a command nor an expiry changes the automatic reason.
  pub manual-automatic :
      (c : ManualSessionCommand) (now later : ℕ) (m : ManualSession D)
      → IsSynced m
      → (contains automatic_download (command i c now later m).0.coordinator.active_reasons
          ≡ contains automatic_download m.coordinator.active_reasons)
        × (contains automatic_download (expire_due i now m).coordinator.active_reasons
            ≡ contains automatic_download m.coordinator.active_reasons)
  unfolding command command_inner expire_due
  manual-automatic c now later m y = (
    ground (
      arith,
      set_reason_active-contains i manual_keep_awake automatic_download (reason_active c)
          m.coordinator y.sorted,
    ),
    ground (
      arith,
      set_reason_active-contains i manual_keep_awake automatic_download false m.coordinator
          y.sorted,
    ),
  )

  -- A command that is rejected, because commands are no longer taken, for its transition or for an
  -- overflow, changes neither the session nor the reasons nor the inhibitor; and the error is
  -- `unavailable` exactly if the session no longer takes commands.
  command_rejected :
      (c : ManualSessionCommand) (now later : ℕ) (m : ManualSession D) (e : ManualSessionError E)
      → (command i c now later m).1 ≡ err e
      → is_rejection e ≡ true
      → ((command i c now later m).0.core ≡ m.core)
        × ((command i c now later m).0.coordinator.active_reasons ≡ m.coordinator.active_reasons)
        × ((command i c now later m).0.coordinator.inhibitor ≡ m.coordinator.inhibitor)
        × ((e ≡ unavailable) ↔ (m.core.accepting_commands ≡ false))
  unfolding command command_inner
  command_rejected c now later m e h r =
      elim (Result-cases (next_intent {E = E} c now m.core.intent)) [
        | inl (next, good) ↦ ground arith
        | inr (x, bad) ↦ ground (arith, next_intent_available {E = E} c now m.core.intent)
      ]

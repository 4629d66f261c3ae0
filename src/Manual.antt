-- ===== src/Manual.antt =====
-- src-tauri/src/manual_session.rs: manual keep-awake sessions. Times are nanoseconds since the
-- origin of the monotonic clock; each reading of the clock is an argument. The session holds a
-- handle of the wake coordinator and the same log, so the model keeps the coordinator in its state.
-- `notify_all` only wakes the scheduler thread, whose turns are `scheduler_action`.
pub mod Tests
pub mod Commands
pub mod Deadlines
pub mod Scheduler
use chiu.Common.{
  ℕ, ◌+◌, ◌-◌, ◌*◌, String, Bool, true, false, not, ◌||◌, if◌then◌else◌, leb, Option, none, some,
  List, ◌∷◌,
}
use chiu.Common.Result.{Result, ok, err}
use chiu.Common.Time.{checked_add, from_secs}
use chiu.Log.{SafeEvent, EventOutcome, ManualCommandEvent}
use chiu.Wake.{
  manual_keep_awake, SleepInhibitor, WakeCoordinator, WakeSnapshot, log_event, set_reason_active,
}

pub data ManualSessionState : Type 0 where
  inactive : ManualSessionState
  finite : (remaining : ℕ) → ManualSessionState
  until_disabled : ManualSessionState

pub record ManualSessionSnapshot : Type 0 where
  pub state : ManualSessionState
  pub background_failure : Option String

pub data ManualSessionIntent : Type 0 where
  inactive : ManualSessionIntent
  finite : (deadline : ℕ) → ManualSessionIntent
  until_disabled : ManualSessionIntent

pub record ManualSessionCore : Type 0 where
  pub intent : ManualSessionIntent
  pub background_failure : Option String
  pub accepting_commands : Bool
  pub scheduler_started : Bool

pub data ManualSessionStartPreset : Type 0 where
  fifteen_minutes thirty_minutes one_hour two_hours four_hours eight_hours :
      ManualSessionStartPreset
  until_disabled : ManualSessionStartPreset

unfoldable pub start_duration : ManualSessionStartPreset → Option ℕ
start_duration fifteen_minutes = some (from_secs (15 * 60))
start_duration thirty_minutes = some (from_secs (30 * 60))
start_duration one_hour = some (from_secs (60 * 60))
start_duration two_hours = some (from_secs (2 * 60 * 60))
start_duration four_hours = some (from_secs (4 * 60 * 60))
start_duration eight_hours = some (from_secs (8 * 60 * 60))
start_duration until_disabled = none

pub data ManualSessionAddPreset : Type 0 where
  fifteen_minutes thirty_minutes one_hour two_hours four_hours : ManualSessionAddPreset

unfoldable pub add_duration : ManualSessionAddPreset → ℕ
add_duration fifteen_minutes = from_secs (15 * 60)
add_duration thirty_minutes = from_secs (30 * 60)
add_duration one_hour = from_secs (60 * 60)
add_duration two_hours = from_secs (2 * 60 * 60)
add_duration four_hours = from_secs (4 * 60 * 60)

pub data ManualSessionCommand : Type 0 where
  start : ManualSessionStartPreset → ManualSessionCommand
  add : ManualSessionAddPreset → ManualSessionCommand
  convert_to_until_disabled stop : ManualSessionCommand

pub data ManualSessionError (E : Type 0) : Type 0 where
  invalid_transition deadline_overflow unavailable : ManualSessionError E
  wake_coordination : E → ManualSessionError E

pub record ManualSession (D : Type 0) : Type 0 where
  pub core : ManualSessionCore
  pub coordinator : WakeCoordinator D

abbrev command_event : ManualSessionCommand → ManualCommandEvent
command_event (start _) = ManualCommandEvent.start
command_event (add _) = ManualCommandEvent.add
command_event convert_to_until_disabled = ManualCommandEvent.convert
command_event stop = ManualCommandEvent.stop

abbrev state_at : ℕ → ManualSessionIntent → ManualSessionState
state_at now inactive = inactive
state_at now (finite deadline) = finite (deadline - now)
state_at now until_disabled = until_disabled

unfoldable pub snapshot_from : ℕ → ManualSessionCore → ManualSessionSnapshot
snapshot_from now core = record {
  state = state_at now core.intent;
  background_failure = core.background_failure;
}

module _ {E : Type 0} where
  abbrev or_overflow : Option ℕ → Result ManualSessionIntent (ManualSessionError E)
  or_overflow none = err deadline_overflow
  or_overflow (some deadline) = ok (finite deadline)

  abbrev start_for : ℕ → Option ℕ → Result ManualSessionIntent (ManualSessionError E)
  start_for now none = ok until_disabled
  start_for now (some duration) = or_overflow (checked_add now duration)

  -- The intent that a command asks for, in the `match` of `command_inner`.
  unfoldable pub next_intent :
      ManualSessionCommand
      → ℕ
      → ManualSessionIntent
      → Result ManualSessionIntent (ManualSessionError E)
  unfolding checked_add start_duration add_duration
  next_intent (start preset) now inactive = start_for now (start_duration preset)
  next_intent (start preset) now _ = err invalid_transition
  next_intent (add preset) now (finite deadline) =
      or_overflow (checked_add deadline (add_duration preset))
  next_intent (add preset) now _ = err invalid_transition
  next_intent convert_to_until_disabled now (finite _) = ok until_disabled
  next_intent convert_to_until_disabled now _ = err invalid_transition
  next_intent stop now _ = ok inactive

-- The value `reason_active` of the same `match`.
abbrev pub reason_active : ManualSessionCommand → Bool
reason_active stop = false
reason_active _ = true

abbrev pub command_outcome {ℓ} :
    {A : Type ℓ} {E : Type 0} → Result A (ManualSessionError E) → EventOutcome
command_outcome (ok _) = EventOutcome.succeeded
command_outcome (err (wake_coordination _)) = EventOutcome.failed
command_outcome (err _) = EventOutcome.rejected

module _ {D E : Type 0} (inhibitor : SleepInhibitor D E) where
  unfoldable pub new : WakeCoordinator D → ManualSession D
  new coordinator = record {
    core = record {
      intent = inactive;
      background_failure = none;
      accepting_commands = true;
      scheduler_started = false;
    };
    coordinator = coordinator;
  }

  -- The end of `command_inner`, on the coordinator's answer; `later` is the clock of the snapshot.
  finish :
      ℕ
      → ManualSessionCore
      → WakeCoordinator D × Result WakeSnapshot E
      → ManualSession D × Result ManualSessionSnapshot (ManualSessionError E)
  finish later core (w, err e) =
      (record { core = core; coordinator = w }, err (wake_coordination e))
  finish later core (w, ok _) =
      let core' = record core { background_failure = none } in
      (record { core = core'; coordinator = w }, ok (snapshot_from later core'))

  proceed :
      ManualSession D
      → Bool
      → ℕ
      → Result ManualSessionIntent (ManualSessionError E)
      → ManualSession D × Result ManualSessionSnapshot (ManualSessionError E)
  unfolding finish
  proceed m active later (err e) = (m, err e)
  proceed m active later (ok intent) =
      finish later (record m.core { intent = intent })
        (set_reason_active inhibitor manual_keep_awake active m.coordinator)

  unfoldable pub command_inner :
      ManualSessionCommand
      → (now later : ℕ) → ManualSession D
      → ManualSession D × Result ManualSessionSnapshot (ManualSessionError E)
  unfolding proceed
  command_inner c now later m =
      if not m.core.accepting_commands
      then (m, err unavailable)
      else proceed m (reason_active c) later (next_intent c now m.core.intent)

  unfoldable pub command :
      ManualSessionCommand
      → (now later : ℕ) → ManualSession D
      → ManualSession D × Result ManualSessionSnapshot (ManualSessionError E)
  command c now later m =
      let (m', result) = command_inner c now later m in
      (
        record m' {
          coordinator =
              log_event (SafeEvent.manual_command (command_event c) (command_outcome result))
                m'.coordinator;
        },
        result,
      )

  -- The `match` on the coordinator's answer in `expire_due`, with the record that follows it.
  expired : ManualSessionCore → WakeCoordinator D × Result WakeSnapshot E → ManualSession D
  expired core (w, ok _) = record {
    core = record core { background_failure = none };
    coordinator = log_event (SafeEvent.manual_expired EventOutcome.succeeded) w;
  }
  expired core (w, err e) = record {
    core = record core { background_failure = some (inhibitor.to_string e) };
    coordinator = log_event (SafeEvent.manual_expired EventOutcome.failed) w;
  }

  expire_at : ℕ → ManualSessionIntent → ManualSession D → ManualSession D
  unfolding expired
  expire_at now (finite deadline) m =
      if not (leb deadline now)
      then m
      else expired (record m.core { intent = inactive })
          (set_reason_active inhibitor manual_keep_awake false m.coordinator)
  expire_at now _ m = m

  unfoldable pub expire_due : ℕ → ManualSession D → ManualSession D
  unfolding expire_at
  expire_due now m = expire_at now m.core.intent m

  unfoldable pub request_scheduler_shutdown : ManualSession D → ManualSession D
  request_scheduler_shutdown m = record m { core = record m.core { accepting_commands = false } }

-- One turn of the loop of `run_scheduler`: what the thread does on the core that it sees.
pub data SchedulerAction : Type 0 where
  exits expires waits : SchedulerAction
  waits_for : ℕ → SchedulerAction

abbrev pub action_at : ℕ → ManualSessionIntent → SchedulerAction
action_at now (finite deadline) = if leb deadline now then expires else waits_for (deadline - now)
action_at now _ = waits

unfoldable pub scheduler_action : ℕ → ManualSessionCore → SchedulerAction
scheduler_action now core = if core.accepting_commands then action_at now core.intent else exits

pub data ManualSessionRuntimeError : Type 0 where
  already_started worker_panicked : ManualSessionRuntimeError
  spawn : String → ManualSessionRuntimeError

-- `start_scheduler`, with the answer of the thread's spawn.
unfoldable pub start_scheduler :
    Result (Unit {0}) String
    → ManualSessionCore
    → ManualSessionCore × Result (Unit {0}) ManualSessionRuntimeError
start_scheduler spawned core =
    if core.scheduler_started || not core.accepting_commands
    then (core, err already_started)
    else elim spawned [
      | ok _ ↦ (record core { scheduler_started = true }, ok tt)
      | err e ↦ (record core { scheduler_started = false }, err (spawn e))
    ]

-- ===== src/Manual/Tests.antt =====
-- Manual sessions at concrete inputs.
use chiu.Common.{◌+◌, ◌-◌, ◌≡◌, refl, Bool, true, false, [], ◌∷◌, none, arith}
use chiu.Common.Result.{ok, err}
use chiu.Common.Time.{from_secs}
use chiu.Common.BTreeSet.{contains}
use chiu.Wake.{manual_keep_awake, reason_ord}
use chiu.Testing.{Scripted, scripted, refusing, coordinator_with}
use chiu.Manual.{
  request_scheduler_shutdown, ManualSessionIntent, inactive, finite, ManualSessionCore,
  ManualSessionStartPreset, ManualSessionAddPreset, start, stop, unavailable, ManualSession,
  start_duration, add_duration, snapshot_from, command, expire_due, exits, expires, waits_for,
  scheduler_action, start_scheduler, already_started,
}
use chiu.Manual.Commands.{IsSynced, command-IsSynced}
use chiu.Manual.Deadlines.{Additions, total_added, add_all, remaining_time}
use chiu.Manual.Scheduler.{session_ends, session_lasts, run_commands, shutdown_is_final}

abbrev core_with : ManualSessionIntent → Bool → ManualSessionCore
core_with intent accepting = record {
  intent = intent;
  background_failure = none;
  accepting_commands = accepting;
  scheduler_started = true;
}

-- No session, and an inhibitor that refuses its first call.
abbrev resting : ManualSession Scripted
resting = record { core = core_with inactive true; coordinator = coordinator_with [] refusing }

-- A session with an hour left at time zero.
abbrev running : ManualSession Scripted
running = record {
  core = core_with (finite (from_secs 3600)) true;
  coordinator =
      coordinator_with (manual_keep_awake ∷ []) (record { protecting = true; failures = 1 });
}

resting-IsSynced : IsSynced resting
unfolding contains
resting-IsSynced = record { synced = refl; sorted = tt }

running-IsSynced : IsSynced running
unfolding contains
running-IsSynced = record { synced = refl; sorted = (tt, tt) }

abbrev additions : Additions
additions =
    (ManualSessionAddPreset.fifteen_minutes, from_secs 5, from_secs 6)
    ∷ (ManualSessionAddPreset.two_hours, from_secs 9, from_secs 9)
    ∷ []

command-IsSynced_example :
    IsSynced (command scripted (start ManualSessionStartPreset.one_hour) 0 0 resting).0
command-IsSynced_example =
    command-IsSynced scripted (start ManualSessionStartPreset.one_hour) 0 0 resting resting-IsSynced

remaining_time_example :
    (snapshot_from
      (from_secs 20)
      (add_all scripted additions
        (command scripted (start ManualSessionStartPreset.one_hour) 0 0 resting).0).core).state
    ≡ finite (0 + from_secs 3600 + total_added additions - from_secs 20)
unfolding start_duration add_duration
remaining_time_example =
    remaining_time scripted ManualSessionStartPreset.one_hour additions 0 0 (from_secs 3600)
      (from_secs 20) resting refl refl refl (omega arith)

session_ends_example :
    (scheduler_action (from_secs 3601) running.core ≡ expires)
    × ((expire_due scripted (from_secs 3601) running).core.intent ≡ inactive)
    × (contains manual_keep_awake
          (expire_due scripted (from_secs 3601) running).coordinator.active_reasons
        ≡ false)
unfolding scheduler_action
session_ends_example =
    session_ends scripted (from_secs 600) (from_secs 3000) (from_secs 3601) running running-IsSynced
      refl (omega arith)

session_lasts_example :
    (scheduler_action (from_secs 3599) running.core
      ≡ waits_for (from_secs 600 + from_secs 3000 - from_secs 3599))
    × (expire_due scripted (from_secs 3599) running ≡ running)
unfolding scheduler_action
session_lasts_example =
    session_lasts scripted (from_secs 600) (from_secs 3000) (from_secs 3599) running refl
      (omega arith)

shutdown_is_final_example :
    let m =
      run_commands scripted ((stop, 1, 2) ∷ []) (request_scheduler_shutdown scripted running) in
    (m.core ≡ record running.core { accepting_commands = false })
    × (m.coordinator.active_reasons ≡ running.coordinator.active_reasons)
    × (m.coordinator.inhibitor ≡ running.coordinator.inhibitor)
    × ((command scripted stop 3 4 m).1 ≡ err unavailable)
    × (scheduler_action 3 m.core ≡ exits)
    × ((start_scheduler (ok tt) m.core).1 ≡ err already_started)
shutdown_is_final_example = shutdown_is_final scripted running ((stop, 1, 2) ∷ []) stop 3 4 (ok tt)

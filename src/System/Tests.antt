-- ===== src/System/Tests.antt =====
-- A run of the whole program: a download on battery, a manual session, and the return of external
-- power.
use chiu.Common.{◌≡◌, true, false, some, none, not, ◌&&◌, List, [], ◌∷◌}
use chiu.Common.Result.{ok, err}
use chiu.Common.Time.{from_secs}
use chiu.Common.BTreeSet.{contains}
use chiu.Wake.{automatic_download, manual_keep_awake, reason_ord}
use chiu.Testing.{Scripted, scripted, refusing}
use chiu.Network.{unavailable}
use chiu.Network.Source.{SourceShared, NetworkActivitySourceStatus}
use chiu.Network.Source.Published.{Published}
use chiu.System.Feed.{Fed, Turn, reading, call, fresh, turn, turns, source_failure_releases}
use chiu.Protection.{AutomaticProtectionSettings, external, limited}
use chiu.Network.{NetworkActivityEvent, sample}
use chiu.Detector.{default_settings}
use chiu.Manual.{start, ManualSessionStartPreset}
use chiu.System.{
  System, Action, network, power_report, manual_command, manual_timer, stop_coordinator, run, step,
}
use chiu.System
use chiu.System.Reasons.{has_download, has_session, run-reasons}

abbrev on_power : AutomaticProtectionSettings
on_power = record { automatic_download_protection_enabled = true; protect_on_battery = false }

abbrev downloading : NetworkActivityEvent
downloading = sample (record { received_bytes = 10485760; observed_over = from_secs 5 })

abbrev evening : List Action
evening =
    power_report (ok limited)
    ∷ network downloading
    ∷ manual_command (start ManualSessionStartPreset.fifteen_minutes) 0 0
    ∷ power_report (ok external)
    ∷ manual_timer (from_secs 1000)
    ∷ []

-- After the program's end the session's timer still fires.
abbrev late : List Action
late = manual_timer (from_secs 2000) ∷ []

run-reasons_example :
    let s = run scripted evening (System.start scripted default_settings on_power refusing) in
    let ended = step scripted stop_coordinator s in
    let s' = run scripted late ended in
    (contains automatic_download s.coordinator.active_reasons ≡ has_download s)
    × (contains manual_keep_awake s.coordinator.active_reasons ≡ has_session s)
    × (ended.coordinator.active_reasons ≡ [])
    × (contains automatic_download s'.coordinator.active_reasons && not (has_download s') ≡ false)
    × (contains manual_keep_awake s'.coordinator.active_reasons && not (has_session s') ≡ false)
run-reasons_example =
    run-reasons scripted default_settings on_power refusing evening late
      (tt, (tt, (tt, (tt, (tt, tt)))))

abbrev unread : SourceShared
unread = record {
  started = true;
  snapshot = record {
    status = NetworkActivitySourceStatus.starting;
    latest_failure = none;
    interfaces = [];
  };
  log = [];
}

abbrev readings : List Turn
readings =
    reading (ok []) 1000000000
    ∷ call (power_report (ok external))
    ∷ reading (ok []) 2000000000
    ∷ reading (err "unreadable") 3000000000
    ∷ []

source_failure_releases_example :
    let start = fresh scripted default_settings on_power unread refusing in
    (f : Fed Scripted) × (f' : Fed Scripted) × (turns scripted readings start ≡ some f)
    × (turn scripted (reading (err "unreadable") 4000000000) f ≡ some f')
    × Published (some unavailable) f'.source.snapshot
    × (contains automatic_download f'.system.coordinator.active_reasons ≡ false)
source_failure_releases_example =
    source_failure_releases scripted default_settings on_power unread refusing readings "unreadable"
      4000000000 (tt, (tt, (tt, (tt, tt))))

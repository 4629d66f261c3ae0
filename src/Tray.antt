-- ===== src/Tray.antt =====
-- src-tauri/src/tray/command.rs: the commands of the tray's menu and the identifiers of its items.
pub mod Vocabulary
pub mod Tests
use chiu.Common.{ℕ, Bool, true, false, if◌then◌else◌, String, Option, none, some, List, [], ◌∷◌}
use chiu.Common.Time.{from_secs}
use chiu.Manual.{ManualSessionCommand, ManualSessionStartPreset, ManualSessionAddPreset}
use text.Mathlib.Text.{◌==◌}

pub data ThresholdPreset : Type 0 where
  kibibytes_256 mebibyte_1 mebibytes_5 : ThresholdPreset

unfoldable pub bytes_per_second : ThresholdPreset → ℕ
bytes_per_second kibibytes_256 = 262144
bytes_per_second mebibyte_1 = 1048576
bytes_per_second mebibytes_5 = 5242880

pub data GracePreset : Type 0 where
  seconds_30 minutes_2 minutes_5 minutes_15 minutes_30 : GracePreset

unfoldable pub duration : GracePreset → ℕ
duration seconds_30 = from_secs 30
duration minutes_2 = from_secs 120
duration minutes_5 = from_secs 300
duration minutes_15 = from_secs 900
duration minutes_30 = from_secs 1800

pub data TrayCommand : Type 0 where
  toggle_automatic_protection toggle_protect_on_battery toggle_launch_at_login : TrayCommand
  toggle_automatic_updates check_updates install_update copy_diagnostics open_logs : TrayCommand
  manual : ManualSessionCommand → TrayCommand
  set_threshold : ThresholdPreset → TrayCommand
  set_grace : GracePreset → TrayCommand
  quit : TrayCommand

abbrev start_id : ManualSessionStartPreset → String
start_id ManualSessionStartPreset.fifteen_minutes = "manual.start.15m"
start_id ManualSessionStartPreset.thirty_minutes = "manual.start.30m"
start_id ManualSessionStartPreset.one_hour = "manual.start.1h"
start_id ManualSessionStartPreset.two_hours = "manual.start.2h"
start_id ManualSessionStartPreset.four_hours = "manual.start.4h"
start_id ManualSessionStartPreset.eight_hours = "manual.start.8h"
start_id ManualSessionStartPreset.until_disabled = "manual.start.until-disabled"

abbrev add_id : ManualSessionAddPreset → String
add_id ManualSessionAddPreset.fifteen_minutes = "manual.add.15m"
add_id ManualSessionAddPreset.thirty_minutes = "manual.add.30m"
add_id ManualSessionAddPreset.one_hour = "manual.add.1h"
add_id ManualSessionAddPreset.two_hours = "manual.add.2h"
add_id ManualSessionAddPreset.four_hours = "manual.add.4h"

abbrev manual_id : ManualSessionCommand → String
manual_id (ManualSessionCommand.start preset) = start_id preset
manual_id (ManualSessionCommand.add preset) = add_id preset
manual_id ManualSessionCommand.convert_to_until_disabled = "manual.convert.until-disabled"
manual_id ManualSessionCommand.stop = "manual.stop"

abbrev threshold_id : ThresholdPreset → String
threshold_id kibibytes_256 = "detection.threshold.262144"
threshold_id mebibyte_1 = "detection.threshold.1048576"
threshold_id mebibytes_5 = "detection.threshold.5242880"

abbrev grace_id : GracePreset → String
grace_id seconds_30 = "detection.grace.30"
grace_id minutes_2 = "detection.grace.120"
grace_id minutes_5 = "detection.grace.300"
grace_id minutes_15 = "detection.grace.900"
grace_id minutes_30 = "detection.grace.1800"

unfoldable pub id : TrayCommand → String
id toggle_automatic_protection = "automatic.toggle"
id toggle_protect_on_battery = "battery.toggle"
id toggle_launch_at_login = "future.launch-at-login"
id toggle_automatic_updates = "future.automatic-updates"
id check_updates = "future.check-updates"
id install_update = "updater.install"
id copy_diagnostics = "future.copy-diagnostics"
id open_logs = "future.open-logs"
id (manual command) = manual_id command
id (set_threshold preset) = threshold_id preset
id (set_grace preset) = grace_id preset
id quit = "quit"

-- `ALL_COMMANDS`
abbrev pub all_commands : List TrayCommand
all_commands =
    toggle_automatic_protection
    ∷ toggle_protect_on_battery
    ∷ toggle_launch_at_login
    ∷ toggle_automatic_updates
    ∷ check_updates
    ∷ install_update
    ∷ copy_diagnostics
    ∷ open_logs
    ∷ manual (ManualSessionCommand.start ManualSessionStartPreset.fifteen_minutes)
    ∷ manual (ManualSessionCommand.start ManualSessionStartPreset.thirty_minutes)
    ∷ manual (ManualSessionCommand.start ManualSessionStartPreset.one_hour)
    ∷ manual (ManualSessionCommand.start ManualSessionStartPreset.two_hours)
    ∷ manual (ManualSessionCommand.start ManualSessionStartPreset.four_hours)
    ∷ manual (ManualSessionCommand.start ManualSessionStartPreset.eight_hours)
    ∷ manual (ManualSessionCommand.start ManualSessionStartPreset.until_disabled)
    ∷ manual (ManualSessionCommand.add ManualSessionAddPreset.fifteen_minutes)
    ∷ manual (ManualSessionCommand.add ManualSessionAddPreset.thirty_minutes)
    ∷ manual (ManualSessionCommand.add ManualSessionAddPreset.one_hour)
    ∷ manual (ManualSessionCommand.add ManualSessionAddPreset.two_hours)
    ∷ manual (ManualSessionCommand.add ManualSessionAddPreset.four_hours)
    ∷ manual ManualSessionCommand.convert_to_until_disabled
    ∷ manual ManualSessionCommand.stop
    ∷ set_threshold kibibytes_256
    ∷ set_threshold mebibyte_1
    ∷ set_threshold mebibytes_5
    ∷ set_grace seconds_30
    ∷ set_grace minutes_2
    ∷ set_grace minutes_5
    ∷ set_grace minutes_15
    ∷ set_grace minutes_30
    ∷ quit
    ∷ []

unfoldable pub find_id : String → List TrayCommand → Option TrayCommand
find_id text [] = none
find_id text (c ∷ cs) = if id c == text then some c else find_id text cs

unfoldable pub from_id : String → Option TrayCommand
from_id text = find_id text all_commands

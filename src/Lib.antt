-- ===== src/Lib.antt =====
-- Models of the core of Chiù, a tray program that keeps a computer awake during downloads or on
-- command, and the theorems about them.
--
-- The program. A network source reads the interface counters each second and turns them into
-- events. The automatic download detector turns the events into an intent, which the automatic
-- protection controller turns into a wake reason, by the settings and by the power source that the
-- observer reports. A manual session sets the other wake reason, until a deadline or until it is
-- disabled. The wake coordinator holds the set of reasons and drives the sleep inhibitor of the
-- platform, one IOKit assertion or one Windows power request. The lifecycle starts these parts and
-- stops them again. The settings service saves each choice before it is applied, and keeps a backup.
--
-- The files, and the code under src-tauri/src/ that each one is about:
-- - Log: the events of local_log.rs. A part's model keeps its records in a list, newest first. Log/Text:
--   `render`; Log/Writer, Log/Local and Log/Opening: `RotatingWriter` and `LocalLog`, with Log/Shifting,
--   Log/Rotation and Log/Redaction about them. Log/Names says what an archive's name is; Log/Pruning
--   and Log/Removal are about what opening the log keeps and removes.
-- - Inhibitor, with Inhibitor/MacOs and Inhibitor/Windows: sleep_inhibitor/mod.rs, macos.rs and
--   windows.rs. `facade_acquire` and `facade_release` are the methods of `IdleSleepInhibitor`;
--   `mac_acquire`, `win_acquire` and so on are those of the platforms. Inhibitor/Laws says what a
--   platform owes the facade, Inhibitor/Requests what Windows documents of power requests.
-- - Wake, with Wake/Reasons: wake_coordinator.rs. `set_reason_active` and `shutdown` are the methods of
--   `WakeCoordinator`, `reconcile` and `snapshot` those of `CoordinatorCore`. Wake/Laws is about one
--   call, Wake/History about sequences of calls, Wake/Calls about what they call of the inhibitor,
--   Wake/Events about the records, Wake/Platform and Wake/Handles about the coordinator over a
--   platform.
-- - Protection: automatic_protection.rs. `apply_change` is the body that the three setters share.
-- - Power: the observer of power_source/mod.rs; Power/Policy: what its reports do to the policy.
-- - Network: the values of network_activity/mod.rs; Network/Keys: `InterfaceId` with its order;
--   Network/Normalizer: `ActivityNormalizer`; Network/Sampling: `SamplingCore`; Network/Source: the
--   snapshot and the records of one turn of `sample_once`, with Network/Source/Published about them.
--   Network/Normalizer/Ids and Shown are about the ids of interfaces and what is published of them.
-- - Detector: automatic_download.rs. `next_phase` is the match of `apply_sample`.
-- - Settings: the settings of settings.rs and their changes; Settings/Document and Settings/Persisted:
--   reading a document field by field, and the one that is written; Settings/Json: serde_json's Value;
--   Settings/Files: the names and the operations on the directory, with the file system, the atomic
--   replacement and serde_json as parameters; Settings/Loading: `load_settings`; Settings/Step and
--   Settings/Service: `SettingsService`, an update being a sequence of steps over its state that ends
--   with a value, an error or a panic. Settings/Disk has the laws of the parameters, by what each file
--   holds; Settings/Leaving, Settings/Conditions, Settings/Staging, Settings/Updating and
--   Settings/Succeeding lead from them to an update, Settings/Starting, Settings/Reloading and
--   Settings/Blocking to loading, and Settings/Answers to what the services rely on that save through
--   it: Protection/Service, Detector/Tuning and Launch, which is launch_at_login.rs.
-- - Manual: manual_session.rs. `next_intent` is the match of `command_inner`, `scheduler_action` one
--   turn of `run_scheduler`.
-- - Application: application.rs.
-- - Tray: the commands and identifiers of tray/command.rs.
-- - System: how product_composition.rs wires the parts, with a constructor of `Action` for each call
--   that the threads make and for the cleanups at the end, of which the coordinator's is the last.
--   System/Coherence follows the parts until that one, System/Causes also after it, and System/Reasons
--   puts them together; System/Feed joins the worker of the network source to it.
-- - Common: results, ordered sets and maps, durations and bounds, as the source uses them from Rust's
--   standard library. Testing: inhibitors for the examples, which stand in the modules Tests.
--
-- State. A method that takes `&self` and locks is a function from the state to the new state and the
-- result. A call runs under its part's lock, so a run of the threads is a sequence of calls; where
-- parts share the coordinator, its value is passed through. The reading of a clock is an argument.
-- A panic is a value: `Fault.panic` in the inhibitors, `none` in the normalizer, in loading
-- and in the answers of the services that save, `Stop.panicked` in an update. Poisoned locks are
-- not modelled.
--
-- Numbers. A duration is a number of nanoseconds up to `max_duration`, the greatest Duration;
-- `checked_add` and `saturating_add` stop there. Byte counts are u64 and their sums are checked at
-- `u64_max`; the rate is computed in u128. Diagnostic ids wrap at 2 ^ 64. No function needs fuel but
-- `decimal`, the digits of a number in a quarantine's name, which stops at 39 digits, enough for a u128: the
-- other loops run over lists.
--
-- Not modelled: the calls of IOKit, Win32, sysctl and the file system, which are parameters or
-- arguments; the threads that wait and join; the replacement of a settings file by MoveFileExW; the
-- installation of the autostart plugin; updater.rs, tray.rs but for its commands, tray_host.rs,
-- diagnostics.rs, clipboard.rs and main.rs.
pub mod Common
pub mod Log
pub mod Inhibitor
pub mod Wake
pub mod Protection
pub mod Power
pub mod Network
pub mod Detector
pub mod Settings
pub mod Launch
pub mod Manual
pub mod Tray
pub mod Application
pub mod System
pub mod Testing

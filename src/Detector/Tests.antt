-- ===== src/Detector/Tests.antt =====
-- Runs of the detector, and its theorems at concrete inputs.
use chiu.Common.{
  ◌≡◌, ◌+◌, refl, Bool, true, false, not, if◌then◌else◌, leb, List, [], ◌∷◌, none, arith,
}
use chiu.Common.Result.{err}
use chiu.Common.Time.{from_secs}
use chiu.Network.{
  ReceiveActivitySample, NetworkActivityEvent, sample, continuity_lost, availability_changed,
  available, provider_unavailable,
}
use chiu.Detector.{
  MonitorCore, IntentConsumer, DetectorPhase, idle, active, hold, default_settings, is_idle,
  observe, next_phase, apply_sample, reset,
}
use chiu.Detector.Phases.{IsProper}
use chiu.Detector.Timing.{observe_all, total_time, qualifies, releases_after_grace}
use chiu.Detector.Intent.{IsKeeping, Call, consumes, perform_all, perform_all-Agrees}
use chiu.Settings.Json.{null}
use chiu.Settings.Fitting.{default-IsPersistable}
use chiu.Testing.MemoryDisk.{
  Directory, memory, memory-IsDisk, values, replacing, replacing-IsAtomic, service,
}
use chiu.Detector.Tuning.{AutomaticDownloadTuningService}
use chiu.Detector.Persisting.{
  IsInSync, Tuning, threshold, grace_milliseconds, tune_all, tune_all-IsInSync,
}

abbrev core_in : DetectorPhase → MonitorCore
core_in phase = record {
  phase = phase;
  latest_receive_rate_bytes_per_second = none;
  settings = default_settings;
}

default-IsProper : IsProper default_settings
default-IsProper = record {
  rate = omega arith;
  qualification = omega arith;
  qualification_max = omega arith;
  grace_max = omega arith;
}

-- Three seconds at two MiB per second, and three seconds of silence.
abbrev busy : ReceiveActivitySample
busy = record { received_bytes = 6291456; observed_over = from_secs 3 }

abbrev silent : ReceiveActivitySample
silent = record { received_bytes = 0; observed_over = from_secs 3 }

abbrev burst : List NetworkActivityEvent
burst = sample busy ∷ availability_changed available ∷ sample busy ∷ []

abbrev pause : List NetworkActivityEvent
pause = sample silent ∷ sample silent ∷ []

qualifies_example :
    (observe_all burst (core_in (idle 0))).phase
    ≡ (if leb (from_secs 5) (0 + total_time burst) then active else idle (0 + total_time burst))
qualifies_example =
    qualifies burst (core_in (idle 0)) 0 default-IsProper refl (omega arith)
      (refl, (tt, (refl, tt)))

releases_after_grace_example :
    (observe_all pause (core_in active)).phase
    ≡ (if leb (from_secs 120) (total_time pause) then idle 0 else hold (total_time pause))
releases_after_grace_example =
    releases_after_grace silent (sample silent ∷ []) (core_in active) default-IsProper refl
      (refl, (refl, tt))

activated : (observe_all burst (core_in (idle 0))).phase ≡ active
unfolding observe_all observe apply_sample next_phase
activated = refl

interrupted :
    (observe_all
      (sample busy ∷ continuity_lost provider_unavailable ∷ sample busy ∷ [])
      (core_in (idle 0))).phase
    ≡ idle (from_secs 3)
unfolding observe_all observe apply_sample next_phase reset
interrupted = refl

-- A consumer that keeps the intent, and fails each time.
abbrev failing : IntentConsumer Bool
failing = record { set_automatic_intent = λ b _. (b, err "refused"); record_event = λ _ s. s }

failing-IsKeeping : IsKeeping failing (λ s. s)
failing-IsKeeping = record { told = λ b s. refl; recorded = λ e s. refl }

abbrev calls : List Call
calls = consumes (sample busy) ∷ consumes (sample busy) ∷ []

perform_all-Agrees_example :
    (perform_all failing calls (record { core = core_in (idle 0); consumer = false })).consumer
    ≡ not (
        is_idle
          (perform_all failing calls
            (record { core = core_in (idle 0); consumer = false })).core.phase)
perform_all-Agrees_example =
    perform_all-Agrees failing failing-IsKeeping calls
      (record { core = core_in (idle 0); consumer = false }) refl

-- The detector with the saved defaults.
abbrev saving : AutomaticDownloadTuningService Directory Bool
saving = record { settings = service; monitor = record { core = core_in active; consumer = true } }

abbrev saving_sync : IsInSync saving
saving_sync = record { agrees = refl; persistable = default-IsPersistable }

abbrev changes : List Tuning
changes = threshold 0 ∷ threshold 2097152 ∷ grace_milliseconds 60000 ∷ []

tune_all-IsInSync_example : IsInSync (tune_all memory values replacing failing changes saving)
tune_all-IsInSync_example =
    tune_all-IsInSync memory values replacing failing (λ f n. f n) null memory-IsDisk
      replacing-IsAtomic changes saving saving_sync

-- ===== src/Detector/Phases.antt =====
-- The phase of the detector between two events.
use chiu.Common.{ℕ, ◌*◌, ◌≤◌, ◌<◌, ◌≡◌, Bool, some, arith}
use chiu.Common.Time.{max_duration, u64_max, u128_max}
use chiu.Network.{
  ReceiveActivitySample, NetworkActivityEvent, sample, continuity_lost, availability_changed,
  is_trusted_interval, try_new, max_trusted_interval,
}
use chiu.Detector.{
  AutomaticDownloadSettings, DetectorPhase, idle, active, hold, MonitorCore, next_phase, observe,
  is_meaningful,
}

-- What `try_new` and the persisted settings give: the threshold and the qualification are not
-- zero, and the durations are durations.
pub record IsProper (t : AutomaticDownloadSettings) : Type 0 where
  pub rate : 0 < t.meaningful_receive_rate_bytes_per_second
  pub qualification : 0 < t.activation_qualification
  pub qualification_max : t.activation_qualification ≤ max_duration
  pub grace_max : t.grace ≤ max_duration

-- An idle detector has not qualified, and a held one has grace left.
abbrev pub InPhase : AutomaticDownloadSettings → DetectorPhase → Type 0
InPhase t (idle elapsed) = elapsed < t.activation_qualification
InPhase t active = Unit
InPhase t (hold quiet) = quiet < t.grace

pub next_phase-InPhase :
    (t : AutomaticDownloadSettings) (b : Bool) (d : ℕ) (p : DetectorPhase)
    → 0 < t.activation_qualification
    → InPhase t p
    → InPhase t (next_phase t b d p)
unfolding next_phase
next_phase-InPhase t b d (idle e) q h = ground arith
next_phase-InPhase t b d active q h = ground arith
next_phase-InPhase t b d (hold e) q h = ground arith

-- Where the qualification is not zero, every event keeps an idle detector short of its
-- qualification, and a held one short of its grace.
observe-InPhase :
    (e : NetworkActivityEvent) (core : MonitorCore)
    → 0 < core.settings.activation_qualification
    → InPhase core.settings core.phase
    → InPhase (observe e core).settings (observe e core).phase
unfolding observe
observe-InPhase (sample s) core q h =
    next_phase-InPhase core.settings (is_meaningful core.settings s) s.observed_over core.phase q h
observe-InPhase (continuity_lost r) core q h = q
observe-InPhase (availability_changed a) core q h = h

-- A sample that `try_new` makes of bytes that fit u64 covers a positive time of at most five
-- seconds, so that the rate has no zero divisor, and its product with a billion fits u128.
receive_rate_safe :
    (bytes d : ℕ) (s : ReceiveActivitySample)
    → bytes ≤ u64_max
    → try_new bytes d ≡ some s
    → (0 < s.observed_over)
      × (s.observed_over ≤ max_trusted_interval)
      × (s.received_bytes * 1000000000 ≤ u128_max)
unfolding try_new is_trusted_interval
receive_rate_safe bytes d s b h = ground arith

-- ===== src/Detector/Timing.antt =====
-- How long activity must last before the detector asks for protection, and how long silence before
-- it stops asking. Only the total observed time counts, however it is cut into samples.
use chiu.Common.{ℕ, ◌+◌, ◌<◌, ◌≡◌, Bool, true, false, if◌then◌else◌, leb, arith, List, [], ◌∷◌, All}
use chiu.Network.{
  ReceiveActivitySample, NetworkActivityEvent, sample, continuity_lost, availability_changed,
}
use chiu.Detector.{
  AutomaticDownloadSettings, idle, active, hold, MonitorCore, next_phase, observe, is_meaningful,
}
use chiu.Detector.Phases.{IsProper}

unfoldable pub observe_all : List NetworkActivityEvent → MonitorCore → MonitorCore
observe_all [] core = core
observe_all (e ∷ es) core = observe_all es (observe e core)

-- The time that the samples of the events cover.
abbrev pub total_time : List NetworkActivityEvent → ℕ
total_time [] = 0
total_time (sample s ∷ es) = s.observed_over + total_time es
total_time (continuity_lost _ ∷ es) = total_time es
total_time (availability_changed _ ∷ es) = total_time es

-- No continuity is lost, and every sample reaches (or misses) the threshold, as `b` says.
abbrev pub Steady : AutomaticDownloadSettings → Bool → NetworkActivityEvent → Type 0
Steady t b (sample s) = is_meaningful t s ≡ b
Steady t b (continuity_lost _) = ⊥
Steady t b (availability_changed _) = Unit

active_stays :
    (es : List NetworkActivityEvent) (core : MonitorCore)
    → core.phase ≡ active
    → All (Steady core.settings true) es
    → (observe_all es core).phase ≡ active
unfolding observe_all observe next_phase
active_stays [] core p h = p
active_stays (sample s ∷ es) core p h = active_stays es (observe (sample s) core) (ground arith) h.1
active_stays (continuity_lost r ∷ es) core p h = absurd h.0
active_stays (availability_changed a ∷ es) core p h = active_stays es core p h.1

-- With proper settings, from an idle detector that is short of its qualification: events without a
-- lost continuity, whose samples are all meaningful, activate it exactly if the time that they
-- cover, together with the time already counted, reaches the qualification, however that time is
-- cut into samples; short of that the detector has counted all of it.
pub qualifies :
    (es : List NetworkActivityEvent) (core : MonitorCore) (elapsed : ℕ)
    → IsProper core.settings
    → core.phase ≡ idle elapsed
    → elapsed < core.settings.activation_qualification
    → All (Steady core.settings true) es
    → (observe_all es core).phase ≡ (
        if leb core.settings.activation_qualification (elapsed + total_time es)
        then active
        else idle (elapsed + total_time es))
unfolding observe_all observe next_phase
qualifies [] core elapsed t p q h = ground arith
qualifies (continuity_lost r ∷ es) core elapsed t p q h = absurd h.0
qualifies (availability_changed a ∷ es) core elapsed t p q h = qualifies es core elapsed t p q h.1
qualifies (sample s ∷ es) core elapsed t p q h =
    let core' = observe (sample s) core in
    ground (arith, active_stays es core', qualifies es core' (elapsed + s.observed_over))

idle_stays :
    (es : List NetworkActivityEvent) (core : MonitorCore)
    → core.phase ≡ idle 0
    → All (Steady core.settings false) es
    → (observe_all es core).phase ≡ idle 0
unfolding observe_all observe next_phase
idle_stays [] core p h = p
idle_stays (sample s ∷ es) core p h = idle_stays es (observe (sample s) core) (ground arith) h.1
idle_stays (continuity_lost r ∷ es) core p h = absurd h.0
idle_stays (availability_changed a ∷ es) core p h = idle_stays es core p h.1

-- With proper settings, from a holding detector whose silence is short of the grace: events
-- without a lost continuity or a meaningful sample end the hold exactly if the time that they
-- cover, together with the silence already counted, reaches the grace; until then all of it is
-- counted.
holds_until_grace :
    (es : List NetworkActivityEvent) (core : MonitorCore) (quiet : ℕ)
    → IsProper core.settings
    → core.phase ≡ hold quiet
    → quiet < core.settings.grace
    → All (Steady core.settings false) es
    → (observe_all es core).phase ≡ (
        if leb core.settings.grace (quiet + total_time es)
        then idle 0
        else hold (quiet + total_time es))
unfolding observe_all observe next_phase
holds_until_grace [] core quiet t p q h = ground arith
holds_until_grace (continuity_lost r ∷ es) core quiet t p q h = absurd h.0
holds_until_grace (availability_changed a ∷ es) core quiet t p q h =
    holds_until_grace es core quiet t p q h.1
holds_until_grace (sample s ∷ es) core quiet t p q h =
    let core' = observe (sample s) core in
    ground (arith, idle_stays es core', holds_until_grace es core' (quiet + s.observed_over))

-- With proper settings, an active detector that falls silent, without a lost continuity, goes idle
-- exactly if the silence, from its first sample on, reaches the grace; until then it holds with
-- all of the silence counted.
pub releases_after_grace :
    (s : ReceiveActivitySample) (es : List NetworkActivityEvent) (core : MonitorCore)
    → IsProper core.settings
    → core.phase ≡ active
    → All (Steady core.settings false) (sample s ∷ es)
    → (observe_all (sample s ∷ es) core).phase ≡ (
        if leb core.settings.grace (total_time (sample s ∷ es))
        then idle 0
        else hold (total_time (sample s ∷ es)))
unfolding observe_all observe next_phase
releases_after_grace s es core t p h =
    let core' = observe (sample s) core in
    ground (arith, idle_stays es core', holds_until_grace es core' s.observed_over)

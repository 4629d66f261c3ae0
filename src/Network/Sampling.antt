-- ===== src/Network/Sampling.antt =====
-- `SamplingCore` of src-tauri/src/network_activity/mod.rs: from readings at times of the worker's
-- clock to events. `none` for the events is a panic of the normalizer.
use chiu.Common.{ℕ, Bool, true, false, if◌then◌else◌, Option, none, some, List, [], ◌∷◌, ◌++◌}
use chiu.Common.Result.{Result, ok, err}
use chiu.Common.Time.{checked_sub}
use chiu.Network.{
  NetworkActivityAvailability, available, unavailable, NetworkActivityEvent, provider_unavailable,
}
use chiu.Network.Normalizer.{
  ActivityNormalizer, NormalizedObservation, InterfaceCounter, new_normalizer, reset, observe,
  baseline, sample, continuity_lost,
}
use mathlib.Core.Option

pub record SamplingCore : Type 0 where
  pub normalizer : ActivityNormalizer
  pub last_observed_at : Option ℕ
  pub availability : Option NetworkActivityAvailability

unfoldable pub new_sampling : SamplingCore
unfolding new_normalizer
new_sampling = record { normalizer = new_normalizer; last_observed_at = none; availability = none }

abbrev pub is_available : Option NetworkActivityAvailability → Bool
is_available (some available) = true
is_available _ = false

abbrev pub is_unavailable : Option NetworkActivityAvailability → Bool
is_unavailable (some unavailable) = true
is_unavailable _ = false

abbrev or_zero : Option ℕ → ℕ
or_zero none = 0
or_zero (some d) = d

-- The time since the last reading, and zero where there is none or the clock went back.
unfoldable pub time_since : Option ℕ → ℕ → ℕ
unfolding checked_sub
time_since none now = 0
time_since (some previous) now = or_zero (checked_sub now previous)

abbrev pub availability_events : Option NetworkActivityAvailability → List NetworkActivityEvent
availability_events a =
    if is_available a then [] else NetworkActivityEvent.availability_changed available ∷ []

abbrev pub observation_events : NormalizedObservation → List NetworkActivityEvent
observation_events baseline = []
observation_events (sample s) = NetworkActivityEvent.sample s ∷ []
observation_events (continuity_lost r) = NetworkActivityEvent.continuity_lost r ∷ []

unfoldable pub process {κ} :
    {E : Type κ}
    → Result (List InterfaceCounter) E
    → ℕ
    → SamplingCore
    → SamplingCore × Option (List NetworkActivityEvent)
unfolding reset
process (ok counters) now c =
    let (normalizer', normalized) =
      observe counters (time_since c.last_observed_at now) c.normalizer in
    (
      record {
        normalizer = normalizer';
        last_observed_at = some now;
        availability = some available;
      },
      Option.map (λ o. availability_events c.availability ++ observation_events o) normalized,
    )
process (err e) now c = (
  record {
    normalizer = reset c.normalizer;
    last_observed_at = none;
    availability = some unavailable;
  },
  some (
      if is_unavailable c.availability
      then []
      else NetworkActivityEvent.continuity_lost provider_unavailable
        ∷ NetworkActivityEvent.availability_changed unavailable
        ∷ []),
)

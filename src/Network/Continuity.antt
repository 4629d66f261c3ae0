-- ===== src/Network/Continuity.antt =====
-- What the consumer of the sampling core can rely on, over any history of readings.
use chiu.Common.{
  ℕ, ◌+◌, ◌≤◌, ◌<◌, ◌≡◌, refl, true, false, not, if◌then◌else◌, Option, some, arith, List, [], ◌∷◌,
  ◌++◌, All, leb, All-append, ◌⊎◌,
}
use chiu.Common.Result.{Result, ok, err}
use chiu.Common.Time.{u64_max}
use chiu.Network.{
  NetworkActivityAvailability, available, unavailable, NetworkActivityEvent, provider_unavailable,
  is_trusted_interval, untrusted_interval, arithmetic_overflow, max_trusted_interval,
}
use chiu.Network.Normalizer.{
  ActivityNormalizer, NormalizedObservation, InterfaceCounter, baseline, sample, continuity_lost,
  observe, observe_reading, reading,
}
use chiu.Network.Normalizer.Deltas.{observe_reading-total, total_received}
use chiu.Network.Sampling.{
  SamplingCore, process, time_since, availability_events, observation_events, is_unavailable,
}

-- What an event promises: a sample covers a trusted interval, with bytes that fit u64.
abbrev pub IsSound : NetworkActivityEvent → Type 0
IsSound (NetworkActivityEvent.sample s) =
    (0 < s.observed_over) × (s.observed_over ≤ max_trusted_interval) × (s.received_bytes ≤ u64_max)
IsSound (NetworkActivityEvent.continuity_lost _) = Unit
IsSound (NetworkActivityEvent.availability_changed _) = Unit

unfoldable pub observation : List InterfaceCounter → ℕ → ActivityNormalizer → NormalizedObservation
observation counters d n =
    let total = total_received n.previous (reading counters) in
    if not n.initialized
    then baseline
    else if not (is_trusted_interval d)
    then continuity_lost untrusted_interval
    else if leb total u64_max
    then sample (record { received_bytes = total; observed_over = d })
    else continuity_lost arithmetic_overflow

pub observe-observation :
    (counters : List InterfaceCounter) (d : ℕ) (n : ActivityNormalizer)
    → (observe counters d n).1 ≡ some (observation counters d n)
unfolding observe observation
observe-observation counters d n = observe_reading-total (reading counters) d n

observation-IsSound :
    (counters : List InterfaceCounter) (d : ℕ) (n : ActivityNormalizer)
    → All IsSound (observation_events (observation counters d n))
unfolding observation is_trusted_interval
observation-IsSound counters d n = ground arith

availability-IsSound :
    (a : Option NetworkActivityAvailability) → All IsSound (availability_events a)
availability-IsSound a = ground arith

unavailable_events : Option NetworkActivityAvailability → List NetworkActivityEvent
unavailable_events a =
    if is_unavailable a
    then []
    else NetworkActivityEvent.continuity_lost provider_unavailable
      ∷ NetworkActivityEvent.availability_changed unavailable
      ∷ []

unavailable_events-IsSound :
    (a : Option NetworkActivityAvailability) → All IsSound (unavailable_events a)
unfolding unavailable_events
unavailable_events-IsSound a = ground arith

module _ {κ} {E : Type κ} where
  -- A reading, good or failed, at any time of the clock, never makes the normalizer panic, and
  -- every sample that is handed on covers a positive time of at most five seconds and fits u64.
  pub process-IsSound :
      (o : Result (List InterfaceCounter) E) (now : ℕ) (c : SamplingCore)
      → (events : List NetworkActivityEvent) × ((process o now c).1 ≡ some events)
        × All IsSound events
  unfolding process unavailable_events
  process-IsSound (err e) now c =
      (unavailable_events c.availability, refl, unavailable_events-IsSound c.availability)
  process-IsSound (ok counters) now c =
      let d = time_since c.last_observed_at now in
      (
        availability_events c.availability
            ++ observation_events (observation counters d c.normalizer),
        ground (arith, observe-observation counters d c.normalizer),
        All-append IsSound (availability_events c.availability)
            (observation_events (observation counters d c.normalizer))
            (availability-IsSound c.availability) (observation-IsSound counters d c.normalizer),
      )

  -- A sample never spans a reading that failed: whatever was observed before, the first good
  -- reading after a failed one announces that the source is available and reports no activity;
  -- and a second failure in a row reports nothing more.
  pub failure_breaks_continuity :
      (e f : E) (counters : List InterfaceCounter) (now later : ℕ) (c : SamplingCore)
      → let c' = (process (err e) now c).0 in
        ((process {E = E} (ok counters) later c').1
          ≡ some (NetworkActivityEvent.availability_changed available ∷ []))
        × ((process (err f) later c').1 ≡ some [])
        × ((process (err f) later c').0 ≡ c')
  unfolding process observe observe_reading
  failure_breaks_continuity e f counters now later c = (ground arith, refl, refl)

pause-untrusted :
    (last now : ℕ)
    → (now ≤ last) ⊎ (last + max_trusted_interval < now)
    → is_trusted_interval (time_since (some last) now) ≡ false
unfolding time_since is_trusted_interval
pause-untrusted last now p = ground arith

-- Where the clock stood still, went back, or moved on by more than five seconds since the last
-- reading, a source that was tracking and available reports the lost continuity and no sample.
pub pause_breaks_continuity {κ} :
    (E : Type κ) (counters : List InterfaceCounter) (last now : ℕ) (c : SamplingCore)
    → c.normalizer.initialized ≡ true
    → c.last_observed_at ≡ some last
    → c.availability ≡ some available
    → (now ≤ last) ⊎ (last + max_trusted_interval < now)
    → (process {E = E} (ok counters) now c).1
      ≡ some (NetworkActivityEvent.continuity_lost untrusted_interval ∷ [])
unfolding process observation
pause_breaks_continuity E counters last now c i l a p =
    let untrusted = pause-untrusted last now p in
    rw (l, process)
      (rw (observe-observation counters (time_since (some last) now) c.normalizer)
        (rw (i, untrusted, a)))

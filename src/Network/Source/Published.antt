-- ===== src/Network/Source/Published.antt =====
-- The snapshot that the source publishes against what its worker last read.
use chiu.Common.{ℕ, ◌≡◌, refl, if◌then◌else◌, Option, none, some, arith, List, ◌++◌}
use chiu.Common.Result.{Result, ok, err, is_err}
use chiu.Network.{NetworkActivityAvailability, NetworkActivityEvent}
use chiu.Network.Normalizer.{InterfaceCounter, NormalizedObservation}
use chiu.Network.Sampling.{
  SamplingCore, process, time_since, availability_events, observation_events,
}
use chiu.Network.Continuity.{observation, observe-observation}
use chiu.Network.Source.{
  NetworkActivitySourceStatus, provider_read, NetworkActivitySnapshot, SourceShared, sample_once,
  apply_availability, turned,
}

-- The published status and failure are those of the last reading, once there was one.
abbrev pub Published : Option NetworkActivityAvailability → NetworkActivitySnapshot → Type 0
Published none s = Unit
Published (some NetworkActivityAvailability.available) s =
    (s.status ≡ NetworkActivitySourceStatus.available) × (s.latest_failure ≡ none)
Published (some NetworkActivityAvailability.unavailable) s =
    (s.status ≡ NetworkActivitySourceStatus.unavailable) × (s.latest_failure ≡ some provider_read)

status_after :
    (o : NormalizedObservation) (a : Option NetworkActivityAvailability)
    (s : NetworkActivitySnapshot)
    → Published a s
    → Published
        (some NetworkActivityAvailability.available)
        (apply_availability (availability_events a ++ observation_events o) s)
status_after o a s p = ground arith

interfaces_after :
    (o : NormalizedObservation) (a : Option NetworkActivityAvailability)
    (s : NetworkActivitySnapshot)
    → (apply_availability (availability_events a ++ observation_events o) s).interfaces
      ≡ s.interfaces
interfaces_after o a s = ground arith

good_events {κ} :
    (E : Type κ) (counters : List InterfaceCounter) (now : ℕ) (c : SamplingCore)
    → (process {E = E} (ok counters) now c).1
      ≡ some (
          availability_events c.availability
          ++ observation_events
              (observation counters (time_since c.last_observed_at now) c.normalizer))
unfolding process
good_events E counters now c =
    ground (arith, observe-observation counters (time_since c.last_observed_at now) c.normalizer)

module _ {κ} {E : Type κ} where
  turn :
      (o : Result (List InterfaceCounter) E) (now : ℕ) (c : SamplingCore) (s : SourceShared)
      (events : List NetworkActivityEvent)
      → (process o now c).1 ≡ some events
      → let c' = (process o now c).0 in
        sample_once o now c s ≡ some (c', turned (is_err o) c' events s, events)
  unfolding sample_once
  turn o now c s events h = rw (h, sample_once) refl

  -- Each turn of the worker hands on the events of the reading, without a panic; and if the
  -- published status and failure were those of the last reading, they are those of this one, with
  -- the interfaces of the last good reading.
  pub sample_once-Published :
      (o : Result (List InterfaceCounter) E) (now : ℕ) (c : SamplingCore) (s : SourceShared)
      → Published c.availability s.snapshot
      → let c' = (process o now c).0 in
        (events : List NetworkActivityEvent) × (s' : SourceShared) × (sample_once o now c s
          ≡ some (c', s', events))
        × ((process o now c).1 ≡ some events)
        × Published c'.availability s'.snapshot
        × (c'.availability
            ≡ some (
                if is_err o
                then NetworkActivityAvailability.unavailable
                else NetworkActivityAvailability.available))
        × (s'.snapshot.interfaces
            ≡ (if is_err o then s.snapshot.interfaces else c'.normalizer.diagnostics))
  unfolding process
  sample_once-Published (err e) now c s p =
      (_, _, turn (err e) now c s _ refl, refl, ground arith, refl, ground arith)
  sample_once-Published (ok counters) now c s p =
      let o = observation counters (time_since c.last_observed_at now) c.normalizer in
      let h = good_events E counters now c in
      let c' = (process {E = E} (ok counters) now c).0 in
      let seen : NetworkActivitySnapshot = record s.snapshot {
        interfaces = c'.normalizer.diagnostics;
      } in
      let published : Published c.availability seen = ground arith in
      (
        _,
        _,
        turn (ok counters) now c s _ h,
        h,
        status_after o c.availability seen published,
        refl,
        interfaces_after o c.availability seen,
      )

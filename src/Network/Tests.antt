-- ===== src/Network/Tests.antt =====
-- Readings of the interface counters, and the theorems on them at concrete inputs.
use chiu.Common.{
  ℕ, ◌≡◌, inr, refl, Bool, true, false, not, if◌then◌else◌, leb, String, List, [], ◌∷◌, none, some,
  arith,
}
use chiu.Common.{All}
use chiu.Common.Result.{ok, err}
use chiu.Common.Time.{from_secs, u64_max, checked_sub, checked_add_u64}
use chiu.Common.BTreeMap.{get}
use chiu.Network.{
  NetworkActivityEvent, availability_changed, available, untrusted_interval, arithmetic_overflow,
  is_trusted_interval, try_new,
}
use chiu.Network.Keys.{InterfaceId, interface_ord}
use chiu.Network.Normalizer.{
  ActivityNormalizer, InterfaceCounter, Reading, TrackedInterface, baseline, sample,
  continuity_lost, observe_reading, observe_one, each, track, accumulate,
}
use chiu.Network.Normalizer.Deltas.{total_received, observe_reading-total}
use chiu.Network.Normalizer.Ids.{Numbered, Identified, observe_reading-ids}
use chiu.Network.Source.{SourceShared, NetworkActivitySourceStatus}
use chiu.Network.Sampling.{SamplingCore, process}
use chiu.Network.Continuity.{
  IsSound, process-IsSound, failure_breaks_continuity, pause_breaks_continuity,
}

abbrev interface : ℕ → InterfaceId
interface n = record { numeric = n; incarnation = none }

abbrev tracked : ℕ → ℕ → Bool → TrackedInterface
tracked id bytes included = record {
  diagnostic_id = id;
  received_bytes = bytes;
  included_in_activity = included;
}

-- A loopback interface and a network card.
abbrev two_interfaces : ActivityNormalizer
two_interfaces = record {
  initialized = true;
  previous = (interface 3, tracked 1 500 false) ∷ (interface 8, tracked 2 1000 true) ∷ [];
  diagnostics = [];
  next_diagnostic_id = 3;
}

abbrev next_reading : Reading
next_reading =
    (interface 3, (9000, false)) ∷ (interface 8, (1750, true)) ∷ (interface 9, (70, true)) ∷ []

observe_reading-total_example :
    (observe_reading next_reading (from_secs 2) two_interfaces).1
    ≡ some (
        if not true
        then baseline
        else if not (is_trusted_interval (from_secs 2))
        then continuity_lost untrusted_interval
        else if leb (total_received two_interfaces.previous next_reading) u64_max
        then sample (record {
          received_bytes = total_received two_interfaces.previous next_reading;
          observed_over = from_secs 2;
        })
        else continuity_lost arithmetic_overflow)
observe_reading-total_example = observe_reading-total next_reading (from_secs 2) two_interfaces

-- Only the card's 750 bytes count.
seven_hundred_fifty :
    (observe_reading next_reading (from_secs 2) two_interfaces).1
    ≡ some (sample (record { received_bytes = 750; observed_over = from_secs 2 }))
unfolding observe_reading is_trusted_interval try_new each observe_one get track accumulate
    checked_sub checked_add_u64
seven_hundred_fifty = refl

two_interfaces-Numbered : Numbered two_interfaces
unfolding get
two_interfaces-Numbered = record {
  below = λ j p h. ground arith;
  distinct = λ j k p q hj hk e. ground arith;
}

observe_reading-ids_example :
    let n = (observe_reading next_reading (from_secs 9) two_interfaces).0 in
    Identified next_reading two_interfaces n
observe_reading-ids_example =
    observe_reading-ids next_reading (from_secs 9) two_interfaces (omega arith)
      two_interfaces-Numbered

abbrev tracking : SamplingCore
tracking = record {
  normalizer = two_interfaces;
  last_observed_at = some (from_secs 10);
  availability = some available;
}

abbrev counters : List InterfaceCounter
counters = (record { id = interface 8; received_bytes = 4000; loopback = false }) ∷ []

process-IsSound_example :
    (events : List NetworkActivityEvent) × ((process {E = String}
        (ok counters)
        (from_secs 12)
        tracking).1
      ≡ some events)
    × All IsSound events
process-IsSound_example = process-IsSound {E = String} (ok counters) (from_secs 12) tracking

failure_breaks_continuity_example :
    let broken = (process {E = String} (err "first") (from_secs 12) tracking).0 in
    ((process {E = String} (ok counters) (from_secs 14) broken).1
      ≡ some (availability_changed available ∷ []))
    × ((process {E = String} (err "second") (from_secs 14) broken).1 ≡ some [])
    × ((process {E = String} (err "second") (from_secs 14) broken).0 ≡ broken)
failure_breaks_continuity_example =
    failure_breaks_continuity {E = String} "first" "second" counters (from_secs 12) (from_secs 14)
      tracking

pause_breaks_continuity_example :
    (process {E = String} (ok counters) (from_secs 40) tracking).1
    ≡ some (NetworkActivityEvent.continuity_lost untrusted_interval ∷ [])
pause_breaks_continuity_example =
    pause_breaks_continuity String counters (from_secs 10) (from_secs 40) tracking refl refl refl
      (inr (omega arith))

abbrev published : SourceShared
published = record {
  started = true;
  snapshot = record {
    status = NetworkActivitySourceStatus.available;
    latest_failure = none;
    interfaces = [];
  };
  log = [];
}

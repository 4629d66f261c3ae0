-- ===== src/Network/Source.antt =====
-- `NetworkActivitySource` of src-tauri/src/network_activity/mod.rs: the published snapshot and the
-- log, as one turn of the worker changes them.
pub mod Published
use chiu.Common.{
  ℕ, Bool, true, false, not, ◌||◌, ◌&&◌, if◌then◌else◌, Option, none, some, List, [], ◌∷◌, String,
  length, bool_eq, ◌==◌,
}
use chiu.Common.Result.{Result, is_err}
use chiu.Log.{SafeEvent}
use chiu.Network.{
  NetworkActivityAvailability, NetworkActivityEvent, sample, continuity_lost, availability_changed,
}
use chiu.Network.Normalizer.{
  NetworkInterfaceDiagnostic, NetworkInterfaceContinuity, new, continuous, counter_reset, removed,
  InterfaceCounter,
}
use chiu.Network.Sampling.{SamplingCore, process}

pub data NetworkActivitySourceStatus : Type 0 where
  not_started starting available unavailable stopped : NetworkActivitySourceStatus

pub data NetworkActivityFailure : Type 0 where
  provider_read : NetworkActivityFailure

pub record NetworkActivitySnapshot : Type 0 where
  pub status : NetworkActivitySourceStatus
  pub latest_failure : Option NetworkActivityFailure
  pub interfaces : List NetworkInterfaceDiagnostic

pub record SourceShared : Type 0 where
  pub started : Bool
  pub snapshot : NetworkActivitySnapshot
  pub log : List SafeEvent

abbrev continuity_eq : NetworkInterfaceContinuity → NetworkInterfaceContinuity → Bool
continuity_eq new new = true
continuity_eq continuous continuous = true
continuity_eq counter_reset counter_reset = true
continuity_eq removed removed = true
continuity_eq _ _ = false

-- The `any` over the zipped lists, which stops at the shorter one.
abbrev any_differs : List NetworkInterfaceDiagnostic → List NetworkInterfaceDiagnostic → Bool
any_differs [] ds = false
any_differs (p ∷ ps) [] = false
any_differs (p ∷ ps) (c ∷ cs) =
    not (p.id == c.id)
    || not (bool_eq p.included_in_activity c.included_in_activity)
    || not (continuity_eq p.continuity c.continuity)
    || any_differs ps cs

unfoldable pub topology_changed :
    List NetworkInterfaceDiagnostic → List NetworkInterfaceDiagnostic → Bool
topology_changed previous current =
    not (length previous == length current) || any_differs previous current

unfoldable pub source_status_name : NetworkActivitySourceStatus → String
source_status_name not_started = "not-started"
source_status_name starting = "starting"
source_status_name available = "available"
source_status_name unavailable = "unavailable"
source_status_name stopped = "stopped"

abbrev status_eq : NetworkActivitySourceStatus → NetworkActivitySourceStatus → Bool
status_eq not_started not_started = true
status_eq starting starting = true
status_eq available available = true
status_eq unavailable unavailable = true
status_eq stopped stopped = true
status_eq _ _ = false

unfoldable pub set_status :
    NetworkActivitySourceStatus → Option NetworkActivityFailure → SourceShared → SourceShared
set_status status failure s =
    let changed = not (status_eq s.snapshot.status status) in
    let s' : SourceShared = record s {
      snapshot = record s.snapshot { status = status; latest_failure = failure };
    } in
    if changed
    then record s' { log = SafeEvent.network_availability (source_status_name status) ∷ s.log }
    else s'

-- The loop over the events that sets the status.
abbrev pub apply_availability :
    List NetworkActivityEvent → NetworkActivitySnapshot → NetworkActivitySnapshot
apply_availability [] s = s
apply_availability (availability_changed NetworkActivityAvailability.available ∷ es) s =
    apply_availability es (record s { status = available; latest_failure = none })
apply_availability (availability_changed NetworkActivityAvailability.unavailable ∷ es) s =
    apply_availability es (record s { status = unavailable; latest_failure = some provider_read })
apply_availability (sample _ ∷ es) s = apply_availability es s
apply_availability (continuity_lost _ ∷ es) s = apply_availability es s

-- The loop over the events that records them.
abbrev record_events : List NetworkActivityEvent → List SafeEvent → List SafeEvent
record_events [] log = log
record_events (availability_changed NetworkActivityAvailability.available ∷ es) log =
    record_events es (SafeEvent.network_availability "available" ∷ log)
record_events (availability_changed NetworkActivityAvailability.unavailable ∷ es) log =
    record_events es (SafeEvent.network_availability "unavailable" ∷ log)
record_events (continuity_lost _ ∷ es) log =
    record_events es (SafeEvent.network_continuity_reset ∷ log)
record_events (sample _ ∷ es) log = record_events es log

abbrev publish :
    Bool
    → List NetworkInterfaceDiagnostic
    → List NetworkActivityEvent
    → NetworkActivitySnapshot
    → NetworkActivitySnapshot
publish failed diagnostics events s =
    let s' : NetworkActivitySnapshot =
      if failed then s else record s { interfaces = diagnostics } in
    let s'' = apply_availability events s' in
    if failed then record s'' { latest_failure = some provider_read } else s''

abbrev record_topology :
    Bool
    → List NetworkInterfaceDiagnostic
    → NetworkActivitySnapshot
    → List SafeEvent
    → List SafeEvent
record_topology failed diagnostics s log =
    if not failed && topology_changed s.interfaces diagnostics
    then SafeEvent.network_topology_changed (length diagnostics) ∷ log
    else log

-- What a turn publishes and records, with the reading's events.
abbrev pub turned : Bool → SamplingCore → List NetworkActivityEvent → SourceShared → SourceShared
turned is_failed c events s = record s {
  snapshot = publish is_failed c.normalizer.diagnostics events s.snapshot;
  log = record_topology is_failed c.normalizer.diagnostics s.snapshot (record_events events s.log);
}

-- One turn: the events that the consumer is given, in order; `none` is a panic of the normalizer.
unfoldable pub sample_once {κ} :
    {E : Type κ}
    → Result (List InterfaceCounter) E
    → ℕ
    → SamplingCore
    → SourceShared
    → Option (SamplingCore × SourceShared × List NetworkActivityEvent)
sample_once reading now c s =
    let (c', processed) = process reading now c in
    elim processed [
      | none ↦ none
      | some events ↦ some (c', turned (is_err reading) c' events s, events)
    ]

-- ===== src/Network/Normalizer.antt =====
-- `ActivityNormalizer` of src-tauri/src/network_activity/mod.rs: from one reading of the interface
-- counters to the next. A panic of the `expect` in `observe` is `none`.
pub mod Deltas
pub mod Shown
pub mod Ids
use chiu.Common.{
  ℕ, suc, ◌+◌, ◌%◌, Bool, true, false, not, ◌&&◌, if◌then◌else◌, Option, none, some, List, [], ◌∷◌,
  ◌++◌, map,
}
use chiu.Common.Time.{checked_add_u64, checked_sub, u64_modulus}
use chiu.Common.BTreeMap.{get, insert, contains_key, collect}
use chiu.Network.{
  ReceiveActivitySample, ContinuityLossReason, untrusted_interval, arithmetic_overflow,
  is_trusted_interval, try_new,
}
use chiu.Network.Keys.{InterfaceId, interface_ord}
use mathlib.Core.Option

pub record InterfaceCounter : Type 0 where
  pub id : InterfaceId
  pub received_bytes : ℕ
  pub loopback : Bool

pub data NetworkInterfaceContinuity : Type 0 where
  new continuous counter_reset removed : NetworkInterfaceContinuity

pub record NetworkInterfaceDiagnostic : Type 0 where
  pub id : ℕ
  pub last_observed_receive_bytes : ℕ
  pub recent_delta : Option ℕ
  pub included_in_activity : Bool
  pub continuity : NetworkInterfaceContinuity

pub record TrackedInterface : Type 0 where
  pub diagnostic_id : ℕ
  pub received_bytes : ℕ
  pub included_in_activity : Bool

pub data NormalizedObservation : Type 0 where
  baseline : NormalizedObservation
  sample : ReceiveActivitySample → NormalizedObservation
  continuity_lost : ContinuityLossReason → NormalizedObservation

abbrev pub Tracked : Type 0
Tracked = List (InterfaceId × TrackedInterface)

-- A reading: for each interface its counter and whether it counts as activity.
abbrev pub Reading : Type 0
Reading = List (InterfaceId × (ℕ × Bool))

pub record ActivityNormalizer : Type 0 where
  pub initialized : Bool
  pub previous : Tracked
  pub diagnostics : List NetworkInterfaceDiagnostic
  pub next_diagnostic_id : ℕ

unfoldable pub new_normalizer : ActivityNormalizer
new_normalizer = record {
  initialized = false;
  previous = [];
  diagnostics = [];
  next_diagnostic_id = 1;
}

unfoldable pub reset : ActivityNormalizer → ActivityNormalizer
reset n = record n { initialized = false; previous = []; diagnostics = [] }

-- The `map` and `collect` at the head of `observe`.
unfoldable pub reading : List InterfaceCounter → Reading
reading counters =
    collect (map (λ (c : InterfaceCounter). (c.id, (c.received_bytes, not c.loopback))) counters)

-- What the loops carry: the maps and vectors that they build, and the id to give out next.
pub record Pass : Type 0 where
  pub next : Tracked
  pub diagnostics : List NetworkInterfaceDiagnostic
  pub next_diagnostic_id : ℕ
  pub received_bytes : ℕ
  pub overflowed : Bool

abbrev pub start_pass : ActivityNormalizer → Pass
start_pass n = record {
  next = [];
  diagnostics = [];
  next_diagnostic_id = n.next_diagnostic_id;
  received_bytes = 0;
  overflowed = false;
}

-- The diagnostic id of an interface, the tracked one or a new one, and the next id after it, which
-- wraps as u64 does in a release build.
abbrev pub id_for : Option TrackedInterface → ℕ → ℕ × ℕ
id_for (some p) next_id = (p.diagnostic_id, next_id)
id_for none next_id = (next_id, (next_id + 1) % u64_modulus)

abbrev delta_continuity : Option ℕ → NetworkInterfaceContinuity
delta_continuity (some _) = continuous
delta_continuity none = counter_reset

-- The recent delta and the continuity of an interface in `observe`.
abbrev pub compare_to : Option TrackedInterface → ℕ → Option ℕ × NetworkInterfaceContinuity
compare_to none current = (none, new)
compare_to (some p) current =
    let delta = checked_sub current p.received_bytes in (delta, delta_continuity delta)

abbrev add_checked : Pass → Option ℕ → Pass
add_checked s (some aggregate) = record s { received_bytes = aggregate }
add_checked s none = record s { overflowed = true }

-- The guarded addition to the aggregate in `observe`.
unfoldable pub accumulate : Bool → Option ℕ → Pass → Pass
accumulate included none s = s
accumulate included (some delta) s =
    if included && not s.overflowed
    then add_checked s (checked_add_u64 s.received_bytes delta)
    else s

unfoldable pub track :
    InterfaceId → ℕ → Bool → ℕ → Option ℕ → NetworkInterfaceContinuity → Pass → Pass
track id current included diagnostic_id delta continuity s = record s {
  diagnostics =
      s.diagnostics
      ++ (record {
        id = diagnostic_id;
        last_observed_receive_bytes = current;
        recent_delta = delta;
        included_in_activity = included;
        continuity = continuity;
      })
        ∷ [];
  next =
      insert id
        (record {
          diagnostic_id = diagnostic_id;
          received_bytes = current;
          included_in_activity = included;
        })
        s.next;
}

-- The bodies of the loops over the reading, in `observe` and in `rebaseline`.
unfoldable pub observe_one : Tracked → InterfaceId × (ℕ × Bool) → Pass → Pass
unfolding track accumulate
observe_one previous (id, (current, included)) s =
    let p = get id previous in
    let (diagnostic_id, next_id) = id_for p s.next_diagnostic_id in
    let (delta, continuity) = compare_to p current in
    track id current included diagnostic_id delta continuity
      (accumulate included delta (record s { next_diagnostic_id = next_id }))

unfoldable pub rebaseline_one : Tracked → InterfaceId × (ℕ × Bool) → Pass → Pass
unfolding track
rebaseline_one previous (id, (current, included)) s =
    let (diagnostic_id, next_id) = id_for (get id previous) s.next_diagnostic_id in
    track id current included diagnostic_id none new (record s { next_diagnostic_id = next_id })

unfoldable pub each : (InterfaceId × (ℕ × Bool) → Pass → Pass) → Reading → Pass → Pass
each f [] s = s
each f (e ∷ es) s = each f es (f e s)

-- The loop over the interfaces that are gone.
unfoldable pub removed_from : Tracked → Tracked → List NetworkInterfaceDiagnostic
removed_from next [] = []
removed_from next ((id, p) ∷ rest) =
    if contains_key id next
    then removed_from next rest
    else (record {
      id = p.diagnostic_id;
      last_observed_receive_bytes = p.received_bytes;
      recent_delta = none;
      included_in_activity = p.included_in_activity;
      continuity = removed;
    })
      ∷ removed_from next rest

abbrev pub finish_pass : ActivityNormalizer → Pass → ActivityNormalizer
finish_pass n s = record n {
  previous = s.next;
  diagnostics = s.diagnostics ++ removed_from s.next n.previous;
  next_diagnostic_id = s.next_diagnostic_id;
}

unfoldable pub rebaseline : Reading → ActivityNormalizer → ActivityNormalizer
rebaseline current n = finish_pass n (each (rebaseline_one n.previous) current (start_pass n))

abbrev observation_of : Bool → ℕ → ℕ → Option NormalizedObservation
observation_of overflowed received_bytes observed_over =
    if overflowed
    then some (continuity_lost arithmetic_overflow)
    else Option.map sample (try_new received_bytes observed_over)

unfoldable pub observe_reading :
    Reading → ℕ → ActivityNormalizer → ActivityNormalizer × Option NormalizedObservation
observe_reading current observed_over n =
    if not n.initialized
    then (rebaseline current (record n { initialized = true }), some baseline)
    else if not (is_trusted_interval observed_over)
    then (rebaseline current n, some (continuity_lost untrusted_interval))
    else let s = each (observe_one n.previous) current (start_pass n) in
      (finish_pass n s, observation_of s.overflowed s.received_bytes observed_over)

unfoldable pub observe :
    List InterfaceCounter
    → ℕ
    → ActivityNormalizer
    → ActivityNormalizer × Option NormalizedObservation
unfolding observe_reading reading
observe counters observed_over n = observe_reading (reading counters) observed_over n

-- ===== src/Power.antt =====
-- src-tauri/src/power_source/mod.rs: the observer that publishes the power source to the automatic
-- protection controller. The platforms' watchers are not modelled: their reports are the argument
-- of `publish`, and the result of their end is that of `stopped`.
pub mod Policy
mod Tests
use chiu.Common.{ℕ, String, Bool, true, false, ◌&&◌, if◌then◌else◌, is_some, Option, none, some}
use chiu.Common.Result.{Result, ok, err}
use chiu.Log.{SafeEvent}
use chiu.Wake.{SleepInhibitor, log_event}
use chiu.Protection.{
  PowerSource, external, limited, unknown, AutomaticProtectionController, set_power_source,
}

pub data PowerSourceObserverHealth : Type 0 where
  starting observing degraded stopped_health : PowerSourceObserverHealth

pub data PowerSourceOperation : Type 0 where
  registration sample unregistration : PowerSourceOperation

pub record PowerSourceFailure : Type 0 where
  pub operation : PowerSourceOperation
  pub code : Option ℕ

pub record PowerSourceObserverSnapshot : Type 0 where
  pub source : PowerSource
  pub health : PowerSourceObserverHealth
  pub latest_failure : Option PowerSourceFailure

pub record PowerSourceObserver (D : Type 0) : Type 0 where
  pub state : PowerSourceObserverSnapshot
  pub controller : AutomaticProtectionController D

unfoldable pub initial_snapshot : PowerSourceObserverSnapshot
initial_snapshot = record { source = unknown; health = starting; latest_failure = none }

unfoldable pub power_source_name : PowerSource → String
power_source_name external = "external"
power_source_name limited = "limited"
power_source_name unknown = "unknown"

unfoldable pub power_health_name : PowerSourceObserverHealth → String
power_health_name starting = "starting"
power_health_name observing = "observing"
power_health_name degraded = "degraded"
power_health_name stopped_health = "stopped"

abbrev source_eq : PowerSource → PowerSource → Bool
source_eq external external = true
source_eq limited limited = true
source_eq unknown unknown = true
source_eq _ _ = false

abbrev health_eq : PowerSourceObserverHealth → PowerSourceObserverHealth → Bool
health_eq starting starting = true
health_eq observing observing = true
health_eq degraded degraded = true
health_eq stopped_health stopped_health = true
health_eq _ _ = false

abbrev pub observed : Result PowerSource PowerSourceFailure → PowerSourceObserverSnapshot
observed (ok source) = record { source = source; health = observing; latest_failure = none }
observed (err failure) = record {
  source = unknown;
  health = degraded;
  latest_failure = some failure;
}

abbrev pub at_end :
    Option PowerSourceFailure → PowerSourceObserverSnapshot → PowerSourceObserverSnapshot
at_end failure s = record {
  source = unknown;
  health = stopped_health;
  latest_failure = if is_some failure then failure else s.latest_failure;
}

module _ {D E : Type 0} (inhibitor : SleepInhibitor D E) where
  -- What `publish` and `stopped` share: the new state, the controller's call, and the record of a
  -- change of source or health.
  unfoldable pub update_to :
      PowerSourceObserverSnapshot → PowerSourceObserver D → PowerSourceObserver D
  update_to next o =
      let controller' = (set_power_source inhibitor next.source o.controller).0 in
      if source_eq next.source o.state.source && health_eq next.health o.state.health
      then record { state = next; controller = controller' }
      else record {
        state = next;
        controller = record controller' {
          coordinator =
              log_event
                (SafeEvent.power_changed (power_source_name next.source)
                  (power_health_name next.health))
                controller'.coordinator;
        };
      }

  unfoldable pub publish :
      Result PowerSource PowerSourceFailure → PowerSourceObserver D → PowerSourceObserver D
  unfolding update_to
  publish result o = update_to (observed result) o

  unfoldable pub stopped : Option PowerSourceFailure → PowerSourceObserver D → PowerSourceObserver D
  unfolding update_to
  stopped failure o = update_to (at_end failure o.state) o

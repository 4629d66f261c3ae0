-- ===== src/Power/Policy.antt =====
-- What the observer's reports do to the automatic reason.
use chiu.Common.{◌≡◌, refl, false, Option, arith}
use chiu.Common.Result.{err}
use chiu.Common.BTreeSet.{contains}
use chiu.Wake.{automatic_download, reason_ord, SleepInhibitor}
use chiu.Protection.{unknown, desired_automatic_reason, set_power_source}
use chiu.Protection.Laws.{IsAligned, apply_change-IsAligned, apply_change-state}
use chiu.Power.{
  PowerSourceFailure, PowerSourceObserverSnapshot, PowerSourceObserver, update_to, publish, stopped,
  observed, at_end,
}

module _ {D E : Type 0} (i : SleepInhibitor D E) where
  update_to-reason :
      (next : PowerSourceObserverSnapshot) (o : PowerSourceObserver D)
      → IsAligned o.controller
      → next.source ≡ unknown
      → o.controller.state.settings.protect_on_battery ≡ false
      → contains automatic_download (update_to i next o).controller.coordinator.active_reasons
        ≡ false
  unfolding update_to set_power_source desired_automatic_reason
  update_to-reason next o a u b = ground (
    arith,
    apply_change-IsAligned i (λ s. record s { power_source = next.source }) o.controller refl a,
    apply_change-state i (λ s. record s { power_source = next.source }) o.controller,
  )

  -- Where the automatic reason is active exactly if the state desires it, and protection on battery
  -- is not allowed: a power reading that fails, or the end of the observation with or without a
  -- failure, leaves the automatic reason inactive, whatever the inhibitor answers, and the observer
  -- reports an unknown source.
  pub unknown_power_drops :
      (o : PowerSourceObserver D) (f : PowerSourceFailure) (end : Option PowerSourceFailure)
      → IsAligned o.controller
      → o.controller.state.settings.protect_on_battery ≡ false
      → (contains automatic_download (publish i (err f) o).controller.coordinator.active_reasons
          ≡ false)
        × (contains automatic_download (stopped i end o).controller.coordinator.active_reasons
            ≡ false)
        × ((publish i (err f) o).state.source ≡ unknown)
        × ((stopped i end o).state.source ≡ unknown)
  unfolding publish stopped update_to
  unknown_power_drops o f end a b = (
    update_to-reason (observed (err f)) o a refl b,
    update_to-reason (at_end end o.state) o a refl b,
    ground arith,
    ground arith,
  )

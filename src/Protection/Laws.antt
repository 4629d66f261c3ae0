-- ===== src/Protection/Laws.antt =====
-- The controller against the wake coordinator that it shares with the manual session.
use chiu.Common.{◌≡◌, refl, sym, ◌∙◌, Bool, true, if◌then◌else◌, none, is_some, arith}
use chiu.Common.BTreeSet.{contains, is_empty, IsSorted}
use chiu.Wake.{automatic_download, manual_keep_awake, reason_ord, inactive, active, SleepInhibitor}
use chiu.Wake.Laws.{
  IsHonest, set_reason_active-IsSorted, set_reason_active-contains, set_reason_active-protection,
}
use chiu.Protection.{
  PowerSource, AutomaticProtectionSettings, AutomaticProtectionState, AutomaticProtectionController,
  desired_automatic_reason, reconcile, record_eligibility, set_detector_intent, set_power_source,
  set_settings, apply_change,
}

-- The last command to the coordinator is the desired one, and the reason is as commanded.
pub record IsAligned {D : Type 0} (c : AutomaticProtectionController D) : Type 0 where
  pub commanded : c.state.last_commanded_desired ≡ desired_automatic_reason c.state
  pub reason :
      contains automatic_download c.coordinator.active_reasons ≡ c.state.last_commanded_desired
  pub sorted : IsSorted c.coordinator.active_reasons

module _ {D E : Type 0} (i : SleepInhibitor D E) where
  -- Before a reconciliation the desired reason may have moved away from the last command.
  reconcile-IsAligned :
      (c : AutomaticProtectionController D)
      → contains automatic_download c.coordinator.active_reasons ≡ c.state.last_commanded_desired
      → IsSorted c.coordinator.active_reasons
      → IsAligned (reconcile i c)
  unfolding reconcile desired_automatic_reason
  reconcile-IsAligned c r s =
      let desired = desired_automatic_reason c.state in
      ground (
        arith,
        set_reason_active-contains i automatic_download automatic_download desired c.coordinator s,
        set_reason_active-IsSorted i automatic_download desired c.coordinator s,
      )

  reconcile-manual :
      (c : AutomaticProtectionController D)
      → IsSorted c.coordinator.active_reasons
      → contains manual_keep_awake (reconcile i c).coordinator.active_reasons
        ≡ contains manual_keep_awake c.coordinator.active_reasons
  unfolding reconcile
  reconcile-manual c s = ground (
    arith,
    set_reason_active-contains i automatic_download manual_keep_awake
        (desired_automatic_reason c.state) c.coordinator s,
  )

  module _ (change : AutomaticProtectionState → AutomaticProtectionState)
      (c : AutomaticProtectionController D)
      (kept : (change c.state).last_commanded_desired ≡ c.state.last_commanded_desired) where
    pub apply_change-IsAligned : IsAligned c → IsAligned (apply_change i change c).0
    unfolding apply_change record_eligibility
    apply_change-IsAligned a = ground (
      arith,
      reconcile-IsAligned (record c { state = change c.state }) (a.reason ∙ sym kept) a.sorted,
    )

    pub apply_change-manual :
        IsAligned c
        → contains manual_keep_awake (apply_change i change c).0.coordinator.active_reasons
          ≡ contains manual_keep_awake c.coordinator.active_reasons
    unfolding apply_change record_eligibility
    apply_change-manual a =
        ground (arith, reconcile-manual (record c { state = change c.state }) a.sorted)

  -- Where the automatic reason is active exactly if the state desires it, every change of intent,
  -- power source or settings leaves it so for the new state, with the last command noted, whether
  -- or not the inhibitor call succeeds.
  pub setters-IsAligned :
      (c : AutomaticProtectionController D)
      → IsAligned c
      → (b : Bool) (p : PowerSource) (t : AutomaticProtectionSettings)
      → IsAligned (set_detector_intent i b c).0
        × IsAligned (set_power_source i p c).0
        × IsAligned (set_settings i t c).0
  unfolding set_detector_intent set_power_source set_settings
  setters-IsAligned c a b p t = (
    apply_change-IsAligned (λ s. record s { detector_intent = b }) c refl a,
    apply_change-IsAligned (λ s. record s { power_source = p }) c refl a,
    apply_change-IsAligned (λ s. record s { settings = t }) c refl a,
  )

  -- With an honest inhibitor: where a failure is recorded, reconciling calls the coordinator again
  -- even if the desired reason has not moved, so that if it leaves no failure recorded, protection
  -- is active exactly if a wake reason is.
  reconcile_retries :
      (honest : IsHonest i) (c : AutomaticProtectionController D)
      → is_some c.state.latest_coordination_failure ≡ true
      → (reconcile i c).state.latest_coordination_failure ≡ none
      → i.state (reconcile i c).coordinator.inhibitor
        ≡ (if is_empty (reconcile i c).coordinator.active_reasons then inactive else active)
  unfolding reconcile
  reconcile_retries honest c f e = ground (
    arith,
    set_reason_active-protection i honest automatic_download (desired_automatic_reason c.state)
        c.coordinator,
  )

  -- A change keeps the fields that it does not name: reconciling only notes the last command and
  -- the failure.
  pub apply_change-state :
      (change : AutomaticProtectionState → AutomaticProtectionState)
      (c : AutomaticProtectionController D)
      → let s = (apply_change i change c).0.state in
        (s.detector_intent ≡ (change c.state).detector_intent)
        × (s.settings ≡ (change c.state).settings)
        × (s.power_source ≡ (change c.state).power_source)
  unfolding apply_change record_eligibility reconcile
  apply_change-state change c = (ground arith, ground arith, ground arith)

-- ===== src/System/Reasons.antt =====
-- The wake reasons of the whole program, from its start and over its end.
use chiu.Common.{◌≡◌, Bool, false, not, ◌&&◌, ◌||◌, arith, List, [], All}
use chiu.Common.BTreeSet.{contains}
use chiu.Wake.{automatic_download, manual_keep_awake, reason_ord, SleepInhibitor}
use chiu.Protection.{AutomaticProtectionSettings, desired_automatic_reason, is_external}
use chiu.Detector.{AutomaticDownloadSettings, is_idle}
use chiu.Manual.Commands.{is_inactive}
use chiu.System.{System, Action, stop_coordinator, start, step, run}
use chiu.System.Coherence.{IsCoherent, IsRunning, run-IsCoherent, start-IsCoherent}
use chiu.System.Causes.{
  IsCaused, IsCoherent-IsCaused, step-IsCaused, run-IsCaused, shutdown-active_reasons,
}

-- The detector is not idle, automatic protection is enabled, and battery use is allowed or the
-- observed power is external.
abbrev pub has_download : {D : Type 0} → System D → Bool
has_download s =
    not (is_idle s.detector.phase)
    && s.protection.settings.automatic_download_protection_enabled
    && (s.protection.settings.protect_on_battery || is_external s.power.source)

abbrev pub has_session : {D : Type 0} → System D → Bool
has_session s = not (is_inactive s.manual.intent)

module _ {D E : Type 0} (i : SleepInhibitor D E) where
  desired-has_download :
      (s : System D)
      → s.protection.detector_intent ≡ not (is_idle s.detector.phase)
      → s.protection.power_source ≡ s.power.source
      → desired_automatic_reason s.protection ≡ has_download s
  unfolding desired_automatic_reason
  desired-has_download s intent source = ground arith

  IsCoherent-has :
      (s : System D)
      → IsCoherent s
      → (contains automatic_download s.coordinator.active_reasons ≡ has_download s)
        × (contains manual_keep_awake s.coordinator.active_reasons ≡ has_session s)
  IsCoherent-has s h =
      (ground (arith, h.automatic, desired-has_download s h.intent h.source), h.manual)

  IsCaused-has :
      (s : System D)
      → IsCaused s
      → (contains automatic_download s.coordinator.active_reasons && not (has_download s) ≡ false)
        × (contains manual_keep_awake s.coordinator.active_reasons && not (has_session s) ≡ false)
  IsCaused-has s h = (
    ground (arith, h.automatic, desired-has_download s h.intent h.source),
    ground (arith, h.manual),
  )

  -- Whatever the inhibitor answers: from the start, over any calls before the coordinator's
  -- shutdown, the automatic reason is active exactly if the detector is not idle, automatic
  -- protection is enabled, and battery use is allowed or the observed power is external; the
  -- manual reason is active exactly if a manual session is. The coordinator's shutdown then leaves
  -- no reason, and after any further calls each reason is active only if its condition above holds.
  pub run-reasons :
      (t : AutomaticDownloadSettings) (p : AutomaticProtectionSettings) (d : D)
      (before after : List Action)
      → All IsRunning before
      → let s = run i before (start i t p d) in
        let ended = step i stop_coordinator s in
        let s' = run i after ended in
        (contains automatic_download s.coordinator.active_reasons ≡ has_download s)
        × (contains manual_keep_awake s.coordinator.active_reasons ≡ has_session s)
        × (ended.coordinator.active_reasons ≡ [])
        × (contains automatic_download s'.coordinator.active_reasons && not (has_download s')
            ≡ false)
        × (contains manual_keep_awake s'.coordinator.active_reasons && not (has_session s') ≡ false)
  unfolding step
  run-reasons t p d before after running =
      let s = run i before (start i t p d) in
      let h = run-IsCoherent i before (start i t p d) running (start-IsCoherent i t p d) in
      let caused = step-IsCaused i stop_coordinator s (IsCoherent-IsCaused s h) in
      let (automatic, manual) = IsCoherent-has s h in
      let (automatic', manual') =
        IsCaused-has _ (run-IsCaused i after (step i stop_coordinator s) caused) in
      (automatic, manual, shutdown-active_reasons i s.coordinator, automatic', manual')

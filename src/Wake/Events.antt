-- ===== src/Wake/Events.antt =====
-- Which events a command to the wake coordinator records.
use chiu.Common.{
  ◌≡◌, Bool, true, false, not, ◌&&◌, if◌then◌else◌, arith, List, [], ◌∷◌, ◌++◌, bool_eq,
}
use chiu.Common.Result.{is_err}
use chiu.Common.BTreeSet.{contains, is_empty, IsSorted, set_eq-insert, set_eq-remove}
use chiu.Log.{SafeEvent, ProtectionAction, EventOutcome}
use chiu.Wake.{
  WakeReason, automatic_download, manual_keep_awake, reason_ord, SleepInhibitor, WakeCoordinator,
  protection_eq, outcome_of, set_reason_active,
}

module _ {D E : Type 0} (i : SleepInhibitor D E) where
  -- The record of changed reasons, due if the reason was not as commanded before the call.
  abbrev reasons_record : WakeReason → Bool → WakeCoordinator D → WakeCoordinator D → List SafeEvent
  reasons_record r b w w' =
      if bool_eq (contains r w.active_reasons) b
      then []
      else SafeEvent.wake_reasons_changed (contains automatic_download w'.active_reasons)
          (contains manual_keep_awake w'.active_reasons)
        ∷ []

  -- The record of native work, due if the protection changed or the call failed.
  abbrev protection_record :
      WakeCoordinator D → WakeCoordinator D → Bool → EventOutcome → List SafeEvent
  protection_record w w' failed outcome =
      if protection_eq (i.state w.inhibitor) (i.state w'.inhibitor) && not failed
      then []
      else SafeEvent.native_protection
          (if is_empty w'.active_reasons
            then ProtectionAction.release
            else ProtectionAction.acquire)
          outcome
        ∷ []

  -- On a sorted set of reasons, a call records a change of reasons exactly if the commanded reason
  -- was not as commanded before, and native work exactly if the protection changed or the call
  -- failed, and nothing else.
  set_reason_active-log :
      (r : WakeReason) (b : Bool) (w : WakeCoordinator D)
      → IsSorted w.active_reasons
      → let (w', result) = set_reason_active i r b w in
        w'.log
        ≡ protection_record w w' (is_err result) (outcome_of result)
          ++ reasons_record r b w w'
          ++ w.log
  unfolding set_reason_active
  set_reason_active-log r true w s = ground (arith, set_eq-insert r w.active_reasons s)
  set_reason_active-log r false w s = ground (arith, set_eq-remove r w.active_reasons s)

-- ===== src/Wake/Calls.antt =====
-- The calls that the coordinator makes of its inhibitor, with the state that it reported before each.
use chiu.Common.BTreeSet.{insert, remove}
use chiu.Common.{Bool, if◌then◌else◌, ◌+◌, ◌≤◌, ◌≡◌, arith, List, [], ◌∷◌, All, length}
use chiu.Log.{ProtectionAction}
use chiu.Wake.{
  WakeReason, reason_ord, ProtectionState, inactive, active, SleepInhibitor, WakeCoordinator, new,
  set_reason_active, shutdown, reconcile,
}
use chiu.Wake.History.{Command, run}

abbrev pub Call : Type 0
Call = ProtectionAction × ProtectionState

-- The inhibitor, and the calls so far, the last one first.
abbrev pub traced : {D E : Type 0} → SleepInhibitor D E → SleepInhibitor (D × List Call) E
traced i = record {
  state = λ s. i.state s.0;
  acquire = λ s.
      let (d, result) = i.acquire s.0 in
      ((d, (ProtectionAction.acquire, i.state s.0) ∷ s.1), result);
  release = λ s.
      let (d, result) = i.release s.0 in
      ((d, (ProtectionAction.release, i.state s.0) ∷ s.1), result);
  to_string = i.to_string;
}

-- An acquisition of what is inactive, or a release of what is active.
abbrev pub IsFit : Call → Type 0
IsFit (ProtectionAction.acquire, state) = state ≡ inactive
IsFit (ProtectionAction.release, state) = state ≡ active

module _ {D E : Type 0} (i : SleepInhibitor D E) where
  -- At most one more call, which is fit.
  abbrev Extends : List Call → List Call → Type 0
  Extends before after = (All IsFit before → All IsFit after) × (length after ≤ length before + 1)

  reconcile-Extends :
      (w : WakeCoordinator (D × List Call))
      → Extends w.inhibitor.1 (reconcile (traced i) w).0.inhibitor.1
  unfolding reconcile
  reconcile-Extends w = (λ h. ground (arith, h), ground arith)

  set_reason_active-Extends :
      (r : WakeReason) (b : Bool) (w : WakeCoordinator (D × List Call))
      → Extends w.inhibitor.1 (set_reason_active (traced i) r b w).0.inhibitor.1
  unfolding set_reason_active
  set_reason_active-Extends r b w =
      let reasons = if b then insert r w.active_reasons else remove r w.active_reasons in
      ground (arith, reconcile-Extends (record w { active_reasons = reasons }))

  shutdown-Extends :
      (w : WakeCoordinator (D × List Call))
      → Extends w.inhibitor.1 (shutdown (traced i) w).0.inhibitor.1
  unfolding shutdown
  shutdown-Extends w = ground (arith, reconcile-Extends (record w { active_reasons = [] }))

  run-Extends :
      (cs : List Command) (w : WakeCoordinator (D × List Call))
      → let after = (run (traced i) w cs).inhibitor.1 in
        (All IsFit w.inhibitor.1 → All IsFit after)
        × (length after ≤ length w.inhibitor.1 + length cs)
  unfolding run
  run-Extends [] w = (λ h. h, omega arith)
  run-Extends ((r, b) ∷ cs) w =
      let (fit, few) = set_reason_active-Extends r b w in
      let (fits, fewer) = run-Extends cs (set_reason_active (traced i) r b w).0 in
      (λ h. fits (fit h), omega (arith, few, fewer))

  -- Whatever the inhibitor answers: over any history of commands to a new coordinator and its
  -- shutdown, the coordinator acquires only where the inhibitor reports that it is inactive, and
  -- releases only where it reports that it is active; and it makes at most one call for each
  -- command and one for the shutdown.
  pub run-calls :
      (d : D) (cs : List Command)
      → let w = run (traced i) (new (traced i) (d, [])) cs in
        let calls = (shutdown (traced i) w).0.inhibitor.1 in
        All IsFit calls × (length calls ≤ length cs + 1)
  unfolding new
  run-calls d cs =
      let (fits, few) = run-Extends cs (new (traced i) (d, [])) in
      let (fit, one) = shutdown-Extends (run (traced i) (new (traced i) (d, [])) cs) in
      (fit (fits tt), omega (arith, few, one))

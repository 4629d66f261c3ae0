-- ===== src/Wake/Tests.antt =====
-- Runs of the wake coordinator, and its theorems at concrete inputs.
use chiu.Common.{
  ℕ, suc, ◌≤◌, ◌==◌, if◌then◌else◌, ◌≡◌, refl, true, false, List, [], ◌∷◌, All, length,
}
use chiu.Common.Result.{ok, err, is_ok}
use chiu.Common.BTreeSet.{contains, is_empty, insert, remove, set_eq}
use chiu.Log.{SafeEvent, ProtectionAction, EventOutcome}
use chiu.Inhibitor.{facade_acquire, facade_release}
use chiu.Common.Int.{pos}
use chiu.Inhibitor.MacOs.{IokitApi}
use chiu.Inhibitor.Laws.{IsLawful, windows-IsLawful}
use chiu.Inhibitor.Windows.{
  WindowsOwnership, windows, win_state, win_acquire, win_release, request, abandon, close_cleared,
}
use chiu.Inhibitor.Requests.{required, is_active, owned}
use chiu.Wake.{
  automatic_download, manual_keep_awake, reason_ord, inactive, new, set_reason_active, shutdown,
  idle_sleep_inhibitor,
}
use chiu.Wake.History.{Command, last_command, run, run-protection}
use chiu.Wake.Calls.{IsFit, traced, run-calls}
use chiu.Wake.Handles.{run-requests}
use chiu.Testing.PowerRequests.{process, process-IsTracking, stubborn}
use chiu.Testing.{scripted, scripted-IsHonest, willing, refusing}

-- Two reasons overlap, and the first one ends.
abbrev overlap : List Command
overlap = (automatic_download, true) ∷ (manual_keep_awake, true) ∷ (automatic_download, false) ∷ []

overlap-run : run scripted (new scripted willing) overlap ≡ record {
  active_reasons = manual_keep_awake ∷ [];
  inhibitor = record { protecting = true; failures = 0 };
  log =
      SafeEvent.wake_reasons_changed false true
      ∷ SafeEvent.wake_reasons_changed true true
      ∷ SafeEvent.native_protection ProtectionAction.acquire EventOutcome.succeeded
      ∷ SafeEvent.wake_reasons_changed true false
      ∷ [];
}
unfolding run new set_reason_active contains is_empty insert remove set_eq
overlap-run = refl

-- A refused acquisition keeps the reason, and the repeated command tries again.
refused_then_acquired :
    is_ok (set_reason_active scripted automatic_download true (new scripted refusing)).1 ≡ false
unfolding new set_reason_active is_empty contains insert remove set_eq
refused_then_acquired = refl

run-protection_example :
    scripted.state
      (set_reason_active scripted manual_keep_awake false
        (run scripted (new scripted refusing) overlap)).0.inhibitor
    ≡ inactive
unfolding last_command run new set_reason_active is_empty contains insert remove set_eq
run-protection_example =
    run-protection scripted scripted-IsHonest refusing overlap manual_keep_awake false refl

run-calls_example :
    let w = run (traced scripted) (new (traced scripted) (refusing, [])) overlap in
    let calls = (shutdown (traced scripted) w).0.inhibitor.1 in All IsFit calls × (length calls ≤ 4)
unfolding run new set_reason_active shutdown is_empty contains insert remove set_eq
run-calls_example = run-calls scripted refusing overlap

run-requests_example :
    let d =
      (run
        (idle_sleep_inhibitor (windows process) (λ _. "failed"))
        (new
          (idle_sleep_inhibitor (windows process) (λ _. "failed"))
          (record { api = stubborn; ownership = WindowsOwnership.inactive }))
        overlap).inhibitor in
    (d.api.requests ≡ owned d.ownership)
    × (required d.api.requests ≡ is_active (win_state process d))
run-requests_example = run-requests process process-IsTracking (λ _. "failed") stubborn overlap refl

-- The refused close leaves a debt, and the next acquisition pays it.
stubborn-run :
    (run
      (idle_sleep_inhibitor (windows process) (λ _. "failed"))
      (new
        (idle_sleep_inhibitor (windows process) (λ _. "failed"))
        (record { api = stubborn; ownership = WindowsOwnership.inactive }))
      overlap).inhibitor.ownership
    ≡ WindowsOwnership.active 8
unfolding run new set_reason_active is_empty contains insert remove set_eq facade_acquire
    facade_release win_acquire win_release win_state request abandon close_cleared
stubborn-run = refl

windows-IsLawful_example : IsLawful (windows process)
windows-IsLawful_example = windows-IsLawful process

-- An IOKit that counts the assertions that it has given out.
abbrev counting : IokitApi ℕ
counting = record {
  create_assertion = λ a _ _ _. (suc a, ok a);
  release_assertion = λ a id. (a, if id == a then err (pos 5) else ok tt);
}

-- ===== src/Wake/Handles.antt =====
-- The coordinator over the Windows inhibitor: what Windows holds after any history of commands.
use chiu.Common.{◌≡◌, Bool, arith, List, [], ◌∷◌, String}
use chiu.Inhibitor.{Fault}
use chiu.Inhibitor.Windows.{PowerApi, WindowsInhibitor, WindowsOwnership, windows, win_state}
use chiu.Inhibitor.Requests.{
  Requests, IsTracking, Tracked, facade-Tracked, Tracked-required, required, owned, is_active,
}
use chiu.Wake.{
  WakeReason, WakeCoordinator, SleepInhibitor, idle_sleep_inhibitor, new, set_reason_active,
}
use chiu.Wake.History.{Command, run}

module _ {A : Type 0} (p : PowerApi A) {requests : A → Requests} (t : IsTracking p requests)
    (to_string : Fault → String) where
  abbrev inhibitor : SleepInhibitor (WindowsInhibitor A) Fault
  inhibitor = idle_sleep_inhibitor (windows p) to_string

  set_reason_active-Tracked :
      (r : WakeReason) (b : Bool) (w : WakeCoordinator (WindowsInhibitor A))
      → Tracked p t w.inhibitor
      → Tracked p t (set_reason_active inhibitor r b w).0.inhibitor
  unfolding set_reason_active
  set_reason_active-Tracked r b w e = ground (arith, facade-Tracked p t w.inhibitor e)

  run-Tracked :
      (w : WakeCoordinator (WindowsInhibitor A)) (cs : List Command)
      → Tracked p t w.inhibitor
      → Tracked p t (run inhibitor w cs).inhibitor
  unfolding run
  run-Tracked w [] e = e
  run-Tracked w ((r, b) ∷ cs) e =
      run-Tracked (set_reason_active inhibitor r b w).0 cs (set_reason_active-Tracked r b w e)

  -- Started with no open request, and over the calls as Windows documents them: after any history
  -- of commands, failed calls included, the open power requests are the one that the inhibitor
  -- owns or none, and the system is required by one exactly if the inhibitor reports Active.
  pub run-requests :
      (a : A) (cs : List Command)
      → requests a ≡ []
      → let d =
          (run inhibitor
            (new inhibitor (record { api = a; ownership = WindowsOwnership.inactive }))
            cs).inhibitor in
        (requests d.api ≡ owned d.ownership)
        × (required (requests d.api) ≡ is_active (win_state p d))
  unfolding new
  run-requests a cs e =
      let start = new inhibitor (record { api = a; ownership = WindowsOwnership.inactive }) in
      let held = run-Tracked start cs e in
      (held, Tracked-required p t (run inhibitor start cs).inhibitor held)

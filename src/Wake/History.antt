-- ===== src/Wake/History.antt =====
-- Histories of commands to the wake coordinator, against the view that keeps only the last command
-- for each reason.
use chiu.Common.{◌≡◌, refl, Bool, true, false, not, ◌||◌, if◌then◌else◌, arith, List, [], ◌∷◌, ◌++◌}
use chiu.Common.Result.{is_ok}
use chiu.Common.BTreeSet.{contains, is_empty, IsSorted}
use chiu.Wake.{
  WakeReason, automatic_download, manual_keep_awake, reason_ord, inactive, active, SleepInhibitor,
  WakeCoordinator, new, set_reason_active,
}
use chiu.Wake.Laws.{
  IsHonest, same_reason, set_reason_active-IsSorted, set_reason_active-contains,
  set_reason_active-protection,
}

abbrev pub Command : Type 0
Command = WakeReason × Bool

-- The last command for a reason, or what it was before.
unfoldable pub last_command : WakeReason → Bool → List Command → Bool
last_command q before [] = before
last_command q before ((r, b) ∷ cs) = last_command q (if same_reason q r then b else before) cs

pub is_empty-reasons :
    (rs : List WakeReason)
    → is_empty rs ≡ not (contains automatic_download rs || contains manual_keep_awake rs)
unfolding is_empty contains
is_empty-reasons [] = refl
is_empty-reasons (r ∷ rs) = ground arith

module _ {D E : Type 0} (i : SleepInhibitor D E) where
  unfoldable pub run : WakeCoordinator D → List Command → WakeCoordinator D
  run w [] = w
  run w ((r, b) ∷ cs) = run (set_reason_active i r b w).0 cs

  pub run-IsSorted :
      (w : WakeCoordinator D) (cs : List Command)
      → IsSorted w.active_reasons
      → IsSorted (run w cs).active_reasons
  unfolding run
  run-IsSorted w [] s = s
  run-IsSorted w ((r, b) ∷ cs) s =
      run-IsSorted (set_reason_active i r b w).0 cs (set_reason_active-IsSorted i r b w s)

  run-contains :
      (q : WakeReason) (w : WakeCoordinator D) (cs : List Command)
      → IsSorted w.active_reasons
      → contains q (run w cs).active_reasons ≡ last_command q (contains q w.active_reasons) cs
  unfolding run last_command
  run-contains q w [] s = refl
  run-contains q w ((r, b) ∷ cs) s =
      rw (← set_reason_active-contains i r q b w s)
        (run-contains q (set_reason_active i r b w).0 cs (set_reason_active-IsSorted i r b w s))

  -- Whatever the inhibitor does, also where it fails: after any history of commands to a new
  -- coordinator, a reason is active exactly if the last command for it asked for that.
  run-last_command :
      (d : D) (cs : List Command) (q : WakeReason)
      → contains q (run (new i d) cs).active_reasons ≡ last_command q false cs
  unfolding new contains
  run-last_command d cs q = run-contains q (new i d) cs tt

  run-append :
      (w : WakeCoordinator D) (cs : List Command) (r : WakeReason) (b : Bool)
      → run w (cs ++ (r, b) ∷ []) ≡ (set_reason_active i r b (run w cs)).0
  unfolding run
  run-append w [] r b = refl
  run-append w ((q, c) ∷ cs) r b = run-append (set_reason_active i q c w).0 cs r b

  contains-last :
      (d : D) (cs : List Command) (r : WakeReason) (b : Bool) (q : WakeReason)
      → contains q (set_reason_active i r b (run (new i d) cs)).0.active_reasons
        ≡ last_command q false (cs ++ (r, b) ∷ [])
  contains-last d cs r b q =
      rw (← run-append (new i d) cs r b) (run-last_command d (cs ++ (r, b) ∷ []) q)

  -- With an honest inhibitor: if the command that ends a history succeeds, then protection is
  -- active if a reason is active by the last command for it, and inactive if none is.
  pub run-protection :
      (honest : IsHonest i) (d : D) (cs : List Command) (r : WakeReason) (b : Bool)
      → is_ok (set_reason_active i r b (run (new i d) cs)).1 ≡ true
      → let history = cs ++ (r, b) ∷ [] in
        i.state (set_reason_active i r b (run (new i d) cs)).0.inhibitor ≡ (
          if last_command automatic_download false history
            || last_command manual_keep_awake false history
          then active
          else inactive)
  run-protection honest d cs r b h =
      let w' = (set_reason_active i r b (run (new i d) cs)).0 in
      ground (
        arith,
        set_reason_active-protection i honest r b (run (new i d) cs) h,
        is_empty-reasons w'.active_reasons,
        contains-last d cs r b automatic_download,
        contains-last d cs r b manual_keep_awake,
      )

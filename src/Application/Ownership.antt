-- ===== src/Application/Ownership.antt =====
-- Who holds what over the lifecycle, and how often it runs.
use chiu.Common.{
  String, false, if◌then◌else◌, ◌≡◌, refl, ◌∙◌, arith, List, [], ◌∷◌, All, Bool-cases, inl, inr,
}
use chiu.Common.Result.{Result, ok, err, is_ok, Result-cases}
use chiu.Application.{
  invalid, invalid, OperationFailure, OwnedResource, Participant, Resources, ApplicationLifecycle,
  cleanup_owned, roll_back, start_participants, start, request_shutdown, shutdown, is_starting,
  is_stopped, Started, build,
}

module _ {W : Type 0} (held : W → List String) where
  -- A resource gives back its capability, the last one taken, also where its stop reports an error.
  abbrev pub Releases : String × OwnedResource W → Type 0
  Releases (c, r) = (w : W) (rest : List String) → held w ≡ c ∷ rest → held (r.stop w).0 ≡ rest

  -- What the source asks of participants: a start that fails has released what it acquired, and
  -- one that succeeds hands over what it holds.
  pub record IsOwning {S : Type 0} (p : Participant W S) : Type 0 where
    pub taken :
        (s : S) (w : W) (r : OwnedResource W)
        → (p.start s w).1 ≡ ok r
        → (held (p.start s w).0 ≡ p.capability ∷ held w) × Releases (p.capability, r)
    pub not_taken : (s : S) (w : W) → is_ok (p.start s w).1 ≡ false → held (p.start s w).0 ≡ held w

  abbrev pub capabilities : Resources W → List String
  capabilities [] = []
  capabilities ((c, _) ∷ rest) = c ∷ capabilities rest

  abbrev pub Owned : Resources W → W → Type 0
  Owned rs w = (held w ≡ capabilities rs) × All Releases rs

  cleanup_owned-held : (rs : Resources W) (w : W) → Owned rs w → held (cleanup_owned rs w).0 ≡ []
  unfolding cleanup_owned
  cleanup_owned-held [] w o = o.0
  cleanup_owned-held ((c, r) ∷ rest) w o =
      cleanup_owned-held rest (r.stop w).0 (o.1.0 w (capabilities rest) o.0, o.1.1)

  module _ {S : Type 0} where
    roll_back-Owned :
        (c message : String) (l : ApplicationLifecycle W S) (w : W)
        → Owned l.resources w
        → let (w', l', _) = roll_back c message l w in (held w' ≡ []) × (l'.resources ≡ [])
    unfolding roll_back
    roll_back-Owned c message l w o = (cleanup_owned-held l.resources w o, refl)

    -- What a start leaves: the resources are what is held, and after an error nothing is.
    record Settled (t : Started W S) : Type 0 where
      owned : Owned t.1.resources t.0
      released : is_ok t.2 ≡ false → t.1.resources ≡ []
      running : is_stopped t.1.state.status ≡ false

    not_taken-Owned :
        (s : S) (p : Participant W S) (rs : Resources W) (w : W)
        → IsOwning p
        → is_ok (p.start s w).1 ≡ false
        → Owned rs w
        → Owned rs (p.start s w).0
    not_taken-Owned s p rs w q h o = (q.not_taken s w h ∙ o.0, o.1)

    start_participants-Settled :
        (s : S) (ps : List (Participant W S)) (fs : List OperationFailure)
        (l : ApplicationLifecycle W S) (w : W)
        → All IsOwning ps
        → Owned l.resources w
        → Settled (start_participants s ps fs l w)
    unfolding start_participants roll_back
    start_participants-Settled s [] [] l w a o = record {
      owned = o;
      released = λ h. ground arith;
      running = refl;
    }
    start_participants-Settled s [] (f ∷ fs) l w a o = record {
      owned = o;
      released = λ h. ground arith;
      running = refl;
    }
    start_participants-Settled s (p ∷ ps) fs l w a o = elim (Result-cases (p.start s w).1) [
      | inl (r, good) ↦
          let (taken, releases) = a.0.taken s w r good in
          rw (good, start_participants) (start_participants-Settled s ps fs _ _ a.1 (ground arith))
      | inr (m, bad) ↦
          let o' = not_taken-Owned s p l.resources w a.0 (ground arith) o in
          elim (Bool-cases p.required) [
            | inl needed ↦
                let (released, empty) = roll_back-Owned p.capability m l (p.start s w).0 o' in
                rw (bad, needed, start_participants)
                  (record { owned = (released, tt); released = λ h. empty; running = refl })
            | inr optional ↦
                rw (bad, optional, start_participants)
                  (start_participants-Settled s ps _ _ _ a.1 o')
          ]
    ]

    start-Settled :
        (restore : W → W × Result S String) (ps : List (Participant W S)) (w : W)
        → All IsOwning ps
        → held (restore w).0 ≡ []
        → Settled (start (build restore ps) w)
    unfolding start build start_participants
    start-Settled restore ps w a h = elim (Result-cases (restore w).1) [
      | inl (s, good) ↦
          rw (good, start) (start_participants-Settled s ps [] _ (restore w).0 a (h, tt))
      | inr (m, bad) ↦
          rw (bad, start) (record { owned = (h, tt); released = λ e. refl; running = refl })
    ]

    shutdown-held :
        (l : ApplicationLifecycle W S) (w : W)
        → is_stopped l.state.status ≡ false
        → Owned l.resources w
        → held (shutdown l w).0 ≡ []
    unfolding shutdown request_shutdown
    shutdown-held l w n o = ground (arith, cleanup_owned-held l.resources w o)

    -- Where restoring the settings holds nothing, each participant whose start fails has released
    -- what it acquired, and each resource that is stopped last-in-first-out gives back its
    -- capability: a new lifecycle whose start succeeds holds exactly the resources that it owns,
    -- and one whose start fails holds nothing; and whatever the start returned, a shutdown after
    -- it leaves nothing held, whether or not the resources report errors as they stop.
    pub lifecycle_releases :
        (restore : W → W × Result S String) (ps : List (Participant W S)) (w : W)
        → All IsOwning ps
        → held (restore w).0 ≡ []
        → let (w', l, result) = start (build restore ps) w in
          (held w' ≡ (if is_ok result then capabilities l.resources else []))
          × (held (shutdown l w').0 ≡ [])
    lifecycle_releases restore ps w a h =
        let (w', l, result) = start (build restore ps) w in
        let settled = start-Settled restore ps w a h in
        (ground (arith, settled), shutdown-held l w' settled.running settled.owned)

module _ {W S : Type 0} where
  roll_back-status :
      (c message : String) (l : ApplicationLifecycle W S) (w : W)
      → is_starting (roll_back c message l w).1.state.status ≡ false
  unfolding roll_back
  roll_back-status c message l w = refl

  start_participants-status :
      (s : S) (ps : List (Participant W S)) (fs : List OperationFailure)
      (l : ApplicationLifecycle W S) (w : W)
      → is_starting (start_participants s ps fs l w).1.state.status ≡ false
  unfolding start_participants
  start_participants-status s [] [] l w = refl
  start_participants-status s [] (f ∷ fs) l w = refl
  start_participants-status s (p ∷ ps) fs l w = elim (Result-cases (p.start s w).1) [
    | inl (r, good) ↦ rw (good, start_participants) (start_participants-status s ps fs _ _)
    | inr (m, bad) ↦ elim (Bool-cases p.required) [
      | inl needed ↦
          rw (bad, needed, start_participants) (roll_back-status p.capability m l (p.start s w).0)
      | inr optional ↦ rw (bad, optional, start_participants) (start_participants-status s ps _ _ _)
    ]
  ]

  start-not_starting :
      (restore : W → W × Result S String) (ps : List (Participant W S)) (w : W)
      → is_starting (start (build restore ps) w).1.state.status ≡ false
  unfolding start build start_participants
  start-not_starting restore ps w = elim (Result-cases (restore w).1) [
    | inl (s, good) ↦ rw (good, start) (start_participants-status s ps [] _ _)
    | inr (m, bad) ↦ rw (bad, start) refl
  ]

  start_refused :
      (l : ApplicationLifecycle W S) (w : W)
      → is_starting l.state.status ≡ false
      → start l w ≡ (w, l, err (invalid l.state.status))
  unfolding start
  start_refused l w h = ground arith

  -- A lifecycle runs once: whatever its start returned, a second start is refused and changes
  -- neither the lifecycle nor the world; and a second shutdown changes nothing and reports nothing.
  pub lifecycle_runs_once :
      (restore : W → W × Result S String) (ps : List (Participant W S)) (w : W)
      → let (w', l, _) = start (build restore ps) w in
        let (w'', ended, _) = shutdown l w' in
        (start l w' ≡ (w', l, err (invalid l.state.status)))
        × (shutdown ended w'' ≡ (w'', ended, []))
  unfolding shutdown
  lifecycle_runs_once restore ps w =
      let (w', l, _) = start (build restore ps) w in
      (start_refused l w' (start-not_starting restore ps w), ground arith)

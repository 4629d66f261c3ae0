-- ===== src/Application.antt =====
-- src-tauri/src/application.rs: the lifecycle that starts the capabilities in order, rolls back when
-- a required one fails, and stops what was started in the opposite order. The closures of the
-- participants are functions over the type `W` of the world that they act on. The vector
-- `resources`, which only its end pushes and pops, is a list with its end first.
pub mod Ownership
mod Tests
use chiu.Common.{
  String, Bool, true, false, if◌then◌else◌, Option, none, some, List, [], ◌∷◌, ◌++◌, map,
}
use chiu.Common.Result.{Result, ok, err}

pub data StartupFailurePoint : Type 0 where
  settings : StartupFailurePoint
  required_capability : (capability : String) → StartupFailurePoint

pub data ApplicationStatus : Type 0 where
  starting ready degraded failed shutting_down stopped : ApplicationStatus

pub record ApplicationSnapshot : Type 0 where
  pub status : ApplicationStatus
  pub unavailable_capabilities : List String
  pub startup_failure : Option StartupFailurePoint
  pub cleanup_failures : List String

pub record OperationFailure : Type 0 where
  pub capability : String
  pub message : String

pub record StartError : Type 0 where
  pub failure_point : Option StartupFailurePoint
  pub message : String
  pub cleanup_failures : List OperationFailure

pub record OwnedResource (W : Type 0) : Type 0 where
  pub stop : W → W × Result (Unit {0}) String

pub record Participant (W S : Type 0) : Type 0 where
  pub capability : String
  pub required : Bool
  pub start : S → W → W × Result (OwnedResource W) String

abbrev pub Resources : Type 0 → Type 0
Resources W = List (String × OwnedResource W)

pub record ApplicationLifecycle (W S : Type 0) : Type 0 where
  pub restore_settings : Option (W → W × Result S String)
  pub participants : List (Participant W S)
  pub resources : Resources W
  pub state : ApplicationSnapshot

unfoldable pub new_state : ApplicationSnapshot
new_state = record {
  status = starting;
  unavailable_capabilities = [];
  startup_failure = none;
  cleanup_failures = [];
}

-- The text of `StartError::invalid`, with the derived debug names.
abbrev invalid_message : ApplicationStatus → String
invalid_message starting = "cannot start application lifecycle from Starting"
invalid_message ready = "cannot start application lifecycle from Ready"
invalid_message degraded = "cannot start application lifecycle from Degraded"
invalid_message failed = "cannot start application lifecycle from Failed"
invalid_message shutting_down = "cannot start application lifecycle from ShuttingDown"
invalid_message stopped = "cannot start application lifecycle from Stopped"

abbrev pub invalid : ApplicationStatus → StartError
invalid status = record {
  failure_point = none;
  message = invalid_message status;
  cleanup_failures = [];
}

abbrev pub is_starting : ApplicationStatus → Bool
is_starting starting = true
is_starting _ = false

abbrev is_ending : ApplicationStatus → Bool
is_ending shutting_down = true
is_ending stopped = true
is_ending _ = false

abbrev pub is_stopped : ApplicationStatus → Bool
is_stopped stopped = true
is_stopped _ = false

abbrev noting : String → Result (Unit {0}) String → List OperationFailure → List OperationFailure
noting c (ok _) failures = failures
noting c (err e) failures = (record { capability = c; message = e }) ∷ failures

-- What the `start` of a lifecycle leaves and returns.
abbrev pub Started : Type 0 → Type 0 → Type 0
Started W S = W × ApplicationLifecycle W S × Result (List OperationFailure) StartError

module _ {W : Type 0} where
  -- The loop that pops the resources.
  unfoldable pub cleanup_owned : Resources W → W → W × List OperationFailure
  cleanup_owned [] w = (w, [])
  cleanup_owned ((c, r) ∷ rest) w =
      let (w', result) = r.stop w in
      let (w'', failures) = cleanup_owned rest w' in (w'', noting c result failures)

module _ {W S : Type 0} where
  unfoldable pub build :
      (W → W × Result S String) → List (Participant W S) → ApplicationLifecycle W S
  unfolding new_state
  build restore participants = record {
    restore_settings = some restore;
    participants = participants;
    resources = [];
    state = new_state;
  }

  abbrev with_state :
      (ApplicationSnapshot → ApplicationSnapshot)
      → ApplicationLifecycle W S
      → ApplicationLifecycle W S
  with_state change l = record l { state = change l.state }

  abbrev set_status : ApplicationStatus → ApplicationLifecycle W S → ApplicationLifecycle W S
  set_status status = with_state (λ s. record s { status = status })

  abbrev record_unavailable : String → ApplicationLifecycle W S → ApplicationLifecycle W S
  record_unavailable c =
      with_state (λ s. record s { unavailable_capabilities = s.unavailable_capabilities ++ c ∷ [] })

  abbrev mark_startup_failed :
      StartupFailurePoint → ApplicationLifecycle W S → ApplicationLifecycle W S
  mark_startup_failed point =
      with_state (λ s. record s { status = failed; startup_failure = some point })

  abbrev record_cleanup_failures :
      List OperationFailure → ApplicationLifecycle W S → ApplicationLifecycle W S
  record_cleanup_failures failures = with_state (λ s. record s {
    cleanup_failures = s.cleanup_failures ++ map (λ (f : OperationFailure). f.capability) failures;
  })

  -- The branch of `start` for a required participant that failed.
  unfoldable pub roll_back : String → String → ApplicationLifecycle W S → W → Started W S
  unfolding cleanup_owned
  roll_back c message l w =
      let point = required_capability c in
      let (w', failures) = cleanup_owned l.resources w in
      (
        w',
        record_cleanup_failures failures (mark_startup_failed point (record l { resources = [] })),
        err (record { failure_point = some point; message = message; cleanup_failures = failures }),
      )

  -- The loop over the participants, with the optional failures so far, and the status at its end.
  unfoldable pub start_participants :
      S
      → List (Participant W S)
      → List OperationFailure
      → ApplicationLifecycle W S
      → W
      → Started W S
  unfolding roll_back
  start_participants s [] [] l w = (w, set_status ready l, ok [])
  start_participants s [] (f ∷ fs) l w = (w, set_status degraded l, ok (f ∷ fs))
  start_participants s (p ∷ ps) fs l w =
      let (w', started) = p.start s w in
      elim started [
        | ok r ↦
            start_participants s ps fs (record l { resources = (p.capability, r) ∷ l.resources }) w'
        | err message ↦ elim p.required [
          | true ↦ roll_back p.capability message l w'
          | false ↦
              start_participants s ps
                (fs ++ (record { capability = p.capability; message = message }) ∷ [])
                (record_unavailable p.capability l) w'
        ]
      ]

  unfoldable pub start : ApplicationLifecycle W S → W → Started W S
  unfolding start_participants
  start l w = elim (is_starting l.state.status) [
    | false ↦ (w, l, err (invalid l.state.status))
    | true ↦ elim l.restore_settings [
      | none ↦ (w, l, err (invalid l.state.status))
      | some restore ↦
          let taken = record l { restore_settings = none } in
          let (w', restored) = restore w in
          elim restored [
            | ok s ↦ start_participants s l.participants [] (record taken { participants = [] }) w'
            | err message ↦ (
              w',
              mark_startup_failed settings taken,
              err (record {
                failure_point = some settings;
                message = message;
                cleanup_failures = [];
              }),
            )
          ]
    ]
  ]

  unfoldable pub request_shutdown : ApplicationLifecycle W S → ApplicationLifecycle W S × Bool
  request_shutdown l =
      if is_ending l.state.status then (l, false) else (set_status shutting_down l, true)

  unfoldable pub shutdown :
      ApplicationLifecycle W S → W → W × ApplicationLifecycle W S × List OperationFailure
  unfolding request_shutdown cleanup_owned
  shutdown l w = elim (is_stopped l.state.status) [
    | true ↦ (w, l, [])
    | false ↦
        let requested = (request_shutdown l).0 in
        let (w', failures) = cleanup_owned requested.resources w in
        (
          w',
          set_status stopped
              (record_cleanup_failures failures (record requested { resources = [] })),
          failures,
        )
  ]

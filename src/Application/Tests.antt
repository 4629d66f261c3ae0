-- ===== src/Application/Tests.antt =====
-- A lifecycle of three capabilities over a ledger of what is held.
use chiu.Common.{String, Bool, true, false, if◌then◌else◌, ◌≡◌, refl, List, [], ◌∷◌, arith}
use chiu.Common.Result.{Result, ok, err, is_ok}
use chiu.Application.{
  Participant, OwnedResource, build, start, shutdown, start_participants, roll_back, cleanup_owned,
}
use chiu.Application.Ownership.{IsOwning, capabilities, lifecycle_releases}

-- The capabilities that are held, the last one taken first.
abbrev World : Type 0
World = List String

abbrev give_back : World → World
give_back [] = []
give_back (_ ∷ rest) = rest

-- A resource whose stop gives it back, and reports an error if `noisy`.
abbrev resource : Bool → OwnedResource World
resource noisy = record { stop = λ w. (give_back w, if noisy then err "not clean" else ok tt) }

abbrev starts : String → Bool → Bool → Participant World Bool
starts capability required noisy = record {
  capability = capability;
  required = required;
  start = λ s w. (capability ∷ w, ok (resource noisy));
}

abbrev fails : String → Bool → Participant World Bool
fails capability required = record {
  capability = capability;
  required = required;
  start = λ s w. (w, err "unavailable");
}

starts-IsOwning : (c : String) (b noisy : Bool) → IsOwning (λ w. w) (starts c b noisy)
starts-IsOwning c b noisy = record {
  taken = λ s w r h. (refl, λ v rest e. ground arith);
  not_taken = λ s w h. ground arith;
}

fails-IsOwning : (c : String) (b : Bool) → IsOwning (λ w. w) (fails c b)
fails-IsOwning c b = record { taken = λ s w r h. ground arith; not_taken = λ s w h. refl }

abbrev restore : World → World × Result Bool String
restore w = (w, ok true)

abbrev plan : List (Participant World Bool)
plan =
    starts "wake-coordination" true true
    ∷ fails "launch-at-login" false
    ∷ starts "manual-session" true false
    ∷ fails "network-activity" true
    ∷ []

lifecycle_releases_example :
    let (w, l, result) = start (build restore plan) [] in
    (w ≡ (if is_ok result then capabilities (λ v. v) l.resources else [])) × ((shutdown l w).0 ≡ [])
lifecycle_releases_example =
    lifecycle_releases (λ w. w) restore plan []
      (
        starts-IsOwning "wake-coordination" true true,
        (
          fails-IsOwning "launch-at-login" false,
          (
            starts-IsOwning "manual-session" true false,
            (fails-IsOwning "network-activity" true, tt),
          ),
        ),
      )
      refl

-- The noisy resource is stopped too, and its error is kept.
rolled_back : (start (build restore plan) []).1.state.cleanup_failures ≡ "wake-coordination" ∷ []
unfolding start build start_participants roll_back cleanup_owned
rolled_back = refl

-- ===== src/Launch/Laws.antt =====
-- What an answer of the service says of the registration with the operating system.
use chiu.Common.{◌≡◌, inl, inr, refl, ap, ◌∙◌, String, Bool, true, false, none, some, Bool-cases}
use chiu.Common.Result.{Result, ok, err}
use chiu.Settings.{PersistenceCondition}
use chiu.Launch.{
  is_writable, LaunchAtLoginAdapter, LaunchAtLoginService, available, LaunchAtLoginSnapshot,
  LaunchAtLoginFailure, registration, saved, snapshot, verified, apply_and_verify, as_observed,
  reconcile_locked, reconcile, record_success, record_failure,
}

module _ {F A : Type 0} where
  -- An answer agrees with the state: on success the registration was observed to be the wanted one
  -- and no failure is kept, on failure that failure is kept.
  abbrev pub Honest :
      Bool → LaunchAtLoginService F A × Result LaunchAtLoginSnapshot LaunchAtLoginFailure → Type 0
  Honest wanted (s, ok shown) =
      (shown ≡ snapshot s) × (s.observed ≡ registration wanted) × (s.latest_failure ≡ none)
  Honest wanted (s, err failure) = s.latest_failure ≡ some failure

  verified-Honest :
      (wanted : Bool) (applied : Result (Unit {0}) String) (verification : Result Bool String)
      (s : LaunchAtLoginService F A)
      → Honest wanted (verified wanted applied verification s)
  unfolding record_success record_failure
  verified-Honest wanted (err _) verification s = refl
  verified-Honest wanted (ok _) (err _) s = refl
  verified-Honest true (ok _) (ok true) s = (refl, refl, refl)
  verified-Honest true (ok _) (ok false) s = refl
  verified-Honest false (ok _) (ok true) s = refl
  verified-Honest false (ok _) (ok false) s = (refl, refl, refl)

-- What the adapter's functions are documented to do where the operating system lets them.
pub record IsObedient {A : Type 0} (adapter : LaunchAtLoginAdapter A) (registered : A → Bool)
    : Type 0 where
  pub observed : (a : A) → (adapter.observe a).1 ≡ ok (registered a)
  pub observe_keeps : (a : A) → registered (adapter.observe a).0 ≡ registered a
  pub set_ok : (b : Bool) (a : A) → (adapter.set_enabled b a).1 ≡ ok tt
  pub set : (b : Bool) (a : A) → registered (adapter.set_enabled b a).0 ≡ b

module _ {F A : Type 0} (adapter : LaunchAtLoginAdapter A) where
  pub apply_and_verify-Honest :
      (wanted : Bool) (s : LaunchAtLoginService F A)
      → Honest wanted (apply_and_verify adapter wanted s)
  unfolding apply_and_verify
  apply_and_verify-Honest wanted s = verified-Honest wanted _ _ _

  as_observed-Honest :
      (wanted : Bool) (observed : Result Bool String) (s : LaunchAtLoginService F A)
      → Honest wanted (as_observed adapter wanted observed s)
  unfolding record_success
  as_observed-Honest wanted (err _) s = apply_and_verify-Honest wanted s
  as_observed-Honest true (ok true) s = (refl, refl, refl)
  as_observed-Honest true (ok false) s = apply_and_verify-Honest true s
  as_observed-Honest false (ok true) s = apply_and_verify-Honest false s
  as_observed-Honest false (ok false) s = (refl, refl, refl)

  -- Reconciling where the adapter is there: on success the registration was observed to be the saved
  -- choice and no failure is kept, and on failure that failure is kept for the snapshot.
  pub reconcile-Honest :
      (s : LaunchAtLoginService F A)
      → s.backend ≡ available
      → Honest (saved s) (reconcile adapter s)
  unfolding reconcile reconcile_locked record_failure
  reconcile-Honest s h = elim (Bool-cases (is_writable s.settings.state.health.persistence)) [
    | inl writable ↦ rw (h, writable) (as_observed-Honest (saved s) _ _)
    | inr blocked ↦ rw (h, blocked) refl
  ]

  module _ (registered : A → Bool) (obedient : IsObedient adapter registered) where
    verified_same :
        (wanted : Bool) (s : LaunchAtLoginService F A)
        → (shown : LaunchAtLoginSnapshot) × ((verified wanted (ok tt) (ok wanted) s).1 ≡ ok shown)
          × ((verified wanted (ok tt) (ok wanted) s).0.system ≡ s.system)
    unfolding record_success
    verified_same true s = (_, refl, refl)
    verified_same false s = (_, refl, refl)

    apply_and_verify-registered :
        (wanted : Bool) (s : LaunchAtLoginService F A)
        → (shown : LaunchAtLoginSnapshot) × ((apply_and_verify adapter wanted s).1 ≡ ok shown)
          × (registered (apply_and_verify adapter wanted s).0.system ≡ wanted)
    unfolding apply_and_verify
    apply_and_verify-registered wanted s =
        let a1 = (adapter.set_enabled wanted s.system).0 in
        let a2 = (adapter.observe a1).0 in
        let observed = obedient.observed a1 ∙ ap ok (obedient.set wanted s.system) in
        let kept = obedient.observe_keeps a1 ∙ obedient.set wanted s.system in
        let (shown, succeeded, system) = verified_same wanted (record s { system = a2 }) in
        rw (obedient.set_ok wanted s.system, observed)
          (shown, succeeded, ap registered system ∙ kept)

    as_observed-registered :
        (wanted observed : Bool) (s : LaunchAtLoginService F A)
        → registered s.system ≡ observed
        → (shown : LaunchAtLoginSnapshot) × ((as_observed adapter wanted (ok observed) s).1
            ≡ ok shown)
          × (registered (as_observed adapter wanted (ok observed) s).0.system ≡ wanted)
    unfolding record_success
    as_observed-registered true true s h = (_, refl, h)
    as_observed-registered true false s h = apply_and_verify-registered true s
    as_observed-registered false true s h = apply_and_verify-registered false s
    as_observed-registered false false s h = (_, refl, h)

    -- Where the settings can be saved and the adapter obeys, reconciling succeeds and leaves the
    -- operating system with the saved choice, whatever it had and whatever failed before.
    pub reconcile-registered :
        (s : LaunchAtLoginService F A)
        → s.backend ≡ available
        → s.settings.state.health.persistence ≡ PersistenceCondition.writable
        → (shown : LaunchAtLoginSnapshot) × ((reconcile adapter s).1 ≡ ok shown)
          × (registered (reconcile adapter s).0.system ≡ saved s)
    unfolding reconcile reconcile_locked
    reconcile-registered s h w =
        let writable = ap is_writable w in
        rw (h, writable, obedient.observed s.system)
          (as_observed-registered (saved s) (registered s.system) _
            (obedient.observe_keeps s.system))

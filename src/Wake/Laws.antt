-- ===== src/Wake/Laws.antt =====
-- What one call of the wake coordinator does, for any inhibitor that reports its state truly.
use chiu.Common.{◌≡◌, Bool, true, false, if◌then◌else◌, arith, []}
use chiu.Common.Result.{ok, is_ok}
use chiu.Common.BTreeSet.{
  contains, insert, remove, is_empty, IsSorted, insert-IsSorted, remove-IsSorted, contains-insert,
  contains-remove, insert_of_contains, remove_of_not_contains, set_eq_refl, is_eq,
}
use chiu.Wake.{
  WakeReason, reason_ord, inactive, active, WakeSnapshot, SleepInhibitor, WakeCoordinator, snapshot,
  set_reason_active, shutdown,
}
use chiu.Wake.Reasons.{compare_reasons}

-- The inhibitor's reported state follows the results of its calls.
pub record IsHonest {D E : Type 0} (i : SleepInhibitor D E) : Type 0 where
  pub acquired :
      (d : D)
      → i.state d ≡ inactive
      → is_ok (i.acquire d).1 ≡ true
      → i.state (i.acquire d).0 ≡ active
  pub not_acquired :
      (d : D)
      → i.state d ≡ inactive
      → is_ok (i.acquire d).1 ≡ false
      → i.state (i.acquire d).0 ≡ inactive
  pub released :
      (d : D)
      → i.state d ≡ active
      → is_ok (i.release d).1 ≡ true
      → i.state (i.release d).0 ≡ inactive

abbrev pub same_reason : WakeReason → WakeReason → Bool
same_reason a b = is_eq (compare_reasons a b)

module _ {D E : Type 0} (i : SleepInhibitor D E) where
  pub set_reason_active-reasons :
      (r : WakeReason) (b : Bool) (w : WakeCoordinator D)
      → (set_reason_active i r b w).0.active_reasons
        ≡ (if b then insert r w.active_reasons else remove r w.active_reasons)
  unfolding set_reason_active
  set_reason_active-reasons r b w = ground arith

  pub set_reason_active-IsSorted :
      (r : WakeReason) (b : Bool) (w : WakeCoordinator D)
      → IsSorted w.active_reasons
      → IsSorted (set_reason_active i r b w).0.active_reasons
  set_reason_active-IsSorted r true w s =
      rw (set_reason_active-reasons r true w) (insert-IsSorted r w.active_reasons s)
  set_reason_active-IsSorted r false w s =
      rw (set_reason_active-reasons r false w) (remove-IsSorted r w.active_reasons s)

  pub set_reason_active-contains :
      (r q : WakeReason) (b : Bool) (w : WakeCoordinator D)
      → IsSorted w.active_reasons
      → contains q (set_reason_active i r b w).0.active_reasons
        ≡ (if same_reason q r then b else contains q w.active_reasons)
  set_reason_active-contains r q true w s =
      rw (set_reason_active-reasons r true w) (ground (arith, contains-insert r q w.active_reasons))
  set_reason_active-contains r q false w s =
      rw (set_reason_active-reasons r false w)
        (ground (arith, contains-remove r q w.active_reasons s))

  -- The value that `Ok` carries is the snapshot of the state that the call leaves.
  set_reason_active-snapshot :
      (r : WakeReason) (b : Bool) (w : WakeCoordinator D) (s : WakeSnapshot)
      → (set_reason_active i r b w).1 ≡ ok s
      → s ≡ snapshot i (set_reason_active i r b w).0
  unfolding set_reason_active
  set_reason_active-snapshot r b w s h = ground arith

  module _ (honest : IsHonest i) where
    pub set_reason_active-protection :
        (r : WakeReason) (b : Bool) (w : WakeCoordinator D)
        → is_ok (set_reason_active i r b w).1 ≡ true
        → let w' = (set_reason_active i r b w).0 in
          i.state w'.inhibitor ≡ (if is_empty w'.active_reasons then inactive else active)
    unfolding set_reason_active
    set_reason_active-protection r b w h =
        ground (arith, honest.acquired w.inhibitor, honest.released w.inhibitor)

    -- With an honest inhibitor: a failed call leaves no protection where there was none, so that
    -- nothing is claimed that was not acquired.
    set_reason_active-never_claims :
        (r : WakeReason) (b : Bool) (w : WakeCoordinator D)
        → i.state w.inhibitor ≡ inactive
        → is_ok (set_reason_active i r b w).1 ≡ false
        → i.state (set_reason_active i r b w).0.inhibitor ≡ inactive
    unfolding set_reason_active
    set_reason_active-never_claims r b w p h = ground (arith, honest.not_acquired w.inhibitor)

    -- With an honest inhibitor: a shutdown that succeeds leaves no reason and no protection.
    shutdown-protection :
        (w : WakeCoordinator D)
        → is_ok (shutdown i w).1 ≡ true
        → ((shutdown i w).0.active_reasons ≡ []) × (i.state (shutdown i w).0.inhibitor ≡ inactive)
    unfolding shutdown is_empty
    shutdown-protection w h = (ground arith, ground (arith, honest.released w.inhibitor))

  -- A repeated command, on a coordinator whose reasons are sorted and whose protection stands as
  -- they ask, succeeds and changes nothing, not even the log or the inhibitor.
  set_reason_active_again :
      (r : WakeReason) (b : Bool) (w : WakeCoordinator D)
      → IsSorted w.active_reasons
      → contains r w.active_reasons ≡ b
      → i.state w.inhibitor ≡ (if is_empty w.active_reasons then inactive else active)
      → set_reason_active i r b w ≡ (w, ok (snapshot i w))
  unfolding set_reason_active
  set_reason_active_again r true w s c p =
      ground (arith, insert_of_contains r w.active_reasons s c, set_eq_refl w.active_reasons)
  set_reason_active_again r false w s c p =
      ground (arith, remove_of_not_contains r w.active_reasons c, set_eq_refl w.active_reasons)

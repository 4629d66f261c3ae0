-- ===== src/Network/Normalizer/Shown.antt =====
-- What the normalizer publishes of the interfaces that it tracks.
use chiu.Common.{
  ℕ, ◌≡◌, refl, sym, subst, ◌⊎◌, inl, inr, Bool, true, some, arith, List, [], ◌∷◌, ◌++◌, All,
  Bool-cases,
}
use mathlib.Core.List.{Mem, mem-append_left, mem-append_right, mem-cons_self}
use chiu.Common.BTreeSet.{is_eq}
use chiu.Common.BTreeMap.{get, insert, get-insert, contains_key}
use chiu.Network.Keys.{InterfaceId, interface_ord, compare_ids, ids_eq, ids_refl}
use chiu.Network.Normalizer.{
  Tracked, TrackedInterface, NetworkInterfaceDiagnostic, Reading, Pass, observe_one, rebaseline_one,
  each, id_for, compare_to,
}

same-ids : (j id : InterfaceId) → is_eq (compare_ids j id) ≡ true → j ≡ id
same-ids j id h = ids_eq j id (ground arith)

-- What a map holds after an insertion: the new entry, or an old one at another key.
pub get-insert-cases :
    (id j : InterfaceId) (v q : TrackedInterface) (m : Tracked)
    → get j (insert id v m) ≡ some q
    → ((j ≡ id) × (q ≡ v)) ⊎ (get j m ≡ some q)
get-insert-cases id j v q m h = elim (Bool-cases (is_eq (compare_ids j id))) [
  | inl same ↦ inl (same-ids j id same, ground (arith, get-insert id j v m))
  | inr other ↦ inr (ground (arith, get-insert id j v m))
]

-- A diagnostic of a tracked interface.
abbrev pub Shows : NetworkInterfaceDiagnostic → TrackedInterface → Type 0
Shows d q =
    (d.id ≡ q.diagnostic_id)
    × (d.last_observed_receive_bytes ≡ q.received_bytes)
    × (d.included_in_activity ≡ q.included_in_activity)

-- Each tracked interface has a diagnostic.
abbrev pub AllShown : Tracked → List NetworkInterfaceDiagnostic → Type 0
AllShown m ds =
    (j : InterfaceId) (q : TrackedInterface)
    → get j m ≡ some q
    → (d : NetworkInterfaceDiagnostic) × Mem d ds × Shows d q

-- Each interface of a reading is tracked.
abbrev pub AllTracked : Reading → Tracked → Type 0
AllTracked es m = All (λ (e : InterfaceId × (ℕ × Bool)). contains_key e.0 m ≡ true) es

-- A loop body that tracks its interface and publishes what it tracks.
abbrev pub Turns : (InterfaceId × (ℕ × Bool) → Pass → Pass) → Type 0
Turns f =
    (e : InterfaceId × (ℕ × Bool)) (s : Pass)
    → (v : TrackedInterface) × (x : NetworkInterfaceDiagnostic) × ((f e s).next
        ≡ insert e.0 v s.next)
      × ((f e s).diagnostics ≡ s.diagnostics ++ x ∷ [])
      × Shows x v

pub observe_one-Turns : (previous : Tracked) → Turns (observe_one previous)
unfolding observe_one
observe_one-Turns previous (id, (current, included)) s =
    let v : TrackedInterface = record {
      diagnostic_id = (id_for (get id previous) s.next_diagnostic_id).0;
      received_bytes = current;
      included_in_activity = included;
    } in
    let x : NetworkInterfaceDiagnostic = record {
      id = v.diagnostic_id;
      last_observed_receive_bytes = current;
      recent_delta = (compare_to (get id previous) current).0;
      included_in_activity = included;
      continuity = (compare_to (get id previous) current).1;
    } in
    (v, x, ground arith, ground arith, (refl, refl, refl))

pub rebaseline_one-Turns : (previous : Tracked) → Turns (rebaseline_one previous)
unfolding rebaseline_one
rebaseline_one-Turns previous (id, (current, included)) s = (_, _, refl, refl, (refl, refl, refl))

turn-AllShown :
    (id : InterfaceId) (v : TrackedInterface) (x : NetworkInterfaceDiagnostic) (m : Tracked)
    (ds : List NetworkInterfaceDiagnostic)
    → Shows x v
    → AllShown m ds
    → AllShown (insert id v m) (ds ++ x ∷ [])
turn-AllShown id v x m ds shows h j q e = elim (get-insert-cases id j v q m e) [
  | inl (_, same) ↦ (x, mem-append_right ds mem-cons_self, subst (Shows x) (sym same) shows)
  | inr old ↦ let (d, there, shown) = h j q old in (d, mem-append_left (x ∷ []) there, shown)
]

pub append-AllShown :
    (m : Tracked) (ds es : List NetworkInterfaceDiagnostic) → AllShown m ds → AllShown m (ds ++ es)
append-AllShown m ds es h j q e =
    let (d, there, shown) = h j q e in (d, mem-append_left es there, shown)

module _ (f : InterfaceId × (ℕ × Bool) → Pass → Pass) (turns : Turns f) where
  pub each-AllShown :
      (es : Reading) (s : Pass)
      → AllShown s.next s.diagnostics
      → AllShown (each f es s).next (each f es s).diagnostics
  unfolding each
  each-AllShown [] s h = h
  each-AllShown (e ∷ es) s h =
      let (v, x, next, published, shows) = turns e s in
      each-AllShown es (f e s)
        (rw (next, published) (turn-AllShown e.0 v x s.next s.diagnostics shows h))

  kept_key :
      (e : InterfaceId × (ℕ × Bool)) (s : Pass) (j : InterfaceId)
      → contains_key j s.next ≡ true
      → contains_key j (f e s).next ≡ true
  kept_key e s j h =
      let (v, x, next, _, _) = turns e s in rw next (ground (arith, get-insert e.0 j v s.next))

  own_key : (e : InterfaceId × (ℕ × Bool)) (s : Pass) → contains_key e.0 (f e s).next ≡ true
  own_key e s =
      let (v, x, next, _, _) = turns e s in
      rw next (ground (arith, get-insert e.0 e.0 v s.next, ids_refl e.0))

  each-kept :
      (es : Reading) (s : Pass) (j : InterfaceId)
      → contains_key j s.next ≡ true
      → contains_key j (each f es s).next ≡ true
  unfolding each
  each-kept [] s j h = h
  each-kept (e ∷ es) s j h = each-kept es (f e s) j (kept_key e s j h)

  pub each-AllTracked : (es : Reading) (s : Pass) → AllTracked es (each f es s).next
  unfolding each
  each-AllTracked [] s = tt
  each-AllTracked (e ∷ es) s = (each-kept es (f e s) e.0 (own_key e s), each-AllTracked es (f e s))

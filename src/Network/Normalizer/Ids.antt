-- ===== src/Network/Normalizer/Ids.antt =====
-- The diagnostic ids that the normalizer gives to interfaces.
use chiu.Common.{
  ℕ, length, ◌+◌, ◌≤◌, ◌<◌, ◌≡◌, refl, sym, ◌∙◌, Bool, Option, none, some, arith, [], ◌∷◌,
  Bool-cases, Option-cases, inl, inr,
}
use chiu.Common.BTreeMap.{get, insert}
use chiu.Common.Time.{u64_max}
use chiu.Network.{is_trusted_interval}
use chiu.Network.Keys.{InterfaceId, interface_ord}
use chiu.Network.Normalizer.Shown.{
  AllTracked, AllShown, Turns, get-insert-cases, observe_one-Turns, rebaseline_one-Turns,
  each-AllShown, each-AllTracked, append-AllShown,
}
use chiu.Network.Normalizer.{
  finish_pass, removed_from, Tracked, TrackedInterface, Reading, Pass, ActivityNormalizer,
  observe_one, rebaseline_one, each, id_for, observe_reading, rebaseline, start_pass,
}

-- Ids stay below the next one, and different interfaces have different ids.
pub record IsNumbered (m : Tracked) (bound : ℕ) : Type 0 where
  pub below : (j : InterfaceId) (p : TrackedInterface) → get j m ≡ some p → p.diagnostic_id < bound
  pub distinct :
      (j k : InterfaceId) (p q : TrackedInterface)
      → get j m ≡ some p
      → get k m ≡ some q
      → p.diagnostic_id ≡ q.diagnostic_id
      → j ≡ k

abbrev pub Keeps : Option TrackedInterface → ℕ → ℕ → Type 0
Keeps none bound id = bound ≤ id
Keeps (some p) bound id = id ≡ p.diagnostic_id

-- An interface that was tracked keeps its id, and another has one that was not given out before.
abbrev pub Follows : Tracked → ℕ → Tracked → Type 0
Follows previous bound m =
    (j : InterfaceId) (q : TrackedInterface)
    → get j m ≡ some q
    → Keeps (get j previous) bound q.diagnostic_id

-- What holds of the loops over a reading.
record PassInv (previous : Tracked) (bound : ℕ) (s : Pass) : Type 0 where
  numbered : IsNumbered s.next s.next_diagnostic_id
  later : bound ≤ s.next_diagnostic_id
  follows : Follows previous bound s.next

module _ (previous : Tracked) (bound : ℕ) (known : IsNumbered previous bound) where
  -- One turn of a loop, which gives `id` the id that `id_for` finds.
  module _ (s t : Pass) (id : InterfaceId) (v : TrackedInterface)
      (next : t.next ≡ insert id v s.next)
      (given : v.diagnostic_id ≡ (id_for (get id previous) s.next_diagnostic_id).0)
      (allocated : t.next_diagnostic_id ≡ (id_for (get id previous) s.next_diagnostic_id).1)
      (room : s.next_diagnostic_id < u64_max) (inv : PassInv previous bound s) where
    given_below :
        (v.diagnostic_id < t.next_diagnostic_id) × (s.next_diagnostic_id ≤ t.next_diagnostic_id)
    given_below = elim (Option-cases (get id previous)) [
      | inl e ↦ ground (arith, inv.later, room)
      | inr (p, e) ↦ ground (arith, known.below id p e, inv.later)
    ]

    given_new :
        (j : InterfaceId) (q : TrackedInterface)
        → get j s.next ≡ some q
        → q.diagnostic_id ≡ v.diagnostic_id
        → j ≡ id
    given_new j q h e = elim (Option-cases (get id previous)) [
      | inl new ↦ absurd (ground (arith, inv.numbered.below j q h))
      | inr (p, old) ↦ elim (Option-cases (get j previous)) [
        | inl other ↦ absurd (ground (arith, inv.follows j q h, known.below id p old))
        | inr (r, kept) ↦ known.distinct j id r p kept old (ground (arith, inv.follows j q h))
      ]
    ]

    given-Keeps : Keeps (get id previous) bound v.diagnostic_id
    given-Keeps = elim (Option-cases (get id previous)) [
      | inl e ↦ rw e (ground (arith, inv.later))
      | inr (p, e) ↦ rw e (ground arith)
    ]

    turn : PassInv previous bound t
    turn = record {
      numbered = record {
        below = λ j q h. elim (get-insert-cases id j v q s.next (rw next at h)) [
          | inl (_, e) ↦ ground (arith, given_below)
          | inr old ↦ omega (arith, given_below, inv.numbered.below j q old)
        ];
        distinct = λ j k p q hj hk e. elim (get-insert-cases id j v p s.next (rw next at hj)) [
          | inl (here, pv) ↦ elim (get-insert-cases id k v q s.next (rw next at hk)) [
            | inl (there, _) ↦ here ∙ sym there
            | inr old ↦ here ∙ sym (given_new k q old (ground arith))
          ]
          | inr first ↦ elim (get-insert-cases id k v q s.next (rw next at hk)) [
            | inl (there, qv) ↦ given_new j p first (ground arith) ∙ sym there
            | inr old ↦ inv.numbered.distinct j k p q first old e
          ]
        ];
      };
      later = omega (arith, given_below, inv.later);
      follows = λ j q h. elim (get-insert-cases id j v q s.next (rw next at h)) [
        | inl (same, e) ↦ rw (same, e) given-Keeps
        | inr old ↦ inv.follows j q old
      ];
    }

  -- A loop body that gives out ids by `id_for`.
  abbrev Numbers : (InterfaceId × (ℕ × Bool) → Pass → Pass) → Type 0
  Numbers f =
      (e : InterfaceId × (ℕ × Bool)) (s : Pass)
      → s.next_diagnostic_id < u64_max
      → PassInv previous bound s
      → PassInv previous bound (f e s) × ((f e s).next_diagnostic_id ≤ s.next_diagnostic_id + 1)

  id_for_step :
      (p : Option TrackedInterface) (next : ℕ) → next < u64_max → (id_for p next).1 ≤ next + 1
  id_for_step p next room = ground arith

  observe_one-Numbers : Numbers (observe_one previous)
  unfolding observe_one
  observe_one-Numbers (id, (current, included)) s room inv =
      let t = observe_one previous (id, (current, included)) s in
      let allocated : t.next_diagnostic_id ≡ (id_for (get id previous) s.next_diagnostic_id).1 =
        ground arith in
      (
        turn s t id
            (record {
              diagnostic_id = (id_for (get id previous) s.next_diagnostic_id).0;
              received_bytes = current;
              included_in_activity = included;
            })
            (ground arith) refl allocated room inv,
        rw allocated (id_for_step (get id previous) s.next_diagnostic_id room),
      )

  rebaseline_one-Numbers : Numbers (rebaseline_one previous)
  unfolding rebaseline_one
  rebaseline_one-Numbers (id, (current, included)) s room inv = (
    turn s _ id _ refl refl refl room inv,
    id_for_step (get id previous) s.next_diagnostic_id room,
  )

  -- As many ids are left as the loop has turns.
  each-Numbers :
      (f : InterfaceId × (ℕ × Bool) → Pass → Pass)
      → Numbers f
      → (es : Reading) (s : Pass) → s.next_diagnostic_id + length es ≤ u64_max
      → PassInv previous bound s
      → PassInv previous bound (each f es s)
  unfolding each
  each-Numbers f step [] s room inv = inv
  each-Numbers f step (e ∷ es) s room inv =
      let (inv', next) = step e s (omega arith) inv in
      each-Numbers f step es (f e s) (omega arith) inv'

-- What a reading's loop leaves: the ids, the tracked interfaces and what is published of them.
abbrev pub Identified : Reading → ActivityNormalizer → ActivityNormalizer → Type 0
Identified es n n' =
    IsNumbered n'.previous n'.next_diagnostic_id
    × Follows n.previous n.next_diagnostic_id n'.previous
    × AllTracked es n'.previous
    × AllShown n'.previous n'.diagnostics

-- The normalizer's own part of the invariant.
abbrev pub Numbered : ActivityNormalizer → Type 0
Numbered n = IsNumbered n.previous n.next_diagnostic_id

start-PassInv : (n : ActivityNormalizer) → PassInv n.previous n.next_diagnostic_id (start_pass n)
unfolding get
start-PassInv n = record {
  numbered = record { below = λ j p h. ground arith; distinct = λ j k p q h. ground arith };
  later = omega arith;
  follows = λ j q h. ground arith;
}

start-AllShown : (n : ActivityNormalizer) → AllShown (start_pass n).next (start_pass n).diagnostics
unfolding get
start-AllShown n j q h = cc

-- A loop over a reading that gives out ids and publishes what it tracks.
each-Identified :
    (es : Reading) (n : ActivityNormalizer) (f : InterfaceId × (ℕ × Bool) → Pass → Pass)
    → n.next_diagnostic_id + length es ≤ u64_max
    → (known : Numbered n) → Numbers n.previous n.next_diagnostic_id known f
    → Turns f
    → Identified es n (finish_pass n (each f es (start_pass n)))
each-Identified es n f room known numbers turns =
    let s = each f es (start_pass n) in
    let inv =
      each-Numbers n.previous n.next_diagnostic_id known f numbers es (start_pass n) room
        (start-PassInv n) in
    (
      inv.numbered,
      inv.follows,
      each-AllTracked f turns es (start_pass n),
      append-AllShown s.next s.diagnostics (removed_from s.next n.previous)
          (each-AllShown f turns es (start_pass n) (start-AllShown n)),
    )

-- While u64 has an id left for each interface of the reading: whatever the reading reports, each
-- interface in it is tracked afterwards, with the diagnostic id that it had if it was tracked
-- before, and otherwise with one that was not given out before; the ids of different interfaces
-- stay different and below the next one; and for each tracked interface a diagnostic is published
-- with the id, the counter and the choice to count it that are tracked.
pub observe_reading-ids :
    (es : Reading) (d : ℕ) (n : ActivityNormalizer)
    → n.next_diagnostic_id + length es ≤ u64_max
    → Numbered n
    → Identified es n (observe_reading es d n).0
unfolding observe_reading rebaseline
observe_reading-ids es d n room known =
    let p = n.previous in
    let b = n.next_diagnostic_id in
    let observed =
      each-Identified es n (observe_one p) room known (observe_one-Numbers p b known)
        (observe_one-Turns p) in
    let rebased =
      each-Identified es n (rebaseline_one p) room known (rebaseline_one-Numbers p b known)
        (rebaseline_one-Turns p) in
    elim (Bool-cases n.initialized) [
      | inr fresh ↦ rw (fresh, observe_reading) rebased
      | inl old ↦ elim (Bool-cases (is_trusted_interval d)) [
        | inr bad ↦ rw (old, bad, observe_reading) rebased
        | inl good ↦ rw (old, good, observe_reading) observed
      ]
    ]

-- ===== src/Network/Normalizer/Deltas.antt =====
-- What a reading adds up to.
use chiu.Common.{
  ℕ, ◌+◌, ◌-◌, ◌≤◌, ◌≡◌, refl, Bool, true, false, not, ◌&&◌, if◌then◌else◌, leb, none, some, arith,
  [], ◌∷◌, Option-cases, inl, inr,
}
use chiu.Common.Time.{checked_add_u64, checked_sub, u64_max}
use chiu.Common.BTreeMap.{get}
use chiu.Network.{untrusted_interval, arithmetic_overflow, is_trusted_interval, try_new}
use chiu.Network.Keys.{InterfaceId, interface_ord}
use chiu.Network.Normalizer.{
  Tracked, Reading, Pass, ActivityNormalizer, baseline, sample, continuity_lost, observe_one, each,
  observe_reading, start_pass,
}

-- What an interface received since the last reading: nothing if it does not count, is new, or has
-- a counter that went back.
abbrev pub received : Tracked → InterfaceId × (ℕ × Bool) → ℕ
received previous (id, (current, included)) = elim (get id previous) [
  | none ↦ 0
  | some p ↦ if included && leb p.received_bytes current then current - p.received_bytes else 0
]

abbrev pub total_received : Tracked → Reading → ℕ
total_received previous [] = 0
total_received previous (e ∷ es) = received previous e + total_received previous es

step-total :
    (previous : Tracked) (e : InterfaceId × (ℕ × Bool)) (s : Pass)
    → s.overflowed ≡ false
    → s.received_bytes ≤ u64_max
    → let t = observe_one previous e s in
      (t.overflowed ≡ not (leb (s.received_bytes + received previous e) u64_max))
      × (t.overflowed ≡ false → t.received_bytes ≡ s.received_bytes + received previous e)
unfolding observe_one checked_add_u64 checked_sub
step-total previous (id, (current, included)) s o b = elim (Option-cases (get id previous)) [
  | inl e ↦ rw (e, observe_one) (ground arith, λ h. ground arith)
  | inr (p, e) ↦ rw (e, observe_one) (ground arith, λ h. ground arith)
]

step-overflowed :
    (previous : Tracked) (e : InterfaceId × (ℕ × Bool)) (s : Pass)
    → s.overflowed ≡ true
    → (observe_one previous e s).overflowed ≡ true
unfolding observe_one checked_sub
step-overflowed previous (id, (current, included)) s o = ground arith

each-overflowed :
    (previous : Tracked) (es : Reading) (s : Pass)
    → s.overflowed ≡ true
    → (each (observe_one previous) es s).overflowed ≡ true
unfolding each
each-overflowed previous [] s o = o
each-overflowed previous (e ∷ es) s o =
    each-overflowed previous es (observe_one previous e s) (step-overflowed previous e s o)

each-total :
    (previous : Tracked) (es : Reading) (s : Pass)
    → s.overflowed ≡ false
    → s.received_bytes ≤ u64_max
    → let t = each (observe_one previous) es s in
      (t.overflowed ≡ not (leb (s.received_bytes + total_received previous es) u64_max))
      × (t.overflowed ≡ false → t.received_bytes ≡ s.received_bytes + total_received previous es)
unfolding each
each-total previous [] s o b = (ground arith, λ h. ground arith)
each-total previous (e ∷ es) s o b =
    let t = observe_one previous e s in
    let step = step-total previous e s o b in
    (
      ground (arith, step, each-overflowed previous es t, each-total previous es t),
      λ h. ground (arith, step, each-overflowed previous es t, each-total previous es t),
    )

-- A reading never makes the `expect` panic. The first reading is a baseline, and one over an
-- untrusted interval a lost continuity. Any other reports the sum, over the interfaces that count
-- and were tracked with a counter that did not go back, of what each received since; or, exactly
-- if that sum does not fit u64, the overflow. An interface that is new, is gone or has a counter
-- that went back adds nothing to the sum and does not keep the reading from being reported.
pub observe_reading-total :
    (es : Reading) (d : ℕ) (n : ActivityNormalizer)
    → (observe_reading es d n).1
      ≡ some (
          if not n.initialized
          then baseline
          else if not (is_trusted_interval d)
          then continuity_lost untrusted_interval
          else if leb (total_received n.previous es) u64_max
          then sample (record { received_bytes = total_received n.previous es; observed_over = d })
          else continuity_lost arithmetic_overflow)
unfolding observe_reading try_new
observe_reading-total es d n =
    ground (arith, each-total n.previous es (start_pass n) refl (omega arith))

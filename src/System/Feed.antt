-- ===== src/System/Feed.antt =====
-- The network source's worker feeding the program: each reading's events go to the detector, in
-- order, as the end of `sample_once` of src-tauri/src/network_activity/mod.rs hands them on. The calls
-- of other threads come before or after the events of a reading, not between them.
use chiu.Common.{
  ℕ, ◌≡◌, refl, subst, String, true, false, Option, none, some, arith, List, [], ◌∷◌, All,
}
use chiu.Common.Result.{Result, ok, err}
use chiu.Common.BTreeSet.{contains}
use chiu.Wake.{SleepInhibitor, automatic_download, reason_ord}
use chiu.Network.{unavailable, NetworkActivityEvent}
use chiu.Network.Normalizer.{InterfaceCounter}
use chiu.Network.Sampling.{SamplingCore, process, new_sampling}
use chiu.Network.Source.{SourceShared, sample_once}
use chiu.Network.Source.Published.{Published, sample_once-Published}
use chiu.Protection.{desired_automatic_reason, AutomaticProtectionSettings}
use chiu.Detector.{is_idle, consume, apply_settings, shutdown, reset, AutomaticDownloadSettings}
use chiu.Detector
use chiu.System.{
  System, Action, network, tune, stop_detector, power_report, power_end, change_settings,
  manual_command, manual_timer, stop_manual, stop_coordinator, step, start,
}
use chiu.System.Coherence.{start-IsCoherent}
use chiu.System.Causes.{IsCaused, IsCoherent-IsCaused, step-IsCaused}

pub record Fed (D : Type 0) : Type 0 where
  pub sampling : SamplingCore
  pub source : SourceShared
  pub system : System D

-- A turn of the worker with its reading and clock, or a call of another thread.
pub data Turn : Type 0 where
  reading : Result (List InterfaceCounter) String → (now : ℕ) → Turn
  call : Action → Turn

-- Other threads do not hand on network events.
abbrev pub IsOther : Turn → Type 0
IsOther (call (network _)) = ⊥
IsOther _ = Unit

module _ {D E : Type 0} (i : SleepInhibitor D E) where
  unfoldable pub deliver : List NetworkActivityEvent → System D → System D
  deliver [] s = s
  deliver (e ∷ es) s = deliver es (step i (network e) s)

  unfoldable pub turn : Turn → Fed D → Option (Fed D)
  turn (call a) f = some (record f { system = step i a f.system })
  turn (reading o now) f = elim (sample_once o now f.sampling f.source) [
    | none ↦ none
    | some (sampling', source', events) ↦
        some (record { sampling = sampling'; source = source'; system = deliver events f.system })
  ]

  unfoldable pub turns : List Turn → Fed D → Option (Fed D)
  turns [] f = some f
  turns (t ∷ ts) f = elim (turn t f) [ none ↦ none | some f' ↦ turns ts f' ]

  -- While the source is unavailable the detector is idle.
  record IsFed (f : Fed D) : Type 0 where
    caused : IsCaused f.system
    published : Published f.sampling.availability f.source.snapshot
    quiet : f.sampling.availability ≡ some unavailable → is_idle f.system.detector.phase ≡ true

  deliver-IsCaused :
      (es : List NetworkActivityEvent) (s : System D) → IsCaused s → IsCaused (deliver es s)
  unfolding deliver
  deliver-IsCaused [] s h = h
  deliver-IsCaused (e ∷ es) s h =
      deliver-IsCaused es (step i (network e) s) (step-IsCaused i (network e) s h)

  call-idle :
      (a : Action) (s : System D)
      → IsOther (call a)
      → is_idle s.detector.phase ≡ true
      → is_idle (step i a s).detector.phase ≡ true
  unfolding step apply_settings shutdown reset
  call-idle (network e) s o h = absurd o
  call-idle (tune t) s o h = refl
  call-idle stop_detector s o h = refl
  call-idle (power_report r) s o h = h
  call-idle (power_end f) s o h = h
  call-idle (change_settings t) s o h = h
  call-idle (manual_command c now later) s o h = h
  call-idle (manual_timer now) s o h = h
  call-idle stop_manual s o h = h
  call-idle stop_coordinator s o h = h

  -- A failed reading makes the detector idle, unless it was already by the failure before.
  failed-idle :
      (e : String) (now : ℕ) (c : SamplingCore) (s : System D) (events : List NetworkActivityEvent)
      → (c.availability ≡ some unavailable → is_idle s.detector.phase ≡ true)
      → (process (err e) now c).1 ≡ some events
      → is_idle (deliver events s).detector.phase ≡ true
  unfolding process deliver step consume Detector.observe
  failed-idle e now c s events q h = ground arith

  reading-quiet :
      (o : Result (List InterfaceCounter) String) (now : ℕ) (c : SamplingCore) (s : System D)
      (events : List NetworkActivityEvent)
      → (c.availability ≡ some unavailable → is_idle s.detector.phase ≡ true)
      → (process o now c).1 ≡ some events
      → (process o now c).0.availability ≡ some unavailable
      → is_idle (deliver events s).detector.phase ≡ true
  unfolding process
  reading-quiet (ok counters) now c s events q h a = ground arith
  reading-quiet (err e) now c s events q h a = failed-idle e now c s events q h

  -- What a turn leads to: never a panic, and the invariant again.
  abbrev Leads : (Fed D → Option (Fed D)) → Fed D → Type 0
  Leads g f = (f' : Fed D) × (g f ≡ some f') × IsFed f'

  reading-IsFed :
      (o : Result (List InterfaceCounter) String) (now : ℕ) (f : Fed D)
      → IsFed f
      → Leads (turn (reading o now)) f
  unfolding turn
  reading-IsFed o now f h =
      let (events, source', taken, seen, published, availability, _) =
        sample_once-Published o now f.sampling f.source h.published in
      (
        record {
          sampling = (process o now f.sampling).0;
          source = source';
          system = deliver events f.system;
        },
        rw (taken, turn) refl,
        record {
          caused = deliver-IsCaused events f.system h.caused;
          published = published;
          quiet = reading-quiet o now f.sampling f.system events h.quiet seen;
        },
      )

  turn-IsFed : (t : Turn) (f : Fed D) → IsOther t → IsFed f → Leads (turn t) f
  unfolding turn
  turn-IsFed (reading o now) f other h = reading-IsFed o now f h
  turn-IsFed (call a) f other h = (
    _,
    refl,
    record {
      caused = step-IsCaused i a f.system h.caused;
      published = h.published;
      quiet = λ q. call-idle a f.system other (h.quiet q);
    },
  )

  turns-IsFed : (ts : List Turn) (f : Fed D) → All IsOther ts → IsFed f → Leads (turns ts) f
  unfolding turns
  turns-IsFed [] f others h = (f, refl, h)
  turns-IsFed (t ∷ ts) f others h =
      let (f', e, h') = turn-IsFed t f others.0 h in
      let (f'', e', h'') = turns-IsFed ts f' others.1 h' in (f'', rw (e, turns) e', h'')

  failed-availability :
      (e : String) (now : ℕ) (f f' : Fed D)
      → turn (reading (err e) now) f ≡ some f'
      → f'.sampling.availability ≡ some unavailable
  unfolding turn sample_once process
  failed-availability e now f f' h = ground arith

  -- A source that has not read yet, beside a program that has just started.
  abbrev pub fresh :
      AutomaticDownloadSettings → AutomaticProtectionSettings → SourceShared → D → Fed D
  fresh t p shared d = record { sampling = new_sampling; source = shared; system = start i t p d }

  fresh-IsFed :
      (t : AutomaticDownloadSettings) (p : AutomaticProtectionSettings) (shared : SourceShared)
      (d : D)
      → IsFed (fresh t p shared d)
  unfolding new_sampling
  fresh-IsFed t p shared d = record {
    caused = IsCoherent-IsCaused (start i t p d) (start-IsCoherent i t p d);
    published = tt;
    quiet = λ q. ground arith;
  }

  idle-inactive :
      (s : System D)
      → IsCaused s
      → is_idle s.detector.phase ≡ true
      → contains automatic_download s.coordinator.active_reasons ≡ false
  unfolding desired_automatic_reason
  idle-inactive s h q = ground (arith, h)

  -- From the start of the program, over any turns of the source's worker and calls of the other
  -- threads, no reading makes the normalizer panic; and a reading that fails after them leaves the
  -- source published as unavailable, with the failure, and the automatic reason inactive, whatever
  -- the inhibitor answers.
  pub source_failure_releases :
      (t : AutomaticDownloadSettings) (p : AutomaticProtectionSettings) (shared : SourceShared)
      (d : D) (ts : List Turn) (e : String) (now : ℕ)
      → All IsOther ts
      → (f : Fed D) × (f' : Fed D) × (turns ts (fresh t p shared d) ≡ some f)
        × (turn (reading (err e) now) f ≡ some f')
        × Published (some unavailable) f'.source.snapshot
        × (contains automatic_download f'.system.coordinator.active_reasons ≡ false)
  source_failure_releases t p shared d ts e now others =
      let (f, reached, h) = turns-IsFed ts (fresh t p shared d) others (fresh-IsFed t p shared d) in
      let (f', failed, h') = reading-IsFed (err e) now f h in
      let down = failed-availability e now f f' failed in
      (
        f,
        f',
        reached,
        failed,
        subst (λ a. Published a f'.source.snapshot) down h'.published,
        idle-inactive f'.system h'.caused (h'.quiet down),
      )

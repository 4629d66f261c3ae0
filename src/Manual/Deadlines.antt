-- ===== src/Manual/Deadlines.antt =====
-- When a command is accepted, and how added time accumulates.
use chiu.Common.{
  ℕ, ◌+◌, ◌-◌, ◌≤◌, ◌≡◌, refl, ◌⊎◌, ◌↔◌, inl, inr, true, arith, none, some, List, [], ◌∷◌, ap, ◌∙◌,
  Option-cases,
}
use chiu.Common.Result.{is_ok}
use chiu.Common.Time.{max_duration}
use chiu.Wake.{SleepInhibitor}
use chiu.Manual.{
  ManualSessionIntent, inactive, finite, until_disabled, ManualSessionStartPreset,
  ManualSessionAddPreset, ManualSessionCommand, start, add, convert_to_until_disabled, stop,
  ManualSession, next_intent, command, command_inner, start_duration, add_duration, snapshot_from,
}

-- The session has the state that a command needs, and the new deadline is a Duration.
abbrev pub Accepts : ManualSessionCommand → ℕ → ManualSessionIntent → Type 0
Accepts (start p) now intent =
    (intent ≡ inactive)
    × ((start_duration p ≡ none)
        ⊎ ((d : ℕ) × (start_duration p ≡ some d) × (now + d ≤ max_duration)))
Accepts (add p) now intent =
    (deadline : ℕ) × (intent ≡ finite deadline) × (deadline + add_duration p ≤ max_duration)
Accepts convert_to_until_disabled now intent = (deadline : ℕ) × (intent ≡ finite deadline)
Accepts stop now intent = Unit

accepted :
    (E : Type 0) (c : ManualSessionCommand) (now : ℕ) (intent : ManualSessionIntent)
    → is_ok (next_intent {E = E} c now intent) ≡ true
    → Accepts c now intent
unfolding next_intent
accepted E (start p) now inactive h = (
  refl,
  elim (Option-cases (start_duration p)) [ inl e ↦ inl e | inr (d, e) ↦ inr (d, e, ground arith) ],
)
accepted E (start p) now (finite d) h = ground arith
accepted E (start p) now until_disabled h = ground arith
accepted E (add p) now inactive h = ground arith
accepted E (add p) now (finite d) h = (d, refl, ground arith)
accepted E (add p) now until_disabled h = ground arith
accepted E convert_to_until_disabled now (finite d) h = (d, refl)
accepted E convert_to_until_disabled now inactive h = ground arith
accepted E convert_to_until_disabled now until_disabled h = ground arith
accepted E stop now intent h = tt

accepts :
    (E : Type 0) (c : ManualSessionCommand) (now : ℕ) (intent : ManualSessionIntent)
    → Accepts c now intent
    → is_ok (next_intent {E = E} c now intent) ≡ true
unfolding next_intent
accepts E (start p) now intent h = ground arith
accepts E (add p) now intent h = ground arith
accepts E convert_to_until_disabled now intent h = ground arith
accepts E stop now intent h = refl

-- A command is accepted exactly if the session has the state that it needs and its deadline is a
-- Duration.
Accepts-iff :
    (E : Type 0) (c : ManualSessionCommand) (now : ℕ) (intent : ManualSessionIntent)
    → (is_ok (next_intent {E = E} c now intent) ≡ true) ↔ Accepts c now intent
Accepts-iff E c now intent = (accepted E c now intent, accepts E c now intent)

-- Added time, each addition at its own times of the clock.
abbrev pub Additions : Type 0
Additions = List (ManualSessionAddPreset × ℕ × ℕ)

abbrev pub total_added : Additions → ℕ
total_added [] = 0
total_added ((p, _, _) ∷ as') = add_duration p + total_added as'

module _ {D E : Type 0} (i : SleepInhibitor D E) where
  unfoldable pub add_all : Additions → ManualSession D → ManualSession D
  add_all [] m = m
  add_all ((p, now, later) ∷ rest) m = add_all rest (command i (add p) now later m).0

  add_once :
      (p : ManualSessionAddPreset) (now later deadline : ℕ) (m : ManualSession D)
      → m.core.accepting_commands ≡ true
      → m.core.intent ≡ finite deadline
      → deadline + add_duration p ≤ max_duration
      → let m' = (command i (add p) now later m).0 in
        (m'.core.accepting_commands ≡ true) × (m'.core.intent ≡ finite (deadline + add_duration p))
  unfolding command command_inner next_intent
  add_once p now later deadline m a e h = ground arith

  -- Added time extends the deadline of a running session that takes commands by exactly the sum of
  -- the presets, if the new deadline is a Duration, whatever the clock reads at each addition and
  -- whether or not the native calls succeed.
  add_all-deadline :
      (ps : Additions) (deadline : ℕ) (m : ManualSession D)
      → m.core.accepting_commands ≡ true
      → m.core.intent ≡ finite deadline
      → deadline + total_added ps ≤ max_duration
      → (add_all ps m).core.intent ≡ finite (deadline + total_added ps)
  unfolding add_all
  add_all-deadline [] deadline m a e h = ground arith
  add_all-deadline ((p, now, later) ∷ rest) deadline m a e h =
      let (a', e') = add_once p now later deadline m a e (omega arith) in
      add_all-deadline rest (deadline + add_duration p) (command i (add p) now later m).0 a' e'
        (omega arith)
      ∙ ap finite (omega arith)

  start_once :
      (p : ManualSessionStartPreset) (now later d : ℕ) (m : ManualSession D)
      → m.core.accepting_commands ≡ true
      → m.core.intent ≡ inactive
      → start_duration p ≡ some d
      → now + d ≤ max_duration
      → let m' = (command i (start p) now later m).0 in
        (m'.core.accepting_commands ≡ true) × (m'.core.intent ≡ finite (now + d))
  unfolding command command_inner next_intent
  start_once p now later d m a e f h = ground arith

  -- A session started, where none was and commands are taken, for a preset time, with time added
  -- to it, has left what remains of the sum of the presets since the start, and nothing after
  -- that, if that sum is a Duration; whatever the clock reads at the additions, and whether or not
  -- the native calls succeed.
  pub remaining_time :
      (p : ManualSessionStartPreset) (ps : Additions) (now later d at : ℕ) (m : ManualSession D)
      → m.core.accepting_commands ≡ true
      → m.core.intent ≡ inactive
      → start_duration p ≡ some d
      → now + d + total_added ps ≤ max_duration
      → (snapshot_from at (add_all ps (command i (start p) now later m).0).core).state
        ≡ finite (now + d + total_added ps - at)
  unfolding snapshot_from
  remaining_time p ps now later d at m a e f h =
      let (a', e') = start_once p now later d m a e f (omega arith) in
      ground (arith, add_all-deadline ps (now + d) (command i (start p) now later m).0 a' e' h)

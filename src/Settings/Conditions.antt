-- ===== src/Settings/Conditions.antt =====
-- What an update's steps leave, as conditions after each step: on the state and the value where the
-- step goes on, and on the state where it stops.
use chiu.Common.{◌≡◌, refl, Bool, true, false, Option, none, some}
use chiu.Common.Result.{Result, ok, err}
use chiu.Settings.{Settings, SettingsUpdateError, SettingsPersistenceFailure, serialize}
use chiu.Settings.Persisted.{PersistedSettingsV1, to_persisted}
use chiu.Settings.Files.{FileSystem, Serde, AtomicReplace}
use chiu.Settings.Service.{serialized}
use chiu.Settings.Step.{
  SettingsState, Stop, returned, panicked, Step, continue, expect, or_failure, settled, on_files,
  applied, unless_stopped, record_persistence_failure,
}

module _ {F : Type 0} where
  abbrev pub Post :
      {A : Type 0}
      → (A → SettingsState F → Type 0)
      → (Stop → SettingsState F → Type 0)
      → SettingsState F × Result A Stop
      → Type 0
  Post Q E (s, ok a) = Q a s
  Post Q E (s, err e) = E e s

  module _ {A C : Type 0} (Q : C → SettingsState F → Type 0)
      (E : Stop → SettingsState F → Type 0) where
    pub continue-Post :
        (P : A → SettingsState F → Type 0) (r : SettingsState F × Result A Stop)
        (next : A → Step F C)
        → Post P E r
        → ((a : A) (s : SettingsState F) → P a s → Post Q E (next a s))
        → Post Q E (continue r next)
    continue-Post P (s, ok a) next h k = k a s h
    continue-Post P (s, err e) next h k = h

  module _ {C : Type 0} (Q : C → SettingsState F → Type 0)
      (E : Stop → SettingsState F → Type 0) where
    pub unless_stopped-Post :
        (refusal : Option SettingsUpdateError) (s : SettingsState F) (next : Step F C)
        → ((e : SettingsUpdateError) → refusal ≡ some e → E (returned e) s)
        → (refusal ≡ none → Post Q E (next s))
        → Post Q E (continue (unless_stopped refusal s) (λ _. next))
    unless_stopped-Post none s next h k = k refl
    unless_stopped-Post (some e) s next h k = h e refl

    pub applied-Post :
        (r : Result Settings SettingsUpdateError) (s : SettingsState F) (next : Settings → Step F C)
        → ((e : SettingsUpdateError) → r ≡ err e → E (returned e) s)
        → ((settings : Settings) → r ≡ ok settings → Post Q E (next settings s))
        → Post Q E (continue (applied r s) next)
    applied-Post (ok settings) s next h k = k settings refl
    applied-Post (err e) s next h k = h e refl

    settled-Post :
        (failure : SettingsPersistenceFailure) (done : Bool) (s : SettingsState F) (next : Step F C)
        → (done ≡ false
            → E
                (returned (SettingsUpdateError.persistence failure))
                (record s { health = record s.health { last_save_failure = some failure } }))
        → (done ≡ true → Post Q E (next s))
        → Post Q E (continue (settled failure done s) (λ _. next))
    unfolding record_persistence_failure
    settled-Post failure true s next h k = k refl
    settled-Post failure false s next h k = h refl

    pub on_files-Post :
        (failure : SettingsPersistenceFailure) (operation : F → F × Bool) (s : SettingsState F)
        (next : Step F C)
        → ((operation s.files).1 ≡ false
            → E (returned (SettingsUpdateError.persistence failure)) (record s {
              files = (operation s.files).0;
              health = record s.health { last_save_failure = some failure };
            }))
        → ((operation s.files).1 ≡ true
            → Post Q E (next (record s { files = (operation s.files).0 })))
        → Post Q E (continue (on_files failure operation s) (λ _. next))
    on_files-Post failure operation s next h k =
        settled-Post failure (operation s.files).1 (record s { files = (operation s.files).0 }) next
          h k

    module _ {B : Type 0} (fs : FileSystem F B) (serde : Serde B) (replacer : AtomicReplace F) where
      or_failure-Post :
          (bytes : Option B) (s : SettingsState F) (next : B → Step F C)
          → (bytes ≡ none
              → E
                  (returned (SettingsUpdateError.persistence serialize))
                  (record s { health = record s.health { last_save_failure = some serialize } }))
          → ((b : B) → bytes ≡ some b → Post Q E (next b s))
          → Post Q E (continue (or_failure serialize bytes s) next)
      unfolding record_persistence_failure
      or_failure-Post none s next h k = h refl
      or_failure-Post (some b) s next h k = k b refl

      serialized_document-Post :
          (document : Option PersistedSettingsV1) (s : SettingsState F) (next : B → Step F C)
          → (document ≡ none → E panicked s)
          → ((p : PersistedSettingsV1)
              → serde.to_vec_pretty p ≡ none
              → E
                  (returned (SettingsUpdateError.persistence serialize))
                  (record s { health = record s.health { last_save_failure = some serialize } }))
          → ((p : PersistedSettingsV1) (b : B)
              → document ≡ some p
              → serde.to_vec_pretty p ≡ some b
              → Post Q E (next b s))
          → Post Q E (
              continue
                (continue (expect document s) (λ p. or_failure serialize (serde.to_vec_pretty p)))
                next)
      serialized_document-Post none s next h e k = h refl
      serialized_document-Post (some p) s next h e k =
          or_failure-Post (serde.to_vec_pretty p) s next (e p) (λ b w. k p b refl w)

      pub serialized-Post :
          (settings : Settings) (s : SettingsState F) (next : B → Step F C)
          → (to_persisted settings ≡ none → E panicked s)
          → ((p : PersistedSettingsV1)
              → serde.to_vec_pretty p ≡ none
              → E
                  (returned (SettingsUpdateError.persistence serialize))
                  (record s { health = record s.health { last_save_failure = some serialize } }))
          → ((p : PersistedSettingsV1) (b : B)
              → to_persisted settings ≡ some p
              → serde.to_vec_pretty p ≡ some b
              → Post Q E (next b s))
          → Post Q E (continue (serialized fs serde replacer settings s) next)
      unfolding serialized
      serialized-Post settings = serialized_document-Post (to_persisted settings)

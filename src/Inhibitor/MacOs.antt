-- ===== src/Inhibitor/MacOs.antt =====
-- src-tauri/src/sleep_inhibitor/macos.rs: one IOKit assertion, held by its id. The calls of IOKit
-- are the parameter `api`, over the type `A` of what they change.
use chiu.Common.{ℕ, String, Option, none, some}
use chiu.Common.Int.{ℤ}
use chiu.Common.Result.{Result, ok, err}
use chiu.Inhibitor.{
  InhibitorState, NativeOperation, NativeErrorCode, Fault, NativeInhibitor, new_error,
}

abbrev assertion_type : String
assertion_type = "PreventUserIdleSystemSleep"

abbrev assertion_level_on : ℕ
assertion_level_on = 255

abbrev assertion_name : String
assertion_name = "Chiù idle sleep protection"

-- The trait `IokitApi`.
pub record IokitApi (A : Type 0) : Type 0 where
  pub create_assertion : A → String → ℕ → String → A × Result ℕ ℤ
  pub release_assertion : A → ℕ → A × Result (Unit {0}) ℤ

pub record MacOsInhibitor (A : Type 0) : Type 0 where
  pub api : A
  pub assertion_id : Option ℕ

module _ {A : Type 0} (iokit : IokitApi A) where
  unfoldable pub mac_state : MacOsInhibitor A → InhibitorState
  mac_state d = elim d.assertion_id [
    | some _ ↦ InhibitorState.active
    | none ↦ InhibitorState.inactive
  ]

  unfoldable pub mac_acquire : MacOsInhibitor A → MacOsInhibitor A × Result (Unit {0}) Fault
  unfolding new_error
  mac_acquire d =
      let (api', created) =
        iokit.create_assertion d.api assertion_type assertion_level_on assertion_name in
      elim created [
        | ok id ↦ (record { api = api'; assertion_id = some id }, ok tt)
        | err code ↦ (
          record d { api = api' },
          err (
              Fault.error (
                new_error (record {
                  operation = NativeOperation.acquire;
                  code = NativeErrorCode.mac_os code;
                }))),
        )
      ]

  -- Without an id the `expect` panics.
  unfoldable pub mac_release : MacOsInhibitor A → MacOsInhibitor A × Result (Unit {0}) Fault
  unfolding new_error
  mac_release d = elim d.assertion_id [
    | none ↦ (d, err Fault.panic)
    | some id ↦
        let (api', released) = iokit.release_assertion d.api id in
        elim released [
          | ok _ ↦ (record { api = api'; assertion_id = none }, ok tt)
          | err code ↦ (
            record d { api = api' },
            err (
                Fault.error (
                  new_error (record {
                    operation = NativeOperation.release;
                    code = NativeErrorCode.mac_os code;
                  }))),
          )
        ]
  ]

  unfoldable pub mac_cleanup_on_drop : MacOsInhibitor A → MacOsInhibitor A
  mac_cleanup_on_drop d = elim d.assertion_id [
    | none ↦ d
    | some id ↦ record { api = (iokit.release_assertion d.api id).0; assertion_id = none }
  ]

  abbrev pub mac_os : NativeInhibitor (MacOsInhibitor A)
  mac_os = record {
    state = mac_state;
    native_acquire = mac_acquire;
    native_release = mac_release;
    cleanup_on_drop = mac_cleanup_on_drop;
  }

-- ===== src/Inhibitor/Windows.antt =====
-- src-tauri/src/sleep_inhibitor/windows.rs: one power request, held by its handle; a handle that
-- could not be closed is kept as a debt. The calls of Win32 are the parameter `power`, over the
-- type `A` of what they change.
use chiu.Common.{ℕ, String}
use chiu.Common.Result.{Result, ok, err}
use chiu.Inhibitor.{
  InhibitorState, NativeOperation, NativeErrorCode, NativeFailure, Fault, NativeInhibitor,
  new_error,
}
use mathlib.Core.Option.{some}

abbrev pub request_reason : String
request_reason = "Chiù idle sleep protection"

abbrev pub system_required : ℕ
system_required = 1

-- The trait `PowerApi`. A close that fails gives the handle back.
pub record PowerApi (A : Type 0) : Type 0 where
  pub create_request : A → String → A × Result ℕ ℕ
  pub set_request : A → ℕ → ℕ → A × Result (Unit {0}) ℕ
  pub clear_request : A → ℕ → ℕ → A × Result (Unit {0}) ℕ
  pub close_request : A → ℕ → A × Result (Unit {0}) (ℕ × ℕ)

pub data WindowsOwnership : Type 0 where
  inactive : WindowsOwnership
  active cleanup_debt : ℕ → WindowsOwnership

pub record WindowsInhibitor (A : Type 0) : Type 0 where
  pub api : A
  pub ownership : WindowsOwnership

abbrev pub failure : NativeOperation → ℕ → NativeFailure
failure operation code = record { operation = operation; code = NativeErrorCode.windows code }

module _ {A : Type 0} (power : PowerApi A) where
  unfoldable pub win_state : WindowsInhibitor A → InhibitorState
  win_state d = elim d.ownership [
    | active _ ↦ InhibitorState.active
    | inactive ↦ InhibitorState.inactive
    | cleanup_debt _ ↦ InhibitorState.inactive
  ]

  -- The end of `acquire` where `set_request` failed: the new handle is closed again.
  unfoldable pub abandon : A → ℕ → ℕ → WindowsInhibitor A × Result (Unit {0}) Fault
  unfolding new_error
  abandon api handle acquire_code =
      let (api', closed) = power.close_request api handle in
      elim closed [
        | ok _ ↦ (
          record { api = api'; ownership = inactive },
          err (Fault.error (new_error (failure NativeOperation.acquire acquire_code))),
        )
        | err (cleanup_code, handle') ↦ (
          record { api = api'; ownership = cleanup_debt handle' },
          err (
              Fault.error (record {
                primary = failure NativeOperation.acquire acquire_code;
                cleanup = some (failure NativeOperation.cleanup cleanup_code);
              })),
        )
      ]

  -- The part of `acquire` after a debt has been paid.
  unfoldable pub request : A → WindowsInhibitor A × Result (Unit {0}) Fault
  unfolding abandon new_error
  request api =
      let (api', created) = power.create_request api request_reason in
      elim created [
        | err code ↦ (
          record { api = api'; ownership = inactive },
          err (Fault.error (new_error (failure NativeOperation.acquire code))),
        )
        | ok handle ↦
            let (api'', was_set) = power.set_request api' handle system_required in
            elim was_set [
              | ok _ ↦ (record { api = api''; ownership = active handle }, ok tt)
              | err acquire_code ↦ abandon api'' handle acquire_code
            ]
      ]

  unfoldable pub win_acquire : WindowsInhibitor A → WindowsInhibitor A × Result (Unit {0}) Fault
  unfolding request new_error
  win_acquire d = elim d.ownership [
    | active _ ↦ (d, ok tt)
    | inactive ↦ request d.api
    | cleanup_debt handle ↦
        let (api', closed) = power.close_request d.api handle in
        elim closed [
          | ok _ ↦ request api'
          | err (code, handle') ↦ (
            record { api = api'; ownership = cleanup_debt handle' },
            err (Fault.error (new_error (failure NativeOperation.cleanup code))),
          )
        ]
  ]

  -- The end of `release` where the request is cleared.
  unfoldable pub close_cleared : A → ℕ → WindowsInhibitor A × Result (Unit {0}) Fault
  unfolding new_error
  close_cleared api handle =
      let (api', closed) = power.close_request api handle in
      elim closed [
        | ok _ ↦ (record { api = api'; ownership = inactive }, ok tt)
        | err (code, handle') ↦ (
          record { api = api'; ownership = cleanup_debt handle' },
          err (Fault.error (new_error (failure NativeOperation.cleanup code))),
        )
      ]

  -- Without an active request the `unreachable!` panics, with the ownership already replaced.
  unfoldable pub win_release : WindowsInhibitor A → WindowsInhibitor A × Result (Unit {0}) Fault
  unfolding close_cleared new_error
  win_release d = elim d.ownership [
    | inactive ↦ (record d { ownership = inactive }, err Fault.panic)
    | cleanup_debt _ ↦ (record d { ownership = inactive }, err Fault.panic)
    | active handle ↦
        let (api', cleared) = power.clear_request d.api handle system_required in
        elim cleared [
          | err code ↦ (
            record { api = api'; ownership = active handle },
            err (Fault.error (new_error (failure NativeOperation.release code))),
          )
          | ok _ ↦ close_cleared api' handle
        ]
  ]

  unfoldable pub win_cleanup_on_drop : WindowsInhibitor A → WindowsInhibitor A
  win_cleanup_on_drop d = elim d.ownership [
    | inactive ↦ d
    | cleanup_debt handle ↦ record {
      api = (power.close_request d.api handle).0;
      ownership = inactive;
    }
    | active handle ↦
        let api' = (power.clear_request d.api handle system_required).0 in
        record { api = (power.close_request api' handle).0; ownership = inactive }
  ]

  abbrev pub windows : NativeInhibitor (WindowsInhibitor A)
  windows = record {
    state = win_state;
    native_acquire = win_acquire;
    native_release = win_release;
    cleanup_on_drop = win_cleanup_on_drop;
  }

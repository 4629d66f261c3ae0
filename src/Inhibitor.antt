-- ===== src/Inhibitor.antt =====
-- src-tauri/src/sleep_inhibitor/mod.rs: the failure values, the trait that the two platforms
-- implement, and the facade `IdleSleepInhibitor` that guards its calls. The platforms' own code is
-- in the children, over the operating system's calls as a parameter.
pub mod Laws
pub mod MacOs
pub mod Windows
pub mod Requests
use chiu.Common.{ℕ, Option, none}
use chiu.Common.Int.{ℤ}
use chiu.Common.Result.{Result, ok}

pub data InhibitorState : Type 0 where
  inactive active : InhibitorState

pub data NativeOperation : Type 0 where
  acquire release cleanup : NativeOperation

pub data NativeErrorCode : Type 0 where
  windows : ℕ → NativeErrorCode
  mac_os : ℤ → NativeErrorCode

pub record NativeFailure : Type 0 where
  pub operation : NativeOperation
  pub code : NativeErrorCode

pub record InhibitorError : Type 0 where
  pub primary : NativeFailure
  pub cleanup : Option NativeFailure

-- What a call of a native inhibitor can end in besides success: an error value, or the panic of an
-- `expect` or `unreachable!`.
pub data Fault : Type 0 where
  error : InhibitorError → Fault
  panic : Fault

unfoldable pub new_error : NativeFailure → InhibitorError
new_error primary = record { primary = primary; cleanup = none }

-- The trait `NativeInhibitor`, over the type `D` of the implementation's own state.
pub record NativeInhibitor (D : Type 0) : Type 0 where
  pub state : D → InhibitorState
  pub native_acquire : D → D × Result (Unit {0}) Fault
  pub native_release : D → D × Result (Unit {0}) Fault
  pub cleanup_on_drop : D → D

-- `IdleSleepInhibitor`: the native call is skipped where the state is already the wanted one.
module _ {D : Type 0} (native : NativeInhibitor D) where
  unfoldable pub facade_acquire : D → D × Result (Unit {0}) Fault
  facade_acquire d = elim (native.state d) [
    | active ↦ (d, ok tt)
    | inactive ↦ native.native_acquire d
  ]

  unfoldable pub facade_release : D → D × Result (Unit {0}) Fault
  facade_release d = elim (native.state d) [
    | inactive ↦ (d, ok tt)
    | active ↦ native.native_release d
  ]

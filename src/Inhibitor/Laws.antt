-- ===== src/Inhibitor/Laws.antt =====
-- What a native inhibitor owes the facade, and what the facade then owes the coordinator.
use chiu.Common.{◌≡◌, ◌≢◌, arith, true, false}
use chiu.Common.Result.{err, is_ok}
use chiu.Inhibitor.{InhibitorState, Fault, NativeInhibitor}
use chiu.Inhibitor.MacOs.{IokitApi, mac_os, mac_state, mac_acquire, mac_release}
use chiu.Inhibitor.Windows.{PowerApi, windows, win_state, win_acquire, win_release}

pub record IsLawful {D : Type 0} (n : NativeInhibitor D) : Type 0 where
  pub acquire_ok :
      (d : D)
      → n.state d ≡ InhibitorState.inactive
      → is_ok (n.native_acquire d).1 ≡ true
      → n.state (n.native_acquire d).0 ≡ InhibitorState.active
  pub acquire_err :
      (d : D)
      → n.state d ≡ InhibitorState.inactive
      → is_ok (n.native_acquire d).1 ≡ false
      → n.state (n.native_acquire d).0 ≡ InhibitorState.inactive
  pub release_ok :
      (d : D)
      → n.state d ≡ InhibitorState.active
      → is_ok (n.native_release d).1 ≡ true
      → n.state (n.native_release d).0 ≡ InhibitorState.inactive
  pub acquire_no_panic : (d : D) → (n.native_acquire d).1 ≢ err Fault.panic
  pub release_no_panic :
      (d : D) → n.state d ≡ InhibitorState.active → (n.native_release d).1 ≢ err Fault.panic

module _ {A : Type 0} (iokit : IokitApi A) where
  -- Over any answers of IOKit: an acquisition by an inactive inhibitor leaves it active exactly if it
  -- succeeds, a release that succeeds leaves it inactive, no acquisition panics, and the `expect` of
  -- a release never panics where the inhibitor is active.
  mac_os-IsLawful : IsLawful (mac_os iokit)
  unfolding mac_state mac_acquire mac_release
  mac_os-IsLawful = record {
    acquire_ok = λ d s h. ground arith;
    acquire_err = λ d s h. ground arith;
    release_ok = λ d s h. ground arith;
    acquire_no_panic = λ d h. ground arith;
    release_no_panic = λ d s h. ground arith;
  }

module _ {A : Type 0} (power : PowerApi A) where
  -- Over any answers of Win32: an acquisition by an inactive inhibitor, also one with a handle left
  -- to close, leaves it active exactly if it succeeds, a release that succeeds leaves it inactive, no
  -- acquisition panics, and the `unreachable!` of a release is never met where the inhibitor is
  -- active.
  pub windows-IsLawful : IsLawful (windows power)
  unfolding win_state win_acquire win_release
  windows-IsLawful = record {
    acquire_ok = λ d s h. ground arith;
    acquire_err = λ d s h. ground arith;
    release_ok = λ d s h. ground arith;
    acquire_no_panic = λ d h. ground arith;
    release_no_panic = λ d s h. ground arith;
  }

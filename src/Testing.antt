-- ===== src/Testing.antt =====
-- An inhibitor for examples: it refuses as many calls as it is told to, then obeys.
pub mod PowerRequests
pub mod MemoryDisk
use chiu.Common.{ℕ, zero, suc, String, Bool, true, false, if◌then◌else◌, ◌≡◌, arith}
use chiu.Common.Result.{Result, ok, err}
use chiu.Wake.{ProtectionState, inactive, active, SleepInhibitor, WakeCoordinator}
use chiu.Wake.Laws.{IsHonest}
use chiu.Common.{[], List}
use chiu.Wake.Reasons.{WakeReason}

pub record Scripted : Type 0 where
  pub protecting : Bool
  pub failures : ℕ

abbrev scripted_state : Scripted → ProtectionState
scripted_state d = if d.protecting then active else inactive

abbrev obey : Bool → ℕ → Bool → Scripted × Result (Unit {0}) String
obey before zero wanted = (record { protecting = wanted; failures = 0 }, ok tt)
obey before (suc n) wanted = (record { protecting = before; failures = n }, err "scripted failure")

abbrev pub scripted : SleepInhibitor Scripted String
scripted = record {
  state = scripted_state;
  acquire = λ d. obey d.protecting d.failures true;
  release = λ d. obey d.protecting d.failures false;
  to_string = λ e. e;
}

pub scripted-IsHonest : IsHonest scripted
scripted-IsHonest = record {
  acquired = λ d s h. ground arith;
  not_acquired = λ d s h. ground arith;
  released = λ d s h. ground arith;
}

abbrev pub willing : Scripted
willing = record { protecting = false; failures = 0 }

-- Refuses one call.
abbrev pub refusing : Scripted
refusing = record { protecting = false; failures = 1 }

abbrev pub coordinator_with : List WakeReason → Scripted → WakeCoordinator Scripted
coordinator_with reasons d = record { active_reasons = reasons; inhibitor = d; log = [] }

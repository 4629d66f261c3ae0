-- ===== src/Network.antt =====
-- src-tauri/src/network_activity/mod.rs: the values that the network activity source exchanges.
-- The children model the normalizer of interface counters, the sampling core, and the source with
-- its worker.
pub mod Tests
pub mod Keys
pub mod Normalizer
pub mod Sampling
pub mod Continuity
pub mod Source
use chiu.Common.{ℕ, Option, none, some, Bool, not, ◌&&◌, if◌then◌else◌, leb, ◌==◌}
use chiu.Common.Time.{from_secs}

-- A sample: received bytes (u64) and the observed duration in nanoseconds.
pub record ReceiveActivitySample : Type 0 where
  pub received_bytes : ℕ
  pub observed_over : ℕ

abbrev pub max_trusted_interval : ℕ
max_trusted_interval = from_secs 5

unfoldable pub is_trusted_interval : ℕ → Bool
is_trusted_interval observed_over =
    not (observed_over == 0) && leb observed_over max_trusted_interval

unfoldable pub try_new : ℕ → ℕ → Option ReceiveActivitySample
try_new received_bytes observed_over =
    if is_trusted_interval observed_over
    then some (record { received_bytes = received_bytes; observed_over = observed_over })
    else none

pub data NetworkActivityAvailability : Type 0 where
  available unavailable : NetworkActivityAvailability

-- `ExplicitReset` exists in test builds only.
pub data ContinuityLossReason : Type 0 where
  provider_unavailable untrusted_interval arithmetic_overflow : ContinuityLossReason

pub data NetworkActivityEvent : Type 0 where
  sample : ReceiveActivitySample → NetworkActivityEvent
  continuity_lost : ContinuityLossReason → NetworkActivityEvent
  availability_changed : NetworkActivityAvailability → NetworkActivityEvent

-- ===== src/Common/Time.antt =====
-- std::time::Duration as a number of nanoseconds, and the bounds of u64 and u128.
use Prim.Native.Nat.{ℕ, ◌+◌, ◌-◌, ◌*◌, ◌/◌}
use mathlib.Core.Option.{Option, none, some}
use chiu.Common.Tests.{leb, if◌then◌else◌}

abbrev pub u64_max : ℕ
u64_max = 18446744073709551615

abbrev pub u64_modulus : ℕ
u64_modulus = 18446744073709551616

abbrev pub u128_max : ℕ
u128_max = 340282366920938463463374607431768211455

abbrev pub nanos_per_second : ℕ
nanos_per_second = 1000000000

-- Duration::MAX: u64::MAX seconds and 999,999,999 nanoseconds.
abbrev pub max_duration : ℕ
max_duration = 18446744073709551615999999999

abbrev pub from_secs : ℕ → ℕ
from_secs seconds = seconds * nanos_per_second

abbrev pub nanos_per_millisecond : ℕ
nanos_per_millisecond = 1000000

abbrev pub from_millis : ℕ → ℕ
from_millis milliseconds = milliseconds * nanos_per_millisecond

abbrev pub as_millis : ℕ → ℕ
as_millis d = d / nanos_per_millisecond

-- Duration::checked_add.
unfoldable pub checked_add : ℕ → ℕ → Option ℕ
checked_add a b = if leb (a + b) max_duration then some (a + b) else none

-- Duration::saturating_add. The saturating subtraction is `-` on ℕ.
abbrev pub saturating_add : ℕ → ℕ → ℕ
saturating_add a b = if leb (a + b) max_duration then a + b else max_duration

-- u64::checked_add and u64::checked_sub.
unfoldable pub checked_add_u64 : ℕ → ℕ → Option ℕ
checked_add_u64 a b = if leb (a + b) u64_max then some (a + b) else none

unfoldable pub checked_sub : ℕ → ℕ → Option ℕ
checked_sub a b = if leb b a then some (a - b) else none

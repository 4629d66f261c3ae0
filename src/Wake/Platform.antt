-- ===== src/Wake/Platform.antt =====
-- The coordinator over the facade of a native inhibitor.
use chiu.Common.{String, arith}
use chiu.Inhibitor.{NativeInhibitor, Fault, facade_acquire, facade_release}
use chiu.Inhibitor.Laws.{IsLawful}
use chiu.Wake.{idle_sleep_inhibitor}
use chiu.Wake.Laws.{IsHonest}

module _ {D : Type 0} (n : NativeInhibitor D) (lawful : IsLawful n)
    (to_string : Fault → String) where
  -- The facade over a lawful native inhibitor reports its state truly.
  idle_sleep_inhibitor-IsHonest : IsHonest (idle_sleep_inhibitor n to_string)
  unfolding facade_acquire facade_release
  idle_sleep_inhibitor-IsHonest = record {
    acquired = λ d s h. ground (arith, lawful.acquire_ok d);
    not_acquired = λ d s h. ground (arith, lawful.acquire_err d);
    released = λ d s h. ground (arith, lawful.release_ok d);
  }

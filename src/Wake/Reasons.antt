-- ===== src/Wake/Reasons.antt =====
-- The wake reasons of src-tauri/src/wake_coordinator.rs, in the order of their declaration.
use chiu.Common.{◌≡◌, arith}
use chiu.Common.Ord.{Ord, reverse_ordering}
use Prim.Native.Nat.{Ordering}

pub data WakeReason : Type 0 where
  automatic_download manual_keep_awake : WakeReason

-- The derived comparison: by the position of the constructor.
abbrev pub compare_reasons : WakeReason → WakeReason → Ordering
compare_reasons automatic_download automatic_download = Ordering.eq
compare_reasons automatic_download manual_keep_awake = Ordering.lt
compare_reasons manual_keep_awake automatic_download = Ordering.gt
compare_reasons manual_keep_awake manual_keep_awake = Ordering.eq

pub reasons_refl : (a : WakeReason) → compare_reasons a a ≡ Ordering.eq
reasons_refl a = ground arith

pub reasons_eq : (a b : WakeReason) → compare_reasons a b ≡ Ordering.eq → a ≡ b
reasons_eq a b h = ground arith

pub reasons_swap : (a b : WakeReason) → compare_reasons b a ≡ reverse_ordering (compare_reasons a b)
reasons_swap a b = ground arith

pub reasons_trans :
    (a b c : WakeReason)
    → compare_reasons a b ≡ Ordering.lt
    → compare_reasons b c ≡ Ordering.lt
    → compare_reasons a c ≡ Ordering.lt
reasons_trans a b c h k = ground arith

instance abbrev pub reason_ord : Ord WakeReason
reason_ord = record {
  cmp = compare_reasons;
  cmp_refl = reasons_refl;
  cmp_eq = reasons_eq;
  cmp_swap = reasons_swap;
  cmp_trans = reasons_trans;
}

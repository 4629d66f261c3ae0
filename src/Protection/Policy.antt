-- ===== src/Protection/Policy.antt =====
-- The policy on its own: what is desired, and why it is not.
use chiu.Common.{◌≡◌, ◌↔◌, true, false, some, is_some, arith}
use chiu.Protection.{
  limited, unknown, AutomaticProtectionState, AutomaticProtectionSuppression, automatic_disabled,
  limited_power, unknown_power, desired_automatic_reason, suppression_reason,
}

-- Why an intent is suppressed.
abbrev pub Cause : AutomaticProtectionState → AutomaticProtectionSuppression → Type 0
Cause s automatic_disabled = s.settings.automatic_download_protection_enabled ≡ false
Cause s limited_power =
    (s.settings.automatic_download_protection_enabled ≡ true)
    × (s.settings.protect_on_battery ≡ false)
    × (s.power_source ≡ limited)
Cause s unknown_power =
    (s.settings.automatic_download_protection_enabled ≡ true)
    × (s.settings.protect_on_battery ≡ false)
    × (s.power_source ≡ unknown)

suppression-Cause :
    (s : AutomaticProtectionState) (x : AutomaticProtectionSuppression)
    → suppression_reason s ≡ some x
    → (s.detector_intent ≡ true) × Cause s x
unfolding suppression_reason desired_automatic_reason
suppression-Cause s automatic_disabled h = ground arith
suppression-Cause s limited_power h = ground arith
suppression-Cause s unknown_power h = ground arith

Cause-suppression :
    (s : AutomaticProtectionState) (x : AutomaticProtectionSuppression)
    → s.detector_intent ≡ true
    → Cause s x
    → suppression_reason s ≡ some x
unfolding suppression_reason desired_automatic_reason
Cause-suppression s automatic_disabled d c = ground arith
Cause-suppression s limited_power d c = ground arith
Cause-suppression s unknown_power d c = ground arith

-- A suppression is reported exactly if the detector asks and the reason is not desired; and a
-- given cause is reported exactly if the detector asks and that cause is the actual one.
pub suppression_exact :
    (s : AutomaticProtectionState) (x : AutomaticProtectionSuppression)
    → ((is_some (suppression_reason s) ≡ true)
        ↔ ((s.detector_intent ≡ true) × (desired_automatic_reason s ≡ false)))
      × ((suppression_reason s ≡ some x) ↔ ((s.detector_intent ≡ true) × Cause s x))
unfolding suppression_reason desired_automatic_reason
suppression_exact s x =
    ((ground arith, ground arith), (suppression-Cause s x, λ h. Cause-suppression s x h.0 h.1))

-- ===== src/Tray/Vocabulary.antt =====
-- Identifiers and commands stand for each other.
use chiu.Common.{
  ◌≡◌, ◌↔◌, refl, sym, ◌∙◌, subst, ap, String, some, List, [], ◌∷◌, Bool-cases, inl, inr,
}
use mathlib.Core.Option.{some-injective}
use text.Mathlib.Text.{◌==◌}
use text.Mathlib.TextEquality.{eq_iff}
use chiu.Manual.{ManualSessionCommand, ManualSessionStartPreset, ManualSessionAddPreset}
use chiu.Tray.{
  TrayCommand, ThresholdPreset, GracePreset, manual, set_threshold, set_grace, id, find_id, from_id,
  all_commands,
}

start_preset-from_id :
    (p : ManualSessionStartPreset)
    → from_id (id (manual (ManualSessionCommand.start p)))
      ≡ some (manual (ManualSessionCommand.start p))
unfolding from_id find_id id
start_preset-from_id ManualSessionStartPreset.fifteen_minutes = refl
start_preset-from_id ManualSessionStartPreset.thirty_minutes = refl
start_preset-from_id ManualSessionStartPreset.one_hour = refl
start_preset-from_id ManualSessionStartPreset.two_hours = refl
start_preset-from_id ManualSessionStartPreset.four_hours = refl
start_preset-from_id ManualSessionStartPreset.eight_hours = refl
start_preset-from_id ManualSessionStartPreset.until_disabled = refl

add_preset-from_id :
    (p : ManualSessionAddPreset)
    → from_id (id (manual (ManualSessionCommand.add p)))
      ≡ some (manual (ManualSessionCommand.add p))
unfolding from_id find_id id
add_preset-from_id ManualSessionAddPreset.fifteen_minutes = refl
add_preset-from_id ManualSessionAddPreset.thirty_minutes = refl
add_preset-from_id ManualSessionAddPreset.one_hour = refl
add_preset-from_id ManualSessionAddPreset.two_hours = refl
add_preset-from_id ManualSessionAddPreset.four_hours = refl

threshold_preset-from_id :
    (p : ThresholdPreset) → from_id (id (set_threshold p)) ≡ some (set_threshold p)
unfolding from_id find_id id
threshold_preset-from_id ThresholdPreset.kibibytes_256 = refl
threshold_preset-from_id ThresholdPreset.mebibyte_1 = refl
threshold_preset-from_id ThresholdPreset.mebibytes_5 = refl

grace_preset-from_id : (p : GracePreset) → from_id (id (set_grace p)) ≡ some (set_grace p)
unfolding from_id find_id id
grace_preset-from_id GracePreset.seconds_30 = refl
grace_preset-from_id GracePreset.minutes_2 = refl
grace_preset-from_id GracePreset.minutes_5 = refl
grace_preset-from_id GracePreset.minutes_15 = refl
grace_preset-from_id GracePreset.minutes_30 = refl

from_id-id : (c : TrayCommand) → from_id (id c) ≡ some c
unfolding from_id find_id id
from_id-id TrayCommand.toggle_automatic_protection = refl
from_id-id TrayCommand.toggle_protect_on_battery = refl
from_id-id TrayCommand.toggle_launch_at_login = refl
from_id-id TrayCommand.toggle_automatic_updates = refl
from_id-id TrayCommand.check_updates = refl
from_id-id TrayCommand.install_update = refl
from_id-id TrayCommand.copy_diagnostics = refl
from_id-id TrayCommand.open_logs = refl
from_id-id TrayCommand.quit = refl
from_id-id (manual (ManualSessionCommand.start p)) = start_preset-from_id p
from_id-id (manual (ManualSessionCommand.add p)) = add_preset-from_id p
from_id-id (manual ManualSessionCommand.convert_to_until_disabled) = refl
from_id-id (manual ManualSessionCommand.stop) = refl
from_id-id (set_threshold p) = threshold_preset-from_id p
from_id-id (set_grace p) = grace_preset-from_id p

find_id-id :
    (text : String) (cs : List TrayCommand) (c : TrayCommand)
    → find_id text cs ≡ some c
    → id c ≡ text
unfolding find_id
find_id-id text [] c h = cc
find_id-id text (d ∷ cs) c h = elim (Bool-cases (id d == text)) [
  | inl e ↦ ap id (some-injective c d (sym (rw e at h))) ∙ (eq_iff (id d) text).0 e
  | inr e ↦ find_id-id text cs c (rw e at h)
]

-- A text is decoded as a command exactly if it is that command's identifier: every command's
-- identifier is decoded as that command, and any other text as none.
pub from_id_iff : (text : String) (c : TrayCommand) → (from_id text ≡ some c) ↔ (id c ≡ text)
unfolding from_id
from_id_iff text c =
    (find_id-id text all_commands c, λ h. subst (λ t. from_id t ≡ some c) h (from_id-id c))

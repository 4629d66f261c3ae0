-- ===== src/Tray/Tests.antt =====
-- Decoding at concrete texts.
use chiu.Common.{◌≡◌, ◌↔◌, refl, none, some}
use chiu.Tray.{check_updates, from_id, find_id, id}
use chiu.Tray.Vocabulary.{from_id_iff}

from_id_iff_example :
    (from_id "future.check-updates" ≡ some check_updates)
    ↔ (id check_updates ≡ "future.check-updates")
from_id_iff_example = from_id_iff "future.check-updates" check_updates

inexact : from_id "automatic.toggle " ≡ none
unfolding from_id find_id id
inexact = refl

-- ===== src/Settings/Tests.antt =====
-- The settings on a directory in memory.
use chiu.Common.{◌≡◌, refl, true, false, some, List, [], ◌∷◌, arith, subst}
use mathlib.Core.Option.{some-injective}
use chiu.Settings.{Settings, default, FieldRecovery, apply, SettingsUpdate, LoadCondition}
use chiu.Detector.{try_new_settings}
use chiu.Settings.Json.{Value, null, bool, number, object, Map, end, entry}
use chiu.Settings.Document.{from_object, from_document}
use chiu.Settings.Persisted.{PersistedSettingsV1, to_persisted, to_value}
use chiu.Settings.RoundTrip.{to_persisted-from_document}
use chiu.Settings.Recovery.{from_object-recovers, recovered, none_yet, is_complete}
use chiu.Settings.Fitting.{default-IsPersistable, Fits}
use chiu.Settings.Files.{
  Serde, primary_file, cleanup_stale_temporary_files, platform_atomic_replace, write_synchronized,
}
use chiu.Settings.Loading.{load_settings}
use chiu.Settings.Service.{load, update, update_inner, commit, overwrite, serialized}
use chiu.Settings.Step.{SettingsService}
use chiu.Settings.Conditions.{Post}
use chiu.Settings.Staging.{Changed, Refused}
use chiu.Settings.Updating.{update_inner-Post}
use chiu.Settings.Succeeding.{IsWorking, Updated, update_inner_succeeds}
use chiu.Settings.Starting.{ProperLoad, load_settings-Proper}
use chiu.Settings.Reloading.{current, update-load_settings}
use chiu.Settings.Blocking.{update_all, load-future}
use chiu.Testing.MemoryDisk.{
  Directory, put, nothing, fresh, service, memory, memory-IsDisk, values, values-IsSerde, replacing,
  replacing-IsAtomic, memory-readable,
}

abbrev tuning : SettingsUpdate
tuning = SettingsUpdate.automatic_download_tuning 2097152 5000 0

to_persisted-from_document_example :
    (p : PersistedSettingsV1) × (to_persisted default ≡ some p)
    × (from_document (to_value p) ≡ some (some (default, [])))
to_persisted-from_document_example = to_persisted-from_document default default-IsPersistable

-- A document with one field of the wrong type and most of them missing.
abbrev partial : Map
partial = entry "launch_at_login" (number (some 1)) (entry "protect_on_battery" (bool true) end)

from_object-recovers_example :
    (rs : List FieldRecovery) × (from_object partial ≡ some (recovered partial, rs))
    × (none_yet rs ≡ is_complete partial)
from_object-recovers_example = from_object-recovers partial

update_inner-Post_example :
    Post
      (Changed memory values replacing (λ f n. f n) null tuning fresh)
      (Refused memory values replacing (λ f n. f n) null tuning fresh)
      (update_inner memory values replacing tuning fresh)
update_inner-Post_example =
    update_inner-Post memory values replacing (λ f n. f n) null memory-IsDisk replacing-IsAtomic
      tuning fresh default-IsPersistable (omega arith, omega arith)

working : IsWorking memory values replacing
unfolding platform_atomic_replace
working = record {
  create_dir_all = λ f. refl;
  create = λ n f. refl;
  write_all = λ n b f. refl;
  sync_all = λ n f. refl;
  copy = λ a b f. refl;
  replace = λ a b f. refl;
  to_vec_pretty = λ p. (_, refl);
}

abbrev slower : Settings
slower = record default {
  automatic_download = record {
    meaningful_receive_rate_bytes_per_second = 2097152;
    activation_qualification = 5000000000;
    grace = 0;
  };
}

update_inner_succeeds_example :
    Updated slower
      (update_inner memory values replacing tuning (record fresh { preservation_required = true }))
unfolding apply try_new_settings
update_inner_succeeds_example =
    update_inner_succeeds memory values replacing working tuning
      (record fresh { preservation_required = true }) slower default-IsPersistable
      (omega arith, omega arith) refl refl

abbrev muted : SettingsUpdate
muted = SettingsUpdate.launch_at_login false

abbrev after : Directory
after = (update memory values replacing muted service).0.state.files

update-load_settings_example :
    ((update memory values replacing muted service).0.state.snapshot
      ≡ record default { launch_at_login = false })
    × (load_settings memory values true after 7
        ≡ some (current memory (record default { launch_at_login = false }) after 7))
unfolding update update_inner apply to_persisted write_synchronized platform_atomic_replace commit
    overwrite serialized
update-load_settings_example =
    update-load_settings memory values replacing (λ f n. f n) null memory-IsDisk replacing-IsAtomic
      values-IsSerde muted service default-IsPersistable tt
      (record default { launch_at_login = false }) 7 refl
      (memory-readable primary_file (cleanup_stale_temporary_files memory after).0)

-- Every file holds the document above.
abbrev damaged : Serde Value
damaged = record {
  from_slice = λ v. some (object partial);
  to_vec_pretty = λ p. some (object partial);
}

load_settings-Proper_example :
    ProperLoad (load_settings memory damaged true (put primary_file (some null) nothing) 0)
load_settings-Proper_example =
    load_settings-Proper memory damaged
      (λ b v h. subst Fits (some-injective (object partial) v h) (omega arith, (tt, tt))) true
      (put primary_file (some null) nothing) 0

abbrev later : Value
later = object (entry "schema_version" (number (some 2)) end)

abbrev later_files : Directory
later_files = put primary_file (some later) nothing

load-future_example :
    (s : SettingsService Directory) × (load memory values replacing true [] later_files 0 ≡ some s)
    × (s.state.health.load_condition ≡ LoadCondition.unsupported_future_schema 2)
    × ((update_all memory values replacing (muted ∷ tuning ∷ []) s).state.files primary_file
        ≡ some later)
load-future_example =
    load-future memory values replacing (λ f n. f n) null memory-IsDisk later later 2 later_files 0
      [] (muted ∷ tuning ∷ []) refl
      (memory-readable primary_file (cleanup_stale_temporary_files memory later_files).0) refl refl
      (omega arith)

-- ===== src/Settings/Starting.antt =====
-- Starting: no file makes loading panic, and whatever is loaded can be written again; what a
-- successful update wrote is loaded again.
use chiu.Common.{
  ℕ, ◌≡◌, refl, Bool, true, false, Option, none, some, List, [], ◌∷◌, Bool-cases, inl, inr,
}
use chiu.Settings.{Settings, FieldRecovery, LoadCondition, ArtifactWarning}
use chiu.Settings.Json.{Value, null, bool, number, string, array, object, Map}
use chiu.Settings.Document.{
  schema_version, version_of, is_version, from_document, from_unversioned_document, from_object,
}
use chiu.Settings.RoundTrip.{IsPersistable}
use chiu.Settings.Recovery.{from_object-recovers}
use chiu.Settings.Fitting.{Fits, recovered-IsPersistable, default-IsPersistable}
use chiu.Settings.Files.{
  FileSystem, Serde, Reading, found, not_found, unreadable, primary_file, backup_file,
  cleanup_stale_temporary_files,
}
use chiu.Settings.Loading.{
  Loaded, BackupLoad, clean, unusable, future_version, clean_backup, backup_of_value, backup_of,
  backup_reading, load_backup, from_backup, malformed_or_backup, load_document, load_value,
  load_bytes, load_reading, load_settings, condition_of, unavailable_load, unsupported_future_load,
}

-- There is a result, and its detector's settings can be written.
abbrev pub ProperReading : Option (Option (Settings × List FieldRecovery)) → Type 0
ProperReading none = Unit
ProperReading (some none) = ⊥
ProperReading (some (some (s, rs))) = IsPersistable s.automatic_download

abbrev pub ProperBackup : Option BackupLoad → Type 0
ProperBackup none = ⊥
ProperBackup (some (clean s)) = IsPersistable s.automatic_download
ProperBackup (some _) = Unit

abbrev pub ProperLoad : {F : Type 0} → Option (Loaded F) → Type 0
ProperLoad none = ⊥
ProperLoad (some l) = IsPersistable (Settings.automatic_download l.snapshot)

from_object-Proper : (o : Map) → Fits (object o) → ProperReading (some (from_object o))
from_object-Proper o f = rw (from_object-recovers o).1 (recovered-IsPersistable o f)

from_unversioned_document-Proper :
    (v : Value) → Fits v → ProperReading (from_unversioned_document v)
unfolding from_unversioned_document
from_unversioned_document-Proper (object o) f = from_object-Proper o f
from_unversioned_document-Proper null f = tt
from_unversioned_document-Proper (bool _) f = tt
from_unversioned_document-Proper (number _) f = tt
from_unversioned_document-Proper (string _) f = tt
from_unversioned_document-Proper (array _) f = tt

from_document-Proper : (v : Value) → Fits v → ProperReading (from_document v)
unfolding from_document
from_document-Proper (object o) f =
    elim (Bool-cases (is_version schema_version (version_of (object o)))) [
      | inl e ↦ rw e (from_object-Proper o f)
      | inr e ↦ rw e tt
    ]
from_document-Proper null f = tt
from_document-Proper (bool _) f = tt
from_document-Proper (number _) f = tt
from_document-Proper (string _) f = tt
from_document-Proper (array _) f = tt

clean_backup-Proper :
    (r : Option (Option (Settings × List FieldRecovery)))
    → ProperReading r
    → ProperBackup (clean_backup r)
clean_backup-Proper none h = tt
clean_backup-Proper (some none) h = elim h [ ]
clean_backup-Proper (some (some (s, []))) h = h
clean_backup-Proper (some (some (s, _ ∷ _))) h = tt

backup_of_value-Proper :
    (v : Value) (version : Option ℕ) → Fits v → ProperBackup (backup_of_value v version)
backup_of_value-Proper v none f = clean_backup-Proper (from_document v) (from_document-Proper v f)
backup_of_value-Proper v (some n) f = tt

module _ {F B : Type 0} (fs : FileSystem F B) (serde : Serde B)
    (fits : (b : B) (v : Value) → serde.from_slice b ≡ some v → Fits v) where
  backup_bytes-Proper :
      (b : B) (v : Option Value) → serde.from_slice b ≡ v → ProperBackup (backup_of v)
  backup_bytes-Proper b none e = tt
  backup_bytes-Proper b (some v) e =
      backup_of_value-Proper v (future_version (version_of v)) (fits b v e)

  backup_reading-Proper : (r : Reading B) → ProperBackup (backup_reading fs serde r)
  backup_reading-Proper (found b) = backup_bytes-Proper b (serde.from_slice b) refl
  backup_reading-Proper not_found = tt
  backup_reading-Proper unreadable = tt

  load_backup-Proper : (f : F) → ProperBackup (load_backup fs serde f)
  unfolding load_backup
  load_backup-Proper f = backup_reading-Proper (fs.read backup_file f)

  from_backup-Proper :
      (c : LoadCondition) (ws : List ArtifactWarning) (f : F) (n : ℕ) (b : Option BackupLoad)
      → ProperBackup b
      → ProperLoad (from_backup fs serde c ws f n b)
  unfolding unsupported_future_load
  from_backup-Proper c ws f n none h = elim h [ ]
  from_backup-Proper c ws f n (some (clean s)) h = h
  from_backup-Proper c ws f n (some (BackupLoad.unsupported_future_schema v)) h =
      default-IsPersistable
  from_backup-Proper c ws f n (some unusable) h = default-IsPersistable

  malformed_or_backup-Proper :
      (ws : List ArtifactWarning) (f : F) (n : ℕ) → ProperLoad (malformed_or_backup fs serde ws f n)
  unfolding malformed_or_backup
  malformed_or_backup-Proper ws f n = from_backup-Proper _ _ _ _ _ (load_backup-Proper _)

  load_document-Proper :
      (c : List FieldRecovery → LoadCondition) (ws : List ArtifactWarning) (f : F) (n : ℕ)
      (r : Option (Option (Settings × List FieldRecovery)))
      → ProperReading r
      → ProperLoad (load_document fs serde c ws f n r)
  load_document-Proper c ws f n none h = malformed_or_backup-Proper ws f n
  load_document-Proper c ws f n (some none) h = elim h [ ]
  load_document-Proper c ws f n (some (some (s, rs))) h = h

  load_value-Proper :
      (v : Value) (version : Option ℕ) (ws : List ArtifactWarning) (f : F) (n : ℕ)
      → Fits v
      → ProperLoad (load_value fs serde v version ws f n)
  unfolding unsupported_future_load
  load_value-Proper v (some _) ws f n h = default-IsPersistable
  load_value-Proper v none ws f n h = elim (Bool-cases (is_version schema_version (version_of v))) [
    | inl e ↦
        rw e (load_document-Proper condition_of ws f n (from_document v) (from_document-Proper v h))
    | inr e ↦ rw e (
        load_document-Proper _ ws f n (from_unversioned_document v)
          (from_unversioned_document-Proper v h))
  ]

  load_bytes-Proper :
      (b : B) (v : Option Value) (ws : List ArtifactWarning) (f : F) (n : ℕ)
      → serde.from_slice b ≡ v
      → ProperLoad (load_bytes fs serde v ws f n)
  load_bytes-Proper b none ws f n e = malformed_or_backup-Proper ws f n
  load_bytes-Proper b (some v) ws f n e =
      load_value-Proper v (future_version (version_of v)) ws f n (fits b v e)

  load_reading-Proper :
      (r : Reading B) (ws : List ArtifactWarning) (f : F) (n : ℕ)
      → ProperLoad (load_reading fs serde r ws f n)
  unfolding unavailable_load
  load_reading-Proper (found b) ws f n = load_bytes-Proper b (serde.from_slice b) ws f n refl
  load_reading-Proper not_found ws f n = from_backup-Proper _ ws f n _ (load_backup-Proper f)
  load_reading-Proper unreadable ws f n = default-IsPersistable

  -- Whatever the directory holds, damaged, partial or from another program, loading gives settings
  -- and does not panic, and the durations of those settings are whole milliseconds that fit u64, so
  -- that they can be written; provided that the integers of a parsed value that `as_u64` gives fit
  -- u64.
  pub load_settings-Proper :
      (is_absolute : Bool) (f : F) (n : ℕ) → ProperLoad (load_settings fs serde is_absolute f n)
  unfolding load_settings unavailable_load
  load_settings-Proper false f n = default-IsPersistable
  load_settings-Proper true f n =
      let r = cleanup_stale_temporary_files fs f in
      load_reading-Proper (fs.read primary_file r.0) r.1 r.0 n

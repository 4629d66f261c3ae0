-- ===== src/Settings/Files.antt =====
-- The files of the settings' directory, their names, and the operations on them that src-tauri/src/
-- settings.rs makes. The file system and serde_json are parameters: F is a state of the directory, B
-- what a file holds. The process is the only one to change the directory.
use chiu.Common.{
  ℕ, ◌+◌, ◌-◌, ◌/◌, ◌%◌, suc, zero, ◌==◌, Bool, true, false, if◌then◌else◌, Option, none, some,
  List, [], ◌∷◌, ◌++◌, length,
}
use chiu.Common.Time.{u64_modulus}
use chiu.Common.Bytes.{codes, compare_bytes, starts_with}
use Prim.Native.Nat.{Ordering}
use chiu.Settings.{ArtifactWarning, stale_temporary}
use chiu.Settings.Json.{Value}
use chiu.Settings.Persisted.{PersistedSettingsV1}

-- The bytes of a file's name.
abbrev pub Name : Type 0
Name = List ℕ

abbrev pub backup_file : Name
backup_file = codes "settings.json.bak"

abbrev pub backup_temp_file : Name
backup_temp_file = codes "settings.json.bak.tmp"

abbrev pub primary_file : Name
primary_file = codes "settings.json"

abbrev pub primary_temp_file : Name
primary_temp_file = codes "settings.json.tmp"

abbrev pub quarantine_prefix : Name
quarantine_prefix = codes "settings.corrupt."

abbrev pub quarantine_retention : ℕ
quarantine_retention = 2

pub data Reading (B : Type 0) : Type 0 where
  found : B → Reading B
  not_found unreadable : Reading B

pub data Removal : Type 0 where
  removed missing failed : Removal

-- `std::fs` in the directory; a Boolean result is that the call succeeded. `sync_directory` is
-- opening the directory and `sync_all` of it.
pub record FileSystem (F B : Type 0) : Type 0 where
  pub now_millis : F → ℕ
  pub read : Name → F → Reading B
  pub exists : Name → F → Bool
  pub read_dir : F → Option (List Name)
  pub create_dir_all : F → F × Bool
  pub create : Name → F → F × Bool
  pub write_all : Name → B → F → F × Bool
  pub sync_all : Name → F → F × Bool
  pub sync_directory : F → F × Bool
  pub rename : Name → Name → F → F × Bool
  pub copy : Name → Name → F → F × Bool
  pub remove_file : Name → F → F × Removal

-- `serde_json::from_slice` and `serde_json::to_vec_pretty`.
pub record Serde (B : Type 0) : Type 0 where
  pub from_slice : B → Option Value
  pub to_vec_pretty : PersistedSettingsV1 → Option B

-- The trait `AtomicReplace`.
pub record AtomicReplace (F : Type 0) : Type 0 where
  pub replace : (source destination : Name) → F → F × Bool

-- The decimal digits of a number, the last ones given; a u128 has at most 39.
abbrev decimal : (fuel : ℕ) → ℕ → List ℕ → List ℕ
decimal zero n digits = digits
decimal (suc fuel) n digits =
    if n / 10 == 0 then (48 + n % 10) ∷ digits else decimal fuel (n / 10) ((48 + n % 10) ∷ digits)

abbrev zeros : ℕ → List ℕ → List ℕ
zeros zero digits = digits
zeros (suc n) digits = 48 ∷ zeros n digits

abbrev padded : List ℕ → List ℕ
padded digits = zeros (20 - length digits) digits

-- `format!("{QUARANTINE_PREFIX}{timestamp:020}.{sequence:020}.json")`
unfoldable pub quarantine_name : (timestamp sequence : ℕ) → Name
quarantine_name timestamp sequence =
    quarantine_prefix
    ++ padded (decimal 39 timestamp [])
    ++ codes "."
    ++ padded (decimal 39 sequence [])
    ++ codes ".json"

-- `NEXT_QUARANTINE.fetch_add(1)`
abbrev pub next_sequence : ℕ → ℕ
next_sequence n = (n + 1) % u64_modulus

abbrev pub quarantines : List Name → List Name
quarantines [] = []
quarantines (n ∷ ns) =
    if starts_with quarantine_prefix n then n ∷ quarantines ns else quarantines ns

abbrev pub insert_by : Ordering → Name → Name → List Name → List Name → List Name
insert_by Ordering.gt n m ms later = m ∷ later
insert_by _ n m ms later = n ∷ m ∷ ms

abbrev pub insert_name : Name → List Name → List Name
insert_name n [] = n ∷ []
insert_name n (m ∷ ms) = insert_by (compare_bytes n m) n m ms (insert_name n ms)

-- `sort` of paths in one directory.
abbrev pub sort : List Name → List Name
sort [] = []
sort (n ∷ ns) = insert_name n (sort ns)

abbrev pub take_names : ℕ → List Name → List Name
take_names zero ns = []
take_names (suc k) [] = []
take_names (suc k) (n ∷ ns) = n ∷ take_names k ns

abbrev pub outdated : List Name → List Name
outdated names =
    let paths = sort (quarantines names) in take_names (length paths - quarantine_retention) paths

-- `?` on what may fail.
abbrev pub and_then : {F : Type 0} → F × Bool → (F → F × Bool) → F × Bool
and_then (f, false) next = (f, false)
and_then (f, true) next = next f

-- An absent file is a failure too.
abbrev pub succeeded : {F : Type 0} → F × Removal → F × Bool
succeeded (f, Removal.removed) = (f, true)
succeeded (f, _) = (f, false)

abbrev pub stale : {F : Type 0} → F × Removal → List ArtifactWarning → F × List ArtifactWarning
stale (f, Removal.failed) warnings = (f, warnings ++ stale_temporary ∷ [])
stale (f, _) warnings = (f, warnings)

module _ {F B : Type 0} (fs : FileSystem F B) where
  unfoldable pub write_synchronized : Name → B → F → F × Bool
  write_synchronized path bytes f =
      and_then (and_then (fs.create path f) (fs.write_all path bytes)) (fs.sync_all path)

  -- `platform_atomic_replace` on macOS.
  unfoldable pub platform_atomic_replace : (source destination : Name) → F → F × Bool
  platform_atomic_replace source destination f =
      and_then (fs.rename source destination f) fs.sync_directory

  unfoldable pub cleanup_stale_temporary_files : F → F × List ArtifactWarning
  cleanup_stale_temporary_files f =
      let (f1, w1) = stale (fs.remove_file primary_temp_file f) [] in
      stale (fs.remove_file backup_temp_file f1) w1

  unfoldable pub quarantine : ℕ → F → F × Bool
  quarantine sequence f = fs.rename primary_file (quarantine_name (fs.now_millis f) sequence) f

  -- Opening the preserved file and `sync_all` of it is one step.
  unfoldable pub preserve_source : ℕ → F → F × Bool
  preserve_source sequence f =
      let preserved = quarantine_name (fs.now_millis f) sequence in
      and_then (fs.copy primary_file preserved f) (fs.sync_all preserved)

  unfoldable pub remove_files : List Name → F → F × Bool
  remove_files [] f = (f, true)
  remove_files (n ∷ ns) f = and_then (succeeded (fs.remove_file n f)) (remove_files ns)

  abbrev pub prune_names : Option (List Name) → F → F × Bool
  prune_names none f = (f, false)
  prune_names (some names) f = remove_files (outdated names) f

  unfoldable pub prune_quarantines : F → F × Bool
  prune_quarantines f = prune_names (fs.read_dir f) f

-- ===== src/Testing/MemoryDisk.antt =====
-- A directory in memory whose calls succeed, with the documents' values as the bytes.
use chiu.Common.{
  ◌≡◌, ◌≢◌, ◌∙◌, refl, true, false, if◌then◌else◌, Option, none, some, [], arith, Bool-cases, inl,
  inr, is_some,
}
use chiu.Common.Bytes.{same_bytes, same_bytes_eq, bytes_refl}
use chiu.Settings.Json.{Value, null}
use chiu.Settings.Persisted.{to_value}
use chiu.Settings.Files.{
  FileSystem, Serde, AtomicReplace, Name, Reading, found, not_found, unreadable, removed, missing,
  platform_atomic_replace,
}
use chiu.Settings.{default, LoadCondition, PersistenceCondition}
use chiu.Settings.Loading.{health_of}
use chiu.Settings.Step.{SettingsState, SettingsService}
use chiu.Settings.Disk.{IsDisk, IsAtomic, IsSerde}
use chiu.Settings.Leaving.{platform_atomic_replace-IsAtomic}

abbrev pub Directory : Type 0
Directory = Name → Option Value

abbrev pub put : Name → Option Value → Directory → Directory
put n v f m = if same_bytes m n then v else f m

abbrev reading_of : Option Value → Reading Value
reading_of none = not_found
reading_of (some v) = found v

abbrev pub memory : FileSystem Directory Value
memory = record {
  now_millis = λ f. 1700000000000;
  read = λ n f. reading_of (f n);
  exists = λ n f. is_some (f n);
  read_dir = λ f. some [];
  create_dir_all = λ f. (f, true);
  create = λ n f. (put n (some null) f, true);
  write_all = λ n v f. (put n (some v) f, true);
  sync_all = λ n f. (f, true);
  sync_directory = λ f. (f, true);
  rename = λ a b f. (put b (f a) (put a none f), true);
  copy = λ a b f. (put b (f a) f, true);
  remove_file = λ n f. (put n none f, if is_some (f n) then removed else missing);
}

reading_of-readable : (v : Option Value) → reading_of v ≢ unreadable
reading_of-readable none h = cc
reading_of-readable (some v) h = cc

pub memory-readable : (n : Name) (f : Directory) → memory.read n f ≢ unreadable
memory-readable n f = reading_of-readable (f n)

put_same : (n : Name) (v : Option Value) (f : Directory) → put n v f n ≡ v
put_same n v f = ground (arith, bytes_refl n)

put_other : (n m : Name) (v : Option Value) (f : Directory) → m ≢ n → put n v f m ≡ f m
put_other n m v f h = elim (Bool-cases (same_bytes m n)) [
  | inl e ↦ elim (h (same_bytes_eq m n e)) [ ]
  | inr e ↦ rw e
]

pub memory-IsDisk : IsDisk (λ f n. f n) null memory
memory-IsDisk = record {
  read_found = λ n f b h. ground arith;
  read_missing = λ n f h. ground arith;
  create_dir_all = λ f m. refl;
  create_other = λ n f m h. put_other n m (some null) f h;
  created = λ n f h. put_same n (some null) f;
  write_other = λ n b f m h. put_other n m (some b) f h;
  written = λ n b f h k. put_same n (some b) f;
  sync_all = λ n f m. refl;
  sync_directory = λ f m. refl;
  rename_other = λ a b f m h k. put_other b m (f a) (put a none f) k ∙ put_other a m none f h;
  renamed = λ a b f h. put_same b (f a) (put a none f);
  rename_failed = λ a b f h. cc;
  copy_other = λ a b f m h. put_other b m (f a) f h;
  remove_other = λ n f m h. put_other n m none f h;
}

abbrev pub values : Serde Value
values = record { from_slice = λ v. some v; to_vec_pretty = λ p. some (to_value p) }

pub values-IsSerde : IsSerde values
values-IsSerde = record { from_slice-to_vec_pretty = λ p b h. cc }

abbrev pub replacing : AtomicReplace Directory
replacing = record { replace = platform_atomic_replace memory }

pub replacing-IsAtomic : IsAtomic (λ f n. f n) null replacing
replacing-IsAtomic = platform_atomic_replace-IsAtomic memory (λ f n. f n) null memory-IsDisk

abbrev pub nothing : Directory
nothing = λ n. none

-- A new service after the first start.
abbrev pub fresh : SettingsState Directory
fresh = record {
  snapshot = default;
  health = health_of LoadCondition.first_run PersistenceCondition.writable [] [];
  preservation_required = false;
  files = nothing;
  next_quarantine = 0;
}

abbrev pub service : SettingsService Directory
service = record { state = fresh; log = [] }

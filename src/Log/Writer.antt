-- ===== src/Log/Writer.antt =====
-- src-tauri/src/local_log.rs, `RotatingWriter` and `LocalLog`: writing a line, the rotation of the
-- files, and the health. The file system is a parameter: F is a state of the log's directory with
-- the handle of the open file, B what is written.
use chiu.Common.{ℕ, zero, suc, ◌+◌, ltb, min, ◌&&◌, Bool, true, false, if◌then◌else◌, String}
use chiu.Common.Result.{Result, ok, err}
use chiu.Common.Time.{u64_max}

abbrev pub max_file_size : ℕ
max_file_size = 1048576

abbrev pub archive_count : ℕ
archive_count = 4

-- `chiu.log`, and `archive_path` of an index.
pub data LogFile : Type 0 where
  current : LogFile
  archive : (index : ℕ) → LogFile

pub data LoggingFailureStage : Type 0 where
  resolve_directory create_directory open_file prune rotating writing flushing : LoggingFailureStage

pub data LoggingHealth : Type 0 where
  available : LoggingHealth
  unavailable : LoggingFailureStage → LoggingHealth

pub record RetentionPolicy : Type 0 where
  pub maximum_files : ℕ
  pub maximum_file_bytes : ℕ

abbrev pub retention_policy : RetentionPolicy
retention_policy = record { maximum_files = archive_count + 1; maximum_file_bytes = max_file_size }

unfoldable pub stage_name : LoggingFailureStage → String
stage_name resolve_directory = "directory-resolution"
stage_name create_directory = "directory-creation"
stage_name open_file = "open"
stage_name prune = "prune"
stage_name rotating = "rotation"
stage_name writing = "write"
stage_name flushing = "flush"

-- A Boolean result is that the call succeeded. `open_append` creates the current file or opens it for
-- appending, and makes it the one that is written; removing an absent file succeeds.
pub record LogFiles (F B : Type 0) : Type 0 where
  pub length : B → ℕ
  pub exists : LogFile → F → Bool
  pub flush : F → F × Bool
  pub remove_if_exists : LogFile → F → F × Bool
  pub rename : (source destination : LogFile) → F → F × Bool
  pub open_append : F → F × Bool
  pub write_all : B → F → F × Bool

pub record RotatingWriter (F : Type 0) : Type 0 where
  pub files : F
  pub length : ℕ
  pub maximum_file_bytes : ℕ
  pub archive_count : ℕ

abbrev pub Outcome : Type 0 → Type 0
Outcome A = A × Result (Unit {0}) LoggingFailureStage

abbrev pub and_then : {A : Type 0} → Outcome A → (A → Outcome A) → Outcome A
and_then (a, ok _) next = next a
and_then (a, err stage) next = (a, err stage)

abbrev pub or_stage : {A : Type 0} → LoggingFailureStage → A × Bool → Outcome A
or_stage stage (a, true) = (a, ok tt)
or_stage stage (a, false) = (a, err stage)

abbrev pub saturating_add_u64 : ℕ → ℕ → ℕ
saturating_add_u64 a b = min (a + b) u64_max

-- Where the file of an index goes to.
abbrev pub source_of : ℕ → LogFile
source_of zero = current
source_of (suc index) = archive (suc index)

module _ {F B : Type 0} (fs : LogFiles F B) where
  abbrev pub move : Bool → (source destination : LogFile) → F → Outcome F
  move true source destination f = or_stage rotating (fs.rename source destination f)
  move false source destination f = (f, ok tt)

  -- The turns of the loop for index + 1 down to 1.
  unfoldable pub shift : (index : ℕ) → F → Outcome F
  shift zero f = (f, ok tt)
  shift (suc index) f =
      and_then (move (fs.exists (source_of index) f) (source_of index) (archive (suc index)) f)
        (shift index)

  -- The loop over the archives: the last one is removed first.
  unfoldable pub shift_all : (count : ℕ) → F → Outcome F
  shift_all zero f = (f, ok tt)
  shift_all (suc count) f =
      and_then (or_stage prune (fs.remove_if_exists (archive (suc count)) f)) (shift (suc count))

  abbrev pub with_files : RotatingWriter F → Outcome F → Outcome (RotatingWriter F)
  with_files w (f, r) = (record w { files = f }, r)

  abbrev pub emptied : Outcome (RotatingWriter F) → Outcome (RotatingWriter F)
  emptied (w, ok _) = (record w { length = 0 }, ok tt)
  emptied (w, err stage) = (w, err stage)

  unfoldable pub rotate : RotatingWriter F → Outcome (RotatingWriter F)
  unfolding shift_all
  rotate w = emptied (
      with_files w (
        and_then (or_stage flushing (fs.flush w.files)) (λ f.
          and_then (shift_all w.archive_count f) (λ f'. or_stage open_file (fs.open_append f')))))

  abbrev pub grown : ℕ → Outcome (RotatingWriter F) → Outcome (RotatingWriter F)
  grown incoming (w, ok _) = (record w { length = saturating_add_u64 w.length incoming }, ok tt)
  grown incoming (w, err stage) = (w, err stage)

  -- The part of `write_line` after the rotation.
  unfoldable pub append : B → RotatingWriter F → Outcome (RotatingWriter F)
  append line w = grown (min (fs.length line) u64_max) (
      with_files w (
        and_then (or_stage writing (fs.write_all line w.files))
          (λ f. or_stage flushing (fs.flush f))))

  abbrev pub needs_rotation : RotatingWriter F → B → Bool
  needs_rotation w line =
      ltb 0 w.length
      && ltb w.maximum_file_bytes (saturating_add_u64 w.length (min (fs.length line) u64_max))

  unfoldable pub write_line : B → RotatingWriter F → Outcome (RotatingWriter F)
  unfolding rotate append
  write_line line w =
      if needs_rotation w line then and_then (rotate w) (append line) else append line w

-- ===== src/Log/Opening.antt =====
-- src-tauri/src/local_log.rs, the opening of the log: `RotatingWriter::open`, `prune_owned_archives` and
-- `LocalLog::initialize`. An entry's name is its bytes; one that is no text has no index either.
use chiu.Common.{
  ℕ, ◌+◌, ◌*◌, ◌-◌, ◌==◌, leb, ltb, ◌&&◌, ◌||◌, Bool, true, false, if◌then◌else◌, String, Option,
  none, some, List, [], ◌∷◌,
}
use chiu.Common.Result.{Result, ok, err}
use chiu.Common.Time.{u64_max}
use chiu.Common.Bytes.{codes}
use chiu.Log.Writer.{
  LoggingFailureStage, resolve_directory, create_directory, open_file, prune, RotatingWriter,
  Outcome, and_then, or_stage, max_file_size, archive_count,
}
use chiu.Log.Local.{LocalLog, unavailable_log, with_writer}

abbrev pub strip_prefix : List ℕ → List ℕ → Option (List ℕ)
strip_prefix [] name = some name
strip_prefix (x ∷ xs) [] = none
strip_prefix (x ∷ xs) (y ∷ ys) = if x == y then strip_prefix xs ys else none

-- The name before a suffix that is the whole of what is left somewhere.
abbrev pub same_codes : List ℕ → List ℕ → Bool
same_codes [] [] = true
same_codes (x ∷ xs) (y ∷ ys) = x == y && same_codes xs ys
same_codes _ _ = false

abbrev pub before : ℕ → Option (List ℕ) → Option (List ℕ)
before c none = none
before c (some name) = some (c ∷ name)

abbrev pub strip_suffix : List ℕ → List ℕ → Option (List ℕ)
strip_suffix suffix [] = if same_codes suffix [] then some [] else none
strip_suffix suffix (y ∷ ys) =
    if same_codes suffix (y ∷ ys) then some [] else before y (strip_suffix suffix ys)

-- The digits of a usize of 64 bits, the number so far given.
abbrev pub parse_digits : ℕ → List ℕ → Option ℕ
parse_digits n [] = if leb n u64_max then some n else none
parse_digits n (c ∷ cs) = if leb 48 c && leb c 57 then parse_digits (n * 10 + (c - 48)) cs else none

-- `str::parse::<usize>`: at least one digit, after a plus sign or none.
abbrev pub parse_usize : List ℕ → Option ℕ
parse_usize [] = none
parse_usize (c ∷ []) = parse_digits 0 (c ∷ [])
parse_usize (c ∷ d ∷ cs) = if c == 43 then parse_digits 0 (d ∷ cs) else parse_digits 0 (c ∷ d ∷ cs)

abbrev pub and_parse : Option (List ℕ) → Option ℕ
and_parse none = none
and_parse (some digits) = parse_usize digits

abbrev pub and_strip : Option (List ℕ) → Option (List ℕ)
and_strip none = none
and_strip (some name) = strip_suffix (codes ".log") name

-- The index in the name of an archive.
unfoldable pub archive_index : List ℕ → Option ℕ
archive_index name = and_parse (and_strip (strip_prefix (codes "chiu.") name))

-- `std::fs` where the log is opened: `read_dir` gives the entries' names, with none for an entry that
-- could not be read, and `open_current` the length of the current file.
pub record LogDirectory (F : Type 0) : Type 0 where
  pub create_dir_all : F → F × Bool
  pub read_dir : F → Option (List (Option (List ℕ)))
  pub remove_if_exists : List ℕ → F → F × Bool
  pub open_current : F → F × Option ℕ

-- An archive that the log owns and no longer keeps.
abbrev pub is_outside : ℕ → Option ℕ → Bool
is_outside count none = false
is_outside count (some index) = index == 0 || ltb count index

module _ {F : Type 0} (fs : LogDirectory F) where
  unfoldable pub prune_entries : ℕ → List (Option (List ℕ)) → F → Outcome F
  prune_entries count [] f = (f, ok tt)
  prune_entries count (none ∷ entries) f = (f, err prune)
  prune_entries count (some name ∷ entries) f =
      and_then
        (if is_outside count (archive_index name)
          then or_stage prune (fs.remove_if_exists name f)
          else (f, ok tt))
        (prune_entries count entries)

  abbrev pub prune_listed : ℕ → Option (List (Option (List ℕ))) → F → Outcome F
  prune_listed count none f = (f, err prune)
  prune_listed count (some entries) f = prune_entries count entries f

  unfoldable pub prune_owned_archives : ℕ → F → Outcome F
  prune_owned_archives count f = prune_listed count (fs.read_dir f) f

  abbrev opened : ℕ → ℕ → F × Option ℕ → F × Result (RotatingWriter F) LoggingFailureStage
  opened maximum count (f, none) = (f, err open_file)
  opened maximum count (f, some length) = (
    f,
    ok (record { files = f; length = length; maximum_file_bytes = maximum; archive_count = count }),
  )

  abbrev and_open : ℕ → ℕ → Outcome F → F × Result (RotatingWriter F) LoggingFailureStage
  and_open maximum count (f, err stage) = (f, err stage)
  and_open maximum count (f, ok _) = opened maximum count (fs.open_current f)

  unfoldable pub open_writer : ℕ → ℕ → F → F × Result (RotatingWriter F) LoggingFailureStage
  open_writer maximum count f =
      and_open maximum count
        (and_then (or_stage create_directory (fs.create_dir_all f)) (prune_owned_archives count))

  abbrev log_of : String → F × Result (RotatingWriter F) LoggingFailureStage → LocalLog F
  log_of directory (f, ok w) = with_writer directory w
  log_of directory (f, err stage) = unavailable_log stage

  -- The files are those that the directory's name leads to.
  unfoldable pub initialize : Option String → F → LocalLog F
  initialize none f = unavailable_log resolve_directory
  initialize (some directory) f = log_of directory (open_writer max_file_size archive_count f)

-- ===== src/Log/Tests.antt =====
-- The log on files in memory, and the text of an event.
use chiu.Common.{
  ℕ, ◌≤◌, sym, ◌==◌, ◌≡◌, ◌≢◌, ◌↔◌, ◌∙◌, refl, Bool, true, false, if◌then◌else◌, Option, none, some,
  is_some, List, [], ◌∷◌, ◌++◌, arith, Bool-cases, inl, inr, ap,
}
use chiu.Common.Result.{ok}
use chiu.Log.Writer.{
  LogFile, current, archive, LogFiles, RotatingWriter, rotate, shift_all, shift, write_line,
}
use chiu.Log.Shifting.{IsDirectory, After}
use chiu.Log.Rotation.{rotate-archive}
use chiu.Log.Opening.{LogDirectory, archive_index, prune_owned_archives, prune_entries}
use mathlib.Core.Option.{some-injective}
use chiu.Log.Names.{IsArchive, archive_index_iff}
use chiu.Log.Removal.{prune_owned_archives_removes}
use chiu.Log.Pruning.{IsRemoving, prune_owned_archives-content}
use chiu.Common.Bytes.{codes, same_bytes, same_bytes_eq, bytes_refl}
use chiu.Log.Local.{Fits, write_line-length}
use chiu.Log.Text.{safe_version, render, updater_available}
use chiu.Log.Redaction.{IsSafe, safe_version-IsSafe}

-- The files by their lines.
abbrev Files : Type 0
Files = LogFile → Option (List ℕ)

abbrev same_file : LogFile → LogFile → Bool
same_file current current = true
same_file (archive i) (archive j) = i == j
same_file _ _ = false

abbrev put : LogFile → Option (List ℕ) → Files → Files
put n v f m = if same_file m n then v else f m

abbrev created : Option (List ℕ) → Option (List ℕ)
created none = some []
created (some lines) = some lines

abbrev appended : ℕ → Option (List ℕ) → Option (List ℕ)
appended line none = none
appended line (some lines) = some (lines ++ line ∷ [])

-- A line is given by its length.
abbrev memory : LogFiles Files ℕ
memory = record {
  length = λ line. line;
  exists = λ n f. is_some (f n);
  flush = λ f. (f, true);
  remove_if_exists = λ n f. (put n none f, true);
  rename = λ a b f. (put b (f a) (put a none f), true);
  open_append = λ f. (put current (created (f current)) f, true);
  write_all = λ line f. (put current (appended line (f current)) f, true);
}

same_file_refl : (n : LogFile) → same_file n n ≡ true
same_file_refl current = refl
same_file_refl (archive i) = ground arith

same_file_eq : (m n : LogFile) → same_file m n ≡ true → m ≡ n
same_file_eq current current h = refl
same_file_eq current (archive j) h = cc
same_file_eq (archive i) current h = cc
same_file_eq (archive i) (archive j) h = ap archive (ground arith)

put_same : (n : LogFile) (v : Option (List ℕ)) (f : Files) → put n v f n ≡ v
put_same n v f = rw (same_file_refl n)

put_other : (n m : LogFile) (v : Option (List ℕ)) (f : Files) → m ≢ n → put n v f m ≡ f m
put_other n m v f h = elim (Bool-cases (same_file m n)) [
  | inl e ↦ elim (h (same_file_eq m n e)) [ ]
  | inr e ↦ rw e
]

memory-IsDirectory : IsDirectory memory (λ f n. f n) []
memory-IsDirectory = record {
  exists = λ n f. refl;
  flushed = λ f m. refl;
  removed = λ n f h. put_same n none f;
  remove_other = λ n f m h. put_other n m none f h;
  renamed = λ a b f h. put_same b (f a) (put a none f);
  rename_source = λ a b f h d. put_other b a (f a) (put a none f) d ∙ put_same a none f;
  rename_other = λ a b f m h k. put_other b m (f a) (put a none f) k ∙ put_other a m none f h;
  opened = λ f h k. put_same current (created (f current)) f ∙ ap created h;
  open_other = λ f m h. put_other current m (created (f current)) f h;
}

-- A full current file and one archive.
abbrev full : RotatingWriter Files
full = record {
  files = put current (some (60 ∷ 40 ∷ [])) (put (archive 1) (some (100 ∷ [])) (λ n. none));
  length = 100;
  maximum_file_bytes = 100;
  archive_count = 4;
}

rotate-archive_example :
    After
      (λ w.
        (w.files (archive 2) ≡ some (100 ∷ []))
        × (w.files current ≡ some [])
        × (w.files (archive 7) ≡ none)
        × (w.length ≡ 0))
      (rotate memory full)
rotate-archive_example =
    rotate-archive memory (λ f n. f n) [] memory-IsDirectory full 1 7 (omega arith) (omega arith)

write_line-length_example : After (Fits memory 70 full) (write_line memory 70 full)
write_line-length_example = write_line-length memory 70 full

safe_version-IsSafe_example :
    IsSafe (safe_version (some "https://example.test/secret.pkg"))
    × ((safe_version (some "1.2.0-rc.1") ≡ "1.2.0-rc.1") ↔ IsSafe "1.2.0-rc.1")
safe_version-IsSafe_example =
    safe_version-IsSafe (some "https://example.test/secret.pkg") "1.2.0-rc.1"

redacted_line :
    render "1.0.0" (λ n. "0") (updater_available (some "a b"))
    ≡ "INFO updater.update-available version=redacted"
unfolding render updater_available safe_version
redacted_line = refl

third : archive_index (codes "chiu.3.log") ≡ some 3
unfolding archive_index
third = refl

signed : archive_index (codes "chiu.+12.log") ≡ some 12
unfolding archive_index
signed = refl

not_an_archive : archive_index (codes "chiu..log") ≡ none
unfolding archive_index
not_an_archive = refl

the_current : archive_index (codes "chiu.log") ≡ none
unfolding archive_index
the_current = refl

rotates : (rotate memory full).1 ≡ ok tt
unfolding rotate shift_all shift
rotates = refl

-- A directory of names, some of which are archives.
abbrev listed : LogDirectory (List ℕ → Option ℕ)
listed = record {
  create_dir_all = λ f. (f, true);
  read_dir = λ f. some (some (codes "chiu.9.log") ∷ some (codes "notes.txt") ∷ []);
  remove_if_exists = λ n f. ((λ m. if same_bytes m n then none else f m), true);
  open_current = λ f. (f, some 0);
}

kept_name :
    (n m : List ℕ) (f : List ℕ → Option ℕ) → m ≢ n → (if same_bytes m n then none else f m) ≡ f m
kept_name n m f h = elim (Bool-cases (same_bytes m n)) [
  | inl e ↦ elim (h (same_bytes_eq m n e)) [ ]
  | inr e ↦ rw e
]

own_name : (n : List ℕ) (f : List ℕ → Option ℕ) → (if same_bytes n n then none else f n) ≡ none
own_name n f = ground (arith, bytes_refl n)

listed-IsRemoving : IsRemoving listed (λ f n. f n)
listed-IsRemoving = record { other = λ n f m h. kept_name n m f h; removed = λ n f h. own_name n f }

third_only : (i : ℕ) → IsArchive (codes "chiu.3.log") i → (1 ≤ i) × (i ≤ 4)
third_only i h =
    let e : 3 ≡ i =
      some-injective 3 i (sym third ∙ (archive_index_iff (codes "chiu.3.log") i).1 h) in
    (omega (arith, e), omega (arith, e))

prune_owned_archives-content_example :
    (prune_owned_archives listed 4 (λ n. some 1)).0 (codes "chiu.3.log") ≡ some 1
prune_owned_archives-content_example =
    prune_owned_archives-content listed (λ f n. f n) listed-IsRemoving 4 (codes "chiu.3.log")
      third_only (λ n. some 1)

ninth : archive_index (codes "chiu.9.log") ≡ some 9
unfolding archive_index
ninth = refl

prune_owned_archives_removes_example :
    (prune_owned_archives listed 4 (λ n. some 1)).0 (codes "chiu.9.log") ≡ none
unfolding prune_owned_archives prune_entries archive_index
prune_owned_archives_removes_example =
    prune_owned_archives_removes listed (λ f n. f n) listed-IsRemoving 4 (codes "chiu.9.log") 9 []
      (some (codes "notes.txt") ∷ []) (λ n. some 1)
      ((archive_index_iff (codes "chiu.9.log") 9).0 ninth) (inr (omega arith)) refl refl

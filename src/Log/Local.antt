-- ===== src/Log/Local.antt =====
-- src-tauri/src/local_log.rs, `LocalLog`: the writer and the health. A line is given as its bytes, with
-- the clock's time; what is printed to the standard error is left out.
use chiu.Common.{
  ◌+◌, ◌≤◌, ◌≡◌, ◌⊎◌, inl, inr, refl, String, false, Option, none, some, min, arith, Bool-cases,
}
use chiu.Common.Result.{ok, err}
use chiu.Common.Time.{u64_max}
use chiu.Log.Writer.{
  LoggingFailureStage, LoggingHealth, available, unavailable, LogFiles, RotatingWriter, Outcome,
  and_then, or_stage, with_files, emptied, grown, needs_rotation, rotate, shift_all, flushing,
  writing, open_file, append, write_line,
}
use chiu.Log.Shifting.{After, and_then-After, After-map}

pub record LocalLog (F : Type 0) : Type 0 where
  pub health : LoggingHealth
  pub writer : Option (RotatingWriter F)
  pub directory : Option String

module _ {F : Type 0} where
  unfoldable pub unavailable_log : LoggingFailureStage → LocalLog F
  unavailable_log stage = record { health = unavailable stage; writer = none; directory = none }

  unfoldable pub with_writer : String → RotatingWriter F → LocalLog F
  with_writer directory w = record {
    health = available;
    writer = some w;
    directory = some directory;
  }

module _ {F B : Type 0} (fs : LogFiles F B) where
  abbrev after_write : LocalLog F → Outcome (RotatingWriter F) → LocalLog F
  after_write l (w, ok _) = record l { writer = some w }
  after_write l (w, err stage) = record l { health = unavailable stage; writer = none }

  abbrev write_with : Option (RotatingWriter F) → B → LocalLog F → LocalLog F
  write_with none line l = l
  write_with (some w) line l = after_write l (write_line fs line w)

  unfoldable pub record_line : B → LocalLog F → LocalLog F
  record_line line l = write_with l.writer line l

  abbrev shown_directory : LoggingHealth → Option String → Option String
  shown_directory available directory = directory
  shown_directory (unavailable _) directory = none

  unfoldable pub directory : LocalLog F → Option String
  directory l = shown_directory l.health l.directory

  -- The maximum stays, and the length is within it or that of the one line.
  abbrev pub Fits : B → RotatingWriter F → RotatingWriter F → Type 0
  Fits line w w' =
      (w'.maximum_file_bytes ≡ w.maximum_file_bytes)
      × ((w'.length ≤ w.maximum_file_bytes) ⊎ (w'.length ≡ min (fs.length line) u64_max))

  abbrev Emptied : RotatingWriter F → RotatingWriter F → Type 0
  Emptied w w' = (w'.maximum_file_bytes ≡ w.maximum_file_bytes) × (w'.length ≡ 0)

  abbrev Appended : B → RotatingWriter F → RotatingWriter F → Type 0
  Appended line w w' =
      (w'.maximum_file_bytes ≡ w.maximum_file_bytes)
      × (w'.length ≡ min (w.length + min (fs.length line) u64_max) u64_max)

  emptied-Emptied :
      (w : RotatingWriter F) (r : Outcome F) → After (Emptied w) (emptied fs (with_files fs w r))
  emptied-Emptied w (f, ok _) = (refl, refl)
  emptied-Emptied w (f, err _) = tt

  rotate-Emptied : (w : RotatingWriter F) → After (Emptied w) (rotate fs w)
  unfolding rotate
  rotate-Emptied w = emptied-Emptied w (
      and_then (or_stage flushing (fs.flush w.files)) (λ f.
        and_then (shift_all fs w.archive_count f) (λ f'. or_stage open_file (fs.open_append f'))))

  grown-Appended :
      (line : B) (w : RotatingWriter F) (r : Outcome F)
      → After (Appended line w) (grown fs (min (fs.length line) u64_max) (with_files fs w r))
  grown-Appended line w (f, ok _) = (refl, refl)
  grown-Appended line w (f, err _) = tt

  append-Appended : (line : B) (w : RotatingWriter F) → After (Appended line w) (append fs line w)
  unfolding append
  append-Appended line w = grown-Appended line w (
      and_then (or_stage writing (fs.write_all line w.files)) (λ f. or_stage flushing (fs.flush f)))

  -- Where no rotation is needed, or right after one.
  within-Fits :
      (line : B) (w w1 : RotatingWriter F)
      → needs_rotation fs w line ≡ false
      → Appended line w w1
      → Fits line w w1
  within-Fits line w w1 h (m, l) = ground (arith, h, m, l)

  single_line-Fits :
      (line : B) (w w1 w2 : RotatingWriter F) → Emptied w w1 → Appended line w1 w2 → Fits line w w2
  single_line-Fits line w w1 w2 (m, z) (m', l) = ground (arith, m, z, m', l)

  -- After a line is written, the length that the writer counts is at most its maximum, or it is that of
  -- this line alone; the maximum does not change.
  pub write_line-length :
      (line : B) (w : RotatingWriter F) → After (Fits line w) (write_line fs line w)
  unfolding write_line
  write_line-length line w = elim (Bool-cases (needs_rotation fs w line)) [
    | inl full ↦ rw full (
        and_then-After (Emptied w) (Fits line w) (rotate fs w) (append fs line) (rotate-Emptied w)
          (λ w1 z.
            After-map (Appended line w1) (Fits line w) (append fs line w1)
              (λ w2. single_line-Fits line w w1 w2 z) (append-Appended line w1)))
    | inr room ↦ rw room (
        After-map (Appended line w) (Fits line w) (append fs line w)
          (λ w1. within-Fits line w w1 room) (append-Appended line w))
  ]

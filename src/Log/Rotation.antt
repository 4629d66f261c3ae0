-- ===== src/Log/Rotation.antt =====
-- What a rotation does to the files.
use chiu.Common.{ℕ, suc, ◌<◌, ◌≡◌, refl, ◌∙◌, true, Option, some, arith}
use chiu.Common.Result.{ok, err}
use chiu.Log.Writer.{
  LogFile, current, archive, flushing, open_file, LogFiles, RotatingWriter, Outcome, or_stage,
  source_of, shift_all, rotate, with_files, emptied,
}
use chiu.Log.Shifting.{
  IsDirectory, After, After-map, and_then-After, or_stage-After, IsShifted, shift_all-IsShifted,
}

module _ {F B C : Type 0} (fs : LogFiles F B) (content : F → LogFile → Option C) (empty : C)
    (disk : IsDirectory fs content empty) where
  -- The files after a rotation.
  record IsRotated (w w' : RotatingWriter F) : Type 0 where
    moved :
        (i : ℕ)
        → i < w.archive_count
        → content w'.files (archive (suc i)) ≡ content w.files (source_of i)
    fresh : content w'.files current ≡ some empty
    above :
        (j : ℕ) → w.archive_count < j → content w'.files (archive j) ≡ content w.files (archive j)
    length : w'.length ≡ 0

  -- What the files of a rotation are.
  record IsTurned (n : ℕ) (f f' : F) : Type 0 where
    moved : (i : ℕ) → i < n → content f' (archive (suc i)) ≡ content f (source_of i)
    fresh : content f' current ≡ some empty
    above : (j : ℕ) → n < j → content f' (archive j) ≡ content f (archive j)

  opened_last :
      (n : ℕ) (f f1 f2 : F)
      → ((m : LogFile) → content f1 m ≡ content f m)
      → IsShifted fs content empty disk n f1 f2
      → (fs.open_append f2).1 ≡ true
      → IsTurned n f (fs.open_append f2).0
  opened_last n f f1 f2 k s h = record {
    moved = λ i l. disk.open_other f2 (archive (suc i)) (λ e. cc) ∙ s.moved i l ∙ k (source_of i);
    fresh = disk.opened f2 s.free h;
    above = λ j l. disk.open_other f2 (archive j) (λ e. cc) ∙ s.above j l ∙ k (archive j);
  }

  turned-IsRotated :
      (w : RotatingWriter F) (r : Outcome F)
      → After (IsTurned w.archive_count w.files) r
      → After (IsRotated w) (emptied fs (with_files fs w r))
  turned-IsRotated w (f, ok _) h = record {
    moved = h.moved;
    fresh = h.fresh;
    above = h.above;
    length = refl;
  }
  turned-IsRotated w (f, err _) h = tt

  rotate-IsRotated :
      (w : RotatingWriter F) → 0 < w.archive_count → After (IsRotated w) (rotate fs w)
  unfolding rotate
  rotate-IsRotated w h =
      let n = w.archive_count in
      let f = w.files in
      turned-IsRotated w _ (
        and_then-After (λ f1. (m : LogFile) → content f1 m ≡ content f m) (IsTurned n f)
          (or_stage flushing (fs.flush f)) _
          (or_stage-After (λ f1. (m : LogFile) → content f1 m ≡ content f m) flushing (fs.flush f)
            (λ _. disk.flushed f))
          (λ f1 k.
            and_then-After (IsShifted fs content empty disk n f1) (IsTurned n f) (shift_all fs n f1)
              _ (shift_all-IsShifted fs content empty disk n f1 h)
              (λ f2 s.
                or_stage-After (IsTurned n f) open_file (fs.open_append f2)
                  (opened_last n f f1 f2 k s))))

  -- A rotation that succeeds, where there is an archive to keep, loses only what the last archive
  -- held: an archive up to the count then holds what the file before it held, the current file is
  -- empty, an archive above the count is as it was, and the length is zero.
  pub rotate-archive :
      (w : RotatingWriter F) (i j : ℕ)
      → i < w.archive_count
      → w.archive_count < j
      → After
          (λ w'.
            (content w'.files (archive (suc i)) ≡ content w.files (source_of i))
            × (content w'.files current ≡ some empty)
            × (content w'.files (archive j) ≡ content w.files (archive j))
            × (w'.length ≡ 0))
          (rotate fs w)
  rotate-archive w i j h k =
      After-map (IsRotated w)
        (λ w'.
          (content w'.files (archive (suc i)) ≡ content w.files (source_of i))
          × (content w'.files current ≡ some empty)
          × (content w'.files (archive j) ≡ content w.files (archive j))
          × (w'.length ≡ 0))
        (rotate fs w) (λ w' r. (r.moved i h, r.fresh, r.above j k, r.length))
        (rotate-IsRotated w (omega arith))

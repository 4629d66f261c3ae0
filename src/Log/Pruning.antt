-- ===== src/Log/Pruning.antt =====
-- What opening the log removes of its directory.
use chiu.Common.{
  ℕ, ◌≤◌, ◌≡◌, ◌≢◌, arith, refl, ◌∙◌, Bool, true, false, Option, none, some, List, [], ◌∷◌,
  if◌then◌else◌, Bool-cases, inl, inr,
}
use chiu.Common.Result.{ok, err}
use chiu.Log.Writer.{prune, Outcome, and_then, or_stage}
use chiu.Log.Names.{IsArchive, archive_index_iff}
use chiu.Log.Opening.{
  LogDirectory, archive_index, is_outside, prune_entries, prune_listed, prune_owned_archives,
}

-- A removal touches only the file that it names, and where it succeeds that file is gone.
pub record IsRemoving {F C : Type 0} (fs : LogDirectory F) (content : F → List ℕ → Option C)
    : Type 0 where
  pub other :
      (n : List ℕ) (f : F) (m : List ℕ)
      → m ≢ n
      → content (fs.remove_if_exists n f).0 m ≡ content f m
  pub removed :
      (n : List ℕ) (f : F)
      → (fs.remove_if_exists n f).1 ≡ true
      → content (fs.remove_if_exists n f).0 n ≡ none

module _ {F C : Type 0} (fs : LogDirectory F) (content : F → List ℕ → Option C)
    (removing : IsRemoving fs content) (count : ℕ) (m : List ℕ) where
  module _ (kept : is_outside count (archive_index m) ≡ false) where
    -- Whether a step succeeds or not.
    abbrev Same : F → Outcome F → Type 0
    Same f (f', _) = content f' m ≡ content f m

    and_then-Same :
        (f : F) (r : Outcome F) (next : F → Outcome F)
        → Same f r
        → ((f1 : F) → Same f1 (next f1))
        → Same f (and_then r next)
    and_then-Same f (f1, ok _) next h k = k f1 ∙ h
    and_then-Same f (f1, err _) next h k = h

    or_stage-Same : (f : F) (r : F × Bool) → content r.0 m ≡ content f m → Same f (or_stage prune r)
    or_stage-Same f (f1, true) h = h
    or_stage-Same f (f1, false) h = h

    differs : (n : List ℕ) → is_outside count (archive_index n) ≡ true → m ≢ n
    differs n h e = cc

    prune_one-Same :
        (n : List ℕ) (f : F)
        → Same f (
            if is_outside count (archive_index n)
            then or_stage prune (fs.remove_if_exists n f)
            else (f, ok tt))
    prune_one-Same n f = elim (Bool-cases (is_outside count (archive_index n))) [
      | inl e ↦
          rw e (or_stage-Same f (fs.remove_if_exists n f) (removing.other n f m (differs n e)))
      | inr e ↦ rw e refl
    ]

    prune_entries-Same :
        (entries : List (Option (List ℕ))) (f : F) → Same f (prune_entries fs count entries f)
    unfolding prune_entries
    prune_entries-Same [] f = refl
    prune_entries-Same (none ∷ entries) f = refl
    prune_entries-Same (some n ∷ entries) f =
        and_then-Same f _ (prune_entries fs count entries) (prune_one-Same n f)
          (prune_entries-Same entries)

    prune_listed-Same :
        (names : Option (List (Option (List ℕ)))) (f : F) → Same f (prune_listed fs count names f)
    prune_listed-Same none f = refl
    prune_listed-Same (some entries) f = prune_entries-Same entries f

    prune_owned_archives-Same :
        (f : F) → content (prune_owned_archives fs count f).0 m ≡ content f m
    unfolding prune_owned_archives
    prune_owned_archives-Same f = prune_listed-Same (fs.read_dir f) f

  kept_index :
      (o : Option ℕ) → ((i : ℕ) → o ≡ some i → (1 ≤ i) × (i ≤ count)) → is_outside count o ≡ false
  kept_index none h = refl
  kept_index (some i) h = ground (arith, h i refl)

  -- Pruning, whether it succeeds or not, leaves a file as it was whose name is not that of an archive
  -- with the index 0 or one above the count: the files of others and the archives that are kept.
  pub prune_owned_archives-content :
      ((i : ℕ) → IsArchive m i → (1 ≤ i) × (i ≤ count))
      → (f : F) → content (prune_owned_archives fs count f).0 m ≡ content f m
  prune_owned_archives-content kept f =
      prune_owned_archives-Same
        (kept_index (archive_index m) (λ i e. kept i ((archive_index_iff m i).0 e))) f

-- ===== src/Log/Removal.antt =====
-- Opening the log removes the archives that it no longer keeps.
use chiu.Common.{
  ℕ, ◌<◌, ◌≡◌, ◌⊎◌, inl, inr, refl, sym, ap, ◌∙◌, subst, arith, Bool, true, false, Option, none,
  some, List, [], ◌∷◌, ◌++◌, if◌then◌else◌, Bool-cases,
}
use chiu.Common.Result.{ok, err}
use chiu.Common.Bytes.{same_bytes, same_bytes_eq, bytes_differ}
use chiu.Log.Writer.{prune, Outcome, and_then, or_stage}
use chiu.Log.Names.{IsArchive, archive_index_iff}
use chiu.Log.Opening.{LogDirectory, archive_index, is_outside, prune_entries, prune_owned_archives}
use chiu.Log.Pruning.{IsRemoving}

and_then_succeeds :
    {F : Type 0} (r : Outcome F) (next : F → Outcome F)
    → (and_then r next).1 ≡ ok tt
    → (r.1 ≡ ok tt) × ((next r.0).1 ≡ ok tt) × (and_then r next ≡ next r.0)
and_then_succeeds (f, ok tt) next h = (refl, h, refl)
and_then_succeeds (f, err e) next h = cc

or_stage_succeeds :
    {F : Type 0} (r : F × Bool)
    → (or_stage prune r).1 ≡ ok tt
    → (r.1 ≡ true) × ((or_stage prune r).0 ≡ r.0)
or_stage_succeeds (f, true) h = (refl, refl)
or_stage_succeeds (f, false) h = cc

module _ {F C : Type 0} (fs : LogDirectory F) (content : F → List ℕ → Option C)
    (removing : IsRemoving fs content) (count : ℕ) (m : List ℕ) where
  -- A file is gone after its own removal, and stays so over another's.
  removed_file :
      (n : List ℕ) (f : F)
      → (m ≡ n) ⊎ (content f m ≡ none)
      → (or_stage prune (fs.remove_if_exists n f)).1 ≡ ok tt
      → content (or_stage prune (fs.remove_if_exists n f)).0 m ≡ none
  removed_file n f h k =
      let (done, same) = or_stage_succeeds (fs.remove_if_exists n f) k in
      ap (λ f'. content f' m) same ∙ elim (Bool-cases (same_bytes m n)) [
        | inl e ↦
            subst (λ x. content (fs.remove_if_exists n f).0 x ≡ none) (sym (same_bytes_eq m n e))
              (removing.removed n f done)
        | inr e ↦ elim h [
          | inl own ↦ absurd (bytes_differ m n e own)
          | inr gone ↦ removing.other n f m (bytes_differ m n e) ∙ gone
        ]
      ]

  -- What a listing does with one entry.
  abbrev prune_one : Bool → List ℕ → F → Outcome F
  prune_one outside n f = if outside then or_stage prune (fs.remove_if_exists n f) else (f, ok tt)

  prune_one_gone :
      (outside : Bool) (n : List ℕ) (f : F)
      → content f m ≡ none
      → (prune_one outside n f).1 ≡ ok tt
      → content (prune_one outside n f).0 m ≡ none
  prune_one_gone true n f gone h = removed_file n f (inr gone) h
  prune_one_gone false n f gone h = gone

  prune_entries_gone :
      (entries : List (Option (List ℕ))) (f : F)
      → content f m ≡ none
      → (prune_entries fs count entries f).1 ≡ ok tt
      → content (prune_entries fs count entries f).0 m ≡ none
  unfolding prune_entries
  prune_entries_gone [] f gone h = gone
  prune_entries_gone (none ∷ entries) f gone h = cc
  prune_entries_gone (some n ∷ entries) f gone h =
      let one = prune_one (is_outside count (archive_index n)) n f in
      let (first, rest, e) = and_then_succeeds one (prune_entries fs count entries) h in
      ap (λ r. content r.0 m) e
      ∙ prune_entries_gone entries one.0
          (prune_one_gone (is_outside count (archive_index n)) n f gone first) rest

  prune_entries_removes :
      (before after : List (Option (List ℕ))) (f : F)
      → is_outside count (archive_index m) ≡ true
      → (prune_entries fs count (before ++ some m ∷ after) f).1 ≡ ok tt
      → content (prune_entries fs count (before ++ some m ∷ after) f).0 m ≡ none
  unfolding prune_entries
  prune_entries_removes [] after f outside h =
      let one = prune_one (is_outside count (archive_index m)) m f in
      let (first, rest, e) = and_then_succeeds one (prune_entries fs count after) h in
      ap (λ r. content r.0 m) e ∙ prune_entries_gone after one.0 (own_gone first) rest
    where
      own_gone :
          (prune_one (is_outside count (archive_index m)) m f).1 ≡ ok tt
          → content (prune_one (is_outside count (archive_index m)) m f).0 m ≡ none
      own_gone = rw outside (removed_file m f (inl refl))
  prune_entries_removes (none ∷ before) after f outside h = cc
  prune_entries_removes (some n ∷ before) after f outside h =
      let one = prune_one (is_outside count (archive_index n)) n f in
      let (first, rest, e) =
        and_then_succeeds one (prune_entries fs count (before ++ some m ∷ after)) h in
      ap (λ r. content r.0 m) e ∙ prune_entries_removes before after one.0 outside rest

  -- A pruning that succeeds leaves no file that the directory listed under an archive's name with
  -- the index 0 or one above the count.
  pub prune_owned_archives_removes :
      (i : ℕ) (before after : List (Option (List ℕ))) (f : F)
      → IsArchive m i
      → (i ≡ 0) ⊎ (count < i)
      → fs.read_dir f ≡ some (before ++ some m ∷ after)
      → (prune_owned_archives fs count f).1 ≡ ok tt
      → content (prune_owned_archives fs count f).0 m ≡ none
  unfolding prune_owned_archives
  prune_owned_archives_removes i before after f archive old listed h =
      let outside : is_outside count (archive_index m) ≡ true =
        rw ((archive_index_iff m i).1 archive) (ground (arith, old)) in
      rw listed (prune_entries_removes before after f outside (rw listed at h))

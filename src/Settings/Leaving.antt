-- ===== src/Settings/Leaving.antt =====
-- Which files an operation on the settings' directory leaves alone, and what a written file holds.
use chiu.Common.{
  ℕ, ◌≡◌, ◌≢◌, ◌⊎◌, inl, inr, refl, ap, ◌∙◌, Bool, true, false, Option, none, some, List, [], ◌∷◌,
  Bool-cases, suc, zero, All,
}
use Prim.Native.Nat.{Ordering}
use chiu.Common.Bytes.{starts_with, compare_bytes}
use chiu.Settings.{ArtifactWarning}
use chiu.Settings.Files.{
  FileSystem, Name, Removal, removed, missing, failed, primary_file, primary_temp_file,
  backup_temp_file, quarantine_prefix, and_then, succeeded, stale, write_synchronized,
  platform_atomic_replace, cleanup_stale_temporary_files, preserve_source, prune_quarantines,
  remove_files, quarantine_name, quarantines, insert_by, insert_name, sort, take_names, outdated,
  prune_names,
}
use chiu.Settings.Disk.{IsDisk, IsAtomic}

-- No settings file has a quarantine's name.
pub quarantine-other :
    (n m : Name)
    → starts_with quarantine_prefix n ≡ false
    → starts_with quarantine_prefix m ≡ true
    → n ≢ m
quarantine-other n m h k e = cc

pub quarantine_name-prefix :
    (timestamp sequence : ℕ)
    → starts_with quarantine_prefix (quarantine_name timestamp sequence) ≡ true
unfolding quarantine_name
quarantine_name-prefix timestamp sequence = refl

IsQuarantine : Name → Type 0
IsQuarantine n = starts_with quarantine_prefix n ≡ true

quarantines-All : (ns : List Name) → All IsQuarantine (quarantines ns)
unfolding IsQuarantine
quarantines-All [] = tt
quarantines-All (n ∷ ns) = elim (Bool-cases (starts_with quarantine_prefix n)) [
  | inl e ↦ rw e (e, quarantines-All ns)
  | inr e ↦ rw e (quarantines-All ns)
]

insert_by-All :
    (o : Ordering) (n m : Name) (ms later : List Name)
    → IsQuarantine n
    → All IsQuarantine (m ∷ ms)
    → All IsQuarantine later
    → All IsQuarantine (insert_by o n m ms later)
insert_by-All Ordering.lt n m ms later h k l = (h, k)
insert_by-All Ordering.eq n m ms later h k l = (h, k)
insert_by-All Ordering.gt n m ms later h k l = (k.0, l)

insert_name-All :
    (n : Name) (ns : List Name)
    → IsQuarantine n
    → All IsQuarantine ns
    → All IsQuarantine (insert_name n ns)
insert_name-All n [] h k = (h, tt)
insert_name-All n (m ∷ ms) h k =
    insert_by-All (compare_bytes n m) n m ms (insert_name n ms) h k (insert_name-All n ms h k.1)

sort-All : (ns : List Name) → All IsQuarantine ns → All IsQuarantine (sort ns)
sort-All [] h = tt
sort-All (n ∷ ns) h = insert_name-All n (sort ns) h.0 (sort-All ns h.1)

take_names-All : (k : ℕ) (ns : List Name) → All IsQuarantine ns → All IsQuarantine (take_names k ns)
take_names-All zero ns h = tt
take_names-All (suc k) [] h = tt
take_names-All (suc k) (n ∷ ns) h = (h.0, take_names-All k ns h.1)

pub and_then-succeeds :
    {F : Type 0} (r : F × Bool) (next : F → F × Bool)
    → (and_then r next).1 ≡ true
    → (r.1 ≡ true) × ((next r.0).1 ≡ true) × (and_then r next ≡ next r.0)
and_then-succeeds (f, true) next h = (refl, h, refl)
and_then-succeeds (f, false) next h = cc

stale-files : {F : Type 0} (r : F × Removal) (ws : List ArtifactWarning) → (stale r ws).0 ≡ r.0
stale-files (f, removed) ws = refl
stale-files (f, missing) ws = refl
stale-files (f, failed) ws = refl

module _ {F B : Type 0} (fs : FileSystem F B) (content : F → Name → Option B) (empty : B) where
  -- An operation leaves a file alone, whether it succeeds or not.
  abbrev pub Leaves : Name → F → F × Bool → Type 0
  Leaves m f (f', _) = content f' m ≡ content f m

  pub and_then-Leaves :
      (m : Name) (f : F) (r : F × Bool) (next : F → F × Bool)
      → Leaves m f r
      → ((f' : F) → Leaves m f' (next f'))
      → Leaves m f (and_then r next)
  and_then-Leaves m f (f1, false) next h k = h
  and_then-Leaves m f (f1, true) next h k = k f1 ∙ h

  module _ (disk : IsDisk content empty fs) where
    pub write_synchronized-Leaves :
        (m p : Name) (b : B) → m ≢ p → (f : F) → Leaves m f (write_synchronized fs p b f)
    unfolding write_synchronized
    write_synchronized-Leaves m p b h f =
        and_then-Leaves m f (and_then (fs.create p f) (fs.write_all p b)) (fs.sync_all p)
          (and_then-Leaves m f (fs.create p f) (fs.write_all p b) (disk.create_other p f m h)
            (λ f'. disk.write_other p b f' m h))
          (λ f'. disk.sync_all p f' m)

    pub written_synchronized :
        (p : Name) (b : B) (f : F)
        → (write_synchronized fs p b f).1 ≡ true
        → content (write_synchronized fs p b f).0 p ≡ some b
    unfolding write_synchronized
    written_synchronized p b f h =
        let r = fs.create p f in
        let (h1, synced, e1) =
          and_then-succeeds (and_then r (fs.write_all p b)) (fs.sync_all p) h in
        let (made, wrote, e2) = and_then-succeeds r (fs.write_all p b) h1 in
        rw (e1, e2)
          (disk.sync_all p (fs.write_all p b r.0).0 p
            ∙ disk.written p b r.0 (disk.created p f made) wrote)

    pub preserve_source-Leaves :
        (m : Name) (n : ℕ)
        → starts_with quarantine_prefix m ≡ false
        → (f : F) → Leaves m f (preserve_source fs n f)
    unfolding preserve_source
    preserve_source-Leaves m n h f =
        let name = quarantine_name (fs.now_millis f) n in
        and_then-Leaves m f (fs.copy primary_file name f) (fs.sync_all name)
          (disk.copy_other primary_file name f m
            (quarantine-other m name h (quarantine_name-prefix (fs.now_millis f) n)))
          (λ f'. disk.sync_all name f' m)

    succeeded-Leaves :
        (m : Name) (f f' : F) (r : Removal)
        → content f' m ≡ content f m
        → Leaves m f (succeeded (f', r))
    succeeded-Leaves m f f' removed h = h
    succeeded-Leaves m f f' missing h = h
    succeeded-Leaves m f f' failed h = h

    remove_files-Leaves :
        (m : Name) (ns : List Name)
        → starts_with quarantine_prefix m ≡ false
        → All IsQuarantine ns
        → (f : F) → Leaves m f (remove_files fs ns f)
    unfolding remove_files IsQuarantine
    remove_files-Leaves m [] h k f = refl
    remove_files-Leaves m (n ∷ ns) h k f =
        and_then-Leaves m f (succeeded (fs.remove_file n f)) (remove_files fs ns)
          (succeeded-Leaves m f (fs.remove_file n f).0 (fs.remove_file n f).1
            (disk.remove_other n f m (quarantine-other m n h k.0)))
          (remove_files-Leaves m ns h k.1)

    prune_names-Leaves :
        (m : Name)
        → starts_with quarantine_prefix m ≡ false
        → (names : Option (List Name)) (f : F) → Leaves m f (prune_names fs names f)
    prune_names-Leaves m h none f = refl
    prune_names-Leaves m h (some names) f =
        remove_files-Leaves m (outdated names) h
          (take_names-All _ (sort (quarantines names)) (sort-All _ (quarantines-All names))) f

    pub prune_quarantines-Leaves :
        (m : Name)
        → starts_with quarantine_prefix m ≡ false
        → (f : F) → Leaves m f (prune_quarantines fs f)
    unfolding prune_quarantines
    prune_quarantines-Leaves m h f = prune_names-Leaves m h (fs.read_dir f) f

    pub cleanup-primary :
        (f : F)
        → content (cleanup_stale_temporary_files fs f).0 primary_file ≡ content f primary_file
    unfolding cleanup_stale_temporary_files
    cleanup-primary f =
        let r1 = fs.remove_file primary_temp_file f in
        let kept = stale r1 [] in
        let r2 = fs.remove_file backup_temp_file kept.0 in
        ap (λ f'. content f' primary_file) (stale-files r2 kept.1)
        ∙ disk.remove_other backup_temp_file kept.0 primary_file (λ h. cc)
        ∙ ap (λ f'. content f' primary_file) (stale-files r1 [])
        ∙ disk.remove_other primary_temp_file f primary_file (λ h. cc)

  renamed_or_not :
      IsDisk content empty fs
      → (a b : Name) (f : F) (r : F × Bool) → (r.1 ≡ true → content r.0 b ≡ content f a)
      → (r.1 ≡ false → content r.0 b ≡ content f b)
      → (content (and_then r fs.sync_directory).0 b ≡ content f b)
        ⊎ (content (and_then r fs.sync_directory).0 b ≡ content f a)
  renamed_or_not disk a b f (f1, true) h k = inr (disk.sync_directory f1 b ∙ h refl)
  renamed_or_not disk a b f (f1, false) h k = inl (k refl)

  -- What the laws of the disk say of the macOS replacement.
  pub platform_atomic_replace-IsAtomic :
      IsDisk content empty fs
      → IsAtomic content empty (record { replace = platform_atomic_replace fs })
  unfolding platform_atomic_replace
  platform_atomic_replace-IsAtomic disk = record {
    other = λ a b f m ha hb.
        and_then-Leaves m f (fs.rename a b f) fs.sync_directory (disk.rename_other a b f m ha hb)
          (λ f'. disk.sync_directory f' m);
    replaced = λ a b f h.
        let (moved, synced, e) = and_then-succeeds (fs.rename a b f) fs.sync_directory h in
        rw e (disk.sync_directory (fs.rename a b f).0 b ∙ disk.renamed a b f moved);
    old_or_new = λ a b f.
        renamed_or_not disk a b f (fs.rename a b f) (disk.renamed a b f)
          (λ h. disk.rename_failed a b f h b);
  }

-- ===== src/Settings/Disk.antt =====
-- What the settings rely on of the file system, the replacement and serde_json, as laws on what each
-- file holds.
use chiu.Common.{◌≡◌, ◌≢◌, ◌⊎◌, true, false, Option, none, some}
use chiu.Settings.Persisted.{PersistedSettingsV1, to_value}
use chiu.Settings.Files.{FileSystem, Serde, AtomicReplace, Name, found, not_found}

module _ {F B : Type 0} (content : F → Name → Option B) (empty : B) where
  -- A call that fails may have changed the file that it was for, and no other.
  pub record IsDisk (fs : FileSystem F B) : Type 0 where
    pub read_found : (n : Name) (f : F) (b : B) → fs.read n f ≡ found b → content f n ≡ some b
    pub read_missing : (n : Name) (f : F) → fs.read n f ≡ not_found → content f n ≡ none
    pub create_dir_all : (f : F) (m : Name) → content (fs.create_dir_all f).0 m ≡ content f m
    pub create_other :
        (n : Name) (f : F) (m : Name) → m ≢ n → content (fs.create n f).0 m ≡ content f m
    pub created :
        (n : Name) (f : F) → (fs.create n f).1 ≡ true → content (fs.create n f).0 n ≡ some empty
    pub write_other :
        (n : Name) (b : B) (f : F) (m : Name)
        → m ≢ n
        → content (fs.write_all n b f).0 m ≡ content f m
    pub written :
        (n : Name) (b : B) (f : F)
        → content f n ≡ some empty
        → (fs.write_all n b f).1 ≡ true
        → content (fs.write_all n b f).0 n ≡ some b
    pub sync_all : (n : Name) (f : F) (m : Name) → content (fs.sync_all n f).0 m ≡ content f m
    pub sync_directory : (f : F) (m : Name) → content (fs.sync_directory f).0 m ≡ content f m
    pub rename_other :
        (a b : Name) (f : F) (m : Name)
        → m ≢ a
        → m ≢ b
        → content (fs.rename a b f).0 m ≡ content f m
    pub renamed :
        (a b : Name) (f : F)
        → (fs.rename a b f).1 ≡ true
        → content (fs.rename a b f).0 b ≡ content f a
    pub rename_failed :
        (a b : Name) (f : F)
        → (fs.rename a b f).1 ≡ false
        → (m : Name) → content (fs.rename a b f).0 m ≡ content f m
    pub copy_other :
        (a b : Name) (f : F) (m : Name) → m ≢ b → content (fs.copy a b f).0 m ≡ content f m
    pub remove_other :
        (n : Name) (f : F) (m : Name) → m ≢ n → content (fs.remove_file n f).0 m ≡ content f m

  -- The replacement is atomic: the destination holds what it held or what the source held.
  pub record IsAtomic (replacer : AtomicReplace F) : Type 0 where
    pub other :
        (a b : Name) (f : F) (m : Name)
        → m ≢ a
        → m ≢ b
        → content (replacer.replace a b f).0 m ≡ content f m
    pub replaced :
        (a b : Name) (f : F)
        → (replacer.replace a b f).1 ≡ true
        → content (replacer.replace a b f).0 b ≡ content f a
    pub old_or_new :
        (a b : Name) (f : F)
        → (content (replacer.replace a b f).0 b ≡ content f b)
          ⊎ (content (replacer.replace a b f).0 b ≡ content f a)

-- What is written is read as the value that stands for it.
pub record IsSerde {B : Type 0} (serde : Serde B) : Type 0 where
  pub from_slice-to_vec_pretty :
      (p : PersistedSettingsV1) (b : B)
      → serde.to_vec_pretty p ≡ some b
      → serde.from_slice b ≡ some (to_value p)

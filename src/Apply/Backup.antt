-- ===== src/Apply/Backup.antt =====
-- internal/configplan/plan.go: the backups that an apply makes before its commit.
pub mod Backed
mod Tests
use local_clash.Prelude.{
  String, Bool, true, false, not, List, [], ◌∷◌, Option, none, some, if◌then◌else◌,
}
use local_clash.Apply.Disk.{Disk, file_exists, copy_file}

pub record BackupResult : Type 0 where
  pub source : String
  pub backup : String

-- a file and the name of its backup
abbrev pub BackupTarget : Type 0
BackupTarget = String × String

abbrev pub with_backup :
    BackupResult → Option (List BackupResult) × Disk → Option (List BackupResult) × Disk
with_backup b (none, d) = (none, d)
with_backup b (some bs, d) = (some (b ∷ bs), d)

-- The loop of backupApplyTargets; `none` is an error of `copyFile`. `path` is filepath.Join with
-- the directory of the backups.
unfoldable pub backup_from :
    (String → String) → List BackupTarget → Disk → Option (List BackupResult) × Disk
unfolding file_exists copy_file
backup_from path [] d = (some [], d)
backup_from path ((source, name) ∷ rest) d =
    let (is_there, d₀) = file_exists source d in
    let skipped = backup_from path rest d₀ in
    let (is_copied, d₁) = copy_file source (path name) d₀ in
    let later = backup_from path rest d₁ in
    if not is_there
    then skipped
    else if is_copied
    then with_backup (record { source = source; backup = path name }) later
    else (none, d₁)

-- the targets of an apply, by the paths of its options
abbrev pub backup_targets : String → String → String → List BackupTarget
backup_targets config_path selection_path output_path =
    (config_path, "localclash-intent.json")
    ∷ (selection_path, "localclash-packs.gob")
    ∷ (output_path, "mihomo.yaml")
    ∷ []

unfoldable pub backup_apply_targets :
    (String → String) → String → String → String → Disk → Option (List BackupResult) × Disk
unfolding backup_from
backup_apply_targets path config_path selection_path output_path d =
    backup_from path (backup_targets config_path selection_path output_path) d

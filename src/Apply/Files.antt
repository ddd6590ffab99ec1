-- ===== src/Apply/Files.antt =====
-- internal/configplan/plan.go: the files of a commit, from the backups.
pub mod Restored
pub mod Whole
mod Tests
use local_clash.Prelude.{String, Bool, true, false, List, [], ◌∷◌, Option, none, some}
use local_clash.Prelude.Dict.{Dict, lookup, insert}
use local_clash.Apply.Disk.{Disk, file_exists}
use local_clash.Apply.Backup.{BackupResult}
use local_clash.Apply.Transaction.{ApplyCommitFile}

-- the loop that fills `backupBySource`
unfoldable pub backup_by_source : List BackupResult → Dict String → Dict String
unfolding insert
backup_by_source [] m = m
backup_by_source (b ∷ bs) m = backup_by_source bs (insert b.source b.backup m)

abbrev pub or_empty : Option String → String
or_empty none = ""
or_empty (some s) = s

-- an entry of `files`, with its temporary file
unfoldable pub commit_file : List BackupResult → Bool → String → String → ApplyCommitFile
unfolding backup_by_source lookup
commit_file bs exists target temp = record {
  target = target;
  temp = temp;
  backup = or_empty (lookup target (backup_by_source bs []));
  exists = exists;
}

-- `files` of commitApplyTargets, with the temporary files that it prepares
unfoldable pub commit_files :
    List BackupResult → Disk → List (String × String) → List ApplyCommitFile × Disk
unfolding commit_file file_exists
commit_files bs d [] = ([], d)
commit_files bs d ((target, temp) ∷ rest) =
    let (exists, d₁) = file_exists target d in
    let (files, d₂) = commit_files bs d₁ rest in (commit_file bs exists target temp ∷ files, d₂)

-- ===== src/Apply/Transaction.antt =====
-- internal/configplan/plan.go: commit and rollback of the files that an apply replaces.
pub mod Rollback
pub mod Atomic
pub mod Success
use local_clash.Prelude.{
  String, Bool, true, false, not, List, [], ◌∷◌, ◌++◌, ◌==◌, Option, none, some, if◌then◌else◌,
  is_empty,
}
use local_clash.Prelude.Text.{is_blank}
use local_clash.Prelude.Dict.{Dict, lookup, insert}
use local_clash.Apply.Disk.{Disk, rename, remove, sync_dir, sync_file, copy_file}

pub record ApplyCommitFile : Type 0 where
  pub target : String
  pub temp : String
  pub backup : String
  pub exists : Bool

pub data RollbackError : Type 0 where
  no_backup copy_failed sync_failed remove_failed dir_sync_failed : String → RollbackError

-- The error of `commitPreparedFiles`, with the errors of the rollback: none of them means "active
-- config rolled back".
pub data CommitError : Type 0 where
  commit_failed commit_sync_failed : String → List RollbackError → CommitError

abbrev error_unless : Bool → RollbackError → List RollbackError
error_unless true e = []
error_unless false e = e ∷ []

-- the end of a round: the sync of the file's directory
abbrev with_dir_sync : String → List RollbackError × Disk → List RollbackError × Disk
with_dir_sync target (errs, d) =
    let (synced, d') = sync_dir d in (errs ++ error_unless synced (dir_sync_failed target), d')

abbrev copied : String → Bool × Disk → List RollbackError × Disk
copied target (false, d) = (copy_failed target ∷ [], d)
copied target (true, d) =
    let (synced, d') = sync_file target d in
    with_dir_sync target (error_unless synced (sync_failed target), d')

abbrev removed : String → Bool × Disk → List RollbackError × Disk
removed target (ok_remove, d) =
    with_dir_sync target (error_unless ok_remove (remove_failed target), d)

-- one round of the loop of `rollbackCommittedFiles`
unfoldable pub rollback_file : ApplyCommitFile → Disk → List RollbackError × Disk
unfolding copy_file remove sync_file sync_dir
rollback_file f d =
    if f.exists
    then (if is_blank f.backup
        then (no_backup f.target ∷ [], d)
        else copied f.target (copy_file f.backup f.target d))
    else removed f.target (remove f.target d)

-- `rollbackCommittedFiles` goes through the committed files from the last to the first: here the
-- last one committed is the head of the list
unfoldable pub rollback_committed_files : List ApplyCommitFile → Disk → List RollbackError × Disk
rollback_committed_files [] d = ([], d)
rollback_committed_files (f ∷ committed) d =
    let (errs, d₁) = rollback_file f d in
    let (rest, d₂) = rollback_committed_files committed d₁ in (errs ++ rest, d₂)

abbrev pub rolled_back :
    (List RollbackError → CommitError) → List RollbackError × Disk → Option CommitError × Disk
rolled_back e (errs, d) = (some (e errs), d)

-- the loop of `commitPreparedFiles`
unfoldable pub commit_from :
    List ApplyCommitFile → List ApplyCommitFile → Disk → Option CommitError × Disk
commit_from [] committed d = (none, d)
commit_from (f ∷ files) committed d =
    let (renamed, d₁) = rename f.temp f.target d in
    let (synced, d₂) = sync_dir d₁ in
    let rest = commit_from files (f ∷ committed) d₂ in
    if not renamed
    then rolled_back (commit_failed f.target) (rollback_committed_files committed d₁)
    else if not synced
    then rolled_back (commit_sync_failed f.target) (rollback_committed_files (f ∷ committed) d₂)
    else rest

unfoldable pub commit_prepared_files : List ApplyCommitFile → Disk → Option CommitError × Disk
unfolding commit_from
commit_prepared_files files d = commit_from files [] d

-- ===== src/Apply/Transaction/Atomic.antt =====
-- The commit is all or nothing, as far as the file system lets the rollback work.
use local_clash.Prelude.{
  String, ◌≡◌, refl, sym, ◌∙◌, inl, inr, true, false, ◌||◌, List, [], ◌∷◌, ◌++◌, ◌==◌, arith, All,
  Bool-cases, Option, none, some, if◌then◌else◌, ap, some-injective, subst,
}
use local_clash.Prelude.Dict.{elem, elem-append}
use local_clash.Apply.Disk.{Disk, Files, update, rename, sync_dir}
use local_clash.Apply.Transaction.{
  ApplyCommitFile, RollbackError, CommitError, commit_failed, commit_sync_failed,
  rollback_committed_files, commit_from, commit_prepared_files, rolled_back,
}
use local_clash.Apply.Transaction.Rollback.{
  Restorable, Restorable-elsewhere, BackupsOutside, All-outside, targets_of, rollback-restores,
}

abbrev pub temps_of : List ApplyCommitFile → List String
temps_of [] = []
temps_of (f ∷ files) = f.temp ∷ temps_of files

-- The errors of the rollback that a failed commit made.
abbrev pub rollback_errors : CommitError → List RollbackError
rollback_errors (commit_failed target errs) = errs
rollback_errors (commit_sync_failed target errs) = errs

-- A rename moves its temp to its target, or changes nothing.
rename-files :
    (f : ApplyCommitFile) (d : Disk) (p : String)
    → (rename f.temp f.target d).1.files p ≡ (
        if (rename f.temp f.target d).0
        then (if f.temp == p then none else if f.target == p then d.files f.temp else d.files p)
        else d.files p)
unfolding rename update
rename-files f d p = ground arith

sync_dir-files : (d : Disk) → (sync_dir d).1.files ≡ d.files
unfolding sync_dir
sync_dir-files d = refl

-- What holds between two rounds: `done` are committed and `files` are still to come.
record Between (before : Files) (paths : List String) (done files : List ApplyCommitFile)
    (current : Files) : Type 0 where
  done_out : BackupsOutside paths done
  files_out : BackupsOutside paths files
  done_back : All (Restorable before current) done
  files_back : All (Restorable before current) files
  done_in : (p : String) → elem p paths ≡ false → elem p (targets_of done) ≡ false
  files_in :
      (p : String)
      → elem p paths ≡ false
      → (elem p (targets_of files) || elem p (temps_of files)) ≡ false
  rest :
      (p : String)
      → elem p (targets_of done) ≡ false
      → elem p (temps_of done) ≡ false
      → current p ≡ before p

rolls_back :
    (before : Files) (paths : List String) (done files : List ApplyCommitFile) (d : Disk)
    → Between before paths done files d.files
    → (rollback_committed_files done d).0 ≡ []
    → (p : String) → elem p (temps_of done) ≡ false
    → (rollback_committed_files done d).1.files p ≡ before p
rolls_back before paths done files d b e p k = ground (
  arith,
  b.rest p,
  rollback-restores before done d (All-outside paths (targets_of done) done b.done_in b.done_out)
      b.done_back e p,
)

pub renamed-files :
    (f : ApplyCommitFile) (d : Disk) (p : String)
    → (rename f.temp f.target d).0 ≡ true
    → (sync_dir (rename f.temp f.target d).1).1.files p
      ≡ (if f.temp == p then none else if f.target == p then d.files f.temp else d.files p)
renamed-files f d p e =
    ground (arith, sync_dir-files (rename f.temp f.target d).1, rename-files f d p)

outside_same :
    (before : Files) (paths : List String) (done files : List ApplyCommitFile) (f : ApplyCommitFile)
    (d : Disk)
    → Between before paths done (f ∷ files) d.files
    → (rename f.temp f.target d).0 ≡ true
    → (p : String) → elem p paths ≡ false
    → (sync_dir (rename f.temp f.target d).1).1.files p ≡ d.files p
unfolding elem
outside_same before paths done files f d b e p k =
    ground (arith, renamed-files f d p e, b.files_in p k)

next_round :
    (before : Files) (paths : List String) (done files : List ApplyCommitFile) (f : ApplyCommitFile)
    (d : Disk)
    → Between before paths done (f ∷ files) d.files
    → (rename f.temp f.target d).0 ≡ true
    → Between before paths (f ∷ done) files (sync_dir (rename f.temp f.target d).1).1.files
unfolding elem
next_round before paths done files f d b e =
    let d' = (sync_dir (rename f.temp f.target d).1).1 in
    let same = outside_same before paths done files f d b e in
    record {
      done_out = (b.files_out.0, b.done_out);
      files_out = b.files_out.1;
      done_back =
          Restorable-elsewhere before d.files d'.files paths (f ∷ done) same
            (b.files_out.0, b.done_out) (b.files_back.0, b.done_back);
      files_back =
          Restorable-elsewhere before d.files d'.files paths files same b.files_out.1
            b.files_back.1;
      done_in = λ p k. ground (arith, b.done_in p k, b.files_in p k);
      files_in = λ p k. ground (arith, b.files_in p k);
      rest = λ p k l. ground (arith, renamed-files f d p e, b.rest p);
    }

rename-fails :
    (f : ApplyCommitFile) (d : Disk)
    → (rename f.temp f.target d).0 ≡ false
    → (rename f.temp f.target d).1.files ≡ d.files
unfolding rename
rename-fails f d e = ground arith

pub commit-unmoved :
    (f : ApplyCommitFile) (files done : List ApplyCommitFile) (d : Disk)
    → (rename f.temp f.target d).0 ≡ false
    → commit_from (f ∷ files) done d
      ≡ rolled_back
          (commit_failed f.target)
          (rollback_committed_files done (rename f.temp f.target d).1)
unfolding commit_from
commit-unmoved f files done d e = ground arith

pub commit-unsynced :
    (f : ApplyCommitFile) (files done : List ApplyCommitFile) (d : Disk)
    → (rename f.temp f.target d).0 ≡ true
    → (sync_dir (rename f.temp f.target d).1).0 ≡ false
    → commit_from (f ∷ files) done d
      ≡ rolled_back
          (commit_sync_failed f.target)
          (rollback_committed_files (f ∷ done) (sync_dir (rename f.temp f.target d).1).1)
unfolding commit_from
commit-unsynced f files done d e s = ground arith

pub commit-moved :
    (f : ApplyCommitFile) (files done : List ApplyCommitFile) (d : Disk)
    → (rename f.temp f.target d).0 ≡ true
    → (sync_dir (rename f.temp f.target d).1).0 ≡ true
    → commit_from (f ∷ files) done d
      ≡ commit_from files (f ∷ done) (sync_dir (rename f.temp f.target d).1).1
unfolding commit_from
commit-moved f files done d e s = ground arith

-- A failed round whose rollback reports no error leaves the content of every path but the temps.
failure-restores :
    (before : Files) (paths : List String) (done files : List ApplyCommitFile) (d : Disk)
    (to_error : List RollbackError → CommitError) (e : CommitError)
    → Between before paths done files d.files
    → ((errs : List RollbackError) → rollback_errors (to_error errs) ≡ errs)
    → (rolled_back to_error (rollback_committed_files done d)).0 ≡ some e
    → rollback_errors e ≡ []
    → (p : String) → elem p (temps_of done) ≡ false
    → (rolled_back to_error (rollback_committed_files done d)).1.files p ≡ before p
failure-restores before paths done files d to_error e b errors h r p k =
    rolls_back before paths done files d b
      (sym (errors (rollback_committed_files done d).0)
        ∙ (ap rollback_errors (some-injective _ _ h) ∙ r))
      p k

commit_from-restores :
    (before : Files) (paths : List String) (done files : List ApplyCommitFile) (d : Disk)
    (e : CommitError)
    → Between before paths done files d.files
    → (commit_from files done d).0 ≡ some e
    → rollback_errors e ≡ []
    → (p : String) → elem p (temps_of done) ≡ false
    → elem p (temps_of files) ≡ false
    → (commit_from files done d).1.files p ≡ before p
unfolding commit_from elem
commit_from-restores before paths done [] d e b h r p k l = ground arith
commit_from-restores before paths done (f ∷ files) d e b h r p k l =
    let renamed = rename f.temp f.target d in
    let synced = sync_dir renamed.1 in
    elim (Bool-cases renamed.0) [
      | inr failed ↦
          let step = commit-unmoved f files done d failed in
          ap (λ (r : Option CommitError × Disk). r.1.files p) step
          ∙ failure-restores before paths done (f ∷ files) renamed.1 (commit_failed f.target) e
              (subst (Between before paths done (f ∷ files)) (sym (rename-fails f d failed)) b)
              (λ errs. refl) (sym (ap (λ (r : Option CommitError × Disk). r.0) step) ∙ h) r p k
      | inl moved ↦
          let b' = next_round before paths done files f d b moved in
          elim (Bool-cases synced.0) [
            | inr failed ↦
                let step = commit-unsynced f files done d moved failed in
                ap (λ (r : Option CommitError × Disk). r.1.files p) step
                ∙ failure-restores before paths (f ∷ done) files synced.1
                    (commit_sync_failed f.target) e b' (λ errs. refl)
                    (sym (ap (λ (r : Option CommitError × Disk). r.0) step) ∙ h) r p (ground arith)
            | inl moved_on ↦
                let step = commit-moved f files done d moved moved_on in
                ap (λ (r : Option CommitError × Disk). r.1.files p) step
                ∙ commit_from-restores before paths (f ∷ done) files synced.1 e b'
                    (sym (ap (λ (r : Option CommitError × Disk). r.0) step) ∙ h) r p (ground arith)
                    (ground arith)
          ]
    ]

-- If a commit fails and its rollback reports no error, then every path that is no temporary file
-- has the content from before the commit. Each entry has a backup of its target or records that
-- the target did not exist, and the backups are neither targets nor temporary files.
pub commit_prepared_files-restores :
    (files : List ApplyCommitFile) (d : Disk) (e : CommitError)
    → BackupsOutside (targets_of files ++ temps_of files) files
    → All (Restorable d.files d.files) files
    → (commit_prepared_files files d).0 ≡ some e
    → rollback_errors e ≡ []
    → (p : String) → elem p (temps_of files) ≡ false
    → (commit_prepared_files files d).1.files p ≡ d.files p
unfolding commit_prepared_files elem
commit_prepared_files-restores files d e out back h r p k =
    commit_from-restores d.files (targets_of files ++ temps_of files) [] files d e
      record {
        done_out = tt;
        files_out = out;
        done_back = tt;
        files_back = back;
        done_in = λ q l. refl;
        files_in = λ q l. ground (arith, elem-append q (targets_of files) (temps_of files));
        rest = λ q l m. refl;
      }
      h r p refl k

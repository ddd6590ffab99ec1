-- ===== src/Apply/Tests.antt =====
-- A commit of two files: one run that fails at the second rename, and one that succeeds.
use local_clash.Prelude.{
  String, ◌≡◌, refl, true, false, List, [], ◌∷◌, ◌==◌, All, none, some, inl, inr, if◌then◌else◌,
}
use local_clash.Prelude.Dict.{elem}
use local_clash.Apply.Disk.{
  Disk, Files, succeeds, fails, update, rename, sync_dir, sync_file, copy_file, remove, write_file,
}
use local_clash.Apply.Transaction.{
  ApplyCommitFile, rollback_file, rollback_committed_files, commit_from, commit_prepared_files,
  commit_failed,
}
use local_clash.Apply.Transaction.Atomic.{commit_prepared_files-restores}
use local_clash.Apply.Transaction.Success.{paths_of, commit_prepared_files-moves}

-- Everything that a run of the commit computes with.
commit_run : Unit {0}
unfolding elem update rename sync_dir sync_file copy_file remove write_file rollback_file
    rollback_committed_files commit_from commit_prepared_files
commit_run = tt

abbrev stored : Files
stored p =
    if p == "config"
    then some "old config"
    else if p == "backup/config"
    then some "old config"
    else if p == ".config.tmp"
    then some "new config"
    else if p == ".mihomo.tmp"
    then some "new mihomo"
    else none

abbrev config_file : ApplyCommitFile
config_file = record {
  target = "config";
  temp = ".config.tmp";
  backup = "backup/config";
  exists = true;
}

abbrev mihomo_file : ApplyCommitFile
mihomo_file = record { target = "mihomo"; temp = ".mihomo.tmp"; backup = ""; exists = false }

abbrev two_files : List ApplyCommitFile
two_files = config_file ∷ mihomo_file ∷ []

abbrev failing_disk : Disk
failing_disk = record {
  files = stored;
  answers = succeeds ∷ succeeds ∷ fails none ∷ [];
  stats = [];
}

abbrev working_disk : Disk
working_disk = record { files = stored; answers = []; stats = [] }

commit_prepared_files-restores_example :
    (commit_prepared_files two_files failing_disk).1.files "config" ≡ some "old config"
unfolding commit_run
commit_prepared_files-restores_example =
    commit_prepared_files-restores two_files failing_disk (commit_failed "mihomo" [])
      (refl, (refl, tt)) (inl (refl, refl, refl), (inr (refl, refl), tt)) refl refl "config" refl

commit_prepared_files-moves_example :
    All
      (λ f.
        ((commit_prepared_files two_files working_disk).1.files f.target ≡ stored f.temp)
        × ((commit_prepared_files two_files working_disk).1.files f.temp ≡ none))
      two_files
    × ((p : String)
        → elem p (paths_of two_files) ≡ false
        → (commit_prepared_files two_files working_disk).1.files p ≡ stored p)
unfolding commit_run
commit_prepared_files-moves_example =
    commit_prepared_files-moves two_files working_disk (refl, (refl, (refl, (refl, tt)))) refl

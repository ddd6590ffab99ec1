-- ===== src/Apply/Files/Tests.antt =====
-- An apply of two files whose second rename fails.
use local_clash.Prelude.{
  String, ◌≡◌, refl, true, false, List, [], ◌∷◌, ◌==◌, ◌<>◌, ◌||◌, none, some, inl, inr,
  if◌then◌else◌, arith,
}
use local_clash.Prelude.Dict.{elem, lookup, insert}
use local_clash.Apply.Disk.{
  Disk, succeeds, fails, update, rename, remove, sync_dir, sync_file, copy_file, write_file,
  file_exists,
}
use local_clash.Apply.Backup.{BackupResult, BackupTarget, backup_from}
use local_clash.Apply.Files.{backup_by_source, commit_file, commit_files}
use local_clash.Apply.Files.Restored.{with_temps}
use local_clash.Apply.Files.Whole.{apply-restores}
use local_clash.Apply.Transaction.{
  ApplyCommitFile, rollback_file, rollback_committed_files, commit_from, commit_prepared_files,
  commit_failed,
}

-- Everything that an apply computes with.
apply_run : Unit {0}
unfolding elem lookup insert update rename remove sync_dir sync_file copy_file write_file
    file_exists backup_from backup_by_source commit_file commit_files rollback_file
    rollback_committed_files commit_from commit_prepared_files
apply_run = tt

abbrev two_targets : List BackupTarget
two_targets = ("intent", "intent.json") ∷ ("config", "mihomo.yaml") ∷ []

abbrev path_of : String → String
path_of name = "backup/" <> name

abbrev temp_of : String → String
temp_of target = "." <> target

abbrev start : Disk
start = record {
  files = λ p. if p == "intent" then some "I" else none;
  answers = [];
  stats = true ∷ true ∷ [];
}

abbrev made : List BackupResult
made = record { source = "intent"; backup = "backup/intent.json" } ∷ []

abbrev backed_up : Disk
unfolding apply_run
backed_up = (backup_from path_of two_targets start).1

abbrev prepared : Disk
unfolding apply_run
prepared = record {
  files = update (update backed_up.files ".intent" (some "new I")) ".config" (some "new C");
  answers = succeeds ∷ succeeds ∷ fails none ∷ [];
  stats = [];
}

abbrev two_files : List ApplyCommitFile
unfolding apply_run
two_files = (commit_files made backed_up (with_temps path_of temp_of two_targets)).0

prepared-files :
    (p : String)
    → (".intent" == p || (".config" == p || false)) ≡ false
    → prepared.files p ≡ backed_up.files p
unfolding update prepared backed_up
prepared-files p h =
    let other_config : (".config" == p) ≡ false = ground arith in
    let other_intent : (".intent" == p) ≡ false = ground arith in
    rw (other_config, other_intent) refl

apply-restores_example : (commit_prepared_files two_files prepared).1.files "intent" ≡ some "I"
unfolding apply_run
apply-restores_example =
    apply-restores path_of two_targets start made backed_up temp_of prepared
      (commit_failed "config" []) (refl, (refl, tt), (refl, tt, tt)) (refl, (refl, tt))
      (((inr refl, (inl refl, tt)), refl, refl), (((inl refl, (inr refl, tt)), refl, refl), tt))
      refl prepared-files (refl, (refl, tt)) (refl, (refl, tt)) refl refl "intent" refl refl

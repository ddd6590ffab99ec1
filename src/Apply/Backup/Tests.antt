-- ===== src/Apply/Backup/Tests.antt =====
-- A backup of two files of three.
use local_clash.Prelude.{
  String, ◌≡◌, refl, List, [], ◌∷◌, ◌==◌, ◌<>◌, All, none, some, if◌then◌else◌, true, false,
}
use local_clash.Prelude.Dict.{elem}
use local_clash.Apply.Disk.{Disk, update, write_file, sync_dir, copy_file, file_exists}
use local_clash.Apply.Backup.{BackupResult, backup_targets, backup_from, backup_apply_targets}
use local_clash.Apply.Backup.Backed.{IsBacked, backup_paths, backup_apply_targets-Backed}

backup_run : Unit {0}
unfolding elem update write_file sync_dir copy_file file_exists backup_from backup_apply_targets
backup_run = tt

abbrev sample_disk : Disk
sample_disk = record {
  files = λ p. if p == "intent" then some "I" else if p == "config" then some "C" else none;
  answers = [];
  stats = true ∷ true ∷ true ∷ [];
}

abbrev at : String → String
at name = "backup/" <> name

abbrev made : List BackupResult
made =
    record { source = "intent"; backup = "backup/localclash-intent.json" }
    ∷ record { source = "config"; backup = "backup/mihomo.yaml" }
    ∷ []

abbrev after : Disk
unfolding backup_run
after = (backup_apply_targets at "intent" "packs" "config" sample_disk).1

backup_apply_targets-Backed_example :
    All (IsBacked at sample_disk.files made after.files) (backup_targets "intent" "packs" "config")
    × ((p : String)
        → elem p (backup_paths at (backup_targets "intent" "packs" "config")) ≡ false
        → after.files p ≡ sample_disk.files p)
unfolding backup_run
backup_apply_targets-Backed_example =
    backup_apply_targets-Backed at "intent" "packs" "config" sample_disk made after
      (refl, (refl, (refl, tt)), (refl, (refl, tt), (refl, tt, tt))) (refl, (refl, (refl, tt))) refl

-- ===== src/Apply/Files/Whole.antt =====
-- The backup and the commit of an apply together.
use local_clash.Prelude.{
  String, ◌≡◌, sym, ◌∙◌, false, List, [], ◌∷◌, ◌++◌, All, some, inl, inr, arith,
}
use local_clash.Prelude.Dict.{elem, elem-append}
use local_clash.Apply.Disk.{Disk, Files, file_exists, tick_stat}
use local_clash.Apply.Backup.{BackupResult, BackupTarget, backup_from}
use local_clash.Apply.Backup.Backed.{Apart, StatsWork, backup_paths, backup_from-Backed}
use local_clash.Apply.Files.{commit_file, commit_files}
use local_clash.Apply.Files.Restored.{IsWell, with_temps, commit_files-Restorable}
use local_clash.Apply.Transaction.{ApplyCommitFile, CommitError, commit_prepared_files}
use local_clash.Apply.Transaction.Rollback.{Restorable, BackupsOutside, targets_of}
use local_clash.Apply.Transaction.Atomic.{temps_of, rollback_errors, commit_prepared_files-restores}

Restorable-later :
    (before files before' files' : Files) (f : ApplyCommitFile)
    → before' f.target ≡ before f.target
    → files' f.backup ≡ files f.backup
    → Restorable before files f
    → Restorable before' files' f
Restorable-later before files before' files' f b c (inl (there, named, content)) =
    inl (there, named, c ∙ content ∙ sym b)
Restorable-later before files before' files' f b c (inr (absent, missing)) =
    inr (absent, b ∙ missing)

-- No target is a temporary file.
abbrev pub TargetsOutside : List String → List ApplyCommitFile → Type 0
TargetsOutside temps = All (λ (f : ApplyCommitFile). elem f.target temps ≡ false)

-- What can be restored after the backup can be restored after the temporary files are written.
prepared-Restorable :
    (before files files' : Files) (paths temps : List String) (fs : List ApplyCommitFile)
    → ((p : String) → elem p temps ≡ false → files' p ≡ files p)
    → BackupsOutside (paths ++ temps) fs
    → TargetsOutside temps fs
    → All (λ (f : ApplyCommitFile). files f.target ≡ before f.target) fs
    → All (Restorable before files) fs
    → All (Restorable files' files') fs
prepared-Restorable before files files' paths temps [] same out apart kept h = tt
prepared-Restorable before files files' paths temps (f ∷ fs) same out apart kept h =
    let backup_out : elem f.backup temps ≡ false =
      ground (arith, elem-append f.backup paths temps, out.0) in
    (
      Restorable-later before files files' files' f (same f.target apart.0 ∙ kept.0)
          (same f.backup backup_out) h.0,
      prepared-Restorable before files files' paths temps fs same out.1 apart.1 kept.1 h.1,
    )

module _ (path : String → String) where
  targets-kept :
      (all : List BackupTarget) (bs : List BackupResult) (before : Files) (d : Disk)
      (temp : String → String) (targets : List BackupTarget)
      → ((p : String) → elem p (backup_paths path all) ≡ false → d.files p ≡ before p)
      → All (IsWell path all) targets
      → All
          (λ (f : ApplyCommitFile). d.files f.target ≡ before f.target)
          (commit_files bs d (with_temps path temp targets)).0
  unfolding commit_files commit_file file_exists
  targets-kept all bs before d temp [] outside well = tt
  targets-kept all bs before d temp (t ∷ ts) outside well =
      (outside t.0 well.0.2, targets-kept all bs before (tick_stat d) temp ts outside well.1)

  -- If every os.Stat works, an apply whose backup succeeds, whose preparation writes temporary
  -- files only, and whose commit fails with a rollback that reports no error, leaves every path as
  -- it was before the backup, but for the backups and the temporary files. These are paths of
  -- their own.
  pub apply-restores :
      (targets : List BackupTarget) (d : Disk) (bs : List BackupResult) (d₁ : Disk)
      (temp : String → String) (d₂ : Disk) (e : CommitError)
      → Apart path targets
      → StatsWork d
      → All (IsWell path targets) targets
      → backup_from path targets d ≡ (some bs, d₁)
      → ((p : String)
          → elem p (temps_of (commit_files bs d₁ (with_temps path temp targets)).0) ≡ false
          → d₂.files p ≡ d₁.files p)
      → BackupsOutside
          (targets_of (commit_files bs d₁ (with_temps path temp targets)).0
            ++ temps_of (commit_files bs d₁ (with_temps path temp targets)).0)
          (commit_files bs d₁ (with_temps path temp targets)).0
      → TargetsOutside
          (temps_of (commit_files bs d₁ (with_temps path temp targets)).0)
          (commit_files bs d₁ (with_temps path temp targets)).0
      → (commit_prepared_files (commit_files bs d₁ (with_temps path temp targets)).0 d₂).0 ≡ some e
      → rollback_errors e ≡ []
      → (p : String)
      → elem p (temps_of (commit_files bs d₁ (with_temps path temp targets)).0) ≡ false
      → elem p (backup_paths path targets) ≡ false
      → (commit_prepared_files (commit_files bs d₁ (with_temps path temp targets)).0 d₂).1.files p
        ≡ d.files p
  apply-restores targets d bs d₁ temp d₂ e apart works well backup same out clear failed clean p
        no_temp no_backup =
      let fs = (commit_files bs d₁ (with_temps path temp targets)).0 in
      let outside = (backup_from-Backed path targets d bs d₁ apart works backup).0.1 in
      let restorable = commit_files-Restorable path targets d bs d₁ temp apart works well backup in
      let later =
        prepared-Restorable d.files d₁.files d₂.files (targets_of fs) (temps_of fs) fs same out
          clear (targets-kept targets bs d.files d₁ temp targets outside well) restorable in
      commit_prepared_files-restores fs d₂ e out later failed clean p no_temp
      ∙ same p no_temp
      ∙ outside p no_backup

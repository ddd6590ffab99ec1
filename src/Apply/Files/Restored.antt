-- ===== src/Apply/Files/Restored.antt =====
-- A commit after its backup can be rolled back.
use local_clash.Prelude.{
  String, ◌≡◌, ◌⊎◌, refl, sym, ap, ◌∙◌, subst, true, false, List, [], ◌∷◌, ◌==◌, eq_iff, arith, All,
  Bool-cases, Option-cases, inl, inr, Option, some, some-injective, is_some, ◌&&◌,
}
use local_clash.Prelude.Text.{is_blank}
use local_clash.Prelude.Dict.{Dict, lookup, insert, lookup-insert, elem}
use local_clash.Apply.Disk.{Disk, Files, copy_file, file_exists, next_stat, tick_stat}
use local_clash.Apply.Backup.{BackupResult, BackupTarget, with_backup, backup_from}
use local_clash.Apply.Backup.Backed.{
  has_backup, with_backup-some, IsBacked, Apart, backup_paths, backup_from-Backed, StatsWork,
  next_stat-true,
}
use local_clash.Apply.Files.{backup_by_source, or_empty, commit_file, commit_files}
use local_clash.Apply.Transaction.Rollback.{Restorable}

-- Every entry of this file has this backup.
abbrev Uniform : String → String → List BackupResult → Type 0
Uniform source backup =
    All (λ (b : BackupResult). ((b.source == source) ≡ false) ⊎ (b.backup ≡ backup))

kept :
    (source backup : String) (bs : List BackupResult) (m : Dict String)
    → Uniform source backup bs
    → lookup source m ≡ some backup
    → lookup source (backup_by_source bs m) ≡ some backup
unfolding backup_by_source
kept source backup [] m same h = h
kept source backup (b ∷ bs) m (inl other, same) h =
    kept source backup bs (insert b.source b.backup m) same (rw (lookup-insert, other) h)
kept source backup (b ∷ bs) m (inr here, same) h =
    kept source backup bs (insert b.source b.backup m) same
      (ground (arith, lookup-insert b.source source b.backup m))

found :
    (source backup : String) (bs : List BackupResult) (m : Dict String)
    → Uniform source backup bs
    → has_backup source backup bs ≡ true
    → lookup source (backup_by_source bs m) ≡ some backup
unfolding backup_by_source
found source backup [] m same h = cc
found source backup (b ∷ bs) m same h =
    elim (Bool-cases (b.source == source && b.backup == backup)) [
      | inl here ↦
          kept source backup bs (insert b.source b.backup m) same.1
            (ground (arith, lookup-insert b.source source b.backup m, eq_iff b.backup backup))
      | inr elsewhere ↦ found source backup bs (insert b.source b.backup m) same.1 (ground arith)
    ]

module _ (path : String → String) where
  -- No other file of the list has the same path, or its backup is the same.
  abbrev pub IsOwn : String → String → List BackupTarget → Type 0
  IsOwn source backup = All (λ (t : BackupTarget). ((t.0 == source) ≡ false) ⊎ (path t.1 ≡ backup))

  backup_from-Uniform :
      (source backup : String) (targets : List BackupTarget) (d : Disk) (bs : List BackupResult)
      (d' : Disk)
      → IsOwn source backup targets
      → backup_from path targets d ≡ (some bs, d')
      → Uniform source backup bs
  unfolding backup_from file_exists
  backup_from-Uniform source backup [] d bs d' own h =
      subst (Uniform source backup)
        (some-injective _ _ (ap (λ (r : Option (List BackupResult) × Disk). r.0) h)) tt
  backup_from-Uniform source backup ((s, name) ∷ rest) d bs d' own h =
      let copy = copy_file s (path name) (tick_stat d) in
      elim (Bool-cases (next_stat d.stats && is_some (d.files s))) [
        | inr missing ↦
            let skipped : backup_from path rest (tick_stat d) ≡ (some bs, d') = ground arith in
            backup_from-Uniform source backup rest (tick_stat d) bs d' own.1 skipped
        | inl there ↦ elim (Bool-cases copy.0) [
          | inr failed ↦ ground arith
          | inl is_copied ↦
              let done : with_backup (record { source = s; backup = path name })
                    (backup_from path rest copy.1)
                  ≡ (some bs, d') =
                ground arith in
              let (later, ran, all) =
                with_backup-some path (record { source = s; backup = path name })
                  (backup_from path rest copy.1) bs d' done in
              subst (Uniform source backup) all
                (own.0, backup_from-Uniform source backup rest copy.1 later d' own.1 ran)
        ]
      ]

  commit_file-Restorable :
      (bs : List BackupResult) (before files : Files) (target temp name : String)
      → IsBacked path before bs files (target, name)
      → Uniform target (path name) bs
      → is_blank (path name) ≡ false
      → files target ≡ before target
      → Restorable before files (commit_file bs (is_some (files target)) target temp)
  unfolding commit_file
  commit_file-Restorable bs before files target temp name (inl missing) same named kept =
      inr (ap is_some (kept ∙ missing), missing)
  commit_file-Restorable bs before files target temp name (inr (listed, content)) same named kept =
      let at : or_empty (lookup target (backup_by_source bs [])) ≡ path name =
        ap or_empty (found target (path name) bs [] same listed) in
      elim (Option-cases (before target)) [
        | inl missing ↦ inr (ap is_some (kept ∙ missing), missing)
        | inr (text, there) ↦
            inl (ap is_some (kept ∙ there), ap is_blank at ∙ named, ap files at ∙ content)
      ]

  -- the target with the temporary file that is prepared for it
  abbrev pub with_temps : (String → String) → List BackupTarget → List (String × String)
  with_temps temp [] = []
  with_temps temp (t ∷ ts) = (t.0, temp t.0) ∷ with_temps temp ts

  -- Each path has one backup, with a name, and no backup stands at a file of the apply.
  abbrev pub IsWell : List BackupTarget → BackupTarget → Type 0
  IsWell all t =
      IsOwn t.0 (path t.1) all
      × (is_blank (path t.1) ≡ false)
      × (elem t.0 (backup_paths path all) ≡ false)

  entries-Restorable :
      (all : List BackupTarget) (bs : List BackupResult) (before : Files) (d : Disk)
      (temp : String → String) (targets : List BackupTarget)
      → ((source backup : String) → IsOwn source backup all → Uniform source backup bs)
      → ((p : String) → elem p (backup_paths path all) ≡ false → d.files p ≡ before p)
      → StatsWork d
      → All (IsWell all) targets
      → All (IsBacked path before bs d.files) targets
      → All (Restorable before d.files) (commit_files bs d (with_temps temp targets)).0
  unfolding commit_files file_exists
  entries-Restorable all bs before d temp [] own outside works well backed = tt
  entries-Restorable all bs before d temp (t ∷ ts) own outside works well backed =
      let (look, later_works) = next_stat-true d.stats works in
      let exists : (next_stat d.stats && is_some (d.files t.0)) ≡ is_some (d.files t.0) =
        rw look refl in
      let first =
        commit_file-Restorable bs before d.files t.0 (temp t.0) t.1 backed.0
          (own t.0 (path t.1) well.0.0) well.0.1 (outside t.0 well.0.2) in
      (
        subst (λ e. Restorable before d.files (commit_file bs e t.0 (temp t.0))) (sym exists) first,
        entries-Restorable all bs before (tick_stat d) temp ts own outside later_works well.1
            backed.1,
      )

  -- After a backup without an error every entry of the commit can be restored, if every os.Stat
  -- works: a file that is there has a backup with its content, and another did not exist before.
  -- The backups stand at paths of their own.
  pub commit_files-Restorable :
      (targets : List BackupTarget) (d : Disk) (bs : List BackupResult) (d' : Disk)
      (temp : String → String)
      → Apart path targets
      → StatsWork d
      → All (IsWell targets) targets
      → backup_from path targets d ≡ (some bs, d')
      → All (Restorable d.files d'.files) (commit_files bs d' (with_temps temp targets)).0
  commit_files-Restorable targets d bs d' temp apart works well h =
      let ((backed, outside), works') = backup_from-Backed path targets d bs d' apart works h in
      entries-Restorable targets bs d.files d' temp targets
        (λ source backup own. backup_from-Uniform source backup targets d bs d' own h) outside
        works' well backed

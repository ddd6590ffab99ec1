-- ===== src/Apply/Backup/Backed.antt =====
-- What a backup holds.
use local_clash.Prelude.{
  ◌||◌, ◌&&◌, String, ◌≡◌, ◌⊎◌, refl, sym, ap, ◌∙◌, subst, true, false, List, [], ◌∷◌, ◌==◌,
  eq_refl, arith, All, Bool-cases, Option-cases, inl, inr, Bool, Option, none, some, some-injective,
  is_some,
}
use local_clash.Prelude.Dict.{elem}
use local_clash.Apply.Disk.{
  Disk, Files, Answer, succeeds, fails, next_answer, tick, is_success, update, write_file, write_as,
  write_read, sync_dir, copy_file, file_exists, next_stat, later_stats, tick_stat,
}
use local_clash.Apply.Backup.{
  BackupResult, BackupTarget, with_backup, backup_from, backup_targets, backup_apply_targets,
}

write_as-files :
    (answer : Answer) (path : String) (text : Option String) (d d' : Disk)
    → write_as answer path text d ≡ (true, d')
    → d'.files ≡ update d.files path text
write_as-files succeeds path text d d' h = sym (ap (λ (r : Bool × Disk). r.1.files) h)
write_as-files (fails left) path text d d' h = cc

write_read-files :
    (text : Option String) (destination : String) (made : Bool) (d d' : Disk)
    → write_read text destination made d ≡ (true, d')
    → d'.files ≡ update d.files destination text
unfolding write_file
write_read-files none destination made d d' h = cc
write_read-files (some text) destination false d d' h = cc
write_read-files (some text) destination true d d' h =
    write_as-files (next_answer d.answers) destination (some text) (tick d) d' h

-- A copy that succeeds leaves the content of the source at the destination.
copy_file-files :
    (source destination : String) (d d' : Disk)
    → copy_file source destination d ≡ (true, d')
    → d'.files ≡ update d.files destination (d.files source)
unfolding copy_file sync_dir
copy_file-files source destination d d' h = elim (Bool-cases (is_some (d.files source))) [
  | inl there ↦
      let run : write_read (d.files source) destination (is_success (next_answer d.answers))
            (tick d)
          ≡ (true, d') =
        ground arith in
      write_read-files (d.files source) destination (is_success (next_answer d.answers)) (tick d) d'
        run
  | inr missing ↦ ground arith
]

-- Every os.Stat of `fileExists` works.
abbrev pub StatsWork : Disk → Type 0
StatsWork d = All (λ works. works ≡ true) d.stats

pub next_stat-true :
    (l : List Bool)
    → All (λ works. works ≡ true) l
    → (next_stat l ≡ true) × All (λ works. works ≡ true) (later_stats l)
next_stat-true [] h = (refl, tt)
next_stat-true (works ∷ rest) h = h

write_as-stats :
    (answer : Answer) (path : String) (text : Option String) (d : Disk)
    → (write_as answer path text d).1.stats ≡ d.stats
write_as-stats succeeds path text d = refl
write_as-stats (fails left) path text d = refl

write_read-stats :
    (text : Option String) (destination : String) (made : Bool) (d : Disk)
    → (write_read text destination made d).1.stats ≡ d.stats
unfolding write_file
write_read-stats none destination made d = refl
write_read-stats (some text) destination false d = refl
write_read-stats (some text) destination true d =
    write_as-stats (next_answer d.answers) destination (some text) (tick d)

pub copy_file-stats :
    (source destination : String) (d : Disk) → (copy_file source destination d).1.stats ≡ d.stats
unfolding copy_file sync_dir
copy_file-stats source destination d = elim (Bool-cases (is_some (d.files source))) [
  | inl there ↦
      rw there (
        write_read-stats (d.files source) destination (is_success (next_answer d.answers)) (tick d))
  | inr missing ↦ rw missing refl
]

copy_file-StatsWork :
    (source destination : String) (d : Disk)
    → StatsWork d
    → StatsWork (copy_file source destination d).1
copy_file-StatsWork source destination d works =
    subst (All (λ (b : Bool). b ≡ true)) (sym (copy_file-stats source destination d)) works

-- The list has this file with this backup.
abbrev pub has_backup : String → String → List BackupResult → Bool
has_backup source backup [] = false
has_backup source backup (b ∷ bs) =
    (b.source == source && b.backup == backup) || has_backup source backup bs

module _ (path : String → String) where
  abbrev pub backup_paths : List BackupTarget → List String
  backup_paths [] = []
  backup_paths ((source, name) ∷ rest) = path name ∷ backup_paths rest

  -- No backup stands at the path of another, or at a file that is backed up later.
  abbrev pub Apart : List BackupTarget → Type 0
  Apart [] = Unit
  Apart ((source, name) ∷ rest) =
      (elem (path name) (backup_paths rest) ≡ false)
      × All (λ (t : BackupTarget). (path name == t.0) ≡ false) rest
      × Apart rest

  -- A file that is there is listed with its backup, which has its content.
  abbrev pub IsBacked : Files → List BackupResult → Files → BackupTarget → Type 0
  IsBacked before bs after t =
      (before t.0 ≡ none)
      ⊎ ((has_backup t.0 (path t.1) bs ≡ true) × (after (path t.1) ≡ before t.0))

  abbrev pub Backed : List BackupTarget → Files → List BackupResult → Files → Type 0
  Backed targets before bs after =
      All (IsBacked before bs after) targets
      × ((p : String) → elem p (backup_paths targets) ≡ false → after p ≡ before p)

  pub with_backup-some :
      (b : BackupResult) (o : Option (List BackupResult) × Disk) (bs : List BackupResult) (d : Disk)
      → with_backup b o ≡ (some bs, d)
      → (later : List BackupResult) × (o ≡ (some later, d)) × (b ∷ later ≡ bs)
  with_backup-some b (none, d₁) bs d h = cc
  with_backup-some b (some later, d₁) bs d h = (
    later,
    ap (λ (r : Option (List BackupResult) × Disk). (some later, r.1)) h,
    some-injective _ _ (ap (λ (r : Option (List BackupResult) × Disk). r.0) h),
  )

  -- a target behind the copy of another file
  after-copy :
      (source name : String) (before after : Files) (b : BackupResult) (later : List BackupResult)
      (t : BackupTarget)
      → (path name == t.0) ≡ false
      → IsBacked (update before (path name) (before source)) later after t
      → IsBacked before (b ∷ later) after t
  unfolding update elem
  after-copy source name before after b later t apart (inl missing) =
      let same : update before (path name) (before source) t.0 ≡ before t.0 = rw apart refl in
      inl (sym same ∙ missing)
  after-copy source name before after b later t apart (inr (listed, content)) =
      let same : update before (path name) (before source) t.0 ≡ before t.0 = rw apart refl in
      inr (ground arith, content ∙ same)

  All-after-copy :
      (source name : String) (before after : Files) (b : BackupResult) (later : List BackupResult)
      (rest : List BackupTarget)
      → All (λ (t : BackupTarget). (path name == t.0) ≡ false) rest
      → All (IsBacked (update before (path name) (before source)) later after) rest
      → All (IsBacked before (b ∷ later) after) rest
  All-after-copy source name before after b later [] apart h = tt
  All-after-copy source name before after b later (t ∷ rest) apart h = (
    after-copy source name before after b later t apart.0 h.0,
    All-after-copy source name before after b later rest apart.1 h.1,
  )

  Backed-copied :
      (source name : String) (rest : List BackupTarget) (before : Files) (later : List BackupResult)
      (after : Files)
      → Apart ((source, name) ∷ rest)
      → Backed rest (update before (path name) (before source)) later after
      → Backed
          ((source, name) ∷ rest)
          before
          (record { source = source; backup = path name } ∷ later)
          after
  unfolding update elem
  Backed-copied source name rest before later after apart (backed, outside) =
      let content : after (path name) ≡ before source =
        outside (path name) apart.0 ∙ rw eq_refl refl in
      let b : BackupResult = record { source = source; backup = path name } in
      let listed : has_backup source (path name) (b ∷ later) ≡ true =
        rw (eq_refl source, eq_refl (path name)) refl in
      (
        (
          inr (listed, content),
          All-after-copy source name before after (record { source = source; backup = path name })
              later rest apart.1 backed,
        ),
        λ p out.
            let here : (path name == p) ≡ false = ground arith in
            let there : elem p (backup_paths rest) ≡ false = ground arith in
            outside p there ∙ rw here refl,
      )

  Backed-skipped :
      (source name : String) (rest : List BackupTarget) (before : Files) (bs : List BackupResult)
      (after : Files)
      → before source ≡ none
      → Backed rest before bs after
      → Backed ((source, name) ∷ rest) before bs after
  unfolding elem
  Backed-skipped source name rest before bs after missing (backed, outside) =
      ((inl missing, backed), λ p out. outside p (ground arith))

  pub backup_from-Backed :
      (targets : List BackupTarget) (d : Disk) (bs : List BackupResult) (d' : Disk)
      → Apart targets
      → StatsWork d
      → backup_from path targets d ≡ (some bs, d')
      → Backed targets d.files bs d'.files × StatsWork d'
  unfolding backup_from file_exists
  backup_from-Backed [] d bs d' apart works h = (
    (tt, λ p out. ap (λ (r : Option (List BackupResult) × Disk). r.1.files p) (sym h)),
    subst StatsWork (ap (λ (r : Option (List BackupResult) × Disk). r.1) h) works,
  )
  backup_from-Backed ((source, name) ∷ rest) d bs d' apart works h =
      let (look, later_works) = next_stat-true d.stats works in
      let copy = copy_file source (path name) (tick_stat d) in
      elim (Option-cases (d.files source)) [
        | inl missing ↦
            let skipped : backup_from path rest (tick_stat d) ≡ (some bs, d') = ground arith in
            let (backed, works') =
              backup_from-Backed rest (tick_stat d) bs d' apart.2 later_works skipped in
            (Backed-skipped source name rest d.files bs d'.files missing backed, works')
        | inr (text, there) ↦ elim (Bool-cases copy.0) [
          | inr failed ↦ ground arith
          | inl is_copied ↦
              let done : with_backup (record { source = source; backup = path name })
                    (backup_from path rest copy.1)
                  ≡ (some bs, d') =
                ground arith in
              let (later, ran, all) =
                with_backup-some (record { source = source; backup = path name })
                  (backup_from path rest copy.1) bs d' done in
              let files =
                copy_file-files source (path name) (tick_stat d) copy.1
                  (ap (λ b. (b, copy.1)) is_copied) in
              let (backed, works') =
                backup_from-Backed rest copy.1 later d' apart.2
                  (copy_file-StatsWork source (path name) (tick_stat d) later_works) ran in
              (
                subst (λ l. Backed ((source, name) ∷ rest) d.files l d'.files) all
                    (Backed-copied source name rest d.files later d'.files apart
                      (subst (λ (f : Files). Backed rest f later d'.files) files backed)),
                works',
              )
        ]
      ]

  -- If every os.Stat works, a backup without an error holds the content of every file of the
  -- apply that is there, and changes no other path. The backups stand at paths of their own.
  pub backup_apply_targets-Backed :
      (config selection output : String) (d : Disk) (bs : List BackupResult) (d' : Disk)
      → Apart (backup_targets config selection output)
      → StatsWork d
      → backup_apply_targets path config selection output d ≡ (some bs, d')
      → All (IsBacked d.files bs d'.files) (backup_targets config selection output)
        × ((p : String)
            → elem p (backup_paths (backup_targets config selection output)) ≡ false
            → d'.files p ≡ d.files p)
  unfolding backup_apply_targets
  backup_apply_targets-Backed config selection output d bs d' apart works h =
      (backup_from-Backed (backup_targets config selection output) d bs d' apart works h).0

-- ===== src/Apply/Transaction/Success.antt =====
-- A commit that reports no error has moved every temporary file to its target.
use local_clash.Prelude.{
  String, ◌≡◌, refl, sym, ◌∙◌, ap, true, false, List, [], ◌∷◌, ◌==◌, eq_iff, arith, All, Bool-cases,
  inl, inr, Option, none, if◌then◌else◌, subst, eq_refl,
}
use local_clash.Prelude.Dict.{elem}
use local_clash.Apply.Disk.{Disk, Files, rename, sync_dir}
use local_clash.Apply.Transaction.{ApplyCommitFile, commit_from, commit_prepared_files, CommitError}
use local_clash.Apply.Transaction.Atomic.{
  renamed-files, commit-unmoved, commit-unsynced, commit-moved,
}

-- The content after a rename.
abbrev pub moved : ApplyCommitFile → Files → Files
moved f current p =
    if f.temp == p then none else if f.target == p then current f.temp else current p

abbrev all_moved : List ApplyCommitFile → Files → Files
all_moved [] current = current
all_moved (f ∷ files) current = all_moved files (moved f current)

abbrev pub paths_of : List ApplyCommitFile → List String
paths_of [] = []
paths_of (f ∷ files) = f.target ∷ f.temp ∷ paths_of files

-- No path stands in the list twice.
abbrev pub Separate : List String → Type 0
Separate [] = Unit
Separate (p ∷ paths) = (elem p paths ≡ false) × Separate paths

commit_from-moves :
    (files done : List ApplyCommitFile) (d : Disk)
    → (commit_from files done d).0 ≡ none
    → (commit_from files done d).1.files ≡ all_moved files d.files
unfolding commit_from
commit_from-moves [] done d h = refl
commit_from-moves (f ∷ files) done d h =
    let renamed = rename f.temp f.target d in
    let synced = sync_dir renamed.1 in
    elim (Bool-cases renamed.0) [
      | inr failed ↦ ground (arith, commit-unmoved f files done d failed)
      | inl is_moved ↦ elim (Bool-cases synced.0) [
        | inr failed ↦ ground (arith, commit-unsynced f files done d is_moved failed)
        | inl is_synced ↦
            let step = commit-moved f files done d is_moved is_synced in
            ap (λ (r : Option CommitError × Disk). r.1.files) step
            ∙ (commit_from-moves files (f ∷ done) synced.1
                  (sym (ap (λ (r : Option CommitError × Disk). r.0) step) ∙ h)
                ∙ ap (all_moved files) (λ i q. renamed-files f d q is_moved i))
      ]
    ]

all_moved-outside :
    (files : List ApplyCommitFile) (current : Files) (p : String)
    → elem p (paths_of files) ≡ false
    → all_moved files current p ≡ current p
unfolding elem
all_moved-outside [] current p h = refl
all_moved-outside (f ∷ files) current p h =
    ground (arith, all_moved-outside files (moved f current) p)

all_moved-arrives :
    (files : List ApplyCommitFile) (current base : Files)
    → Separate (paths_of files)
    → ((p : String) → elem p (paths_of files) ≡ true → current p ≡ base p)
    → All
        (λ f.
          (all_moved files current f.target ≡ base f.temp)
          × (all_moved files current f.temp ≡ none))
        files
unfolding elem
all_moved-arrives [] current base sep same = tt
all_moved-arrives (f ∷ files) current base sep same = (
  (
    ground (
      arith,
      all_moved-outside files (moved f current) f.target,
      eq_refl f.target,
      eq_refl f.temp,
      same f.temp,
      eq_iff f.temp f.target,
    ),
    ground (arith, all_moved-outside files (moved f current) f.temp, eq_refl f.temp),
  ),
  all_moved-arrives files (moved f current) base sep.1.1
      (λ p k. ground (arith, same p, eq_iff f.temp p, eq_iff f.target p)),
)

-- A commit that reports no error gives every target the former content of its temporary file,
-- removes the temporary files and leaves the content of every other path. No path is the target or
-- the temporary file of two entries, or both.
pub commit_prepared_files-moves :
    (files : List ApplyCommitFile) (d : Disk)
    → Separate (paths_of files)
    → (commit_prepared_files files d).0 ≡ none
    → All
        (λ f.
          ((commit_prepared_files files d).1.files f.target ≡ d.files f.temp)
          × ((commit_prepared_files files d).1.files f.temp ≡ none))
        files
      × ((p : String)
          → elem p (paths_of files) ≡ false
          → (commit_prepared_files files d).1.files p ≡ d.files p)
unfolding commit_prepared_files
commit_prepared_files-moves files d sep h =
    let e = sym (commit_from-moves files [] d h) in
    (
      subst
          (λ (final : Files).
            All (λ f. (final f.target ≡ d.files f.temp) × (final f.temp ≡ none)) files)
          e (all_moved-arrives files d.files d.files sep (λ p k. refl)),
      subst
          (λ (final : Files). (p : String) → elem p (paths_of files) ≡ false → final p ≡ d.files p)
          e (all_moved-outside files d.files),
    )

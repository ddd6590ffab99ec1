-- ===== src/Apply/Transaction/Rollback.antt =====
-- A rollback without errors gives every committed target its former content.
use local_clash.Prelude.{
  String, ◌≡◌, refl, ◌⊎◌, true, false, List, [], ◌∷◌, ◌++◌, ◌==◌, eq_iff, arith, All, none,
  if◌then◌else◌,
}
use local_clash.Prelude.Text.{is_blank}
use local_clash.Prelude.Dict.{elem}
use local_clash.Apply.Disk.{Disk, Files, update}
use local_clash.Apply.Transaction.{
  ApplyCommitFile, RollbackError, rollback_file, rollback_committed_files,
}

-- What a file's entry says of the content `before` the transaction: a file that existed has a
-- backup of it, and another did not exist.
abbrev pub Restorable : Files → Files → ApplyCommitFile → Type 0
Restorable before files f =
    ((f.exists ≡ true) × (is_blank f.backup ≡ false) × (files f.backup ≡ before f.target))
    ⊎ ((f.exists ≡ false) × (before f.target ≡ none))

abbrev pub targets_of : List ApplyCommitFile → List String
targets_of [] = []
targets_of (f ∷ files) = f.target ∷ targets_of files

append-eq-nil : (xs ys : List RollbackError) → xs ++ ys ≡ [] → (xs ≡ []) × (ys ≡ [])
append-eq-nil [] ys h = (refl, h)
append-eq-nil (x ∷ xs) ys h = cc

-- One round without errors restores its target and touches nothing else.
rollback_file-restores :
    (before : Files) (f : ApplyCommitFile) (d : Disk)
    → Restorable before d.files f
    → (rollback_file f d).0 ≡ []
    → (p : String) → (rollback_file f d).1.files p ≡ (if f.target == p then before p else d.files p)
unfolding rollback_file update
rollback_file-restores before f d h e p = ground (arith, eq_iff f.target p)

Restorable-same :
    (before files files' : Files) (f : ApplyCommitFile)
    → files' f.backup ≡ files f.backup
    → Restorable before files f
    → Restorable before files' f
Restorable-same before files files' f e h = ground arith

-- Every backup lies outside a set of paths.
abbrev pub BackupsOutside : List String → List ApplyCommitFile → Type 0
BackupsOutside paths = All (λ f. elem f.backup paths ≡ false)

pub Restorable-elsewhere :
    (before files files' : Files) (changed : List String) (fs : List ApplyCommitFile)
    → ((p : String) → elem p changed ≡ false → files' p ≡ files p)
    → BackupsOutside changed fs
    → All (Restorable before files) fs
    → All (Restorable before files') fs
Restorable-elsewhere before files files' changed [] same out h = tt
Restorable-elsewhere before files files' changed (f ∷ fs) same out h = (
  Restorable-same before files files' f (same f.backup out.0) h.0,
  Restorable-elsewhere before files files' changed fs same out.1 h.1,
)

pub All-outside :
    (paths more : List String) (fs : List ApplyCommitFile)
    → ((p : String) → elem p paths ≡ false → elem p more ≡ false)
    → BackupsOutside paths fs
    → BackupsOutside more fs
All-outside paths more [] f h = tt
All-outside paths more (x ∷ fs) f h = (f x.backup h.0, All-outside paths more fs f h.1)

-- A rollback without errors restores the committed targets and touches nothing else.
pub rollback-restores :
    (before : Files) (committed : List ApplyCommitFile) (d : Disk)
    → BackupsOutside (targets_of committed) committed
    → All (Restorable before d.files) committed
    → (rollback_committed_files committed d).0 ≡ []
    → (p : String)
    → (rollback_committed_files committed d).1.files p
      ≡ (if elem p (targets_of committed) then before p else d.files p)
unfolding rollback_committed_files elem
rollback-restores before [] d out h e p = refl
rollback-restores before (f ∷ committed) d out h e p =
    let (e₁, e₂) =
      append-eq-nil (rollback_file f d).0
        (rollback_committed_files committed (rollback_file f d).1).0 e in
    let first = rollback_file-restores before f d h.0 e₁ in
    let later =
      rollback-restores before committed (rollback_file f d).1
        (All-outside (f.target ∷ targets_of committed) (targets_of committed) committed
          (λ q k. ground arith) out.1)
        (Restorable-elsewhere before d.files (rollback_file f d).1.files (f.target ∷ []) committed
          (λ q k. ground (arith, first q))
          (All-outside (f.target ∷ targets_of committed) (f.target ∷ []) committed
            (λ q k. ground arith) out.1)
          h.1)
        e₂ p in
    ground (arith, first p, later, eq_iff f.target p)

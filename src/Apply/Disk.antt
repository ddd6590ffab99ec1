-- ===== src/Apply/Disk.antt =====
-- The file system that internal/configplan/plan.go writes to. `os` is not code of the repository:
-- each call takes its outcome from a list that the environment chooses, and does on success what
-- the documentation of `os` says. Directories are not modelled, so a call on a file's directory
-- only succeeds or fails.
use local_clash.Prelude.{
  String, Bool, true, false, List, [], ◌∷◌, ◌==◌, Option, none, some, if◌then◌else◌, is_some, not,
  ◌&&◌,
}

-- The outcome of a call: a failing write leaves the file as the environment chooses.
pub data Answer : Type 0 where
  succeeds : Answer
  fails : Option String → Answer

abbrev pub Files : Type 0
Files = String → Option String

pub record Disk : Type 0 where
  pub files : Files
  pub answers : List Answer
  -- whether each os.Stat of `fileExists` works, in order
  pub stats : List Bool

unfoldable pub update : Files → String → Option String → Files
update files path content p = if path == p then content else files p

-- the outcome of the next call; with no outcome left every call succeeds
abbrev pub next_answer : List Answer → Answer
next_answer [] = succeeds
next_answer (a ∷ rest) = a

abbrev pub later_answers : List Answer → List Answer
later_answers [] = []
later_answers (a ∷ rest) = rest

abbrev pub tick : Disk → Disk
tick d = record d { answers = later_answers d.answers }

abbrev pub is_success : Answer → Bool
is_success succeeds = true
is_success (fails left) = false

-- os.Rename: on failure nothing changes
unfoldable pub rename : String → String → Disk → Bool × Disk
unfolding update
rename old new d =
    if is_success (next_answer d.answers) && is_some (d.files old)
    then (true, record (tick d) { files = update (update d.files new (d.files old)) old none })
    else (false, tick d)

-- os.WriteFile
abbrev pub write_as : Answer → String → Option String → Disk → Bool × Disk
write_as succeeds path content d = (true, record d { files = update d.files path content })
write_as (fails left) path content d = (false, record d { files = update d.files path left })

unfoldable pub write_file : String → String → Disk → Bool × Disk
unfolding update
write_file path content d = write_as (next_answer d.answers) path (some content) (tick d)

-- os.Remove; a missing file is `os.IsNotExist`, which the callers accept
unfoldable pub remove : String → Disk → Bool × Disk
unfolding update
remove path d =
    if not (is_some (d.files path))
    then (true, d)
    else if is_success (next_answer d.answers)
    then (true, record (tick d) { files = update d.files path none })
    else (false, tick d)

-- `fsyncDir`, and what else changes no file: it succeeds or fails
unfoldable pub sync_dir : Disk → Bool × Disk
sync_dir d = (is_success (next_answer d.answers), tick d)

-- `fsyncFile` opens the file, so it fails if there is none
unfoldable pub sync_file : String → Disk → Bool × Disk
sync_file path d = (is_some (d.files path) && is_success (next_answer d.answers), tick d)

-- With no outcome left every os.Stat works.
abbrev pub next_stat : List Bool → Bool
next_stat [] = true
next_stat (works ∷ rest) = works

abbrev pub later_stats : List Bool → List Bool
later_stats [] = []
later_stats (works ∷ rest) = rest

abbrev pub tick_stat : Disk → Disk
tick_stat d = record d { stats = later_stats d.stats }

-- fileExists: any error of os.Stat counts as a file that is not there
unfoldable pub file_exists : String → Disk → Bool × Disk
file_exists path d = (next_stat d.stats && is_some (d.files path), tick_stat d)

-- `copyFile`: read, make the directory, write
abbrev pub write_read : Option String → String → Bool → Disk → Bool × Disk
write_read none dst made d = (false, d)
write_read (some content) dst false d = (false, d)
write_read (some content) dst true d = write_file dst content d

unfoldable pub copy_file : String → String → Disk → Bool × Disk
unfolding sync_dir write_file
copy_file src dst d =
    if is_some (d.files src)
    then (let (made, d₁) = sync_dir d in write_read (d.files src) dst made d₁)
    else (false, d)

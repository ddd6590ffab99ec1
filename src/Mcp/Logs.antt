-- ===== src/Mcp/Logs.antt =====
-- internal/mcp/tasks.go: the bounds on the logs of the tasks.
pub mod Retained
pub mod Rotated
use Prim.Native.Char.{Char, code}
use local_clash.Prelude.{
  ℕ, zero, suc, ◌+◌, ◌-◌, ◌*◌, ltb, leb, nat_eq, String, ◌<>◌, ◌==◌, Bool, true, false, not, ◌&&◌,
  ◌||◌, List, [], ◌∷◌, ◌++◌, Option, none, some, if◌then◌else◌,
}
use local_clash.Prelude.Text.{is_blank, trim_space, has_suffix}

-- An entry of the directory; `modified` is `none` if its information cannot be read.
pub record Entry : Type 0 where
  pub name : String
  pub is_dir : Bool
  pub modified : Option ℕ

pub record TaskFile : Type 0 where
  pub name : String
  pub mod_time : ℕ

abbrev pub is_task_file : String → Bool
unfolding has_suffix
is_task_file name = has_suffix name ".log" || has_suffix name ".json"

-- one round of the loop over the entries
unfoldable pub task_file : Entry → Option ℕ → Option TaskFile
unfolding is_task_file
task_file e none = none
task_file e (some time) =
    if e.is_dir
    then none
    else if not (is_task_file e.name)
    then none
    else some (record { name = e.name; mod_time = time })

abbrev pub keep_file : Option TaskFile → List TaskFile → List TaskFile
keep_file none rest = rest
keep_file (some f) rest = f ∷ rest

unfoldable pub task_files : List Entry → List TaskFile
unfolding task_file
task_files [] = []
task_files (e ∷ es) = keep_file (task_file e e.modified) (task_files es)

-- sort.Slice with `modTime.After`. Go's order of files of one time is not determined; here it is
-- that of the directory.
unfoldable pub insert_file : TaskFile → List TaskFile → List TaskFile
insert_file f [] = f ∷ []
insert_file f (g ∷ gs) =
    let later = insert_file f gs in if ltb f.mod_time g.mod_time then g ∷ later else f ∷ g ∷ gs

unfoldable pub sort_files : List TaskFile → List TaskFile
unfolding insert_file
sort_files [] = []
sort_files (f ∷ fs) = insert_file f (sort_files fs)

-- what the loop from `keepFiles` on removes, and what stands before it
unfoldable pub beyond : ℕ → List TaskFile → List TaskFile
beyond zero fs = fs
beyond (suc n) [] = []
beyond (suc n) (f ∷ fs) = beyond n fs

unfoldable pub within : ℕ → List TaskFile → List TaskFile
within zero fs = []
within (suc n) [] = []
within (suc n) (f ∷ fs) = f ∷ within n fs

-- cleanupTaskLogDir: the files that it removes; a retention of 0 removes nothing
unfoldable pub cleanup_task_log_dir : List Entry → ℕ → List TaskFile
unfolding beyond sort_files task_files
cleanup_task_log_dir entries retain =
    let removed = beyond (retain * 2) (sort_files (task_files entries)) in
    if nat_eq retain 0 then [] else removed

-- the files of tasks that stay
unfoldable pub retained_files : List Entry → ℕ → List TaskFile
unfolding within sort_files task_files
retained_files entries retain = within (retain * 2) (sort_files (task_files entries))

-- A log with its rotated predecessor, by their sizes. `renames` says whether os.Rename succeeds.
pub record Log : Type 0 where
  pub size : Option ℕ
  pub rotated : Option ℕ

-- rotateBoundedLog; os.Remove of the old file comes first
abbrev rotated_by : Bool → ℕ → Log → Log
rotated_by true size log = record { size = none; rotated = some size }
rotated_by false size log = record { size = some size; rotated = none }

abbrev pub rotate_size : Bool → ℕ → Option ℕ → Log → Log
rotate_size renames max_bytes none log = log
rotate_size renames max_bytes (some size) log =
    if ltb size max_bytes then log else rotated_by renames size log

unfoldable pub rotate_bounded_log : Bool → ℕ → Log → Log
rotate_bounded_log renames max_bytes log =
    if nat_eq max_bytes 0 then log else rotate_size renames max_bytes log.size log

abbrev pub size_or_zero : Option ℕ → ℕ
size_or_zero none = 0
size_or_zero (some n) = n

-- appendTaskLog, for a line of some bytes; the write succeeds
unfoldable pub append_task_log : Bool → ℕ → ℕ → Log → Log
unfolding rotate_bounded_log
append_task_log renames max_bytes line log =
    let kept = rotate_bounded_log renames max_bytes log in
    record kept { size = some (size_or_zero kept.size + line) }

-- the lines of a task, one after the other
unfoldable pub append_lines : ℕ → List (Bool × ℕ) → Log → Log
unfolding append_task_log
append_lines max_bytes [] log = log
append_lines max_bytes ((renames, line) ∷ rest) log =
    append_lines max_bytes rest (append_task_log renames max_bytes line log)

-- ===== src/Corerun/Process.antt =====
-- internal/corerun/control.go: the processes that count as a managed core.
-- What the kernel shows is a parameter, `Host`: a moment is the number of looks at the processes so
-- far, and a process may change between two moments. Process ids are positive.
use Prim.Native.Char.{Char, code}
use local_clash.Prelude.{
  ℕ, ltb, nat_eq, String, ◌==◌, Bool, false, not, ◌&&◌, ◌||◌, List, [], ◌∷◌, ◌++◌, Option, none,
  some, if◌then◌else◌,
}
use local_clash.Prelude.Text.{is_blank, trim_space, trim_right, is_space, split, text_lt}
use local_clash.Prelude.Dict.{elem}

-- a file under /proc: there is none, it cannot be read, or its content
pub data Read : Type 0 where
  missing : Read
  unreadable : Read
  content : String → Read

pub data Signal : Type 0 where
  sigterm sigkill : Signal

pub record Host : Type 0 where
  -- the directories of /proc that are numbers, and this program's own process
  pub listed : List ℕ
  pub self : ℕ
  -- what signal 0, and /proc/<pid>/stat, show at a moment
  pub answers : ℕ → ℕ → Bool
  pub stat : ℕ → ℕ → Read
  pub comm : ℕ → Read
  pub command_line : ℕ → Read
  -- the time in milliseconds at the end of a moment, without the time slept in a wait
  pub clock : ℕ → ℕ
  -- the milliseconds of the sleep after a moment, if the code sleeps there
  pub nap : ℕ → ℕ
  -- whether a signal can be sent
  pub accepts : Signal → ℕ → Bool

-- what stands behind the last closing bracket
after_bracket : String → Option String → Option String
after_bracket String.[] found = found
after_bracket (String.◌∷◌ c s) found =
    after_bracket s (if nat_eq (code c) 41 then some s else found)

-- the first of strings.Fields
unfoldable first_word : String → String
unfolding is_space
first_word String.[] = String.[]
first_word (String.◌∷◌ c s) =
    let rest = first_word s in if is_space (code c) then String.[] else String.◌∷◌ c rest

unfoldable skip_spaces : String → String
unfolding is_space
skip_spaces String.[] = String.[]
skip_spaces (String.◌∷◌ c s) =
    let rest = skip_spaces s in if is_space (code c) then rest else String.◌∷◌ c s

-- a text of one byte
abbrev one_byte : String → Option Char
one_byte String.[] = none
one_byte (String.◌∷◌ c String.[]) = if ltb (code c) 128 then some c else none
one_byte (String.◌∷◌ c (String.◌∷◌ d s)) = none

abbrev state_field : Option String → Option Char
unfolding first_word skip_spaces
state_field none = none
state_field (some rest) = one_byte (first_word (skip_spaces rest))

-- the state letter of /proc/<pid>/stat, behind the name in brackets
unfoldable pub parse_proc_stat_state : String → Option Char
unfolding after_bracket state_field
parse_proc_stat_state stat = state_field (after_bracket stat none)

abbrev is_zombie_letter : Option Char → Bool
is_zombie_letter none = false
is_zombie_letter (some c) = nat_eq (code c) 90

abbrev read_state : Read → Bool
unfolding parse_proc_stat_state
read_state missing = false
read_state unreadable = false
read_state (content s) = is_zombie_letter (parse_proc_stat_state s)

-- readProcessComm: `none` without a name
abbrev pub process_name : Read → Option String
unfolding trim_space
process_name missing = none
process_name unreadable = none
process_name (content s) = some (trim_space s)

abbrev trim_zeros : String → String
unfolding trim_right
trim_zeros s = trim_right (λ c. nat_eq (code c) 0) s

-- readProcessCommandLine
abbrev pub command_words : Read → List String
unfolding trim_zeros split
command_words missing = []
command_words unreadable = []
command_words (content s) = if is_blank (trim_zeros s) then [] else split 0 (trim_zeros s)

abbrev pub managed_meta_core_name : String
managed_meta_core_name = "lc-mihomo-meta"

abbrev pub managed_smart_core_name : String
managed_smart_core_name = "lc-mihomo-smart"

-- managedProcessNames
abbrev pub managed_process_name : String → Bool
managed_process_name name = name == managed_meta_core_name || name == managed_smart_core_name

pub record RuntimeProcess : Type 0 where
  pub pid : ℕ
  pub name : String

module _ ⦃h : Host⦄ where
  unfoldable pub process_zombie : ℕ → ℕ → Bool
  unfolding read_state
  process_zombie moment pid = read_state (h.stat moment pid)

  -- `processRunning(pid) && !processZombie(pid)`
  unfoldable pub is_live : ℕ → ℕ → Bool
  unfolding process_zombie
  is_live moment pid = h.answers moment pid && not (process_zombie moment pid)

  unfoldable pub process_command_has_exact_arg : ℕ → String → Bool
  unfolding command_words elem
  process_command_has_exact_arg pid arg = elem arg (command_words (h.command_line pid))

  unfoldable pub named_process : (String → Bool) → ℕ → Option String → Option RuntimeProcess
  unfolding process_command_has_exact_arg
  named_process names pid none = none
  named_process names pid (some name) =
      if not (names name)
      then none
      else if process_command_has_exact_arg pid "-t"
      then none
      else some (record { pid = pid; name = name })

  -- one round of the loop of `findRuntimeProcessesByName`
  unfoldable pub runtime_process : (String → Bool) → ℕ → Option RuntimeProcess
  unfolding is_live process_name named_process
  runtime_process names pid =
      if nat_eq pid 0 || nat_eq pid h.self || not (is_live 0 pid)
      then none
      else named_process names pid (process_name (h.comm pid))

  abbrev pub keep : Option RuntimeProcess → List RuntimeProcess → List RuntimeProcess
  keep none rest = rest
  keep (some p) rest = p ∷ rest

  unfoldable pub runtime_processes : (String → Bool) → List ℕ → List RuntimeProcess
  unfolding runtime_process
  runtime_processes names [] = []
  runtime_processes names (pid ∷ pids) =
      keep (runtime_process names pid) (runtime_processes names pids)

-- the comparison of processes
unfoldable pub process_less : RuntimeProcess → RuntimeProcess → Bool
unfolding text_lt
process_less a b = if nat_eq a.pid b.pid then text_lt a.name b.name else ltb a.pid b.pid

unfoldable pub insert_process : RuntimeProcess → List RuntimeProcess → List RuntimeProcess
unfolding process_less
insert_process p [] = p ∷ []
insert_process p (q ∷ rest) =
    let later = insert_process p rest in if process_less q p then q ∷ later else p ∷ q ∷ rest

unfoldable pub sort_processes : List RuntimeProcess → List RuntimeProcess
unfolding insert_process
sort_processes [] = []
sort_processes (p ∷ rest) = insert_process p (sort_processes rest)

unfoldable pub find_managed_runtime_processes : ⦃h : Host⦄ → List RuntimeProcess
unfolding sort_processes runtime_processes
find_managed_runtime_processes ⦃h⦄ =
    sort_processes (runtime_processes managed_process_name h.listed)

-- slices.Contains of process ids
unfoldable pub elem_pid : ℕ → List ℕ → Bool
elem_pid pid [] = false
elem_pid pid (x ∷ xs) = nat_eq x pid || elem_pid pid xs

-- `seen` is what `existing` holds
unfoldable pub append_unique_pids : List ℕ → List ℕ → List ℕ
unfolding elem_pid
append_unique_pids existing [] = existing
append_unique_pids existing (pid ∷ pids) =
    append_unique_pids
      (if nat_eq pid 0 || elem_pid pid existing then existing else existing ++ (pid ∷ [])) pids

unfoldable pub append_unique_strings : List String → List String → List String
unfolding elem
append_unique_strings existing [] = existing
append_unique_strings existing (value ∷ values) =
    append_unique_strings
      (if is_blank value || elem value existing then existing else existing ++ (value ∷ [])) values

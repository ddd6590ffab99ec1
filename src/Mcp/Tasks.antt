-- ===== src/Mcp/Tasks.antt =====
-- internal/mcp/tasks.go: how a tool is run, and what is written of it.
pub mod Names
pub mod History
use Prim.Native.Char.{Char, code}
use Prim.Native.String.{char_at}
use local_clash.Prelude.{
  ℕ, leb, nat_eq, String, ◌<>◌, ◌==◌, Bool, true, false, not, ◌&&◌, ◌||◌, List, [], ◌∷◌, ◌++◌,
  Option, none, some, if◌then◌else◌, Result, ok, err,
}
use local_clash.Prelude.Text.{is_blank, trim_space}
use local_clash.Prelude.Dict.{Dict, lookup}

-- the fields `background` and `wait`; `none` is an input that is no JSON
pub record AsyncToolInput : Type 0 where
  pub background : Option Bool
  pub wait : Option Bool

abbrev wait_requested : Option Bool → Bool
wait_requested none = true
wait_requested (some wait) = not wait

abbrev input_requested : Option Bool → Option Bool → Bool
input_requested (some background) wait = background
input_requested none wait = wait_requested wait

unfoldable pub background_tool_requested : Option AsyncToolInput → Bool
background_tool_requested none = true
background_tool_requested (some in_) = input_requested in_.background in_.wait

-- the characters that sanitizeTaskTool keeps
unfoldable pub keeps_char : Char → Bool
keeps_char c =
    (leb 97 (code c) && leb (code c) 122)
    || (leb 65 (code c) && leb (code c) 90)
    || (leb 48 (code c) && leb (code c) 57)
    || nat_eq (code c) 45
    || nat_eq (code c) 95

abbrev pub dash : Char
dash = char_at "-" 0

unfoldable pub sanitized : String → String
sanitized String.[] = String.[]
sanitized (String.◌∷◌ c s) =
    let rest = sanitized s in if keeps_char c then String.◌∷◌ c rest else String.◌∷◌ dash rest

unfoldable pub sanitize_task_tool : String → String
unfolding trim_space sanitized keeps_char
sanitize_task_tool tool =
    let text = sanitized (trim_space tool) in if is_blank text then "task" else text

-- the values of the field `Status`; `succeeded` is the text `done` and `failed` is `error`
pub data Status : Type 0 where
  queued running succeeded failed : Status

-- The fields of a status that change; `error` is empty without one.
pub record AsyncTaskStatus : Type 0 where
  pub status : Status
  pub finished : Bool
  pub error : String

-- a field of a tool's structured content
pub data FieldValue : Type 0 where
  text : String → FieldValue
  other : FieldValue

-- what structuredContentMap makes of the content: `none` if it is no object
abbrev pub Content : Type 0
Content = Option (Dict FieldValue)

-- what a tool returns: its error, or its structured content
abbrev pub ToolOutcome : Type 0
ToolOutcome = Result String Content

-- the field as a text; it is empty if the field is missing or has another type
abbrev pub text_or_empty : Option FieldValue → String
text_or_empty none = ""
text_or_empty (some (text s)) = s
text_or_empty (some other) = ""

-- structuredToolError
unfoldable pub structured_tool_error : Content → String
unfolding trim_space lookup
structured_tool_error none = ""
structured_tool_error (some fields) = trim_space (text_or_empty (lookup "error" fields))

-- the events of a log
pub data LogEvent : Type 0 where
  queued_event started_event monitor_summary error_event done_event : LogEvent

-- the outcome of writing a status; a failing write leaves the file as the environment chooses
pub data Write : Type 0 where
  works : Write
  fails : Option AsyncTaskStatus → Write

-- A task's files: the status in its file, the statuses that were to be written and those whose
-- write failed, the newest first, the events that the task itself logs, the newest first, and the
-- outcomes of the writes to come.
pub record TaskFiles : Type 0 where
  pub status_file : Option AsyncTaskStatus
  pub attempts : List AsyncTaskStatus
  pub failed_writes : List AsyncTaskStatus
  pub log : List LogEvent
  pub writes : List Write

-- With no outcome left every write works.
abbrev pub next_write : List Write → Write
next_write [] = works
next_write (w ∷ rest) = w

abbrev pub later_writes : List Write → List Write
later_writes [] = []
later_writes (w ∷ rest) = rest

abbrev pub write_as : Write → AsyncTaskStatus → TaskFiles → Bool × TaskFiles
write_as works s t = (true, record t { status_file = some s })
write_as (fails left) s t =
    (false, record t { status_file = left; failed_writes = s ∷ t.failed_writes })

unfoldable pub write_task_status : AsyncTaskStatus → TaskFiles → Bool × TaskFiles
write_task_status s t =
    write_as (next_write t.writes) s
      (record t { attempts = s ∷ t.attempts; writes = later_writes t.writes })

abbrev pub append_event : LogEvent → TaskFiles → TaskFiles
append_event e t = record t { log = e ∷ t.log }

abbrev pub new_status : Status → AsyncTaskStatus
new_status s = record { status = s; finished = false; error = "" }

-- The end of a task; the error of the write is not looked at.
unfoldable pub finish_error : String → AsyncTaskStatus → TaskFiles → TaskFiles
unfolding write_task_status
finish_error e s t =
    append_event error_event (write_task_status (record s { status = failed; error = e }) t).1

unfoldable pub finish_done : AsyncTaskStatus → TaskFiles → TaskFiles
unfolding write_task_status
finish_done s t = append_event done_event (write_task_status (record s { status = succeeded }) t).1

-- the goroutine of queueAsyncTool, from the return of the tool on
unfoldable pub finish_async : ToolOutcome → AsyncTaskStatus → TaskFiles → TaskFiles
unfolding structured_tool_error finish_error finish_done
finish_async (err e) s t =
    let s' : AsyncTaskStatus = record s { finished = true } in
    finish_error e s' (append_event monitor_summary t)
finish_async (ok content) s t =
    let s' : AsyncTaskStatus = record s { finished = true } in
    let t' = append_event monitor_summary t in
    let e = structured_tool_error content in
    if not (is_blank e) then finish_error e s' t' else finish_done s' t'

-- the goroutine of queueAsyncTool
unfoldable pub run_async_tool : ToolOutcome → AsyncTaskStatus → TaskFiles → TaskFiles
unfolding write_task_status finish_async
run_async_tool outcome queued_status t =
    let s : AsyncTaskStatus = record queued_status { status = running } in
    let t' = append_event started_event (write_task_status s t).1 in finish_async outcome s t'

abbrev pub fresh_files : List Write → TaskFiles
fresh_files writes = record {
  status_file = none;
  attempts = [];
  failed_writes = [];
  log = [];
  writes = writes;
}

abbrev pub queued_task : ToolOutcome → Bool × TaskFiles → Option TaskFiles
unfolding run_async_tool
queued_task outcome (false, t) = none
queued_task outcome (true, t) =
    some (run_async_tool outcome (new_status queued) (append_event queued_event t))

-- queueAsyncTool with the run that it starts: `none` is an error, of os.MkdirAll or of the first
-- write, and no run
unfoldable pub queue_async_tool : Bool → List Write → ToolOutcome → Option TaskFiles
unfolding write_task_status queued_task
queue_async_tool made writes outcome =
    let task = queued_task outcome (write_task_status (new_status queued) (fresh_files writes)) in
    if made then task else none

-- runLoggedSyncTool from the return of the tool on, with what it returns; the paths that
-- addSyncTaskArtifacts adds to the content are left out
unfoldable pub finish_sync : ToolOutcome → AsyncTaskStatus → TaskFiles → ToolOutcome × TaskFiles
unfolding structured_tool_error finish_error finish_done
finish_sync (err e) s t =
    let s' : AsyncTaskStatus = record s { finished = true } in
    (err e, finish_error e s' (append_event monitor_summary t))
finish_sync (ok content) s t =
    let s' : AsyncTaskStatus = record s { finished = true } in
    let t' = append_event monitor_summary t in
    let e = structured_tool_error content in
    let t'' = if not (is_blank e) then finish_error e s' t' else finish_done s' t' in
    (ok content, t'')

-- runLoggedSyncTool; `none` is an error of os.MkdirAll
unfoldable pub run_logged_sync_tool :
    Bool → List Write → ToolOutcome → Option (ToolOutcome × TaskFiles)
unfolding write_task_status finish_sync
run_logged_sync_tool made writes outcome =
    let s = new_status running in
    let t = append_event started_event (write_task_status s (fresh_files writes)).1 in
    let done = finish_sync outcome s t in if made then some done else none

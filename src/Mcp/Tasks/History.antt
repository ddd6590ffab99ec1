-- ===== src/Mcp/Tasks/History.antt =====
-- The statuses that a task writes, and the events that it logs.
use local_clash.Prelude.{
  String, ◌≡◌, ◌⊎◌, Bool, true, false, List, [], ◌∷◌, Option, none, some, if◌then◌else◌, ok, err,
}
use local_clash.Prelude.Text.{is_blank, trim_space}
use local_clash.Prelude.Dict.{lookup}
use local_clash.Mcp.Tasks.{
  FieldValue, text, other, Status, queued, running, succeeded, failed, AsyncTaskStatus, ToolOutcome,
  LogEvent, error_event, done_event, TaskFiles, new_status,
}

-- The steps of a task.
pub data Follows : Status → Status → Type 0 where
  starts : Follows queued running
  succeeds : Follows running succeeded
  breaks : Follows running failed

-- Each status follows the one before it, which was not finished.
pub History : List AsyncTaskStatus → Type 0
History [] = Unit
History (s ∷ []) = Unit
History (s ∷ t ∷ rest) = Follows t.status s.status × (t.finished ≡ false) × History (t ∷ rest)

-- the text of the field `error`, which counts only if it is a text
pub error_field : Option FieldValue → String
error_field (some (text s)) = s
error_field (some other) = ""
error_field none = ""

-- The tool succeeded: no error, and no text that is not blank as the field `error` of its content.
unfoldable pub is_success : ToolOutcome → Bool
unfolding trim_space lookup error_field
is_success (err e) = false
is_success (ok none) = true
is_success (ok (some fields)) = is_blank (trim_space (error_field (lookup "error" fields)))

-- The file has this status, or the write of it failed.
abbrev pub Stored : AsyncTaskStatus → TaskFiles → Type 0
Stored s t =
    (t.status_file ≡ some s) ⊎ ((others : List AsyncTaskStatus) × (t.failed_writes ≡ s ∷ others))

-- The last status is finished, and the last event that the task logs says the same as it.
abbrev pub EndsAs : Bool → TaskFiles → Type 0
EndsAs good t =
    (last : AsyncTaskStatus) × (earlier : List AsyncTaskStatus) × (log : List LogEvent)
    × (t.attempts ≡ last ∷ earlier)
    × (last.finished ≡ true)
    × (last.status ≡ (if good then succeeded else failed))
    × (t.log ≡ (if good then done_event else error_event) ∷ log)
    × Stored last t

-- A whole history, with its end.
abbrev pub Whole : Bool → TaskFiles → Type 0
Whole good t = History t.attempts × EndsAs good t

-- A task that runs: its status was to be written last.
abbrev Runs : TaskFiles → Type 0
Runs t =
    (earlier : List AsyncTaskStatus) × (t.attempts ≡ new_status running ∷ earlier)
    × History (new_status running ∷ earlier)

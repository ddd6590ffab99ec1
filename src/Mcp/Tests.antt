-- ===== src/Mcp/Tests.antt =====
-- Runs of tasks and of the bounds on their logs.
use local_clash.Prelude.{
  ℕ, ◌≤◌, ◌≡◌, ◌↔◌, true, false, List, [], ◌∷◌, ◌++◌, none, some, arith, length, ok,
}
use local_clash.Prelude.Text.{trim_space, is_blank}
use local_clash.Prelude.Dict.{lookup}
use local_clash.Mcp.Tasks.{
  AsyncTaskStatus, ToolOutcome, text, TaskFiles, queued_event, started_event, monitor_summary,
  error_event, queued, running, failed, new_status, keeps_char, sanitized, sanitize_task_tool,
  write_task_status, structured_tool_error, finish_error, finish_done, finish_async, finish_sync,
  run_async_tool, queue_async_tool, run_logged_sync_tool,
}
use local_clash.Mcp.Tasks.Names.{IsNameText, sanitize_task_tool-IsNameText}
use local_clash.Mcp.Tasks.History.{is_success}
use local_clash.Mcp.Logs.{Entry, TaskFile, Log, cleanup_task_log_dir, retained_files}
use local_clash.Mcp.Logs.Retained.{NoneNewer, In, Listed, cleanup_task_log_dir-NoneNewer}

-- Everything that a run of a task computes with.
task_run : Unit {0}
unfolding trim_space lookup keeps_char sanitized sanitize_task_tool write_task_status
    structured_tool_error finish_error finish_done finish_async finish_sync run_async_tool
    queue_async_tool run_logged_sync_tool is_success
task_run = tt

sanitize_task_tool-IsNameText_example :
    IsNameText (sanitize_task_tool "../config render")
    × (is_blank (sanitize_task_tool "../config render") ≡ false)
sanitize_task_tool-IsNameText_example = sanitize_task_tool-IsNameText "../config render"

abbrev no_core : ToolOutcome
no_core = ok (some (("error", text "no core ") ∷ []))

abbrev failed_status : AsyncTaskStatus
failed_status = record { status = failed; finished = true; error = "no core" }

-- The last write fails.
abbrev failed_files : TaskFiles
failed_files = record {
  status_file = some (new_status running);
  attempts = failed_status ∷ new_status running ∷ new_status queued ∷ [];
  failed_writes = failed_status ∷ [];
  log = error_event ∷ monitor_summary ∷ started_event ∷ queued_event ∷ [];
  writes = [];
}

abbrev entry_at : ℕ → Entry
entry_at time = record { name = "task.log"; is_dir = false; modified = some time }

abbrev sample_entries : List Entry
sample_entries = entry_at 3 ∷ entry_at 9 ∷ entry_at 1 ∷ []

cleanup_task_log_dir-NoneNewer_example :
    (length (retained_files sample_entries 1) ≤ 2)
    × NoneNewer (retained_files sample_entries 1) (cleanup_task_log_dir sample_entries 1)
    × ((f : TaskFile)
        → In f (retained_files sample_entries 1 ++ cleanup_task_log_dir sample_entries 1)
          ↔ Listed f sample_entries)
cleanup_task_log_dir-NoneNewer_example =
    cleanup_task_log_dir-NoneNewer sample_entries 1 (omega arith)

abbrev empty_log : Log
empty_log = record { size = none; rotated = none }

-- ===== src/Lib.antt =====
-- localClash turns a user's intent and subscriptions into a Mihomo configuration and applies it on a
-- router. This library models the parts of the Go program that decide what the configuration holds,
-- and those that test it, replace the files and restart the core.
--
-- Prelude: what the parts share. Text.antt has Go's `strings` and `fmt` on texts as sequences of
--   Unicode scalars; only Unicode's letter tables are a parameter (`Unicode`, with an ASCII value in
--   Text/Ascii.antt for the tests). Dict.antt has Go's maps as association lists, Outcome.antt the
--   result of a function that returns an error.
-- Rules: internal/rules/model.go, with pack lookup from internal/rules/index.go and catalog.go.
--   Data.antt has the types, Line.antt the text of one rule, Target.antt the checks on groups and
--   the resolution of targets (`prepareTargets`, `renderTarget`), Group.antt the groups that are
--   materialised, Fragment.antt `RenderFragment`. A `map[string]any` is a `Dict Setting`, an error
--   message is a constructor of `RenderError`.
--
-- Apply: the transaction of internal/configplan/plan.go that replaces the active files.
--   Backup.antt has `backupApplyTargets`, Files.antt the entries that `commitApplyTargets` builds
--   from the backups, Transaction.antt `commitPreparedFiles` and `rollbackCommittedFiles`. Disk.antt
--   is a file system where the environment chooses the outcome of every call, os.Stat of `fileExists`
--   included, and the content that a failed write leaves. Directories only fail or succeed.
-- LocalConfig: the types of internal/localconfig/config.go and the overlay of a patch.
-- Patch: the patch registry of internal/configpatch/patch.go. OrderId.antt has order ids,
--   Registry.antt the records, their validation and the order of a new or moved patch, Preview.antt
--   the operations of a draft (`previewOperations`) and the check of its base hashes
--   (`verifyBaseHashes`), Compile.antt the merge of the enabled patches (`compileRecords`),
--   Inventory.antt what reports list and the order ids of template patches. The hash of a patch and
--   filepath.Join are the parameter `Host`, the hash of an object is `ObjectHash`.
--
-- MihomoTest: internal/mihomotest. Cache.antt has the file of earlier test results (lookup by
--   metadata and by hash, and `writeValidationCache`), Validate.antt `ValidateCached`, Status.antt
--   `CacheStatus`, Attestation.antt the record of a test and `PromoteConfig`, on the file system of
--   Apply/Disk.antt. `Codec` stands for encoding/json, SHA-256 and path/filepath, `Host` for what one
--   call sees of the host: its files do not change while it runs. Test.antt has `Test`, which runs
--   the validation, writes the cache's file and records the test; the temporary files that these make
--   and remove are not modelled.
-- Corerun: internal/corerun/control.go. Process.antt has the processes that count as a managed core,
--   Stop.antt `Stop` (SIGTERM, the wait, SIGKILL), Options.antt the types of a restart and `Status`,
--   Reload.antt `hotReload`, Restart.antt `Restart`, which tests the configuration by MihomoTest
--   first. `Host` is what the kernel shows, at moments that are counted by the looks at it, with a clock and
--   the sleeps of a wait; `Runtime` is the rest that one restart calls.
-- Mcp: internal/mcp/tasks.go. Tasks.antt has the statuses that the run of one tool is to write,
--   with writes that may fail, and the events that it passes to the log, Logs.antt the rotation and the cleanup of logs, with sizes and times in place of files.
--
-- Every loop is structural recursion, but for two with fuel: `decimal` in Text.antt has one more than
-- the number it prints, which is at least the number of digits; the wait of a stop has two more than
-- the timeout in units of 100 ms, the sleep between two rounds.
--
-- Not modelled: reading and writing files, HTTP, YAML, JSON and gob encoding, the start of a process,
-- the MCP server but for its tasks, and the command line. A Go string is taken to hold valid UTF-8.
pub mod Apply
pub mod Corerun
pub mod LocalConfig
pub mod Mcp
pub mod MihomoTest
pub mod Patch
pub mod Prelude
pub mod Rules

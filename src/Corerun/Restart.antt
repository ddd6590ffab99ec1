-- ===== src/Corerun/Restart.antt =====
-- internal/corerun/control.go: the restart of the core, as a new process or by a hot reload.
pub mod Guarded
pub mod Ends
use local_clash.Prelude.{
  ℕ, String, ◌<>◌, ◌==◌, Bool, true, false, not, ◌&&◌, List, [], ◌∷◌, ◌++◌, Option, none, some, map,
  is_some, is_empty, if◌then◌else◌, Result, ok, err,
}
use local_clash.Prelude.Text.{Unicode, is_blank, trim_space}
use local_clash.Apply.Disk.{Disk}
use local_clash.MihomoTest.Data.{ValidationOptions, CacheRead, Attestation, Codec}
use local_clash.MihomoTest.Data.{Host as TestHost}
use local_clash.MihomoTest.Validate.{Validated, compact_output, default_cache_path, validate_cached}
use local_clash.MihomoTest.Attestation.{
  AttestationError, cannot_stat, Call, ◌>>>◌, look, default_attestation_path, read_attestation,
  verify_config_hash,
}
use local_clash.Corerun.Process.{
  Host, RuntimeProcess, managed_process_name, find_managed_runtime_processes, append_unique_pids,
}
use local_clash.Corerun.Stop.{StopError, StopResult, Stopping, stop, first_pid}
use local_clash.Corerun.Options.{
  RestartOptions, RunOptions, Stage, config_test, stop_stage, start_stage, status_stage, hash_check,
  hot_reload_stage, StageEvent, started, done, failed, RestartError, force_not_supported,
  config_not_available, not_running, no_absolute_path, no_attestation, hash_failed, no_controller,
  reload_failed, test_failed, start_failed, not_stopped, RestartFailure, not_managed, not_prepared,
  stop_failed, StartOutcome, StatusResult, HotReloadResult, Runtime, RestartResult, nothing_done,
  status,
}
use local_clash.Corerun.Reload.{hot_reload}

abbrev or_default : String → String → String
unfolding trim_space
or_default path default = if is_blank (trim_space path) then default else trim_space path

-- compactStartOutput
unfoldable pub compact_start_output : String → String → String
unfolding trim_space compact_output
compact_start_output output e =
    if is_blank (trim_space output) then e else compact_output output none

-- the error of validateConfig
unfoldable pub validate_error : Validated → Option String → Option String
unfolding compact_start_output
validate_error v none =
    if v.result.passed then none else some ("mihomo config test failed: " <> v.result.output)
validate_error v (some e) =
    if is_blank v.result.output
    then some ("mihomo config test failed: " <> e)
    else some ("mihomo config test failed: " <> compact_start_output v.result.output e)

module _ ⦃codec : Codec⦄ ⦃unicode : Unicode⦄ ⦃test_host : TestHost⦄ ⦃host : Host⦄
    ⦃runtime : Runtime⦄ where
  -- normalizeStartOptions; normalizeOptions behind it leaves what is not empty
  unfoldable pub normalize_start_options : RestartOptions → RunOptions
  unfolding or_default
  normalize_start_options opts =
      let work_dir = or_default opts.work_dir ".runtime/mihomo" in
      record {
        core_path = or_default opts.core_path runtime.meta_core_path;
        config_path =
            or_default opts.config_path
              (codec.join_paths (".runtime" ∷ "mihomo" ∷ "config.yaml" ∷ []));
        work_dir = work_dir;
        log_path = or_default opts.log_path (codec.join_paths (work_dir ∷ "mihomo.log" ∷ []));
      }

  unfoldable pub validation_cache_path : String → String → String
  unfolding trim_space default_cache_path
  validation_cache_path path work_dir =
      if is_blank (trim_space path) then default_cache_path work_dir else path

  -- the call of ValidateCached in validateConfig
  unfoldable pub validated : RestartOptions → RunOptions → CacheRead → Validated
  unfolding validation_cache_path validate_cached
  validated opts run cache =
      validate_cached
        (record {
          core_path = run.core_path;
          config_path = run.config_path;
          work_dir = run.work_dir;
          cache_path = validation_cache_path opts.validation_cache_path run.work_dir;
          force = opts.force_config_test;
          timeout = 0;
        })
        cache

  abbrev pub stopped_stages : List StageEvent
  stopped_stages =
      started config_test ∷ done config_test ∷ started stop_stage ∷ done stop_stage ∷ []

  -- from the start on
  unfoldable pub after_stop : RunOptions → Validated → Stopping → Option String → RestartResult
  unfolding status
  after_stop run v s (some e) = record nothing_done {
    validation = some v;
    stop = some s;
    start = some (runtime.start run);
    error = some (start_failed e);
    stages = stopped_stages ++ (started start_stage ∷ failed start_stage ∷ []);
  }
  after_stop run v s none = record nothing_done {
    restarted = (runtime.start run).is_started;
    validation = some v;
    stop = some s;
    start = some (runtime.start run);
    status = some (status ⦃h = runtime.at_status⦄);
    stages =
        stopped_stages
        ++ (started start_stage ∷ done start_stage ∷ started status_stage ∷ done status_stage ∷ []);
  }

  abbrev pub stop_unfinished : Validated → Stopping → RestartResult
  stop_unfinished v s = record nothing_done {
    validation = some v;
    stop = some s;
    stages = started config_test ∷ done config_test ∷ started stop_stage ∷ failed stop_stage ∷ [];
  }

  -- what the stop leaves: its error, and the field `Error` of its result
  abbrev pub after_stop_error :
      RunOptions → Validated → Stopping → Option StopError → Option StopError → RestartResult
  after_stop_error run v s (some e) left =
      let r = stop_unfinished v s in record r { failure = some (stop_failed e) }
  after_stop_error run v s none (some e) =
      let r = stop_unfinished v s in record r { error = some (not_stopped e) }
  after_stop_error run v s none none = after_stop run v s (runtime.start run).failure

  abbrev pub stop_ended : RunOptions → Validated → Option Stopping → Option RestartResult
  stop_ended run v none = none
  stop_ended run v (some s) = some (after_stop_error run v s s.result.error s.result.left)

  -- from the test on
  unfoldable pub after_test :
      RestartOptions → RunOptions → Validated → Option String → Option RestartResult
  unfolding stop after_stop
  after_test opts run v (some e) = some (record nothing_done {
    validation = some v;
    error = some (test_failed e);
    stages = started config_test ∷ failed config_test ∷ [];
  })
  after_test opts run v none = stop_ended run v (stop opts.stop_timeout opts.force_kill)

  abbrev pub prepared : Option RestartResult → Option String → Option RestartResult
  prepared rest none = rest
  prepared rest (some e) = some (record nothing_done { failure = some (not_prepared e) })

  -- the checks of a new process: a managed core, valid options and the directories
  unfoldable pub restart_process : RestartOptions → CacheRead → Option RestartResult
  unfolding normalize_start_options validated after_test validate_error
  restart_process opts cache =
      let run = normalize_start_options opts in
      let v = validated opts run cache in
      let rest = after_test opts run v (validate_error v v.error) in
      if managed_process_name (codec.base run.core_path)
      then prepared rest runtime.preparation
      else some (record nothing_done { failure = some (not_managed run.core_path) })

  -- Restart; a strategy that is not `hot_reload` is a restart of the process
  unfoldable pub restart : RestartOptions → CacheRead → Disk → Option RestartResult
  unfolding trim_space hot_reload restart_process normalize_start_options
  restart opts cache d =
      let process = restart_process opts cache in
      if trim_space opts.strategy == "hot_reload"
      then some (hot_reload opts (normalize_start_options opts) d)
      else process

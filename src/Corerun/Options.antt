-- ===== src/Corerun/Options.antt =====
-- internal/corerun/control.go: what a restart is given and what it returns, and the status.
-- Durations, warnings and next actions are left out.
use local_clash.Prelude.{ℕ, String, Bool, false, not, List, [], Option, none, map, is_empty}
use local_clash.MihomoTest.Validate.{Validated}
use local_clash.MihomoTest.Attestation.{AttestationError}
use local_clash.Corerun.Process.{
  Host, RuntimeProcess, find_managed_runtime_processes, append_unique_pids,
}
use local_clash.Corerun.Stop.{StopError, Stopping, first_pid}

pub record RestartOptions : Type 0 where
  pub core_path : String
  pub config_path : String
  pub work_dir : String
  pub log_path : String
  pub strategy : String
  pub config_sha256 : String
  pub attestation_path : String
  pub validation_cache_path : String
  pub force_config_test : Bool
  pub stop_timeout : ℕ
  pub force_kill : Bool

pub record RunOptions : Type 0 where
  pub core_path : String
  pub config_path : String
  pub work_dir : String
  pub log_path : String

pub data Stage : Type 0 where
  config_test stop_stage start_stage status_stage hash_check hot_reload_stage : Stage

pub data StageEvent : Type 0 where
  started done failed : Stage → StageEvent

pub data RestartError : Type 0 where
  force_not_supported config_not_available not_running no_absolute_path : RestartError
  no_attestation hash_failed : AttestationError → RestartError
  no_controller reload_failed test_failed start_failed : String → RestartError
  not_stopped : StopError → RestartError

-- the second result of Restart
pub data RestartFailure : Type 0 where
  not_managed : String → RestartFailure
  not_prepared : String → RestartFailure
  stop_failed : StopError → RestartFailure

-- what Start in internal/corerun/start.go returns
pub record StartOutcome : Type 0 where
  pub is_started : Bool
  pub pid : ℕ
  pub failure : Option String

pub record StatusResult : Type 0 where
  pub running : Bool
  pub pid : ℕ
  pub pids : List ℕ

pub record HotReloadResult : Type 0 where
  pub config : String
  pub status_code : ℕ

-- The rest of the program and the host, as one restart sees it: the path of the default core, the
-- checks of `Options.validate` with the two directories, the start, the processes when the status
-- is read, and the call of Mihomo's API.
pub record Runtime : Type 0 where
  pub meta_core_path : String
  pub preparation : Option String
  pub start : RunOptions → StartOutcome
  pub at_status : Host
  pub controller : Option String
  pub absolute_path : String → Option String
  pub request : String → ℕ × Option String

pub record RestartResult : Type 0 where
  pub restarted : Bool
  pub reloaded : Bool
  pub config_sha256 : String
  pub validation : Option Validated
  pub stop : Option Stopping
  pub start : Option StartOutcome
  pub status : Option StatusResult
  pub hot_reload : Option HotReloadResult
  pub error : Option RestartError
  pub failure : Option RestartFailure
  pub stages : List StageEvent

abbrev pub nothing_done : RestartResult
nothing_done = record {
  restarted = false;
  reloaded = false;
  config_sha256 = "";
  validation = none;
  stop = none;
  start = none;
  status = none;
  hot_reload = none;
  error = none;
  failure = none;
  stages = [];
}

-- Status
unfoldable pub status : ⦃h : Host⦄ → StatusResult
unfolding find_managed_runtime_processes append_unique_pids
status =
    let processes = find_managed_runtime_processes in
    record {
      running = not (is_empty processes);
      pid = first_pid processes;
      pids = append_unique_pids [] (map (λ (p : RuntimeProcess). p.pid) processes);
    }

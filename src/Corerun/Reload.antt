-- ===== src/Corerun/Reload.antt =====
-- internal/corerun/control.go: the hot reload of a configuration.
pub mod Reloaded
use local_clash.Prelude.{
  ℕ, String, ◌<>◌, ◌==◌, Bool, true, false, not, ◌&&◌, List, [], ◌∷◌, ◌++◌, Option, none, some, map,
  is_some, is_empty, if◌then◌else◌, Result, ok, err,
}
use local_clash.Prelude.Text.{Unicode, is_blank, trim_space}
use local_clash.Apply.Disk.{Disk}
use local_clash.MihomoTest.Data.{ValidationOptions, CacheRead, Attestation, Codec}
use local_clash.MihomoTest.Data.{Host as TestHost}
use local_clash.MihomoTest.Validate.{Validated, compact_output, default_cache_path, validate_cached}
use local_clash.MihomoTest.Attestation.{
  AttestationError, cannot_stat, Call, ◌>>>◌, look, default_attestation_path, read_attestation,
  verify_config_hash,
}
use local_clash.Corerun.Process.{
  Host, RuntimeProcess, managed_process_name, find_managed_runtime_processes, append_unique_pids,
}
use local_clash.Corerun.Stop.{StopError, StopResult, Stopping, stop, first_pid}
use local_clash.Corerun.Options.{
  RestartOptions, RunOptions, Stage, config_test, stop_stage, start_stage, status_stage, hash_check,
  hot_reload_stage, StageEvent, started, done, failed, RestartError, force_not_supported,
  config_not_available, not_running, no_absolute_path, no_attestation, hash_failed, no_controller,
  reload_failed, test_failed, start_failed, not_stopped, RestartFailure, not_managed, not_prepared,
  stop_failed, StartOutcome, StatusResult, HotReloadResult, Runtime, RestartResult, nothing_done,
  status,
}

module _ ⦃codec : Codec⦄ ⦃runtime : Runtime⦄ where
  abbrev pub checked_stages : List StageEvent
  checked_stages =
      started hash_check ∷ done hash_check ∷ started status_stage ∷ done status_stage ∷ []

  abbrev reload_failed_at : RestartResult → RestartError → RestartResult
  reload_failed_at r e = record r {
    error = some e;
    stages = checked_stages ++ (started hot_reload_stage ∷ failed hot_reload_stage ∷ []);
  }

  abbrev requested : RestartResult → String → ℕ × Option String → RestartResult
  requested r path (code, some e) =
      let r' = reload_failed_at r (reload_failed e) in
      record r' { hot_reload = some (record { config = path; status_code = code }) }
  requested r path (code, none) = record r {
    hot_reload = some (record { config = path; status_code = code });
    reloaded = true;
    stages = checked_stages ++ (started hot_reload_stage ∷ done hot_reload_stage ∷ []);
  }

  abbrev with_path : RestartResult → Option String → RestartResult
  with_path r none = reload_failed_at r no_absolute_path
  with_path r (some path) = requested r path (runtime.request path)

  abbrev with_controller : RestartResult → Option String → Option String → RestartResult
  with_controller r (some e) path = reload_failed_at r (no_controller e)
  with_controller r none path = with_path r path

  -- from the status on
  unfoldable pub after_hash : RunOptions → String → StatusResult → RestartResult
  after_hash run sha s =
      let r : RestartResult = record nothing_done { config_sha256 = sha; status = some s } in
      if s.running
      then with_controller r runtime.controller (runtime.absolute_path run.config_path)
      else record r {
        error = some not_running;
        stages =
            started hash_check ∷ done hash_check ∷ started status_stage ∷ failed status_stage ∷ [];
      }

  -- the result of a check of the hash that failed
  abbrev pub hash_error : RestartError → RestartResult
  hash_error e = record nothing_done {
    error = some e;
    stages = started hash_check ∷ failed hash_check ∷ [];
  }

  -- A mismatch returns the hash of the file as well.
  abbrev actual_sha : AttestationError → String
  actual_sha (AttestationError.hash_mismatch actual) = actual
  actual_sha _ = ""

  unfoldable pub verified : RunOptions → Result AttestationError String → RestartResult
  unfolding after_hash
  verified run (err e) =
      let r = hash_error (hash_failed e) in record r { config_sha256 = actual_sha e }
  verified run (ok sha) = after_hash run sha (status ⦃h = runtime.at_status⦄)

  -- the path of the attestation
  unfoldable pub recorded_at : RestartOptions → RunOptions → String
  unfolding trim_space default_attestation_path
  recorded_at opts run =
      if is_blank (trim_space opts.attestation_path)
      then default_attestation_path run.work_dir
      else opts.attestation_path

  unfoldable pub recorded_hash : String → Disk → Call String
  unfolding read_attestation ◌>>>◌
  recorded_hash path d = read_attestation path d >>> λ a d₁. (ok a.config_sha256, d₁)

  -- the hash that is expected: the caller's, or the one of the recorded test
  unfoldable pub expected_hash : RestartOptions → RunOptions → Disk → Call String
  unfolding trim_space recorded_at recorded_hash
  expected_hash opts run d =
      if is_blank (trim_space opts.config_sha256)
      then recorded_hash (recorded_at opts run) d
      else (ok (trim_space opts.config_sha256), d)

  unfoldable pub with_expected : RunOptions → Call String → RestartResult
  unfolding verify_config_hash verified
  with_expected run (err e, d) = hash_error (no_attestation e)
  with_expected run (ok expected, d) =
      verified run (verify_config_hash run.config_path expected d).0

  unfoldable pub stat_config : RestartOptions → RunOptions → Call String → RestartResult
  unfolding expected_hash with_expected
  stat_config opts run (err e, d₁) = record nothing_done { error = some config_not_available }
  stat_config opts run (ok bytes, d₁) = with_expected run (expected_hash opts run d₁)

  -- hotReload; os.Stat of the configuration comes first
  unfoldable pub hot_reload : RestartOptions → RunOptions → Disk → RestartResult
  unfolding look stat_config
  hot_reload opts run d =
      let found = look cannot_stat run.config_path d in
      if opts.force_config_test
      then record nothing_done { error = some force_not_supported }
      else stat_config opts run found

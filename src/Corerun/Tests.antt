-- ===== src/Corerun/Tests.antt =====
-- A stop and two restarts with one core that runs, and the theorems at them.
use local_clash.Prelude.{
  ℕ, ltb, String, ◌==◌, ◌≡◌, ◌⊎◌, refl, true, false, List, [], ◌∷◌, All, Option, none, some,
  if◌then◌else◌, arith, ok, err,
}
use local_clash.Prelude.Text.{trim_space, trim_right, split, text_lt, join, to_lower, contains}
use local_clash.Prelude.Text.Ascii.{ascii}
use local_clash.Prelude.Dict.{elem}
use local_clash.Apply.Disk.{Disk}
use local_clash.MihomoTest.Data.{missing, Codec, TestRun}
use local_clash.MihomoTest.Data.{Host as TestHost}
use local_clash.MihomoTest.Cache.{
  matches_metadata, matches_fingerprint, same_input, first_match, keep_entries, new_entries,
  new_file, read_validation_cache, find_cached_validation_by_metadata, find_cached_validation,
  write_validation_cache,
}
use local_clash.MihomoTest.Validate.{
  compact_output, default_cache_path, normalize_validation_options, core_type, core_version,
  build_input_metadata, sha256_file, build_fingerprint_with_metadata, tested_result, run_test,
  with_fingerprint, with_metadata, validate_cached,
}
use local_clash.MihomoTest.Attestation.{
  ◌>>>◌, check, look, read_file, default_attestation_path, valid_record, parse_attestation,
  read_attestation, config_sha256, verify_config_hash,
}
use local_clash.Corerun.Process.{
  Host, content, process_zombie, is_live, process_command_has_exact_arg, named_process,
  runtime_process, runtime_processes, process_less, insert_process, sort_processes,
  find_managed_runtime_processes, elem_pid, append_unique_pids, append_unique_strings,
  parse_proc_stat_state,
}
use local_clash.Corerun.Stop.{
  StopResult, Stopping, all_exited, wait_rounds, wait_for_all_exit, send_terms, send_kills,
  has_stopped, after_wait, begun, force_stop, stop_runtime_pids, stop,
}
use local_clash.Corerun.Stop.Ends.{Advances, stop-Returns}
use local_clash.Corerun.Stop.Gone.{IsGone, stop_runtime_pids-IsGone}
use local_clash.Corerun.Stop.Signals.{InOrder}
use local_clash.Corerun.Stop.Managed.{IsManaged, stop-InOrder}
use local_clash.Corerun.Options.{
  RestartOptions, RestartResult, RunOptions, Runtime, nothing_done, status,
}
use local_clash.Corerun.Reload.{
  after_hash, verified, recorded_at, recorded_hash, expected_hash, with_expected, stat_config,
  hot_reload,
}
use local_clash.Corerun.Restart.{
  compact_start_output, validate_error, normalize_start_options, validation_cache_path, validated,
  after_stop, after_test, restart_process, restart,
}
use local_clash.Corerun.Restart.Guarded.{IsGuarded, restart-IsGuarded}

-- Everything that a stop computes with.
stop_run : Unit {0}
unfolding trim_space trim_right split text_lt elem process_zombie is_live
    process_command_has_exact_arg named_process runtime_process runtime_processes process_less
    insert_process sort_processes find_managed_runtime_processes elem_pid append_unique_pids
    append_unique_strings parse_proc_stat_state all_exited wait_rounds wait_for_all_exit send_terms
    send_kills has_stopped after_wait begun force_stop stop_runtime_pids stop
stop_run = tt

-- One core, process 12, runs for some looks after the first.
abbrev host_for : ℕ → Host
host_for looks = record {
  listed = 12 ∷ 7 ∷ [];
  self = 7;
  answers = λ moment pid. ltb moment looks;
  stat = λ moment pid. content "12 (lc-mihomo-meta) S 1";
  comm = λ pid. content "lc-mihomo-meta\n";
  command_line = λ pid. content "lc-mihomo-meta";
  clock = λ moment. moment;
  nap = λ moment. 100;
  accepts = λ signal pid. true;
}

host_for-Advances : (looks : ℕ) → Advances (host_for looks)
host_for-Advances looks = (λ moment. omega arith, λ moment. omega arith)

stop-Returns_example : (s : Stopping) × (stop ⦃h = host_for 3⦄ 1000 true ≡ some s)
stop-Returns_example = stop-Returns ⦃h = host_for 3⦄ (host_for-Advances 3) 1000 true

abbrev none_yet : StopResult
none_yet = record {
  stopped = false;
  was_running = false;
  pid = 12;
  pids = 12 ∷ [];
  process_names = "lc-mihomo-meta" ∷ [];
  signal = none;
  forced = false;
  stopped_pids = [];
  left = none;
  error = none;
}

value_of : Option Stopping → Stopping → Stopping
value_of none s = s
value_of (some s) other = s

abbrev no_stop : Stopping
no_stop = record { result = none_yet; sent = []; moment = 0 }

abbrev slow_stop : Stopping
unfolding stop_run value_of
slow_stop = value_of (stop ⦃h = host_for 6⦄ 200 true) no_stop

abbrev quick_stop : Stopping
unfolding stop_run value_of
quick_stop = value_of (stop_runtime_pids ⦃h = host_for 3⦄ (12 ∷ []) 1000 false none_yet) no_stop

stop_runtime_pids-IsGone_example :
    (quick_stop.result.stopped ≡ false) ⊎ All (IsGone ⦃h = host_for 3⦄ quick_stop.moment) (12 ∷ [])
unfolding stop_run value_of
stop_runtime_pids-IsGone_example =
    stop_runtime_pids-IsGone ⦃h = host_for 3⦄ (12 ∷ []) 1000 false none_yet quick_stop refl refl

stop-InOrder_example :
    (pids : List ℕ) × All (IsManaged ⦃h = host_for 6⦄) pids
    × InOrder ⦃h = host_for 6⦄ (IsManaged ⦃h = host_for 6⦄) 200 true pids slow_stop.sent
unfolding stop_run value_of
stop-InOrder_example = stop-InOrder ⦃h = host_for 6⦄ 200 true slow_stop refl

-- Everything that a restart computes with.
restart_run : Unit {0}
unfolding stop_run value_of trim_space trim_right split join to_lower contains elem matches_metadata
    matches_fingerprint same_input first_match keep_entries new_entries new_file
    read_validation_cache find_cached_validation_by_metadata find_cached_validation
    write_validation_cache compact_output default_cache_path normalize_validation_options core_type
    core_version build_input_metadata sha256_file build_fingerprint_with_metadata tested_result
    run_test with_fingerprint with_metadata validate_cached ◌>>>◌ check look read_file
    default_attestation_path valid_record parse_attestation read_attestation config_sha256
    verify_config_hash status compact_start_output validate_error normalize_start_options
    validation_cache_path validated after_stop after_test restart_process after_hash verified
    recorded_at recorded_hash expected_hash with_expected stat_config hot_reload restart
restart_run = tt

abbrev sample_codec : Codec
sample_codec = record {
  encode_cache = λ c. "new";
  decode_cache = λ s. err "bad";
  encode_attestation = λ a. "record";
  decode_attestation = λ s. err "bad";
  sha256 = λ s. s;
  byte_count = λ s. 4;
  dir = λ s. ".";
  base = λ s. s;
  join_paths = λ ps. join ps "/";
  duration = λ n. "180s";
}

abbrev passing_run : TestRun
passing_run = record { output = "ok"; failure = none; deadline_exceeded = false; exit_code = none }

abbrev test_host : TestHost
test_host = record {
  stat = λ path. ok (record { size = 10; mod_time = "noon" });
  read_file = λ path. ok path;
  version_output = λ core. some "v1";
  snapshot = λ dir. ok "copy";
  test = λ core work config. passing_run;
  started_at = "now";
  elapsed = 5;
  saving = record {
    no_directory = none;
    no_temp = none;
    no_write = none;
    no_sync = none;
    no_close = none;
    no_rename = none;
  };
}

abbrev sample_runtime : Runtime
sample_runtime = record {
  meta_core_path = "lc-mihomo-meta";
  preparation = none;
  start = λ run. record { is_started = true; pid = 40; failure = none };
  at_status = host_for 9;
  controller = none;
  absolute_path = λ path. some path;
  request = λ path. (204, none);
}

abbrev options_for : String → RestartOptions
options_for strategy = record {
  core_path = "";
  config_path = "c.yaml";
  work_dir = "run";
  log_path = "";
  strategy = strategy;
  config_sha256 = "body";
  attestation_path = "";
  validation_cache_path = "";
  force_config_test = false;
  stop_timeout = 1000;
  force_kill = false;
}

abbrev sample_disk : Disk
sample_disk = record {
  files = λ p. if p == "c.yaml" then some "body" else none;
  answers = [];
  stats = [];
}

abbrev some_result : Option RestartResult → RestartResult
some_result none = nothing_done
some_result (some r) = r

abbrev restarted : RestartResult
unfolding restart_run
restarted = some_result (
    restart ⦃codec = sample_codec⦄ ⦃unicode = ascii⦄ ⦃test_host = test_host⦄ ⦃host = host_for 3⦄
      ⦃runtime = sample_runtime⦄ (options_for "") missing sample_disk)

restart-IsGuarded_example :
    IsGuarded ⦃codec = sample_codec⦄ ⦃unicode = ascii⦄ ⦃test_host = test_host⦄ ⦃host = host_for 3⦄
      ⦃runtime = sample_runtime⦄
      (options_for "")
      missing
      restarted
unfolding restart_run
restart-IsGuarded_example =
    restart-IsGuarded ⦃codec = sample_codec⦄ ⦃unicode = ascii⦄ ⦃test_host = test_host⦄
      ⦃host = host_for 3⦄ ⦃runtime = sample_runtime⦄ (options_for "") missing sample_disk restarted
      refl

abbrev run_options : RunOptions
run_options = record {
  core_path = "lc-mihomo-meta";
  config_path = "c.yaml";
  work_dir = "run";
  log_path = "run/mihomo.log";
}

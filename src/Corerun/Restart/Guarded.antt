-- ===== src/Corerun/Restart/Guarded.antt =====
-- A restart leaves the running core alone until the new configuration is tested.
use local_clash.Prelude.{
  String, ◌<>◌, ◌==◌, ◌≡◌, ◌⊎◌, inl, inr, refl, subst, true, Option, none, some, Bool-cases, arith,
}
use local_clash.Prelude.Text.{Unicode, is_blank, trim_space}
use local_clash.Apply.Disk.{Disk}
use local_clash.MihomoTest.Data.{CacheRead, Codec, ValidationOptions}
use local_clash.MihomoTest.Data.{Host as TestHost}
use local_clash.MihomoTest.Validate.{Validated, validate_cached}
use local_clash.Corerun.Process.{Host, managed_process_name}
use local_clash.Corerun.Stop.{StopError, Stopping, stop}
use local_clash.Corerun.Reload.Reloaded.{hot_reload-IsReload}
use local_clash.Corerun.Options.{RestartOptions, RestartResult, RunOptions, Runtime}
use local_clash.Corerun.Restart.{
  validate_error, normalize_start_options, validated, after_stop, after_stop_error, stop_ended,
  after_test, prepared, restart_process, validation_cache_path, restart,
}

-- What every result of a call satisfies.
Each : (RestartResult → Type 0) → Option RestartResult → Type 0
Each P none = Unit
Each P (some r) = P r

Each-some :
    (P : RestartResult → Type 0) (o : Option RestartResult) (r : RestartResult)
    → o ≡ some r
    → Each P o
    → P r
unfolding Each
Each-some P o r e h = subst (Each P) e h

validate_error-none :
    (v : Validated) (e : Option String)
    → validate_error v e ≡ none
    → (e ≡ none) × (v.result.passed ≡ true)
unfolding validate_error
validate_error-none v none h = elim (Bool-cases v.result.passed) [
  | inl good ↦ (refl, good)
  | inr bad ↦
      let same : some ("mihomo config test failed: " <> v.result.output) ≡ none = ground arith in cc
]
validate_error-none v (some e) h = elim (Bool-cases (is_blank v.result.output)) [
  | inl nothing ↦ ground arith
  | inr output ↦ ground arith
]

module _ ⦃codec : Codec⦄ ⦃unicode : Unicode⦄ ⦃test_host : TestHost⦄ ⦃host : Host⦄
    ⦃runtime : Runtime⦄ where
  -- a test of the core, the configuration and the directory of the run, with the cache
  abbrev pub IsTestOf : RunOptions → CacheRead → Validated → Type 0
  IsTestOf run cache v =
      (options : ValidationOptions) × (v ≡ validate_cached options cache)
      × (options.core_path ≡ run.core_path)
      × (options.config_path ≡ run.config_path)
      × (options.work_dir ≡ run.work_dir)

  -- Nothing was stopped or started, or the test passed, and a start came after a whole stop.
  abbrev pub IsGuarded : RestartOptions → CacheRead → RestartResult → Type 0
  IsGuarded opts cache r =
      let run = normalize_start_options opts in
      ((r.stop ≡ none) × (r.start ≡ none))
      ⊎ ((v : Validated) × (s : Stopping) × (r.validation ≡ some v)
          × IsTestOf run cache v
          × (v.error ≡ none)
          × (v.result.passed ≡ true)
          × (r.stop ≡ some s)
          × (stop opts.stop_timeout opts.force_kill ≡ some s)
          × ((r.start ≡ none)
              ⊎ ((r.start ≡ some (runtime.start run))
                  × (s.result.error ≡ none)
                  × (s.result.left ≡ none))))

  after_stop-fields :
      (run : RunOptions) (v : Validated) (s : Stopping) (failure : Option String)
      → ((after_stop run v s failure).validation ≡ some v)
        × ((after_stop run v s failure).stop ≡ some s)
        × ((after_stop run v s failure).start ≡ some (runtime.start run))
  unfolding after_stop
  after_stop-fields run v s none = (refl, refl, refl)
  after_stop-fields run v s (some e) = (refl, refl, refl)

  module _ (opts : RestartOptions) (cache : CacheRead) where
    abbrev run : RunOptions
    unfolding normalize_start_options
    run = normalize_start_options opts

    abbrev Passed : Validated → Type 0
    Passed v = IsTestOf run cache v × (v.error ≡ none) × (v.result.passed ≡ true)

    after_stop_error-IsGuarded :
        (v : Validated) (s : Stopping) (error left : Option StopError)
        → s.result.error ≡ error
        → s.result.left ≡ left
        → Passed v
        → stop opts.stop_timeout opts.force_kill ≡ some s
        → IsGuarded opts cache (after_stop_error run v s error left)
    unfolding normalize_start_options
    after_stop_error-IsGuarded v s (some e) left h k (test, fine, passed) ran =
        inr (v, s, refl, test, fine, passed, refl, ran, inl refl)
    after_stop_error-IsGuarded v s none (some e) h k (test, fine, passed) ran =
        inr (v, s, refl, test, fine, passed, refl, ran, inl refl)
    after_stop_error-IsGuarded v s none none h k (test, fine, passed) ran =
        let (tested, stopped, started) = after_stop-fields run v s (runtime.start run).failure in
        inr (v, s, tested, test, fine, passed, stopped, ran, inr (started, h, k))

    stop_ended-IsGuarded :
        (v : Validated) (o : Option Stopping)
        → Passed v
        → stop opts.stop_timeout opts.force_kill ≡ o
        → Each (IsGuarded opts cache) (stop_ended run v o)
    unfolding Each
    stop_ended-IsGuarded v none passed ran = tt
    stop_ended-IsGuarded v (some s) passed ran =
        after_stop_error-IsGuarded v s s.result.error s.result.left refl refl passed ran

    after_test-IsGuarded :
        (v : Validated) (e : Option String)
        → IsTestOf run cache v
        → validate_error v v.error ≡ e
        → Each (IsGuarded opts cache) (after_test opts run v e)
    unfolding Each after_test
    after_test-IsGuarded v (some e) test h = inl (refl, refl)
    after_test-IsGuarded v none test h =
        let (fine, passed) = validate_error-none v v.error h in
        stop_ended-IsGuarded v (stop opts.stop_timeout opts.force_kill) (test, fine, passed) refl

    validated-IsTestOf : IsTestOf run cache (validated opts run cache)
    unfolding validated normalize_start_options
    validated-IsTestOf =
        let options : ValidationOptions = record {
          core_path = run.core_path;
          config_path = run.config_path;
          work_dir = run.work_dir;
          cache_path = validation_cache_path opts.validation_cache_path run.work_dir;
          force = opts.force_config_test;
          timeout = 0;
        } in
        (options, refl, refl, refl, refl)

    prepared-IsGuarded :
        (rest : Option RestartResult) (e : Option String)
        → Each (IsGuarded opts cache) rest
        → Each (IsGuarded opts cache) (prepared rest e)
    unfolding Each
    prepared-IsGuarded rest none h = h
    prepared-IsGuarded rest (some e) h = inl (refl, refl)

    restart_process-IsGuarded : Each (IsGuarded opts cache) (restart_process opts cache)
    unfolding Each restart_process
    restart_process-IsGuarded =
        let v = validated opts run cache in
        elim (Bool-cases (managed_process_name (codec.base run.core_path))) [
          | inl managed ↦ rw managed (
              prepared-IsGuarded (after_test opts run v (validate_error v v.error))
                runtime.preparation
                (after_test-IsGuarded v (validate_error v v.error) validated-IsTestOf refl))
          | inr other ↦ rw other (inl (refl, refl))
        ]

  -- A restart stops or starts something only after a test without an error has passed, of the
  -- core, the configuration and the directory that it starts with, and it starts a core only after
  -- a stop that left no error.
  pub restart-IsGuarded :
      (opts : RestartOptions) (cache : CacheRead) (d : Disk) (r : RestartResult)
      → restart opts cache d ≡ some r
      → IsGuarded opts cache r
  unfolding restart Each
  restart-IsGuarded opts cache d r h =
      Each-some (IsGuarded opts cache) (restart opts cache d) r h
        (elim (Bool-cases (trim_space opts.strategy == "hot_reload")) [
          | inr process ↦ rw process (restart_process-IsGuarded opts cache)
          | inl hot ↦ rw hot (inl (hot_reload-IsReload opts (normalize_start_options opts) d).0)
        ])

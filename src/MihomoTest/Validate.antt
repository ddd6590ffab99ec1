-- ===== src/MihomoTest/Validate.antt =====
-- internal/mihomotest/cache.go: the test of a configuration, served from the cache if it can be.
pub mod Sound
use local_clash.Prelude.{
  ℤ, pos, ℕ, ◌+◌, ◌-◌, leb, nat_eq, String, ◌<>◌, ◌==◌, Bool, true, false, not, ◌&&◌, List, [], ◌∷◌,
  ◌++◌, Option, none, some, if◌then◌else◌, length, is_some, Result, ok, err, ◌>>=◌, map_ok,
}
use local_clash.Prelude.Text.{Unicode, is_blank, trim_space, to_lower, contains, split, join}
use local_clash.MihomoTest.Data.{
  ValidationOptions, ValidationResult, ValidationInputMetadata, ValidationFingerprint, CacheRead,
  missing, unreadable, content, TestRun, Codec, Host,
}
use local_clash.MihomoTest.Cache.{
  find_cached_validation_by_metadata, find_cached_validation, write_validation_cache,
}

-- "\n"
abbrev newline : ℕ
newline = 10

abbrev drop : ℕ → List String → List String
drop ℕ.zero xs = xs
drop (ℕ.suc n) [] = []
drop (ℕ.suc n) (x ∷ xs) = drop n xs

abbrev or_nothing : Option String → String
or_nothing none = ""
or_nothing (some s) = s

-- `"\nerror: " + err.Error()` behind the lines
abbrev with_failure : Option String → List String → List String
with_failure none lines = lines
with_failure (some e) lines = lines ++ (("error: " <> e) ∷ [])

-- the last 8 lines
unfoldable pub compact_output : String → Option String → String
unfolding trim_space split join
compact_output output failure =
    let text = trim_space output in
    let lines = split newline text in
    let last = if leb (length lines) 8 then lines else drop (length lines - 8) lines in
    if is_blank text then or_nothing failure else join (with_failure failure last) "\n"

abbrev version_or : Option String → String
unfolding trim_space
version_or none = ""
version_or (some output) = trim_space output

module _ ⦃codec : Codec⦄ where
  unfoldable pub default_cache_path : String → String
  unfolding trim_space
  default_cache_path work_dir =
      let trimmed = trim_space work_dir in
      let dir =
        if is_blank trimmed then codec.join_paths (".runtime" ∷ "mihomo" ∷ []) else trimmed in
      let parent = codec.dir dir in
      codec.join_paths (
        (if parent == "." then ".runtime" else if is_blank parent then ".runtime" else parent)
        ∷ "validation"
        ∷ "mihomo-test-cache.json"
        ∷ [])

  -- a timeout of 0 is the 180 s by default
  unfoldable pub normalize_validation_options : ValidationOptions → ValidationOptions
  unfolding trim_space default_cache_path
  normalize_validation_options opts =
      let work = trim_space opts.work_dir in
      let dir = if is_blank work then codec.join_paths (".runtime" ∷ "mihomo" ∷ []) else work in
      let cache = trim_space opts.cache_path in
      record {
        core_path = trim_space opts.core_path;
        config_path = trim_space opts.config_path;
        work_dir = dir;
        cache_path = if is_blank cache then default_cache_path dir else cache;
        force = opts.force;
        timeout = if nat_eq opts.timeout 0 then 180000 else opts.timeout;
      }

  module _ ⦃unicode : Unicode⦄ where
    unfoldable pub core_type : String → String
    unfolding to_lower contains
    core_type path = if contains (to_lower (codec.base path)) "smart" then "smart" else "meta"

-- `fmt.Errorf("<what>: %w", err)`
abbrev pub wrapped {ℓ} : {A : Type ℓ} → String → Result String A → Result String A
wrapped what (ok a) = ok a
wrapped what (err e) = err (what <> ": " <> e)

-- A result, the error beside it, and the cache's file afterwards.
pub record Validated : Type 0 where
  pub result : ValidationResult
  pub error : Option String
  pub cache : CacheRead

module _ ⦃codec : Codec⦄ ⦃unicode : Unicode⦄ ⦃host : Host⦄ where
  unfoldable pub core_version : String → String
  unfolding version_or
  core_version path = version_or (host.version_output path)

  unfoldable pub build_input_metadata : ValidationOptions → Result String ValidationInputMetadata
  unfolding core_version core_type
  build_input_metadata opts =
      wrapped "stat generated config" (host.stat opts.config_path) >>= λ config.
      wrapped "stat core" (host.stat opts.core_path) >>= λ core. ok (record {
        config_path = opts.config_path;
        config_size = config.size;
        config_mod_time = config.mod_time;
        core_path = opts.core_path;
        core_size = core.size;
        core_mod_time = core.mod_time;
        core_version = core_version opts.core_path;
        core_type = core_type opts.core_path;
      })

  unfoldable pub sha256_file : String → Result String String
  sha256_file path = map_ok codec.sha256 (host.read_file path)

  unfoldable pub build_fingerprint_with_metadata :
      ValidationOptions → ValidationInputMetadata → Result String ValidationFingerprint
  unfolding sha256_file
  build_fingerprint_with_metadata opts m =
      wrapped "hash generated config" (sha256_file opts.config_path) >>= λ config_sha.
      wrapped "hash core" (sha256_file opts.core_path) >>= λ core_sha. ok (record {
        config_sha256 = config_sha;
        core_sha256 = core_sha;
        core_version = m.core_version;
        core_type = m.core_type;
        config_size = m.config_size;
        config_mod_time = m.config_mod_time;
        core_size = m.core_size;
        core_mod_time = m.core_mod_time;
      })

  -- `ValidationResult{}` with the fields that an early return sets
  abbrev pub refused : ValidationOptions → String → ValidationResult
  refused opts e = record {
    enabled = true;
    passed = false;
    cached = false;
    cache_path = opts.cache_path;
    cache_hit_mode = "";
    validated_at = "";
    config_path = opts.config_path;
    config_sha256 = "";
    config_size = 0;
    config_mod_time = "";
    core_path = opts.core_path;
    core_type = "";
    core_version = "";
    core_sha256 = "";
    core_size = 0;
    core_mod_time = "";
    output = "";
    error = e;
    cache_write_error = "";
    timed_out = false;
    duration_ms = 0;
    exit_code = pos 0;
    isolated = false;
    work_dir = "";
    source_work_dir = "";
  }

  -- the result before the test runs
  abbrev pub fresh_result :
      ValidationOptions → ValidationInputMetadata → ValidationFingerprint → ValidationResult
  fresh_result opts m f =
      let empty = refused opts "" in
      record empty {
        validated_at = host.started_at;
        config_sha256 = f.config_sha256;
        config_size = m.config_size;
        config_mod_time = m.config_mod_time;
        core_type = f.core_type;
        core_version = f.core_version;
        core_sha256 = f.core_sha256;
        core_size = m.core_size;
        core_mod_time = m.core_mod_time;
        isolated = true;
        source_work_dir = opts.work_dir;
      }

  abbrev timeout_error : ValidationOptions → Bool → String → String
  timeout_error opts late e =
      if late
      then "mihomo config test timed out after " <> codec.duration opts.timeout <> ": " <> e
      else e

  abbrev code_or : Option ℤ → ℤ
  code_or none = pos 0
  code_or (some n) = n

  -- the fields that the run of the test sets
  abbrev after_failure :
      ValidationOptions → TestRun → Option String → ValidationResult → ValidationResult
  after_failure opts run none r = r
  after_failure opts run (some e) r = record r {
    error = timeout_error opts run.deadline_exceeded e;
    timed_out = run.deadline_exceeded;
    exit_code = code_or run.exit_code;
  }

  unfoldable pub tested_result :
      ValidationOptions → String → TestRun → ValidationResult → ValidationResult
  unfolding compact_output
  tested_result opts work_dir run r = after_failure opts run run.failure (record r {
    work_dir = work_dir;
    passed = not (is_some run.failure);
    output = compact_output run.output run.failure;
    duration_ms = host.elapsed;
  })

  abbrev pub with_write_error :
      Option String × CacheRead → Option String → ValidationResult → Validated
  with_write_error (none, cache) e r = record { result = r; error = e; cache = cache }
  with_write_error (some w, cache) e r = record {
    result = record r { cache_write_error = w };
    error = e;
    cache = cache;
  }

  -- from SnapshotRuntimeDir on
  unfoldable pub run_test :
      ValidationOptions → CacheRead → ValidationResult → Result String String → Validated
  unfolding tested_result write_validation_cache
  run_test opts cache r (err e) =
      let message = "cannot create isolated mihomo test runtime dir: " <> e in
      let r' : ValidationResult = record r {
        error = message;
        output = message;
        duration_ms = host.elapsed;
      } in
      record {
        result = r';
        error = some e;
        cache = (write_validation_cache host.saving cache r').1;
      }
  run_test opts cache r (ok work_dir) =
      let run = host.test opts.core_path work_dir opts.config_path in
      let r' = tested_result opts work_dir run r in
      with_write_error (write_validation_cache host.saving cache r') run.failure r'

  -- a hit that passed ends the function
  abbrev pub unless_cached :
      Bool
      → ValidationOptions
      → CacheRead
      → String
      → Option ValidationResult
      → Validated
      → Validated
  unless_cached force opts cache mode none next = next
  unless_cached force opts cache mode (some hit) next =
      if not force && hit.passed
      then (record {
        result = record hit {
          enabled = true;
          cached = true;
          cache_path = opts.cache_path;
          cache_hit_mode = mode;
        };
        error = none;
        cache = cache;
      })
      else next

  unfoldable pub with_fingerprint :
      ValidationOptions
      → CacheRead
      → ValidationInputMetadata
      → Result String ValidationFingerprint
      → Validated
  unfolding find_cached_validation run_test
  with_fingerprint opts cache m (err e) = record {
    result = refused opts e;
    error = some e;
    cache = cache;
  }
  with_fingerprint opts cache m (ok f) =
      unless_cached opts.force opts cache "sha256" (find_cached_validation cache f)
        (run_test opts cache (fresh_result opts m f) (host.snapshot opts.work_dir))

  unfoldable pub with_metadata :
      ValidationOptions → CacheRead → Result String ValidationInputMetadata → Validated
  unfolding find_cached_validation_by_metadata build_fingerprint_with_metadata with_fingerprint
  with_metadata opts cache (err e) = record {
    result = refused opts e;
    error = some e;
    cache = cache;
  }
  with_metadata opts cache (ok m) =
      unless_cached opts.force opts cache "metadata" (find_cached_validation_by_metadata cache m)
        (with_fingerprint opts cache m (build_fingerprint_with_metadata opts m))

  -- ValidateCached; the cache's file is the one at the normalized path
  unfoldable pub validate_cached : ValidationOptions → CacheRead → Validated
  unfolding normalize_validation_options build_input_metadata with_metadata
  validate_cached opts cache =
      let opts' = normalize_validation_options opts in
      with_metadata opts' cache (build_input_metadata opts')

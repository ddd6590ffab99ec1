-- ===== src/MihomoTest/Test.antt =====
-- internal/mihomotest/attestation.go: the test that is asked for, and its record.
pub mod Attests
use local_clash.Prelude.{
  String, Bool, true, false, Option, none, some, if◌then◌else◌, Result, ok, err,
}
use local_clash.Prelude.Text.{Unicode, is_blank, trim_space}
use local_clash.Apply.Disk.{Disk, update}
use local_clash.MihomoTest.Data.{
  ValidationOptions, ValidationResult, CacheRead, missing, unreadable, content, Attestation, Codec,
  Host,
}
use local_clash.MihomoTest.Validate.{Validated, normalize_validation_options, validate_cached}
use local_clash.MihomoTest.Attestation.{
  attestation_version, AttestationError, Call, default_attestation_path, write_attestation,
}

-- what is asked for besides the options of the validation
pub record TestRequest : Type 0 where
  pub options : ValidationOptions
  pub is_recorded : Bool
  pub attestation_path : String
  pub promoted_config_path : String

-- `failure` is the error of the record; the error of the validation is in `validation`.
pub record TestResult : Type 0 where
  pub validation : Validated
  pub attestation_path : String
  pub attestation : Option Attestation
  pub recorded : Bool
  pub failure : Option AttestationError

-- what a read of the cache's file shows
abbrev pub cache_in : Option String → Option String → CacheRead
cache_in (some e) file = unreadable e
cache_in none none = missing
cache_in none (some s) = content s

-- the files after the validation
unfoldable pub with_cache : String → CacheRead → Disk → Disk
unfolding update
with_cache path missing d = d
with_cache path (unreadable e) d = d
with_cache path (content s) d = record d { files = update d.files path (some s) }

module _ ⦃codec : Codec⦄ ⦃unicode : Unicode⦄ ⦃host : Host⦄ where
  -- the options of the validation: always forced
  unfoldable pub forced_options : TestRequest → ValidationOptions
  unfolding normalize_validation_options
  forced_options request =
      let opts = normalize_validation_options request.options in record opts { force = true }

  unfoldable pub attestation_path_of : TestRequest → String
  unfolding trim_space default_attestation_path normalize_validation_options
  attestation_path_of request =
      let opts = normalize_validation_options request.options in
      if is_blank (trim_space request.attestation_path)
      then default_attestation_path opts.work_dir
      else request.attestation_path

  -- `now` is the text of the time if the result has none
  unfoldable pub attestation_of : String → TestRequest → ValidationResult → Attestation
  unfolding trim_space forced_options
  attestation_of now request v =
      let opts = forced_options request in
      record {
        version = attestation_version;
        config = v.config_path;
        promoted_config = trim_space request.promoted_config_path;
        work_dir = opts.work_dir;
        core = v.core_path;
        config_sha256 = v.config_sha256;
        passed = true;
        tested_at = if is_blank v.validated_at then now else v.validated_at;
      }

  abbrev pub written : TestResult → Call (Unit {0}) → TestResult × Disk
  written r (ok u, d) = (record r { recorded = true }, d)
  written r (err e, d) = (record r { failure = some e }, d)

  abbrev pub without_attestation : TestRequest → Validated → TestResult
  without_attestation request v = record {
    validation = v;
    attestation_path = attestation_path_of request;
    attestation = none;
    recorded = false;
    failure = none;
  }

  -- a test that passed without an error
  unfoldable pub attested : String → TestRequest → Validated → Disk → TestResult × Disk
  unfolding attestation_of write_attestation attestation_path_of
  attested now request v d =
      let a = attestation_of now request v.result in
      let r' = without_attestation request v in
      let r : TestResult = record r' { attestation = some a } in
      let wrote = written r (write_attestation (attestation_path_of request) a d) in
      if request.is_recorded then wrote else (r, d)

  unfoldable pub after_validation :
      String → TestRequest → Validated → Option String → Disk → TestResult × Disk
  unfolding attested
  after_validation now request v (some e) d = (without_attestation request v, d)
  after_validation now request v none d =
      let done = attested now request v d in
      if v.result.passed then done else (without_attestation request v, d)

  -- the path of the cache's file
  unfoldable pub cache_path_of : TestRequest → String
  unfolding forced_options normalize_validation_options
  cache_path_of request = (normalize_validation_options (forced_options request)).cache_path

  -- Test: the validation writes the cache's file, whether the test passes or not. `unread` is the
  -- error of reading that file, if there is one.
  unfoldable pub test_config : String → TestRequest → Option String → Disk → TestResult × Disk
  unfolding forced_options cache_path_of validate_cached after_validation with_cache
  test_config now request unread d =
      let path = cache_path_of request in
      let v = validate_cached (forced_options request) (cache_in unread (d.files path)) in
      after_validation now request v v.error (with_cache path v.cache d)

-- ===== src/MihomoTest/Status.antt =====
-- internal/mihomotest/cache.go: what the cache knows of a configuration.
pub mod Served
use local_clash.Prelude.{
  ℕ, String, ◌≡◌, refl, sym, ap, ◌∙◌, Bool, true, false, not, ◌&&◌, List, Option, none, some,
  some-injective, if◌then◌else◌, Bool-cases, Option-cases, Result-cases, inl, inr, arith, Result,
  ok, err,
}
use local_clash.Prelude.Text.{Unicode}
use local_clash.MihomoTest.Data.{
  ValidationOptions, ValidationResult, ValidationInputMetadata, ValidationFingerprint, CacheRead,
  Codec, Host,
}
use local_clash.MihomoTest.Cache.{find_cached_validation_by_metadata, find_cached_validation}
use local_clash.MihomoTest.Cache.{first_match, matches_fingerprint}
use local_clash.MihomoTest.Cache.Entries.{first_match-true, matches_fingerprint-eq}
use local_clash.MihomoTest.Cache.Written.{cached_entries}
use local_clash.MihomoTest.Validate.{
  Validated, normalize_validation_options, build_input_metadata, build_fingerprint_with_metadata,
  run_test, fresh_result, with_fingerprint, with_metadata, validate_cached,
}

-- os.Stat of the cache's file
pub data Presence : Type 0 where
  present absent : Presence
  stat_failed : String → Presence

-- the values of the field `Status`
pub data CacheState : Type 0 where
  unavailable not_there matched matched_failed stale : CacheState

pub record CacheStatusResult : Type 0 where
  pub cache_path : String
  pub is_present : Bool
  pub is_matched : Bool
  pub match_mode : String
  pub passed : Bool
  pub validated_at : String
  pub config_path : String
  pub config_sha256 : String
  pub config_size : ℕ
  pub config_mod_time : String
  pub core_path : String
  pub core_type : String
  pub core_version : String
  pub core_sha256 : String
  pub core_size : ℕ
  pub core_mod_time : String
  pub duration_ms : ℕ
  pub error : String
  pub status : CacheState

abbrev pub not_available : ValidationOptions → CacheStatusResult
not_available opts = record {
  cache_path = opts.cache_path;
  is_present = false;
  is_matched = false;
  match_mode = "";
  passed = false;
  validated_at = "";
  config_path = opts.config_path;
  config_sha256 = "";
  config_size = 0;
  config_mod_time = "";
  core_path = opts.core_path;
  core_type = "";
  core_version = "";
  core_sha256 = "";
  core_size = 0;
  core_mod_time = "";
  duration_ms = 0;
  error = "";
  status = unavailable;
}

-- what both hits write
abbrev pub hit_status : CacheStatusResult → String → ValidationResult → CacheStatusResult
hit_status out mode r = record out {
  is_matched = true;
  match_mode = mode;
  passed = r.passed;
  validated_at = r.validated_at;
  duration_ms = r.duration_ms;
  status = if r.passed then matched else matched_failed;
  error = if r.passed then out.error else r.error;
}

abbrev pub hash_status : CacheStatusResult → Option ValidationResult → CacheStatusResult
hash_status out none = record out { status = stale }
hash_status out (some r) = hit_status out "sha256" r

abbrev pub fingerprint_status :
    CacheStatusResult
    → (ValidationFingerprint → Option ValidationResult)
    → Result String ValidationFingerprint
    → CacheStatusResult
fingerprint_status out find (err e) = record out { error = e }
fingerprint_status out find (ok f) =
    let hashed : CacheStatusResult = record out {
      config_sha256 = f.config_sha256;
      core_type = f.core_type;
      core_version = f.core_version;
      core_sha256 = f.core_sha256;
    } in
    hash_status hashed (find f)

abbrev pub hit_or :
    CacheStatusResult → CacheStatusResult → Option ValidationResult → CacheStatusResult
hit_or out next none = next
hit_or out next (some r) =
    let hashed : CacheStatusResult = record out {
      config_sha256 = r.config_sha256;
      core_sha256 = r.core_sha256;
    } in
    hit_status hashed "metadata" r

module _ ⦃codec : Codec⦄ ⦃unicode : Unicode⦄ ⦃host : Host⦄ where
  -- from the first look at the metadata on
  unfoldable pub metadata_status :
      ValidationOptions
      → CacheRead
      → CacheStatusResult
      → Result String ValidationInputMetadata
      → CacheStatusResult
  unfolding find_cached_validation_by_metadata find_cached_validation
      build_fingerprint_with_metadata
  metadata_status opts cache out (err e) = record out { error = e }
  metadata_status opts cache out (ok m) =
      let known : CacheStatusResult = record out {
        config_size = m.config_size;
        config_mod_time = m.config_mod_time;
        core_type = m.core_type;
        core_version = m.core_version;
        core_size = m.core_size;
        core_mod_time = m.core_mod_time;
      } in
      if not out.is_present
      then record known { status = not_there }
      else hit_or known
          (fingerprint_status known (find_cached_validation cache)
            (build_fingerprint_with_metadata opts m))
          (find_cached_validation_by_metadata cache m)

  unfoldable pub presence_status : ValidationOptions → Presence → CacheRead → CacheStatusResult
  unfolding build_input_metadata metadata_status
  presence_status opts (stat_failed e) cache =
      let out = not_available opts in record out { error = e }
  presence_status opts absent cache =
      metadata_status opts cache (not_available opts) (build_input_metadata opts)
  presence_status opts present cache =
      let out = not_available opts in
      metadata_status opts cache (record out { is_present = true }) (build_input_metadata opts)

  -- CacheStatus
  unfoldable pub cache_status : ValidationOptions → Presence → CacheRead → CacheStatusResult
  unfolding normalize_validation_options presence_status
  cache_status opts presence cache =
      presence_status (normalize_validation_options opts) presence cache

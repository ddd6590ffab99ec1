-- ===== src/MihomoTest/Tests.antt =====
-- Runs of the cache and of a promotion on small files, and the theorems at them.
use local_clash.Prelude.{
  pos, negsuc, ◌≤◌, String, ◌==◌, ◌≡◌, ◌⊎◌, inl, inr, refl, ok_inj, true, false, [], ◌∷◌, none,
  some, if◌then◌else◌, length, arith, Result, ok, err,
}
use local_clash.Prelude.Text.{trim_space, join, to_lower, contains, split}
use local_clash.Prelude.Text.Ascii.{ascii}
use local_clash.Apply.Disk.{Disk, tick, update, rename, sync_dir, sync_file, write_file}
use local_clash.MihomoTest.Data.{
  ValidationOptions, ValidationResult, ValidationCacheFile, ValidationFingerprint, content, TestRun,
  Saving, Attestation, Codec, Host,
}
use local_clash.MihomoTest.Cache.{
  matches_metadata, matches_fingerprint, same_input, first_match, keep_entries, new_entries,
  new_file, read_validation_cache, find_cached_validation_by_metadata, find_cached_validation,
  write_validation_cache,
}
use local_clash.MihomoTest.Cache.Entries.{Distinct}
use local_clash.MihomoTest.Cache.Written.{cached_entries, write_validation_cache-Kept, find-write}
use local_clash.MihomoTest.Validate.{
  compact_output, default_cache_path, normalize_validation_options, core_type, core_version,
  build_input_metadata, sha256_file, build_fingerprint_with_metadata, tested_result, run_test,
  with_fingerprint, with_metadata, validate_cached,
}
use local_clash.MihomoTest.Validate.Sound.{Trusted, validate_cached-Trusted}
use local_clash.MihomoTest.Status.{present, cache_status, metadata_status, presence_status}
use local_clash.MihomoTest.Status.Served.{ServedBy, validate_cached-ServedBy}
use local_clash.MihomoTest.Attestation.{
  ◌>>>◌, check, step, look, read_file, move, default_attestation_path, write_attestation,
  valid_record, parse_attestation, read_attestation, config_sha256, verify_config_hash,
  hash_mismatch, cannot_stat, promotion, promote_from, attestation_path_or, promote_config,
}
use local_clash.MihomoTest.Attestation.Promoted.{IsTested, promote_config-Promoted}
use local_clash.MihomoTest.Attestation.Unchanged.{promote_config-unchanged}
use local_clash.MihomoTest.Attestation.Recorded.{read-write}
use local_clash.MihomoTest.Test.{TestRequest}
use local_clash.MihomoTest.Test.Attests.{Attests}

-- Everything that a run computes with.
cache_run : Unit {0}
unfolding trim_space join to_lower contains split matches_metadata matches_fingerprint same_input
    first_match keep_entries new_entries new_file read_validation_cache
    find_cached_validation_by_metadata find_cached_validation write_validation_cache Distinct
    compact_output default_cache_path normalize_validation_options core_type core_version
    build_input_metadata sha256_file build_fingerprint_with_metadata tested_result run_test
    with_fingerprint with_metadata validate_cached cache_status metadata_status presence_status
cache_run = tt

promotion_run : Unit {0}
unfolding trim_space join update rename sync_dir sync_file write_file ◌>>>◌ check step look
    read_file move default_attestation_path write_attestation valid_record parse_attestation
    read_attestation config_sha256 verify_config_hash promotion promote_from attestation_path_or
    promote_config
promotion_run = tt

abbrev result_of : String → ValidationResult
result_of config = record {
  enabled = true;
  passed = true;
  cached = false;
  cache_path = "";
  cache_hit_mode = "";
  validated_at = "yesterday";
  config_path = config;
  config_sha256 = config;
  config_size = 10;
  config_mod_time = "noon";
  core_path = "lc-mihomo-meta";
  core_type = "meta";
  core_version = "v1";
  core_sha256 = "lc-mihomo-meta";
  core_size = 10;
  core_mod_time = "noon";
  output = "";
  error = "";
  cache_write_error = "";
  timed_out = false;
  duration_ms = 5;
  exit_code = pos 0;
  isolated = true;
  work_dir = "";
  source_work_dir = "";
}

abbrev old_cache : ValidationCacheFile
old_cache = record { version = 1; entries = result_of "a.yaml" ∷ [] }

abbrev new_cache : ValidationCacheFile
new_cache = record { version = 1; entries = result_of "b.yaml" ∷ result_of "a.yaml" ∷ [] }

abbrev sample_attestation : Attestation
sample_attestation = record {
  version = 1;
  config = "c.yaml";
  promoted_config = "m.yaml";
  work_dir = "run";
  core = "lc-mihomo-meta";
  config_sha256 = "body";
  passed = true;
  tested_at = "yesterday";
}

-- a codec whose hash is the content
abbrev codec_of : Result String ValidationCacheFile → Codec
codec_of later = record {
  encode_cache = λ c. "new";
  decode_cache = λ s. if s == "old" then ok old_cache else later;
  encode_attestation = λ a. "record";
  decode_attestation = λ s. ok sample_attestation;
  sha256 = λ s. s;
  byte_count = λ s. 4;
  dir = λ s. ".";
  base = λ s. s;
  join_paths = λ ps. "path";
  duration = λ n. "180s";
}

abbrev all_fine : Saving
all_fine = record {
  no_directory = none;
  no_temp = none;
  no_write = none;
  no_sync = none;
  no_close = none;
  no_rename = none;
}

abbrev verdict : String → TestRun
verdict config = record {
  output = "";
  failure = if config == "broken.yaml" then some "exit status 1" else none;
  deadline_exceeded = false;
  exit_code = if config == "broken.yaml" then some (negsuc 0) else none;
}

-- a file's content is its name
abbrev sample_host : Host
sample_host = record {
  stat = λ path. ok (record { size = 10; mod_time = "noon" });
  read_file = λ path. ok path;
  version_output = λ core. some "v1";
  snapshot = λ dir. ok "copy";
  test = λ core work config. verdict config;
  started_at = "now";
  elapsed = 5;
  saving = all_fine;
}

abbrev options_of : String → ValidationOptions
options_of config = record {
  core_path = "lc-mihomo-meta ";
  config_path = config;
  work_dir = "run";
  cache_path = "cache.json";
  force = false;
  timeout = 0;
}

abbrev writing : Codec
writing = codec_of (ok new_cache)

write_validation_cache-Kept_example :
    (length (
        cached_entries ⦃codec = writing⦄
          (write_validation_cache ⦃codec = writing⦄ all_fine
            (content "old")
            (result_of "b.yaml")).1)
      ≤ 32)
    × Distinct (
        cached_entries ⦃codec = writing⦄
          (write_validation_cache ⦃codec = writing⦄ all_fine
            (content "old")
            (result_of "b.yaml")).1)
unfolding cache_run
write_validation_cache-Kept_example =
    write_validation_cache-Kept ⦃codec = writing⦄ all_fine (content "old") (result_of "b.yaml")
      (inl refl) (omega arith, (tt, tt))

abbrev sample_fingerprint : ValidationFingerprint
sample_fingerprint = record {
  config_sha256 = "a.yaml";
  core_sha256 = "lc-mihomo-meta";
  core_version = "v1";
  core_type = "meta";
  config_size = 10;
  config_mod_time = "noon";
  core_size = 10;
  core_mod_time = "noon";
}

find-write_example :
    find_cached_validation ⦃codec = writing⦄
      (write_validation_cache ⦃codec = writing⦄ all_fine (content "old") (result_of "b.yaml")).1
      sample_fingerprint
    ≡ some (result_of "a.yaml")
unfolding cache_run
find-write_example =
    find-write ⦃codec = writing⦄ all_fine (content "old") (result_of "b.yaml") sample_fingerprint
      refl refl (omega arith)

abbrev reading : Codec
reading = codec_of (err "bad")

abbrev IsNotBroken : String → String → Type 0
IsNotBroken core config = (config == "broken.yaml") ≡ false

verdict-IsNotBroken :
    (core work config c g : String)
    → ◌≡◌ {A = Result String String} (ok core) (ok c)
    → ◌≡◌ {A = Result String String} (ok config) (ok g)
    → (verdict config).failure ≡ none
    → IsNotBroken c g
verdict-IsNotBroken core work config c g read_core read_config passes =
    let same : config ≡ g = ok_inj read_config in ground (arith)

validate_cached-Trusted_example :
    Trusted ⦃codec = reading⦄ ⦃unicode = ascii⦄ ⦃host = sample_host⦄ IsNotBroken
      (normalize_validation_options ⦃codec = reading⦄ (options_of "b.yaml"))
      (validate_cached ⦃codec = reading⦄ ⦃unicode = ascii⦄ ⦃host = sample_host⦄
        (options_of "b.yaml")
        (content "old"))
unfolding cache_run
validate_cached-Trusted_example =
    validate_cached-Trusted ⦃codec = reading⦄ ⦃unicode = ascii⦄ ⦃host = sample_host⦄ IsNotBroken
      (λ c. inr ("bad", refl)) verdict-IsNotBroken (options_of "b.yaml") (content "old")
      (inr refl, tt)

validate_cached-ServedBy_example :
    ServedBy ⦃codec = reading⦄ ⦃unicode = ascii⦄ ⦃host = sample_host⦄
      (content "old")
      (cache_status ⦃codec = reading⦄ ⦃unicode = ascii⦄ ⦃host = sample_host⦄
        (options_of "a.yaml")
        present
        (content "old"))
      (validate_cached ⦃codec = reading⦄ ⦃unicode = ascii⦄ ⦃host = sample_host⦄
        (options_of "a.yaml")
        (content "old"))
unfolding cache_run
validate_cached-ServedBy_example =
    validate_cached-ServedBy ⦃codec = reading⦄ ⦃unicode = ascii⦄ ⦃host = sample_host⦄
      (options_of "a.yaml") present (content "old") refl refl refl

abbrev sample_disk : Disk
sample_disk = record {
  files = λ p. if p == "c.yaml" then some "body" else if p == "a.json" then some "record" else none;
  answers = [];
  stats = [];
}

promote_config-Promoted_example :
    (bytes : String) × IsTested ⦃codec = reading⦄ sample_disk "a.json" "c.yaml" bytes
    × ((p : String)
        → (promote_config ⦃codec = reading⦄ " c.yaml" "m.yaml" "a.json" sample_disk).1.files p ≡ (
            if "m.yaml" == p
            then some bytes
            else if "c.yaml" == p
            then none
            else sample_disk.files p))
unfolding promotion_run
promote_config-Promoted_example =
    promote_config-Promoted ⦃codec = reading⦄ " c.yaml" "m.yaml" "a.json" sample_disk
      (record {
        candidate = "c.yaml";
        promoted = "m.yaml";
        attestation = "a.json";
        config_sha256 = "body";
        promoted_bytes = 4;
      })
      (promote_config ⦃codec = reading⦄ " c.yaml" "m.yaml" "a.json" sample_disk).1 refl

abbrev other_disk : Disk
other_disk = record {
  files =
      λ p. if p == "c.yaml" then some "other" else if p == "a.json" then some "record" else none;
  answers = [];
  stats = [];
}

promote_config-unchanged_example :
    ((promote_config ⦃codec = reading⦄ "c.yaml" "m.yaml" "a.json" other_disk).1.files
      ≡ other_disk.files)
    ⊎ (hash_mismatch "other" ≡ cannot_stat)
unfolding promotion_run
promote_config-unchanged_example =
    promote_config-unchanged ⦃codec = reading⦄ "c.yaml" "m.yaml" "a.json" other_disk
      (hash_mismatch "other")
      (promote_config ⦃codec = reading⦄ "c.yaml" "m.yaml" "a.json" other_disk).1 refl

abbrev recorded_disk : Disk
unfolding promotion_run
recorded_disk = (write_attestation ⦃codec = reading⦄ "b.json" sample_attestation other_disk).1

read-write_example :
    read_attestation ⦃codec = reading⦄ "b.json" recorded_disk
    ≡ (ok sample_attestation, tick recorded_disk)
unfolding promotion_run
read-write_example =
    read-write ⦃codec = reading⦄ "b.json" sample_attestation other_disk recorded_disk refl refl refl

-- the disk with the cache's file
abbrev cached_disk : Disk
cached_disk = record {
  files = λ p. if p == "cache.json" then some "old" else none;
  answers = [];
  stats = [];
}

abbrev sample_request : TestRequest
sample_request = record {
  options = options_of "b.yaml";
  is_recorded = true;
  attestation_path = "b.json";
  promoted_config_path = "m.yaml";
}

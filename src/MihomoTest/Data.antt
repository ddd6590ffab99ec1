-- ===== src/MihomoTest/Data.antt =====
-- internal/mihomotest: options, results and what the code reads of the host.
-- Times and sizes are numbers of milliseconds and bytes; a time stamp is its text.
use local_clash.Prelude.{ℕ, ℤ, String, Bool, List, Option, Result}

pub record ValidationOptions : Type 0 where
  pub core_path : String
  pub config_path : String
  pub work_dir : String
  pub cache_path : String
  pub force : Bool
  pub timeout : ℕ

pub record ValidationResult : Type 0 where
  pub enabled : Bool
  pub passed : Bool
  pub cached : Bool
  pub cache_path : String
  pub cache_hit_mode : String
  pub validated_at : String
  pub config_path : String
  pub config_sha256 : String
  pub config_size : ℕ
  pub config_mod_time : String
  pub core_path : String
  pub core_type : String
  pub core_version : String
  pub core_sha256 : String
  pub core_size : ℕ
  pub core_mod_time : String
  pub output : String
  pub error : String
  pub cache_write_error : String
  pub timed_out : Bool
  pub duration_ms : ℕ
  pub exit_code : ℤ
  pub isolated : Bool
  pub work_dir : String
  pub source_work_dir : String

pub record ValidationCacheFile : Type 0 where
  pub version : ℕ
  pub entries : List ValidationResult

pub record ValidationInputMetadata : Type 0 where
  pub config_path : String
  pub config_size : ℕ
  pub config_mod_time : String
  pub core_path : String
  pub core_size : ℕ
  pub core_mod_time : String
  pub core_version : String
  pub core_type : String

pub record ValidationFingerprint : Type 0 where
  pub config_sha256 : String
  pub core_sha256 : String
  pub core_version : String
  pub core_type : String
  pub config_size : ℕ
  pub config_mod_time : String
  pub core_size : ℕ
  pub core_mod_time : String

-- reading the cache's file: there is none, it cannot be read, or its content
pub data CacheRead : Type 0 where
  missing : CacheRead
  unreadable : String → CacheRead
  content : String → CacheRead

-- what os.Stat shows
pub record FileInfo : Type 0 where
  pub size : ℕ
  pub mod_time : String

-- What a run of the core's test shows. The exit code is -1 after a signal.
pub record TestRun : Type 0 where
  pub output : String
  pub failure : Option String
  pub deadline_exceeded : Bool
  pub exit_code : Option ℤ

-- The errors of writing a file by way of a temporary one, each `none` if the step succeeds.
pub record Saving : Type 0 where
  pub no_directory : Option String
  pub no_temp : Option String
  pub no_write : Option String
  pub no_sync : Option String
  pub no_close : Option String
  pub no_rename : Option String

-- internal/mihomotest/attestation.go: the record of a test that passed
pub record Attestation : Type 0 where
  pub version : ℕ
  pub config : String
  pub promoted_config : String
  pub work_dir : String
  pub core : String
  pub config_sha256 : String
  pub passed : Bool
  pub tested_at : String

-- encoding/json, crypto/sha256 in hexadecimal, the bytes of a text, path/filepath and the text of a time.Duration
pub record Codec : Type 0 where
  pub encode_cache : ValidationCacheFile → String
  pub decode_cache : String → Result String ValidationCacheFile
  pub encode_attestation : Attestation → String
  pub decode_attestation : String → Result String Attestation
  pub sha256 : String → String
  pub byte_count : String → ℕ
  pub dir : String → String
  pub base : String → String
  pub join_paths : List String → String
  pub duration : ℕ → String

-- What one call sees of the host. The core and the configuration do not change during the call.
pub record Host : Type 0 where
  pub stat : String → Result String FileInfo
  pub read_file : String → Result String String
  pub version_output : String → Option String
  pub snapshot : String → Result String String
  pub test : String → String → String → TestRun
  pub started_at : String
  pub elapsed : ℕ
  pub saving : Saving

-- ===== src/MihomoTest/Cache.antt =====
-- internal/mihomotest/cache.go: the file of earlier results.
pub mod Entries
pub mod Written
use local_clash.Prelude.{
  ℕ, ◌+◌, leb, nat_eq, String, ◌==◌, Bool, true, false, not, ◌&&◌, List, [], ◌∷◌, ◌++◌, Option,
  none, some, if◌then◌else◌, length, Result, ok, err,
}
use local_clash.MihomoTest.Data.{
  ValidationResult, ValidationCacheFile, ValidationInputMetadata, ValidationFingerprint, CacheRead,
  missing, unreadable, content, Saving, Codec,
}

abbrev pub cache_version : ℕ
cache_version = 1

abbrev pub default_cache_entry_max : ℕ
default_cache_entry_max = 32

-- the error of a read, with `is_missing` for os.IsNotExist
pub data CacheError : Type 0 where
  is_missing : CacheError
  failed : String → CacheError
  version_mismatch : ℕ → CacheError

abbrev check_version : Result String ValidationCacheFile → Result CacheError ValidationCacheFile
check_version (err e) = err (failed e)
check_version (ok c) =
    if nat_eq c.version cache_version then ok c else err (version_mismatch c.version)

abbrev pub entries_of : Result CacheError ValidationCacheFile → List ValidationResult
entries_of (ok c) = c.entries
entries_of (err e) = []

-- the condition of the loop in findCachedValidationByMetadata
unfoldable pub matches_metadata : ValidationInputMetadata → ValidationResult → Bool
matches_metadata m e =
    e.config_path == m.config_path
    && nat_eq e.config_size m.config_size
    && e.config_mod_time == m.config_mod_time
    && e.core_path == m.core_path
    && nat_eq e.core_size m.core_size
    && e.core_mod_time == m.core_mod_time
    && e.core_version == m.core_version
    && e.core_type == m.core_type

-- the condition of the loop in findCachedValidation
unfoldable pub matches_fingerprint : ValidationFingerprint → ValidationResult → Bool
matches_fingerprint f e =
    e.config_sha256 == f.config_sha256
    && e.core_sha256 == f.core_sha256
    && e.core_version == f.core_version
    && e.core_type == f.core_type

-- the condition of the loop in writeValidationCache
unfoldable pub same_input : ValidationResult → ValidationResult → Bool
same_input r e =
    e.config_sha256 == r.config_sha256
    && e.core_sha256 == r.core_sha256
    && e.core_version == r.core_version
    && e.core_type == r.core_type

unfoldable pub first_match :
    (ValidationResult → Bool) → List ValidationResult → Option ValidationResult
first_match p [] = none
first_match p (e ∷ es) = if p e then some e else first_match p es

-- The loop of writeValidationCache: `kept` is the number of entries so far.
unfoldable pub keep_entries : ValidationResult → ℕ → List ValidationResult → List ValidationResult
unfolding same_input
keep_entries r kept [] = []
keep_entries r kept (e ∷ es) =
    let skipped = keep_entries r kept es in
    let rest = keep_entries r (kept + 1) es in
    if same_input r e
    then skipped
    else if leb default_cache_entry_max (kept + 1)
    then e ∷ []
    else e ∷ rest

unfoldable pub new_entries : ValidationResult → List ValidationResult → List ValidationResult
unfolding keep_entries
new_entries r es = r ∷ keep_entries r 1 es

-- the first error of the steps that write the file
abbrev first_error : Option String → Option String → Option String
first_error none later = later
first_error (some e) later = some e

abbrev pub save_error : Saving → Option String
save_error s = first_error s.no_directory (
    first_error s.no_temp
      (first_error s.no_write (first_error s.no_sync (first_error s.no_close s.no_rename))))

abbrev saved : Option String → CacheRead → CacheRead → Option String × CacheRead
saved none old new = (none, new)
saved (some e) old new = (some e, old)

module _ ⦃codec : Codec⦄ where
  unfoldable pub read_validation_cache : CacheRead → Result CacheError ValidationCacheFile
  read_validation_cache missing = err is_missing
  read_validation_cache (unreadable e) = err (failed e)
  read_validation_cache (content s) = check_version (codec.decode_cache s)

  unfoldable pub find_cached_validation_by_metadata :
      CacheRead → ValidationInputMetadata → Option ValidationResult
  unfolding read_validation_cache first_match matches_metadata
  find_cached_validation_by_metadata file m =
      first_match (matches_metadata m) (entries_of (read_validation_cache file))

  unfoldable pub find_cached_validation :
      CacheRead → ValidationFingerprint → Option ValidationResult
  unfolding read_validation_cache first_match matches_fingerprint
  find_cached_validation file f =
      first_match (matches_fingerprint f) (entries_of (read_validation_cache file))

  unfoldable pub new_file : CacheRead → ValidationResult → ValidationCacheFile
  unfolding read_validation_cache new_entries
  new_file file r = record {
    version = cache_version;
    entries = new_entries r (entries_of (read_validation_cache file));
  }

  -- A cache that could not be read is replaced; the result is the error and the file afterwards.
  unfoldable pub write_validation_cache :
      Saving → CacheRead → ValidationResult → Option String × CacheRead
  unfolding new_file
  write_validation_cache saving file r =
      saved (save_error saving) file (content (codec.encode_cache (new_file file r)))

-- ===== src/MihomoTest/Cache/Written.antt =====
-- What a write of the cache leaves for the next reads.
use local_clash.Prelude.{
  ◌≤◌, ◌<◌, String, ◌≡◌, ◌⊎◌, inl, inr, refl, List, [], none, some, if◌then◌else◌, length,
  Bool-cases, Option-cases, arith, ok, err,
}
use local_clash.MihomoTest.Data.{
  ValidationResult, ValidationCacheFile, ValidationFingerprint, CacheRead, content, Saving, Codec,
}
use local_clash.MihomoTest.Cache.{
  entries_of, save_error, matches_fingerprint, first_match, new_entries, new_file,
  read_validation_cache, find_cached_validation, write_validation_cache,
}
use local_clash.MihomoTest.Cache.Entries.{
  length-new_entries, first_match-keep_entries, Distinct, new_entries-Distinct,
}

-- encoding/json reads back what it wrote, or fails.
abbrev pub ReadsBack : Codec → ValidationCacheFile → Type 0
ReadsBack codec c =
    (codec.decode_cache (codec.encode_cache c) ≡ ok c)
    ⊎ ((e : String) × (codec.decode_cache (codec.encode_cache c) ≡ err e))

module _ ⦃codec : Codec⦄ where
  abbrev pub cached_entries : CacheRead → List ValidationResult
  cached_entries file = entries_of (read_validation_cache file)

  fresh_file : CacheRead → ValidationResult → CacheRead
  fresh_file file r = content (codec.encode_cache (new_file file r))

  -- A write leaves the file, or the new one.
  write_validation_cache-cases :
      (saving : Saving) (file : CacheRead) (r : ValidationResult)
      → (write_validation_cache saving file r ≡ (none, fresh_file file r))
        ⊎ ((e : String) × (write_validation_cache saving file r ≡ (some e, file)))
  unfolding write_validation_cache fresh_file
  write_validation_cache-cases saving file r = elim (Option-cases (save_error saving)) [
    | inl fine ↦ inl (rw fine refl)
    | inr (e, bad) ↦ inr (e, rw bad refl)
  ]

  read-fresh_file :
      (file : CacheRead) (r : ValidationResult)
      → codec.decode_cache (codec.encode_cache (new_file file r)) ≡ ok (new_file file r)
      → cached_entries (fresh_file file r) ≡ new_entries r (cached_entries file)
  unfolding read_validation_cache fresh_file new_file
  read-fresh_file file r json = rw json refl

  lost-fresh_file :
      (file : CacheRead) (r : ValidationResult) (e : String)
      → codec.decode_cache (codec.encode_cache (new_file file r)) ≡ err e
      → cached_entries (fresh_file file r) ≡ []
  unfolding read_validation_cache fresh_file new_file
  lost-fresh_file file r e json = rw json refl

  -- What holds of no entries, of the old ones and of those of a new file holds after a write.
  pub after-write :
      (P : List ValidationResult → Type 0) (saving : Saving) (file : CacheRead)
      (r : ValidationResult)
      → ReadsBack codec (new_file file r)
      → P []
      → P (cached_entries file)
      → P (new_entries r (cached_entries file))
      → P (cached_entries (write_validation_cache saving file r).1)
  after-write P saving file r json lost old new =
      elim (write_validation_cache-cases saving file r) [
        | inr (failure, e) ↦ rw e old
        | inl e ↦ elim json [
          | inl back ↦ rw (e, read-fresh_file file r back) new
          | inr (bad, fails) ↦ rw (e, lost-fresh_file file r bad fails) lost
        ]
      ]

  -- A write of the cache keeps it in order, whatever the disk does: at most 32 entries, and no
  -- two of them of one input.
  pub write_validation_cache-Kept :
      (saving : Saving) (file : CacheRead) (r : ValidationResult)
      → ReadsBack codec (new_file file r)
      → (length (cached_entries file) ≤ 32) × Distinct (cached_entries file)
      → (length (cached_entries (write_validation_cache saving file r).1) ≤ 32)
        × Distinct (cached_entries (write_validation_cache saving file r).1)
  unfolding Distinct
  write_validation_cache-Kept saving file r json h =
      after-write (λ es. (length es ≤ 32) × Distinct es) saving file r json (omega arith, tt) h
        (length-new_entries r _, new_entries-Distinct r _ h.1)

  -- A result that was written is the one that its inputs find, and the write hides no other
  -- result while the cache holds fewer than 32.
  pub find-write :
      (saving : Saving) (file : CacheRead) (r : ValidationResult) (f : ValidationFingerprint)
      → codec.decode_cache (codec.encode_cache (new_file file r)) ≡ ok (new_file file r)
      → (write_validation_cache saving file r).0 ≡ none
      → length (cached_entries file) < 32
      → find_cached_validation (write_validation_cache saving file r).1 f
        ≡ (if matches_fingerprint f r then some r else find_cached_validation file f)
  unfolding find_cached_validation first_match new_entries
  find-write saving file r f json fine space = elim (write_validation_cache-cases saving file r) [
    | inr (failure, e) ↦ cc
    | inl e ↦ elim (Bool-cases (matches_fingerprint f r)) [
      | inl same ↦ rw (e, read-fresh_file file r json, same) refl
      | inr other ↦
          rw (e, read-fresh_file file r json, other)
            (first_match-keep_entries f r 1 (cached_entries file) other (omega arith))
    ]
  ]

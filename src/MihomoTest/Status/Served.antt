-- ===== src/MihomoTest/Status/Served.antt =====
-- The status of the cache foretells the test.
use local_clash.Prelude.{
  String, ◌≡◌, refl, sym, true, false, none, Bool-cases, Option-cases, inl, inr, Result, ok, err,
}
use local_clash.Prelude.Text.{Unicode}
use local_clash.MihomoTest.Data.{
  ValidationOptions, ValidationInputMetadata, ValidationFingerprint, CacheRead, Codec, Host,
}
use local_clash.MihomoTest.Cache.{find_cached_validation_by_metadata, find_cached_validation}
use local_clash.MihomoTest.Cache.{matches_fingerprint}
use local_clash.MihomoTest.Cache.Entries.{first_match-true, matches_fingerprint-eq}
use local_clash.MihomoTest.Cache.Written.{cached_entries}
use local_clash.MihomoTest.Validate.{
  Validated, normalize_validation_options, build_input_metadata, build_fingerprint_with_metadata,
  with_fingerprint, with_metadata, validate_cached,
}
use local_clash.MihomoTest.Status.{
  Presence, present, absent, stat_failed, CacheStatusResult, not_available, fingerprint_status,
  metadata_status, cache_status,
}

module _ ⦃codec : Codec⦄ ⦃unicode : Unicode⦄ ⦃host : Host⦄ where
  -- What the status promises of a test: no run, the same kind of hit and the same hash.
  abbrev pub ServedBy : CacheRead → CacheStatusResult → Validated → Type 0
  ServedBy cache status v =
      (v.result.cached ≡ true)
      × (v.result.passed ≡ true)
      × (v.result.cache_hit_mode ≡ status.match_mode)
      × (v.result.config_sha256 ≡ status.config_sha256)
      × (v.error ≡ none)
      × (v.cache ≡ cache)

  Promised : ValidationOptions → CacheRead → CacheStatusResult → Validated → Type 0
  Promised opts cache status v =
      status.is_matched ≡ true → status.passed ≡ true → ServedBy cache status v

  with_fingerprint-Promised :
      (opts : ValidationOptions) (cache : CacheRead) (out : CacheStatusResult)
      (m : ValidationInputMetadata) (f : Result String ValidationFingerprint)
      → opts.force ≡ false
      → out.is_matched ≡ false
      → Promised opts cache
          (fingerprint_status out (find_cached_validation cache) f)
          (with_fingerprint opts cache m f)
  unfolding Promised with_fingerprint find_cached_validation
  with_fingerprint-Promised opts cache out m (err e) free new = λ hit p. cc
  with_fingerprint-Promised opts cache out m (ok f) free new =
      elim (Option-cases (find_cached_validation cache f)) [
        | inl none_found ↦ rw none_found (λ hit p. cc)
        | inr (r, found) ↦
            let match = first_match-true (matches_fingerprint f) (cached_entries cache) r found in
            let same = (matches_fingerprint-eq f r match).1 in
            elim (Bool-cases r.passed) [
              | inr bad ↦ rw (found, bad) (λ hit p. cc)
              | inl good ↦
                  rw (found, free, good) (λ hit p. (refl, refl, refl, sym same, refl, refl))
            ]
      ]

  with_metadata-Promised :
      (opts : ValidationOptions) (cache : CacheRead) (out : CacheStatusResult)
      (m : Result String ValidationInputMetadata)
      → opts.force ≡ false
      → out.is_matched ≡ false
      → Promised opts cache (metadata_status opts cache out m) (with_metadata opts cache m)
  unfolding Promised with_metadata metadata_status
  with_metadata-Promised opts cache out (err e) free new = λ hit p. cc
  with_metadata-Promised opts cache out (ok m) free new = elim (Bool-cases out.is_present) [
    | inr no_cache ↦ rw no_cache (λ hit p. cc)
    | inl there ↦ elim (Option-cases (find_cached_validation_by_metadata cache m)) [
      | inl none_found ↦
          rw (there, none_found)
            (with_fingerprint-Promised opts cache _ m (build_fingerprint_with_metadata opts m) free
              new)
      | inr (r, found) ↦ elim (Bool-cases r.passed) [
        | inr bad ↦ rw (there, found, bad) (λ hit p. cc)
        | inl good ↦ rw (there, found, free, good) (λ hit p. (refl, refl, refl, refl, refl, refl))
      ]
    ]
  ]

  -- Where the status says that a result matches and passed, a test that is not forced is that
  -- result, served from the cache: the cache stays as it is, and the kind of hit and the hash are
  -- those of the status.
  pub validate_cached-ServedBy :
      (opts : ValidationOptions) (presence : Presence) (cache : CacheRead)
      → opts.force ≡ false
      → (cache_status opts presence cache).is_matched ≡ true
      → (cache_status opts presence cache).passed ≡ true
      → ServedBy cache (cache_status opts presence cache) (validate_cached opts cache)
  unfolding cache_status validate_cached Promised normalize_validation_options
  validate_cached-ServedBy opts (stat_failed e) cache free hit passed = cc
  validate_cached-ServedBy opts absent cache free hit passed =
      let opts' = normalize_validation_options opts in
      with_metadata-Promised opts' cache (not_available opts') (build_input_metadata opts') free
        refl hit passed
  validate_cached-ServedBy opts present cache free hit passed =
      let opts' = normalize_validation_options opts in
      let out : CacheStatusResult =
        let base = not_available opts' in record base { is_present = true } in
      with_metadata-Promised opts' cache out (build_input_metadata opts') free refl hit passed

-- ===== src/MihomoTest/Validate/Sound.antt =====
-- A test that passed, from the cache or not, is one that the core ran on the same bytes.
use local_clash.Prelude.{
  String, ◌≡◌, ◌⊎◌, inl, inr, refl, sym, ap, ◌∙◌, subst, Bool, true, false, not, ◌&&◌, All, All-map,
  Option, none, some, is_some, Bool-cases, Option-cases, arith, Result, ok, err, >>=-eq-ok, map_ok,
  Result-cases, ok_inj,
}
use local_clash.Prelude.Text.{Unicode}
use local_clash.MihomoTest.Data.{
  ValidationOptions, ValidationResult, ValidationInputMetadata, ValidationFingerprint,
  ValidationCacheFile, CacheRead, TestRun, Codec, Host,
}
use local_clash.MihomoTest.Cache.{
  matches_metadata, matches_fingerprint, find_cached_validation_by_metadata, find_cached_validation,
  write_validation_cache,
}
use local_clash.MihomoTest.Cache.Entries.{All-new_entries, first_match-All, matches_fingerprint-eq}
use local_clash.MihomoTest.Cache.Written.{ReadsBack, cached_entries, after-write}
use local_clash.MihomoTest.Validate.{
  Validated, wrapped, normalize_validation_options, build_input_metadata, sha256_file,
  build_fingerprint_with_metadata, fresh_result, tested_result, run_test, unless_cached,
  with_write_error, with_fingerprint, with_metadata, validate_cached,
}

wrapped-eq-ok :
    {A : Type 0} (what : String) (r : Result String A) (a : A) → wrapped what r ≡ ok a → r ≡ ok a
wrapped-eq-ok what (ok a') a h = h
wrapped-eq-ok what (err e) a h = cc

if_passed : {X : Type 0} (passed : Bool) → (passed ≡ true → X) → (passed ≡ false) ⊎ X
if_passed true h = inr (h refl)
if_passed false h = inl refl

when_passed : {X : Type 0} (passed : Bool) → (passed ≡ false) ⊎ X → passed ≡ true → X
when_passed passed (inl e) p = cc
when_passed passed (inr x) p = x

no_failure-passed : (failure : Option String) → not (is_some failure) ≡ true → failure ≡ none
no_failure-passed none h = refl
no_failure-passed (some e) h = cc

module _ ⦃codec : Codec⦄ ⦃unicode : Unicode⦄ ⦃host : Host⦄ where
  -- `sha` is the hash of the file now
  abbrev pub HashOf : String → String → Type 0
  HashOf path sha = (bytes : String) × (host.read_file path ≡ ok bytes) × (sha ≡ codec.sha256 bytes)

  sha256_file-HashOf : (path sha : String) → sha256_file path ≡ ok sha → HashOf path sha
  unfolding sha256_file
  sha256_file-HashOf path sha h = elim (Result-cases (host.read_file path)) [
    | inl (bytes, e) ↦
        let same : ok (codec.sha256 bytes) ≡ ok sha = sym (ap (map_ok codec.sha256) e) ∙ h in
        (bytes, e, sym (ok_inj same))
    | inr (e, fails) ↦ let same : err e ≡ ok sha = sym (ap (map_ok codec.sha256) fails) ∙ h in cc
  ]

  build_fingerprint_with_metadata-HashOf :
      (opts : ValidationOptions) (m : ValidationInputMetadata) (f : ValidationFingerprint)
      → build_fingerprint_with_metadata opts m ≡ ok f
      → HashOf opts.core_path f.core_sha256 × HashOf opts.config_path f.config_sha256
  unfolding build_fingerprint_with_metadata
  build_fingerprint_with_metadata-HashOf opts m f h =
      let (config, e, h') = >>=-eq-ok _ _ h in
      let (core, e', h'') = >>=-eq-ok _ _ h' in
      let same_core = ap (λ (g : ValidationFingerprint). g.core_sha256) (ok_inj h'') in
      let same_config = ap (λ (g : ValidationFingerprint). g.config_sha256) (ok_inj h'') in
      (
        subst (HashOf opts.core_path) same_core
            (sha256_file-HashOf opts.core_path core (wrapped-eq-ok "hash core" _ core e')),
        subst (HashOf opts.config_path) same_config (
            sha256_file-HashOf opts.config_path config
              (wrapped-eq-ok "hash generated config" _ config e)),
      )

  module _ (Accepted : String → String → Type 0) where
    -- A result that passed is of bytes that the core accepted.
    abbrev IsSound : ValidationResult → Type 0
    IsSound r = (r.passed ≡ true) → Accepted r.core_sha256 r.config_sha256

    -- Such a result is of the files as they are now, or of files of the same size and time.
    abbrev pub IsOfInput : ValidationOptions → ValidationResult → Type 0
    IsOfInput opts r =
        (HashOf opts.core_path r.core_sha256 × HashOf opts.config_path r.config_sha256)
        ⊎ ((opts.force ≡ false)
            × (r.cache_hit_mode ≡ "metadata")
            × ((m : ValidationInputMetadata) × (build_input_metadata opts ≡ ok m)
                × (matches_metadata m r ≡ true)))

    -- The same without an implication.
    abbrev pub IsTrusted : ValidationResult → Type 0
    IsTrusted r = (r.passed ≡ false) ⊎ Accepted r.core_sha256 r.config_sha256

    abbrev pub Trusted : ValidationOptions → Validated → Type 0
    Trusted opts v =
        All IsTrusted (cached_entries v.cache)
        × IsTrusted v.result
        × ((v.result.passed ≡ false) ⊎ IsOfInput opts v.result)

    Sound : ValidationOptions → Validated → Type 0
    Sound opts v =
        All IsSound (cached_entries v.cache)
        × IsSound v.result
        × ((v.result.passed ≡ true) → IsOfInput opts v.result)

    unless_cached-Sound :
        (force : Bool) (opts : ValidationOptions) (cache : CacheRead) (mode : String)
        (hit : Option ValidationResult) (next : Validated)
        → All IsSound (cached_entries cache)
        → ((r : ValidationResult)
            → hit ≡ some r
            → force ≡ false
            → IsSound r × IsOfInput opts (record r { cache_hit_mode = mode }))
        → Sound opts next
        → Sound opts (unless_cached force opts cache mode hit next)
    unfolding Sound matches_metadata
    unless_cached-Sound force opts cache mode none next old found later = later
    unless_cached-Sound force opts cache mode (some r) next old found later =
        elim (Bool-cases (not force && r.passed)) [
          | inr no_hit ↦ rw no_hit later
          | inl a_hit ↦
              let no_force : force ≡ false = ground arith in
              rw a_hit (old, (found r refl no_force).0, λ p. (found r refl no_force).1)
        ]

    tested_result-fields :
        (opts : ValidationOptions) (work_dir : String) (run : TestRun) (r : ValidationResult)
        → ((tested_result opts work_dir run r).passed ≡ not (is_some run.failure))
          × ((tested_result opts work_dir run r).core_sha256 ≡ r.core_sha256)
          × ((tested_result opts work_dir run r).config_sha256 ≡ r.config_sha256)
    unfolding tested_result
    tested_result-fields opts work_dir run r = elim (Option-cases run.failure) [
      | inl fine ↦ rw fine (refl, refl, refl)
      | inr (e, failed) ↦ rw failed (refl, refl, refl)
    ]

    with_write_error-Sound :
        (opts : ValidationOptions) (write : Option String × CacheRead) (e : Option String)
        (r : ValidationResult)
        → All IsSound (cached_entries write.1)
        → IsSound r
        → ((r.passed ≡ true) → IsOfInput opts r)
        → Sound opts (with_write_error write e r)
    unfolding Sound matches_metadata
    with_write_error-Sound opts (none, cache) e r old sound current = (old, sound, current)
    with_write_error-Sound opts (some w, cache) e r old sound current = (old, sound, current)

    module _ (json : (c : ValidationCacheFile) → ReadsBack codec c)
        (tests : (core work config c g : String)
          → host.read_file core ≡ ok c
          → host.read_file config ≡ ok g
          → (host.test core work config).failure ≡ none
          → Accepted (codec.sha256 c) (codec.sha256 g)) where
      after-write-IsSound :
          (cache : CacheRead) (r : ValidationResult)
          → All IsSound (cached_entries cache)
          → IsSound r
          → All IsSound (cached_entries (write_validation_cache host.saving cache r).1)
      after-write-IsSound cache r old new =
          after-write (All IsSound) host.saving cache r (json _) tt old
            (All-new_entries IsSound r (cached_entries cache) new old)

      run_test-Sound :
          (opts : ValidationOptions) (cache : CacheRead) (m : ValidationInputMetadata)
          (f : ValidationFingerprint) (snapshot : Result String String)
          → All IsSound (cached_entries cache)
          → HashOf opts.core_path f.core_sha256 × HashOf opts.config_path f.config_sha256
          → Sound opts (run_test opts cache (fresh_result opts m f) snapshot)
      unfolding run_test Sound
      run_test-Sound opts cache m f (err e) old hashes =
          (after-write-IsSound cache _ old (λ p. cc), λ p. cc, λ p. cc)
      run_test-Sound opts cache m f (ok work_dir) old hashes =
          let run = host.test opts.core_path work_dir opts.config_path in
          let fresh = fresh_result opts m f in
          let r' = tested_result opts work_dir run fresh in
          let (passes, core, config) = tested_result-fields opts work_dir run fresh in
          let (c, reads_core, is_core) = hashes.0 in
          let (g, reads_config, is_config) = hashes.1 in
          let sound : IsSound r' = λ p.
            let no_failure = no_failure-passed run.failure (sym passes ∙ p) in
            subst (λ h. Accepted h r'.config_sha256) (sym (core ∙ is_core))
              (subst (Accepted (codec.sha256 c)) (sym (config ∙ is_config)) (
                tests opts.core_path work_dir opts.config_path c g reads_core reads_config
                  no_failure)) in
          with_write_error-Sound opts (write_validation_cache host.saving cache r') run.failure r'
            (after-write-IsSound cache r' old sound) sound
            (λ p. inl ((c, reads_core, core ∙ is_core), (g, reads_config, config ∙ is_config)))

      sha256-hit :
          (opts : ValidationOptions) (cache : CacheRead) (f : ValidationFingerprint)
          (r : ValidationResult)
          → All IsSound (cached_entries cache)
          → HashOf opts.core_path f.core_sha256 × HashOf opts.config_path f.config_sha256
          → find_cached_validation cache f ≡ some r
          → IsSound r × IsOfInput opts (record r { cache_hit_mode = "sha256" })
      unfolding find_cached_validation
      sha256-hit opts cache f r old hashes h =
          let (sound, match) =
            first_match-All (matches_fingerprint f) IsSound (cached_entries cache) r old h in
          let (core, config) = matches_fingerprint-eq f r match in
          (
            sound,
            inl (
              subst (HashOf opts.core_path) core hashes.0,
              subst (HashOf opts.config_path) config hashes.1,
            ),
          )

      with_fingerprint-Sound :
          (opts : ValidationOptions) (cache : CacheRead) (m : ValidationInputMetadata)
          → All IsSound (cached_entries cache)
          → (f : Result String ValidationFingerprint) → build_fingerprint_with_metadata opts m ≡ f
          → Sound opts (with_fingerprint opts cache m f)
      unfolding with_fingerprint Sound
      with_fingerprint-Sound opts cache m old (err e) h = (old, λ p. cc, λ p. cc)
      with_fingerprint-Sound opts cache m old (ok f) h =
          let hashes = build_fingerprint_with_metadata-HashOf opts m f h in
          unless_cached-Sound opts.force opts cache "sha256" (find_cached_validation cache f) _ old
            (λ r found no_force. sha256-hit opts cache f r old hashes found)
            (run_test-Sound opts cache m f (host.snapshot opts.work_dir) old hashes)

      metadata-hit :
          (opts : ValidationOptions) (cache : CacheRead) (m : ValidationInputMetadata)
          (r : ValidationResult)
          → All IsSound (cached_entries cache)
          → build_input_metadata opts ≡ ok m
          → opts.force ≡ false
          → find_cached_validation_by_metadata cache m ≡ some r
          → IsSound r × IsOfInput opts (record r { cache_hit_mode = "metadata" })
      unfolding find_cached_validation_by_metadata matches_metadata
      metadata-hit opts cache m r old input no_force h =
          let (sound, match) =
            first_match-All (matches_metadata m) IsSound (cached_entries cache) r old h in
          (sound, inr (no_force, refl, (m, input, match)))

      with_metadata-Sound :
          (opts : ValidationOptions) (cache : CacheRead)
          → All IsSound (cached_entries cache)
          → (m : Result String ValidationInputMetadata) → build_input_metadata opts ≡ m
          → Sound opts (with_metadata opts cache m)
      unfolding with_metadata Sound
      with_metadata-Sound opts cache old (err e) h = (old, λ p. cc, λ p. cc)
      with_metadata-Sound opts cache old (ok m) h =
          unless_cached-Sound opts.force opts cache "metadata"
            (find_cached_validation_by_metadata cache m) _ old
            (λ r found no_force. metadata-hit opts cache m r old h no_force found)
            (with_fingerprint-Sound opts cache m old _ refl)

      -- A cache whose results that passed are all of bytes that the core accepted stays so, and a
      -- result that passed is of bytes that the core accepted. These are the bytes of the files of
      -- this call, but for a hit by size and time when the test was not forced.
      pub validate_cached-Trusted :
          (opts : ValidationOptions) (cache : CacheRead)
          → All IsTrusted (cached_entries cache)
          → Trusted (normalize_validation_options opts) (validate_cached opts cache)
      unfolding validate_cached Sound
      validate_cached-Trusted opts cache old =
          let opts' = normalize_validation_options opts in
          let old' = All-map IsTrusted IsSound _ (λ r h. when_passed r.passed h) old in
          let (kept, sound, current) = with_metadata-Sound opts' cache old' _ refl in
          (
            All-map IsSound IsTrusted _ (λ r h. if_passed r.passed h) kept,
            if_passed _ sound,
            if_passed _ current,
          )

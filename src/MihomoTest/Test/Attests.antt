-- ===== src/MihomoTest/Test/Attests.antt =====
-- An attestation is of bytes that the core accepted.
use local_clash.Prelude.{String, ◌==◌, ◌≡◌, ◌⊎◌, true, false, none, some}
use local_clash.Prelude.Text.{Unicode}
use local_clash.Apply.Disk.{Disk}
use local_clash.MihomoTest.Data.{Attestation, Codec, Host}
use local_clash.MihomoTest.Validate.{normalize_validation_options}
use local_clash.MihomoTest.Validate.Sound.{HashOf}
use local_clash.MihomoTest.Test.{TestRequest, TestResult, forced_options}

module _ ⦃codec : Codec⦄ ⦃unicode : Unicode⦄ ⦃host : Host⦄
    (Accepted : String → String → Type 0) where
  -- the path of the cache's file, by the options of the validation
  abbrev pub cache_file : TestRequest → String
  cache_file request = (normalize_validation_options (forced_options request)).cache_path

  -- No attestation, and no file changed but the cache's; or one of a test that passed, with the
  -- hash of the configuration as it is.
  abbrev pub Attests : TestRequest → Disk → TestResult → Disk → Type 0
  Attests request d r d' =
      ((r.attestation ≡ none)
        × ((p : String) → (cache_file request == p) ≡ false → d'.files p ≡ d.files p))
      ⊎ ((a : Attestation) × (r.attestation ≡ some a)
          × (r.validation.result.passed ≡ true)
          × HashOf (normalize_validation_options (forced_options request)).config_path
              a.config_sha256
          × Accepted r.validation.result.core_sha256 a.config_sha256)

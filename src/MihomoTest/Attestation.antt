-- ===== src/MihomoTest/Attestation.antt =====
-- internal/mihomotest/attestation.go: the record of a test, and the promotion of what was tested.
-- The files are those of Apply/Disk.antt: every call takes its outcome from a list that the
-- environment chooses.
pub mod Promoted
pub mod Unchanged
pub mod Recorded
use local_clash.Prelude.{
  ℕ, nat_eq, String, ◌==◌, Bool, true, false, not, ◌&&◌, List, [], ◌∷◌, Option, none, some, is_some,
  if◌then◌else◌, Result, ok, err, ◌>>=◌, ◌>>◌, guard,
}
use local_clash.Prelude.Text.{Unicode, is_blank, trim_space}
use local_clash.Apply.Disk.{
  Disk, next_answer, tick, is_success, rename, write_file, sync_dir, sync_file,
}
use local_clash.MihomoTest.Data.{
  ValidationOptions, ValidationResult, CacheRead, Attestation, Codec, Host,
}
use local_clash.MihomoTest.Validate.{Validated, normalize_validation_options, validate_cached}

abbrev pub attestation_version : ℕ
attestation_version = 1

pub data AttestationError : Type 0 where
  invalid_version : ℕ → AttestationError
  refused_not_passing : AttestationError
  requires_sha : AttestationError
  no_directory cannot_write cannot_read : AttestationError
  invalid_json : String → AttestationError
  version_mismatch : ℕ → AttestationError
  not_passing missing_sha : AttestationError
  expected_required : AttestationError
  hash_mismatch : String → AttestationError
  candidate_required promoted_required cannot_rename cannot_stat : AttestationError

-- A call that changes the disk, and its result.
abbrev pub Call : Type 0 → Type 0
Call A = Result AttestationError A × Disk

infixl 5 ◌>>>◌
unfoldable pub ◌>>>◌ : {A B : Type 0} → Call A → (A → Disk → Call B) → Call B
(ok a, d) >>> next = next a d
(err e, d) >>> next = (err e, d)

-- `if !test { return err }`
unfoldable pub check : Bool → AttestationError → Disk → Call (Unit {0})
check test e d = (guard test e, d)

-- `if err := call; err != nil { return err }`
unfoldable pub step : AttestationError → Bool × Disk → Call (Unit {0})
step e (true, d) = (ok tt, d)
step e (false, d) = (err e, d)

abbrev pub found : {A : Type 0} → AttestationError → Option A → Result AttestationError A
found e none = err e
found e (some a) = ok a

-- a call that reads a file, with the error of its failure
unfoldable pub look : AttestationError → String → Disk → Call String
look e path d =
    (found e (if is_success (next_answer d.answers) then d.files path else none), tick d)

-- os.ReadFile
unfoldable pub read_file : String → Disk → Call String
unfolding look
read_file path d = look cannot_read path d

-- os.Rename, which leaves a file that is moved to itself
unfoldable pub move : String → String → Disk → Bool × Disk
unfolding rename sync_file
move old new d = if old == new then sync_file old d else rename old new d

module _ ⦃codec : Codec⦄ where
  unfoldable pub default_attestation_path : String → String
  unfolding trim_space
  default_attestation_path work_dir =
      let trimmed = trim_space work_dir in
      let dir =
        if is_blank trimmed then codec.join_paths (".runtime" ∷ "mihomo" ∷ []) else trimmed in
      codec.join_paths (dir ∷ "config-test-attestation.json" ∷ [])

  unfoldable pub write_attestation : String → Attestation → Disk → Call (Unit {0})
  unfolding trim_space sync_dir write_file check ◌>>>◌ step
  write_attestation path a d =
      check (nat_eq a.version attestation_version) (invalid_version a.version) d >>> λ version d'.
      check a.passed refused_not_passing d' >>> λ passed d''.
      check (not (is_blank (trim_space a.config_sha256))) requires_sha d'' >>> λ all d₁.
      step no_directory (sync_dir d₁) >>> λ made d₂.
      step cannot_write (write_file path (codec.encode_attestation a) d₂)

  abbrev pub decoded : Result String Attestation → Result AttestationError Attestation
  decoded (ok a) = ok a
  decoded (err e) = err (invalid_json e)

  unfoldable pub valid_record : Attestation → Result AttestationError Attestation
  unfolding trim_space
  valid_record a =
      guard (nat_eq a.version attestation_version) (version_mismatch a.version)
      >> (guard a.passed not_passing
          >> (guard (not (is_blank (trim_space a.config_sha256))) missing_sha >> ok a))

  -- what ReadAttestation makes of the bytes
  unfoldable pub parse_attestation : String → Result AttestationError Attestation
  unfolding valid_record
  parse_attestation bytes = decoded (codec.decode_attestation bytes) >>= λ a. valid_record a

  unfoldable pub read_attestation : String → Disk → Call Attestation
  unfolding read_file parse_attestation ◌>>>◌
  read_attestation path d = read_file path d >>> λ bytes d₁. (parse_attestation bytes, d₁)

  -- ConfigSHA256
  unfoldable pub config_sha256 : String → Disk → Call String
  unfolding read_file ◌>>>◌
  config_sha256 path d = read_file path d >>> λ bytes d₁. (ok (codec.sha256 bytes), d₁)

  -- The error of a mismatch holds the hash that is returned beside it.
  unfoldable pub verify_config_hash : String → String → Disk → Call String
  unfolding trim_space config_sha256 check ◌>>>◌
  verify_config_hash path expected d =
      let trimmed = trim_space expected in
      check (not (is_blank trimmed)) expected_required d >>> λ given d₁.
      config_sha256 path d₁ >>> λ actual d₂.
      check (actual == trimmed) (hash_mismatch actual) d₂ >>> λ equal d₃. (ok actual, d₃)

pub record PromoteResult : Type 0 where
  pub candidate : String
  pub promoted : String
  pub attestation : String
  pub config_sha256 : String
  pub promoted_bytes : ℕ

module _ ⦃codec : Codec⦄ where
  -- os.Stat of the promoted file, and the result
  unfoldable pub promotion : String → String → String → String → Disk → Call PromoteResult
  unfolding look ◌>>>◌
  promotion candidate promoted path sha d = look cannot_stat promoted d >>> λ bytes d₁. (
    ok (record {
      candidate = candidate;
      promoted = promoted;
      attestation = path;
      config_sha256 = sha;
      promoted_bytes = codec.byte_count bytes;
    }),
    d₁,
  )

  -- PromoteConfig behind the checks of its arguments
  unfoldable pub promote_from : String → String → String → Disk → Call PromoteResult
  unfolding read_attestation verify_config_hash sync_dir move promotion check ◌>>>◌ step
  promote_from candidate promoted path d = read_attestation path d >>> λ a d₁.
      verify_config_hash candidate a.config_sha256 d₁ >>> λ sha d₂.
      step no_directory (sync_dir d₂) >>> λ made d₃.
      step cannot_rename (move candidate promoted d₃) >>> λ moved d₄.
      promotion candidate promoted path sha d₄

  unfoldable pub attestation_path_or : String → String → String
  unfolding default_attestation_path
  attestation_path_or path promoted =
      if is_blank path then default_attestation_path (codec.dir promoted) else path

  unfoldable pub promote_config : String → String → String → Disk → Call PromoteResult
  unfolding trim_space attestation_path_or promote_from check ◌>>>◌
  promote_config candidate promoted path d =
      let from = trim_space candidate in
      let to = trim_space promoted in
      check (not (is_blank from)) candidate_required d >>> λ one d'.
      check (not (is_blank to)) promoted_required d' >>> λ both d₁.
      promote_from from to (attestation_path_or (trim_space path) to) d₁

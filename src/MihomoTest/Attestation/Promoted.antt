-- ===== src/MihomoTest/Attestation/Promoted.antt =====
-- What is promoted is what was tested.
use local_clash.Prelude.{
  nat_eq, String, ◌==◌, ◌≡◌, inl, inr, refl, sym, ap, ◌∙◌, subst, Bool, true, false, not, ◌&&◌,
  Option, none, some, is_some, if◌then◌else◌, Bool-cases, arith, eq_iff, ok, err, ok_inj,
  guard-eq-ok, >>=-eq-ok,
}
use local_clash.Prelude.Text.{is_blank, trim_space}
use local_clash.Apply.Disk.{
  Disk, Files, next_answer, tick, is_success, update, rename, sync_dir, sync_file,
}
use local_clash.MihomoTest.Data.{Attestation, Codec}
use local_clash.MihomoTest.Attestation.{
  attestation_version, version_mismatch, not_passing, missing_sha, AttestationError, cannot_rename,
  no_directory, cannot_read, cannot_stat, Call, ◌>>>◌, check, step, found, look, read_file, move,
  decoded, valid_record, parse_attestation, read_attestation, config_sha256, verify_config_hash,
  hash_mismatch, expected_required, PromoteResult, promotion, promote_from, attestation_path_or,
  promote_config, candidate_required, promoted_required,
}

pub >>>-eq-ok :
    {A B : Type 0} (call : Call A) (next : A → Disk → Call B) {b : B} {d : Disk}
    → (call >>> next) ≡ (ok b, d)
    → (a : A) × (d₁ : Disk) × (call ≡ (ok a, d₁)) × (next a d₁ ≡ (ok b, d))
unfolding ◌>>>◌
>>>-eq-ok (ok a, d₁) next h = (a, d₁, refl, h)
>>>-eq-ok (err e, d₁) next h = cc

found-eq-ok :
    {A : Type 0} (e : AttestationError) (o : Option A) (a : A) → found e o ≡ ok a → o ≡ some a
found-eq-ok e none a h = cc
found-eq-ok e (some b) a h = ap some (ok_inj h)

-- A call that only reads, and the content that it read.
pub look-eq-ok :
    (e : AttestationError) (path : String) (d : Disk) (bytes : String) (d' : Disk)
    → look e path d ≡ (ok bytes, d')
    → (d.files path ≡ some bytes) × (d'.files ≡ d.files)
unfolding look
look-eq-ok e path d bytes d' h =
    let read = found-eq-ok e _ bytes (ap (λ (r : Call String). r.0) h) in
    (ground arith, sym (ap (λ (r : Call String). r.1.files) h))

pub step-eq-ok :
    (e : AttestationError) (call : Bool × Disk) (d' : Disk) {u : Unit {0}}
    → step e call ≡ (ok u, d')
    → call ≡ (true, d')
unfolding step
step-eq-ok e (true, d) d' h = ap (λ (r : Call (Unit {0})). (true, r.1)) h
step-eq-ok e (false, d) d' h = cc

pub sync_dir-files : (d : Disk) {d' : Disk} {b : Bool} → sync_dir d ≡ (b, d') → d'.files ≡ d.files
unfolding sync_dir
sync_dir-files d h = sym (ap (λ (r : Bool × Disk). r.1.files) h)

pub rename-files :
    (old new : String) (d d' : Disk)
    → rename old new d ≡ (true, d')
    → d'.files ≡ update (update d.files new (d.files old)) old none
unfolding rename
rename-files old new d d' h =
    elim (Bool-cases (is_success (next_answer d.answers) && is_some (d.files old))) [
      | inl works ↦
          let run : ◌≡◌ {A = Bool × Disk}
              (true, record (tick d) { files = update (update d.files new (d.files old)) old none })
              (true, d') =
            ground arith in
          sym (ap (λ (r : Bool × Disk). r.1.files) run)
      | inr fails ↦ ground arith
    ]

-- what a move leaves at a path
move-files :
    (old new : String) (d d' : Disk) (bytes p : String)
    → d.files old ≡ some bytes
    → move old new d ≡ (true, d')
    → d'.files p ≡ (if new == p then some bytes else if old == p then none else d.files p)
unfolding move update sync_file
move-files old new d d' bytes p there h = elim (Bool-cases (old == new)) [
  | inl same ↦
      let synced : sync_file old d ≡ (true, d') = ground arith in
      let kept : d'.files ≡ d.files = sym (ap (λ (r : Bool × Disk). r.1.files) synced) in
      let at : d'.files p ≡ d.files p = ap (λ (f : Files). f p) kept in
      grind (arith, eq_iff old new, eq_iff new p, eq_iff old p)
  | inr other ↦
      let renamed : rename old new d ≡ (true, d') = ground arith in
      let now = ap (λ (f : Files). f p) (rename-files old new d d' renamed) in
      grind (arith, eq_iff old new, eq_iff new p, eq_iff old p)
]

module _ ⦃codec : Codec⦄ where
  pub check-eq-ok :
      (test : Bool) (e : AttestationError) (d d' : Disk) {u : Unit {0}}
      → check test e d ≡ (ok u, d')
      → (test ≡ true) × (d ≡ d')
  unfolding check
  check-eq-ok true e d d' h = (refl, ap (λ (r : Call (Unit {0})). r.1) h)
  check-eq-ok false e d d' h = cc

  -- A hash that was verified is the one expected, of the file's content.
  pub verify_config_hash-eq-ok :
      (path expected : String) (d : Disk) (sha : String) (d' : Disk)
      → verify_config_hash path expected d ≡ (ok sha, d')
      → ((bytes : String) × (d.files path ≡ some bytes)
          × (codec.sha256 bytes ≡ trim_space expected))
        × (d'.files ≡ d.files)
  unfolding verify_config_hash config_sha256 read_file
  verify_config_hash-eq-ok path expected d sha d' h =
      let (u, d₀, given, h₁) = >>>-eq-ok _ _ h in
      let (actual, d₂, hashed, h₂) = >>>-eq-ok _ _ h₁ in
      let (bytes, d₁, read, h₃) = >>>-eq-ok _ _ hashed in
      let (v, d₃, equal, h₄) = >>>-eq-ok _ _ h₂ in
      let (content, kept) = look-eq-ok cannot_read path d₀ bytes d₁ read in
      let is_hash : codec.sha256 bytes ≡ actual = ok_inj (ap (λ (r : Call String). r.0) h₃) in
      let (is_equal, at₃) =
        check-eq-ok (actual == trim_space expected) (hash_mismatch actual) d₂ d₃ equal in
      let at₀ =
        (check-eq-ok (not (is_blank (trim_space expected))) expected_required d d₀ given).1 in
      let same : actual ≡ trim_space expected =
        grind (arith, eq_iff actual (trim_space expected)) in
      let at₁ : d₂ ≡ d₁ = sym (ap (λ (r : Call String). r.1) h₃) in
      let at₄ : d₃ ≡ d' = ap (λ (r : Call String). r.1) h₄ in
      let files : d'.files ≡ d₀.files =
        ap (λ (x : Disk). x.files) (sym at₄ ∙ sym at₃ ∙ at₁) ∙ kept in
      (
        (bytes, subst (λ (x : Disk). x.files path ≡ some bytes) (sym at₀) content, is_hash ∙ same),
        files ∙ ap (λ (x : Disk). x.files) (sym at₀),
      )

  pub read_attestation-eq-ok :
      (path : String) (d : Disk) (a : Attestation) (d' : Disk)
      → read_attestation path d ≡ (ok a, d')
      → ((bytes : String) × (d.files path ≡ some bytes) × (parse_attestation bytes ≡ ok a))
        × (d'.files ≡ d.files)
  unfolding read_attestation read_file
  read_attestation-eq-ok path d a d' h =
      let (bytes, d₁, read, parsed) = >>>-eq-ok (look cannot_read path d) _ h in
      let (content, kept) = look-eq-ok cannot_read path d bytes d₁ read in
      let at : d'.files ≡ d₁.files = sym (ap (λ (r : Call Attestation). r.1.files) parsed) in
      ((bytes, content, ap (λ (r : Call Attestation). r.0) parsed), at ∙ kept)

  parse_attestation-eq-ok :
      (bytes : String) (a : Attestation) → parse_attestation bytes ≡ ok a → a.passed ≡ true
  unfolding parse_attestation valid_record
  parse_attestation-eq-ok bytes a h =
      let (b, decode, h₁) =
        >>=-eq-ok (decoded (codec.decode_attestation bytes)) (λ x. valid_record x) h in
      let (version, h₂) =
        guard-eq-ok (nat_eq b.version attestation_version) (version_mismatch b.version) _ h₁ in
      let (passed, h₃) = guard-eq-ok b.passed not_passing _ h₂ in
      let (given, h₄) =
        guard-eq-ok (not (is_blank (trim_space b.config_sha256))) missing_sha (ok b) h₃ in
      ap (λ (x : Attestation). x.passed) (sym (ok_inj h₄)) ∙ passed

  -- `bytes` is the candidate, and the record of a test that passed, which stands at `path`, has
  -- their hash.
  abbrev pub IsTested : Disk → String → String → String → Type 0
  IsTested d path candidate bytes =
      (d.files candidate ≡ some bytes)
      × ((json : String) × (a : Attestation) × (d.files path ≡ some json)
          × (parse_attestation json ≡ ok a)
          × (a.passed ≡ true)
          × (codec.sha256 bytes ≡ trim_space a.config_sha256))

  promote_from-Promoted :
      (candidate promoted path : String) (d : Disk) (result : PromoteResult) (d' : Disk)
      → promote_from candidate promoted path d ≡ (ok result, d')
      → (bytes : String) × IsTested d path candidate bytes
        × ((p : String)
            → d'.files p
              ≡ (if promoted == p then some bytes else if candidate == p then none else d.files p))
  unfolding promote_from promotion
  promote_from-Promoted candidate promoted path d result d' h =
      let (a, d₁, recorded, h₁) = >>>-eq-ok _ _ h in
      let (sha, d₂, verified, h₂) = >>>-eq-ok _ _ h₁ in
      let (u, d₃, made, h₃) = >>>-eq-ok _ _ h₂ in
      let (v, d₄, moved, h₄) = >>>-eq-ok _ _ h₃ in
      let (content, d₅, seen, h₅) = >>>-eq-ok _ _ h₄ in
      let ((json, at_path, parsed), files₁) = read_attestation-eq-ok path d a d₁ recorded in
      let ((bytes, at_candidate, hash), files₂) =
        verify_config_hash-eq-ok candidate a.config_sha256 d₁ sha d₂ verified in
      let files₃ = sync_dir-files d₂ (step-eq-ok no_directory (sync_dir d₂) d₃ made) in
      let files : d₃.files ≡ d.files = files₃ ∙ files₂ ∙ files₁ in
      let there : d.files candidate ≡ some bytes =
        subst (λ (f : Files). f candidate ≡ some bytes) files₁ at_candidate in
      let there₃ : d₃.files candidate ≡ some bytes =
        subst (λ (f : Files). f candidate ≡ some bytes) (sym files) there in
      let move_ok = step-eq-ok cannot_rename (move candidate promoted d₃) d₄ moved in
      let end : d'.files ≡ d₄.files =
        ap (λ (r : Call PromoteResult). r.1.files) (sym h₅)
        ∙ (look-eq-ok cannot_stat promoted d₄ content d₅ seen).1 in
      (
        bytes,
        (there, (json, a, at_path, parsed, parse_attestation-eq-ok json a parsed, hash)),
        λ p.
            subst
              (λ (f : Files).
                d'.files p
                ≡ (if promoted == p then some bytes else if candidate == p then none else f p))
              files
              (ap (λ (f : Files). f p) end
                ∙ move-files candidate promoted d₃ d₄ bytes p there₃ move_ok),
      )

  -- A promotion that succeeds moves the candidate, whose content has the hash that a recorded
  -- test which passed has, to the promoted path; every other file stays as it is.
  pub promote_config-Promoted :
      (candidate promoted path : String) (d : Disk) (result : PromoteResult) (d' : Disk)
      → promote_config candidate promoted path d ≡ (ok result, d')
      → (bytes : String) × IsTested d
          (attestation_path_or (trim_space path) (trim_space promoted))
          (trim_space candidate)
          bytes
        × ((p : String)
            → d'.files p ≡ (
                if trim_space promoted == p
                then some bytes
                else if trim_space candidate == p
                then none
                else d.files p))
  unfolding promote_config
  promote_config-Promoted candidate promoted path d result d' h =
      let (u, d₁, one, h₁) = >>>-eq-ok _ _ h in
      let (v, d₂, both, h₂) = >>>-eq-ok _ _ h₁ in
      let at₁ =
        (check-eq-ok (not (is_blank (trim_space candidate))) candidate_required d d₁ one).1 in
      let at₂ =
        (check-eq-ok (not (is_blank (trim_space promoted))) promoted_required d₁ d₂ both).1 in
      let to = trim_space promoted in
      let h₃ : promote_from (trim_space candidate) to (attestation_path_or (trim_space path) to) d
          ≡ (ok result, d') =
        subst
          (λ (x : Disk).
            promote_from (trim_space candidate) to (attestation_path_or (trim_space path) to) x
            ≡ (ok result, d'))
          (sym (at₁ ∙ at₂)) h₂ in
      promote_from-Promoted (trim_space candidate) to (attestation_path_or (trim_space path) to) d
        result d' h₃

-- ===== src/MihomoTest/Attestation/Unchanged.antt =====
-- A promotion that fails.
use local_clash.Prelude.{
  String, ◌==◌, ◌≡◌, ◌⊎◌, inl, inr, refl, sym, ap, ◌∙◌, subst, Bool, true, false, not, ◌&&◌, none,
  is_some, if◌then◌else◌, Bool-cases, Option-cases, arith, Result, ok, err,
}
use local_clash.Prelude.Text.{is_blank, trim_space}
use local_clash.Apply.Disk.{Disk, next_answer, tick, is_success, rename, sync_dir, sync_file}
use local_clash.MihomoTest.Data.{Codec}
use local_clash.MihomoTest.Attestation.{
  AttestationError, cannot_rename, no_directory, cannot_read, cannot_stat, expected_required,
  candidate_required, promoted_required, hash_mismatch, Call, ◌>>>◌, check, step, look, read_file,
  move, parse_attestation, read_attestation, config_sha256, verify_config_hash, promotion,
  promote_from, attestation_path_or, promote_config,
}

-- A call that changes no file, whatever its result.
ReadsOnly : {A : Type 0} → Disk → Call A → Type 0
ReadsOnly d call = call.1.files ≡ d.files

>>>-ReadsOnly :
    {A B : Type 0} (d : Disk) (call : Call A) (next : A → Disk → Call B)
    → ReadsOnly d call
    → ((a : A) (d₁ : Disk) → ReadsOnly d₁ (next a d₁))
    → ReadsOnly d (call >>> next)
unfolding ◌>>>◌ ReadsOnly
>>>-ReadsOnly d (ok a, d₁) next first later = later a d₁ ∙ first
>>>-ReadsOnly d (err e, d₁) next first later = first

look-ReadsOnly : (e : AttestationError) (path : String) (d : Disk) → ReadsOnly d (look e path d)
unfolding look ReadsOnly
look-ReadsOnly e path d = refl

check-ReadsOnly : (test : Bool) (e : AttestationError) (d : Disk) → ReadsOnly d (check test e d)
unfolding check ReadsOnly
check-ReadsOnly test e d = refl

return-ReadsOnly : {A : Type 0} (r : Result AttestationError A) (d : Disk) → ReadsOnly d (r, d)
unfolding ReadsOnly
return-ReadsOnly r d = refl

-- A call that changes no file if it fails, but for a failure of os.Stat at the end.
FailsClean : {A : Type 0} → Disk → Call A → Type 0
FailsClean d (ok a, d') = Unit
FailsClean d (err e, d') = (d'.files ≡ d.files) ⊎ (e ≡ cannot_stat)

>>>-FailsClean :
    {A B : Type 0} (d : Disk) (call : Call A) (next : A → Disk → Call B)
    → ReadsOnly d call
    → ((a : A) (d₁ : Disk) → d₁.files ≡ d.files → FailsClean d (next a d₁))
    → FailsClean d (call >>> next)
unfolding ◌>>>◌ ReadsOnly FailsClean
>>>-FailsClean d (ok a, d₁) next first later = later a d₁ first
>>>-FailsClean d (err e, d₁) next first later = inl first

rebase :
    {A : Type 0} (d d₁ : Disk)
    → d₁.files ≡ d.files
    → (call : Call A) → FailsClean d₁ call
    → FailsClean d call
unfolding FailsClean
rebase d d₁ same (ok a, d₂) clean = tt
rebase d d₁ same (err e, d₂) (inl at) = inl (at ∙ same)
rebase d d₁ same (err e, d₂) (inr stat) = inr stat

move-fails : (old new : String) (d d' : Disk) → move old new d ≡ (false, d') → d'.files ≡ d.files
unfolding move sync_file rename
move-fails old new d d' h = elim (Bool-cases (old == new)) [
  | inl same ↦
      let run : sync_file old d ≡ (false, d') = ground arith in
      sym (ap (λ (r : Bool × Disk). r.1.files) run)
  | inr other ↦ elim (Bool-cases (is_success (next_answer d.answers) && is_some (d.files old))) [
    | inl works ↦ ground arith
    | inr fails ↦
        let run : ◌≡◌ {A = Bool × Disk} (false, tick d) (false, d') = ground arith in
        sym (ap (λ (r : Bool × Disk). r.1.files) run)
  ]
]

module _ ⦃codec : Codec⦄ where
  read_attestation-ReadsOnly : (path : String) (d : Disk) → ReadsOnly d (read_attestation path d)
  unfolding read_attestation read_file
  read_attestation-ReadsOnly path d =
      >>>-ReadsOnly d (look cannot_read path d) _ (look-ReadsOnly cannot_read path d)
        (λ bytes d₁. return-ReadsOnly (parse_attestation bytes) d₁)

  verify_config_hash-ReadsOnly :
      (path expected : String) (d : Disk) → ReadsOnly d (verify_config_hash path expected d)
  unfolding verify_config_hash config_sha256 read_file
  verify_config_hash-ReadsOnly path expected d =
      >>>-ReadsOnly d _ _ (check-ReadsOnly _ expected_required d) (λ u d₁.
        >>>-ReadsOnly d₁ _ _
          (>>>-ReadsOnly d₁ _ _ (look-ReadsOnly cannot_read path d₁)
            (λ bytes d₂. return-ReadsOnly (ok _) d₂))
          (λ actual d₂.
            >>>-ReadsOnly d₂ _ _ (check-ReadsOnly _ (hash_mismatch actual) d₂)
              (λ v d₃. return-ReadsOnly (ok actual) d₃)))

  sync-ReadsOnly : (d : Disk) → ReadsOnly d (step no_directory (sync_dir d))
  unfolding step sync_dir ReadsOnly
  sync-ReadsOnly d = elim (Bool-cases (is_success (next_answer d.answers))) [
    | inl works ↦ rw works refl
    | inr fails ↦ rw fails refl
  ]

  promotion-FailsClean :
      (candidate promoted path sha : String) (d d₂ : Disk)
      → FailsClean d (promotion candidate promoted path sha d₂)
  unfolding promotion look ◌>>>◌ FailsClean
  promotion-FailsClean candidate promoted path sha d d₂ =
      elim (Option-cases
        (if is_success (next_answer d₂.answers) then d₂.files promoted else none)) [
          | inl nothing ↦ rw nothing (inr refl)
          | inr (bytes, there) ↦ rw there (tt)
        ]

  -- from the move on
  moved-FailsClean :
      (candidate promoted path sha : String) (d d₁ : Disk)
      → d₁.files ≡ d.files
      → FailsClean d (
          step cannot_rename (move candidate promoted d₁) >>> λ u d₂.
          promotion candidate promoted path sha d₂)
  unfolding step promotion look ◌>>>◌ FailsClean
  moved-FailsClean candidate promoted path sha d d₁ same = go (move candidate promoted d₁) refl
    where
      go :
          (r : Bool × Disk)
          → move candidate promoted d₁ ≡ r
          → FailsClean d (step cannot_rename r >>> λ u d₂. promotion candidate promoted path sha d₂)
      go (false, d₂) h = inl (move-fails candidate promoted d₁ d₂ h ∙ same)
      go (true, d₂) h = promotion-FailsClean candidate promoted path sha d d₂

  promote_from-FailsClean :
      (candidate promoted path : String) (d : Disk)
      → FailsClean d (promote_from candidate promoted path d)
  unfolding promote_from ReadsOnly
  promote_from-FailsClean candidate promoted path d =
      >>>-FailsClean d (read_attestation path d) _ (read_attestation-ReadsOnly path d) (λ a d₁ at₁.
        >>>-FailsClean d (verify_config_hash candidate a.config_sha256 d₁) _
          (verify_config_hash-ReadsOnly candidate a.config_sha256 d₁ ∙ at₁)
          (λ sha d₂ at₂.
            >>>-FailsClean d (step no_directory (sync_dir d₂)) _ (sync-ReadsOnly d₂ ∙ at₂)
              (λ u d₃ at₃. moved-FailsClean candidate promoted path sha d d₃ at₃)))

  FailsClean-err :
      {A : Type 0} (d : Disk) (call : Call A) (e : AttestationError) (d' : Disk)
      → call ≡ (err e, d')
      → FailsClean d call
      → (d'.files ≡ d.files) ⊎ (e ≡ cannot_stat)
  unfolding FailsClean
  FailsClean-err d call e d' h clean = subst (FailsClean d) h clean

  -- A promotion that fails has changed no file, unless all that failed is the look at the file
  -- after the move.
  pub promote_config-unchanged :
      (candidate promoted path : String) (d : Disk) (e : AttestationError) (d' : Disk)
      → promote_config candidate promoted path d ≡ (err e, d')
      → (d'.files ≡ d.files) ⊎ (e ≡ cannot_stat)
  unfolding promote_config ReadsOnly
  promote_config-unchanged candidate promoted path d e d' h =
      FailsClean-err d (promote_config candidate promoted path d) e d' h (
        >>>-FailsClean d (check (not (is_blank (trim_space candidate))) candidate_required d) _
          (check-ReadsOnly (not (is_blank (trim_space candidate))) candidate_required d)
          (λ u d₁ at₁.
            >>>-FailsClean d (check (not (is_blank (trim_space promoted))) promoted_required d₁) _
              (check-ReadsOnly (not (is_blank (trim_space promoted))) promoted_required d₁ ∙ at₁)
              (λ v d₂ at₂. rebase d d₂ at₂ _ (
                promote_from-FailsClean (trim_space candidate) (trim_space promoted)
                  (attestation_path_or (trim_space path) (trim_space promoted)) d₂))))

-- ===== src/MihomoTest/Attestation/Recorded.antt =====
-- A recorded test is read back.
use local_clash.Prelude.{
  nat_eq, String, ◌≡◌, refl, sym, ap, ◌∙◌, Bool, true, not, some, eq_refl, ok,
}
use local_clash.Prelude.Text.{is_blank, trim_space}
use local_clash.Apply.Disk.{
  Disk, next_answer, tick, is_success, update, write_as, write_file, sync_dir, Answer, succeeds,
  fails,
}
use local_clash.MihomoTest.Data.{Attestation, Codec}
use local_clash.MihomoTest.Attestation.{
  no_directory, cannot_write, invalid_version, refused_not_passing, requires_sha, ◌>>>◌, step, look,
  read_file, valid_record, parse_attestation, read_attestation, write_attestation,
}
use local_clash.MihomoTest.Attestation.Promoted.{>>>-eq-ok, check-eq-ok, step-eq-ok}

write_as-file :
    (answer : Answer) (path text : String) (d d' : Disk)
    → write_as answer path (some text) d ≡ (true, d')
    → d'.files path ≡ some text
unfolding update
write_as-file succeeds path text d d' h =
    ap (λ (r : Bool × Disk). r.1.files path) (sym h) ∙ rw eq_refl refl
write_as-file (fails left) path text d d' h = cc

write_file-file :
    (path text : String) (d d' : Disk)
    → write_file path text d ≡ (true, d')
    → d'.files path ≡ some text
unfolding write_file
write_file-file path text d d' h = write_as-file (next_answer d.answers) path text (tick d) d' h

module _ ⦃codec : Codec⦄ where
  -- An attestation that was written is the one that is read back.
  pub read-write :
      (path : String) (a : Attestation) (d d' : Disk)
      → codec.decode_attestation (codec.encode_attestation a) ≡ ok a
      → write_attestation path a d ≡ (ok tt, d')
      → is_success (next_answer d'.answers) ≡ true
      → read_attestation path d' ≡ (ok a, tick d')
  unfolding write_attestation read_attestation read_file look parse_attestation valid_record ◌>>>◌
  read-write path a d d' json h works =
      let write = λ (x : Disk). write_file path (codec.encode_attestation a) x in
      let (u₁, d₁, version, h₁) = >>>-eq-ok _ _ h in
      let (u₂, d₂, passed, h₂) = >>>-eq-ok _ _ h₁ in
      let (u₃, d₃, sha, h₃) = >>>-eq-ok _ _ h₂ in
      let (u₄, d₄, made, h₄) =
        >>>-eq-ok (step no_directory (sync_dir d₃)) (λ u x. step cannot_write (write x)) h₃ in
      let content =
        write_file-file path (codec.encode_attestation a) d₄ d'
          (step-eq-ok cannot_write (write d₄) d' h₄) in
      let is_version =
        (check-eq-ok (nat_eq a.version 1) (invalid_version a.version) d d₁ version).0 in
      let is_passed = (check-eq-ok a.passed refused_not_passing d₁ d₂ passed).0 in
      let is_given =
        (check-eq-ok (not (is_blank (trim_space a.config_sha256))) requires_sha d₂ d₃ sha).0 in
      rw (works, content, json, is_version, is_passed, is_given) refl

-- ===== src/Corerun/Reload/Reloaded.antt =====
-- A hot reload happens only for a configuration whose hash is the expected one.
use local_clash.Prelude.{
  ℕ, String, ◌≡◌, ◌⊎◌, inl, inr, refl, sym, ap, ◌∙◌, subst, Bool, true, false, Option, none, some,
  if◌then◌else◌, ok, err, ok_inj,
}
use local_clash.Prelude.Text.{is_blank, trim_space}
use local_clash.Apply.Disk.{Disk, Files}
use local_clash.MihomoTest.Data.{Attestation, Codec}
use local_clash.MihomoTest.Attestation.{
  cannot_stat, Call, look, parse_attestation, read_attestation, verify_config_hash,
}
use local_clash.MihomoTest.Attestation.Promoted.{
  >>>-eq-ok, look-eq-ok, read_attestation-eq-ok, verify_config_hash-eq-ok,
}
use local_clash.Corerun.Options.{
  RestartOptions, RunOptions, RestartResult, StatusResult, HotReloadResult, Runtime, nothing_done,
  status,
}
use local_clash.Corerun.Reload.{
  requested, with_path, with_controller, after_hash, verified, recorded_at, recorded_hash,
  expected_hash, with_expected, stat_config, hot_reload,
}

pick-eq :
    (test : Bool) (a b : Call String) {r : Call String}
    → (if test then a else b) ≡ r
    → ((test ≡ true) × (a ≡ r)) ⊎ ((test ≡ false) × (b ≡ r))
pick-eq true a b h = inl (refl, h)
pick-eq false a b h = inr (refl, h)

module _ ⦃codec : Codec⦄ ⦃runtime : Runtime⦄ where
  -- The hash is the caller's, or the one of the recorded test if the caller gives none.
  abbrev pub IsExpected : RestartOptions → RunOptions → Disk → String → Type 0
  IsExpected opts run d sha =
      (sha ≡ trim_space opts.config_sha256)
      ⊎ ((json : String) × (a : Attestation) × (d.files (recorded_at opts run) ≡ some json)
          × (parse_attestation json ≡ ok a)
          × (sha ≡ a.config_sha256))

  expected_hash-eq-ok :
      (opts : RestartOptions) (run : RunOptions) (d : Disk) (sha : String) (d' : Disk)
      → expected_hash opts run d ≡ (ok sha, d')
      → IsExpected opts run d sha × (d'.files ≡ d.files)
  unfolding expected_hash recorded_hash
  expected_hash-eq-ok opts run d sha d' h =
      elim (pick-eq (is_blank (trim_space opts.config_sha256)) _ _ h) [
        | inr (given, e) ↦ (
          inl (sym (ok_inj (ap (λ (r : Call String). r.0) e))),
          sym (ap (λ (r : Call String). r.1.files) e),
        )
        | inl (nothing, e) ↦
            let (a, d₁, recorded, e₁) = >>>-eq-ok (read_attestation (recorded_at opts run) d) _ e in
            let ((json, there, parsed), kept) =
              read_attestation-eq-ok (recorded_at opts run) d a d₁ recorded in
            (
              inr (json, a, there, parsed, sym (ok_inj (ap (λ (r : Call String). r.0) e₁))),
              sym (ap (λ (r : Call String). r.1.files) e₁) ∙ kept,
            )
      ]

  rebase-IsExpected :
      (opts : RestartOptions) (run : RunOptions) (d d' : Disk) (sha : String)
      → d.files ≡ d'.files
      → IsExpected opts run d sha
      → IsExpected opts run d' sha
  rebase-IsExpected opts run d d' sha same (inl given) = inl given
  rebase-IsExpected opts run d d' sha same (inr (json, a, there, parsed, hash)) = inr (
    json,
    a,
    subst (λ (f : Files). f (recorded_at opts run) ≡ some json) same there,
    parsed,
    hash,
  )

  -- The result is that of a request with the absolute path of the configuration.
  abbrev pub IsFor : String → RestartResult → Type 0
  IsFor config_path r =
      (path : String) × (result : HotReloadResult) × (runtime.absolute_path config_path ≡ some path)
      × (r.hot_reload ≡ some result)
      × (result.config ≡ path)
      × (result.status_code ≡ (runtime.request path).0)

  -- Nothing is stopped or started, and a request was sent for the configuration, to a running core
  -- only.
  abbrev SentTo : String → StatusResult → RestartResult → Type 0
  SentTo config s r =
      ((r.stop ≡ none) × (r.start ≡ none))
      × ((r.hot_reload ≡ none) ⊎ ((s.running ≡ true) × IsFor config r))

  requested-SentTo :
      (config : String) (s : StatusResult) (r : RestartResult) (path : String)
      → runtime.absolute_path config ≡ some path
      → (r.stop ≡ none) × (r.start ≡ none)
      → s.running ≡ true
      → (answer : ℕ × Option String) → answer.0 ≡ (runtime.request path).0
      → SentTo config s (requested r path answer)
  requested-SentTo config s r path e h on (code, none) same =
      (h, inr (on, (path, _, e, refl, refl, same)))
  requested-SentTo config s r path e h on (code, some error) same =
      (h, inr (on, (path, _, e, refl, refl, same)))

  with_path-SentTo :
      (config : String) (s : StatusResult) (r : RestartResult) (path : Option String)
      → runtime.absolute_path config ≡ path
      → ((r.stop ≡ none) × (r.start ≡ none)) × (r.hot_reload ≡ none)
      → s.running ≡ true
      → SentTo config s (with_path r path)
  with_path-SentTo config s r none e h on = (h.0, inl h.1)
  with_path-SentTo config s r (some path) e h on =
      requested-SentTo config s r path e h.0 on (runtime.request path) refl

  with_controller-SentTo :
      (config : String) (s : StatusResult) (r : RestartResult) (controller : Option String)
      → ((r.stop ≡ none) × (r.start ≡ none)) × (r.hot_reload ≡ none)
      → s.running ≡ true
      → SentTo config s (with_controller r controller (runtime.absolute_path config))
  with_controller-SentTo config s r (some e) h on = (h.0, inl h.1)
  with_controller-SentTo config s r none h on = with_path-SentTo config s r _ refl h on

  if-SentTo :
      (config : String) (s : StatusResult) (test : Bool) (a b : RestartResult)
      → (test ≡ true → SentTo config s a)
      → SentTo config s b
      → SentTo config s (if test then a else b)
  if-SentTo config s true a b h k = h refl
  if-SentTo config s false a b h k = k

  after_hash-SentTo :
      (run : RunOptions) (sha : String) (s : StatusResult)
      → SentTo run.config_path s (after_hash run sha s)
  unfolding after_hash
  after_hash-SentTo run sha s =
      if-SentTo run.config_path s s.running _ _
        (λ on.
          with_controller-SentTo run.config_path s
            (record nothing_done { config_sha256 = sha; status = some s }) runtime.controller
            ((refl, refl), refl) on)
        ((refl, refl), inl refl)

  -- Nothing is stopped or started, and a request was sent only to a core that runs, for the
  -- configuration, whose content has the expected hash.
  abbrev pub IsReload : RestartOptions → RunOptions → Disk → RestartResult → Type 0
  IsReload opts run d r =
      ((r.stop ≡ none) × (r.start ≡ none))
      × ((r.hot_reload ≡ none)
          ⊎ ((opts.force_config_test ≡ false)
              × ((status ⦃h = runtime.at_status⦄).running ≡ true)
              × IsFor run.config_path r
              × ((bytes : String) × (sha : String) × (d.files run.config_path ≡ some bytes)
                  × (codec.sha256 bytes ≡ trim_space sha)
                  × IsExpected opts run d sha)))

  verified-IsReload :
      (opts : RestartOptions) (run : RunOptions) (d d₁ : Disk) (sha : String)
      → opts.force_config_test ≡ false
      → IsExpected opts run d sha
      → d₁.files ≡ d.files
      → (call : Call String) → verify_config_hash run.config_path sha d₁ ≡ call
      → IsReload opts run d (verified run call.0)
  unfolding verified
  verified-IsReload opts run d d₁ sha free expected same (err e, d₂) h = ((refl, refl), inl refl)
  verified-IsReload opts run d d₁ sha free expected same (ok actual, d₂) h =
      let sent = after_hash-SentTo run actual (status ⦃h = runtime.at_status⦄) in
      let ((bytes, there, hash), kept) =
        verify_config_hash-eq-ok run.config_path sha d₁ actual d₂ h in
      let there' = subst (λ (f : Files). f run.config_path ≡ some bytes) same there in
      let request = elim sent.1 as (λ o. IsReload opts run d (verified run (ok actual))) [
        | inl no_request ↦ (sent.0, inl no_request)
        | inr (on, request) ↦
            (sent.0, inr (free, on, request, (bytes, sha, there', hash, expected)))
      ] in
      request

  with_expected-IsReload :
      (opts : RestartOptions) (run : RunOptions) (d d₁ : Disk)
      → opts.force_config_test ≡ false
      → d₁.files ≡ d.files
      → (call : Call String) → expected_hash opts run d₁ ≡ call
      → IsReload opts run d (with_expected run call)
  unfolding with_expected
  with_expected-IsReload opts run d d₁ free same (err e, d₂) h = ((refl, refl), inl refl)
  with_expected-IsReload opts run d d₁ free same (ok sha, d₂) h =
      let (expected, kept) = expected_hash-eq-ok opts run d₁ sha d₂ h in
      let expected' = rebase-IsExpected opts run d₁ d sha same expected in
      verified-IsReload opts run d d₂ sha free expected' (kept ∙ same) _ refl

  stat_config-IsReload :
      (opts : RestartOptions) (run : RunOptions) (d : Disk)
      → opts.force_config_test ≡ false
      → (call : Call String) → look cannot_stat run.config_path d ≡ call
      → IsReload opts run d (stat_config opts run call)
  unfolding stat_config
  stat_config-IsReload opts run d free (err e, d₁) h = ((refl, refl), inl refl)
  stat_config-IsReload opts run d free (ok bytes, d₁) h =
      with_expected-IsReload opts run d d₁ free
        (look-eq-ok cannot_stat run.config_path d bytes d₁ h).1 _ refl

  if-IsReload :
      (opts : RestartOptions) (run : RunOptions) (d : Disk) (test : Bool) (a b : RestartResult)
      → IsReload opts run d a
      → (test ≡ false → IsReload opts run d b)
      → IsReload opts run d (if test then a else b)
  if-IsReload opts run d true a b h k = h
  if-IsReload opts run d false a b h k = k refl

  pub hot_reload-IsReload :
      (opts : RestartOptions) (run : RunOptions) (d : Disk)
      → IsReload opts run d (hot_reload opts run d)
  unfolding hot_reload
  hot_reload-IsReload opts run d =
      if-IsReload opts run d opts.force_config_test _ _ ((refl, refl), inl refl)
        (λ free. stat_config-IsReload opts run d free _ refl)

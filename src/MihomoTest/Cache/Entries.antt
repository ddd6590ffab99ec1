-- ===== src/MihomoTest/Cache/Entries.antt =====
-- The entries that a write of the cache keeps.
use local_clash.Prelude.{
  ℕ, ◌+◌, ◌≤◌, leb, ◌≡◌, inl, inr, refl, subst, Bool, true, false, List, [], ◌∷◌, All, none, some,
  some-injective, length, Bool-cases, arith, eq_iff,
}
use local_clash.MihomoTest.Data.{ValidationResult, ValidationFingerprint}
use local_clash.MihomoTest.Cache.{
  same_input, matches_fingerprint, first_match, keep_entries, new_entries,
}

length-keep_entries :
    (r : ValidationResult) (kept : ℕ) (es : List ValidationResult)
    → kept ≤ 31
    → length (keep_entries r kept es) + kept ≤ 32
unfolding keep_entries
length-keep_entries r kept [] h = omega arith
length-keep_entries r kept (e ∷ es) h =
    ground (arith, length-keep_entries r kept es, length-keep_entries r (kept + 1) es)

pub length-new_entries :
    (r : ValidationResult) (es : List ValidationResult) → length (new_entries r es) ≤ 32
unfolding new_entries
length-new_entries r es = omega (arith, length-keep_entries r 1 es)

All-keep_entries {ℓ} :
    (P : ValidationResult → Type ℓ) (r : ValidationResult) (kept : ℕ) (es : List ValidationResult)
    → All P es
    → All P (keep_entries r kept es)
unfolding keep_entries
All-keep_entries P r kept [] h = tt
All-keep_entries P r kept (e ∷ es) h = elim (Bool-cases (same_input r e)) [
  | inl same ↦ rw same (All-keep_entries P r kept es h.1)
  | inr other ↦ elim (Bool-cases (leb 32 (kept + 1))) [
    | inl full ↦ rw (other, full) (h.0, tt)
    | inr space ↦ rw (other, space) (h.0, All-keep_entries P r (kept + 1) es h.1)
  ]
]

pub All-new_entries {ℓ} :
    (P : ValidationResult → Type ℓ) (r : ValidationResult) (es : List ValidationResult)
    → P r
    → All P es
    → All P (new_entries r es)
unfolding new_entries
All-new_entries P r es p h = (p, All-keep_entries P r 1 es h)

-- An entry that is dropped for `r` matches a fingerprint only if `r` does.
matches_fingerprint-same :
    (f : ValidationFingerprint) (r e : ValidationResult)
    → same_input r e ≡ true
    → matches_fingerprint f r ≡ false
    → matches_fingerprint f e ≡ false
unfolding same_input matches_fingerprint
matches_fingerprint-same f r e same other = grind (
  arith,
  eq_iff e.config_sha256 r.config_sha256,
  eq_iff e.core_sha256 r.core_sha256,
  eq_iff e.core_version r.core_version,
  eq_iff e.core_type r.core_type,
)

first_match-none :
    (p : ValidationResult → Bool) (es : List ValidationResult)
    → length es ≡ 0
    → first_match p es ≡ none
unfolding first_match
first_match-none p [] h = refl
first_match-none p (e ∷ es) h = ground arith

pub first_match-keep_entries :
    (f : ValidationFingerprint) (r : ValidationResult) (kept : ℕ) (es : List ValidationResult)
    → matches_fingerprint f r ≡ false
    → kept + length es ≤ 32
    → first_match (matches_fingerprint f) (keep_entries r kept es)
      ≡ first_match (matches_fingerprint f) es
unfolding first_match keep_entries
first_match-keep_entries f r kept [] other h = refl
first_match-keep_entries f r kept (e ∷ es) other h = elim (Bool-cases (same_input r e)) [
  | inl same ↦ ground (arith, first_match-keep_entries f r kept es, matches_fingerprint-same f r e)
  | inr new ↦ ground (
    arith,
    first_match-keep_entries f r (kept + 1) es,
    first_match-none (matches_fingerprint f) es,
  )
]

-- No two entries are of one input.
unfoldable pub Distinct : List ValidationResult → Type 0
Distinct [] = Unit
Distinct (e ∷ es) = All (λ other. same_input e other ≡ false) es × Distinct es

All-other :
    (r : ValidationResult) (kept : ℕ) (es : List ValidationResult)
    → All (λ other. same_input r other ≡ false) (keep_entries r kept es)
unfolding keep_entries
All-other r kept [] = tt
All-other r kept (e ∷ es) = elim (Bool-cases (same_input r e)) [
  | inl same ↦ rw same (All-other r kept es)
  | inr other ↦ elim (Bool-cases (leb 32 (kept + 1))) [
    | inl full ↦ rw (other, full) (other, tt)
    | inr space ↦ rw (other, space) (other, All-other r (kept + 1) es)
  ]
]

keep_entries-Distinct :
    (r : ValidationResult) (kept : ℕ) (es : List ValidationResult)
    → Distinct es
    → Distinct (keep_entries r kept es)
unfolding keep_entries Distinct
keep_entries-Distinct r kept [] h = tt
keep_entries-Distinct r kept (e ∷ es) h =
    let rest = All-keep_entries (λ other. same_input e other ≡ false) r (kept + 1) es h.0 in
    elim (Bool-cases (same_input r e)) [
      | inl same ↦ rw same (keep_entries-Distinct r kept es h.1)
      | inr other ↦ elim (Bool-cases (leb 32 (kept + 1))) [
        | inl full ↦ rw (other, full) (tt, tt)
        | inr space ↦ rw (other, space) (rest, keep_entries-Distinct r (kept + 1) es h.1)
      ]
    ]

pub new_entries-Distinct :
    (r : ValidationResult) (es : List ValidationResult) → Distinct es → Distinct (new_entries r es)
unfolding new_entries Distinct
new_entries-Distinct r es h = (All-other r 1 es, keep_entries-Distinct r 1 es h)

pub first_match-All :
    (p : ValidationResult → Bool) (P : ValidationResult → Type 0) (es : List ValidationResult)
    (e : ValidationResult)
    → All P es
    → first_match p es ≡ some e
    → P e × (p e ≡ true)
unfolding first_match
first_match-All p P [] e every h = cc
first_match-All p P (x ∷ es) e every h = elim (Bool-cases (p x)) [
  | inl found ↦
      let same : some x ≡ some e = ground arith in
      subst (λ y. P y × (p y ≡ true)) (some-injective _ _ same) (every.0, found)
  | inr other ↦
      let later : first_match p es ≡ some e = ground arith in first_match-All p P es e every.1 later
]

pub matches_fingerprint-eq :
    (f : ValidationFingerprint) (r : ValidationResult)
    → matches_fingerprint f r ≡ true
    → (f.core_sha256 ≡ r.core_sha256) × (f.config_sha256 ≡ r.config_sha256)
unfolding matches_fingerprint
matches_fingerprint-eq f r h = (
  grind (arith, eq_iff r.core_sha256 f.core_sha256),
  grind (arith, eq_iff r.config_sha256 f.config_sha256),
)

All-trivial : (es : List ValidationResult) → All (λ e. Unit {0}) es
All-trivial [] = tt
All-trivial (e ∷ es) = (tt, All-trivial es)

pub first_match-true :
    (p : ValidationResult → Bool) (es : List ValidationResult) (e : ValidationResult)
    → first_match p es ≡ some e
    → p e ≡ true
first_match-true p es e h = (first_match-All p (λ e. Unit {0}) es e (All-trivial es) h).1

-- ===== src/Patch/Compile/Merged.antt =====
-- The compiled intent holds the groups of every enabled patch.
use local_clash.Prelude.{
  String, ◌==◌, ◌≡◌, refl, sym, ap, ◌∙◌, ◌⊎◌, inl, inr, subst, Bool, true, false, not, List, [],
  ◌∷◌, All, Option, none, some, if◌then◌else◌, Result, ok, >>=-eq-ok, guard-eq-ok, ok_inj, arith,
  eq_iff, eq_refl, Bool-cases, some-injective,
}
use local_clash.Prelude.Text.{is_blank, trim_space}
use local_clash.Prelude.Dict.{lookup, insert, lookup-insert}
use local_clash.Patch.Data.{PatchError, empty_id, overlay_conflict}
use local_clash.Patch.Compile.{Indexed, Provenance, add_hash, put_map_object, each}

add_hash-eq-ok :
    (prov_key : String) (found : Option String) (hash : String) (is_new : Bool)
    → add_hash prov_key found hash ≡ ok is_new
    → ((found ≡ none) × (is_new ≡ true)) ⊎ ((found ≡ some hash) × (is_new ≡ false))
add_hash-eq-ok prov_key none hash is_new h = inl (refl, sym (ok_inj h))
add_hash-eq-ok prov_key (some old) hash is_new h =
    let (same, new) = guard-eq-ok (old == hash) (overlay_conflict prov_key) (ok false) h in
    inr (ap some ((eq_iff old hash).0 same), sym (ok_inj new))

module _ {ℓ} {T : Type ℓ} where
  -- The index holds the hash of every value of the map, and no other.
  abbrev pub Tracked : (T → String) → Indexed T → Type ℓ
  Tracked hash s =
      (key : String)
      → ((lookup key s.target ≡ none) × (lookup key s.index ≡ none))
        ⊎ ((v : T) × (lookup key s.target ≡ some v) × (lookup key s.index ≡ some (hash v)))

  -- The map holds a value with the hash `h` under the key.
  abbrev pub Holds : (T → String) → Indexed T → String → String → Type ℓ
  Holds hash s key h = (v : T) × (lookup key s.target ≡ some v) × (hash v ≡ h)

  abbrev pub Kept : Indexed T → Indexed T → Type ℓ
  Kept s s' = (key : String) (v : T) → lookup key s.target ≡ some v → lookup key s'.target ≡ some v

  abbrev pub Put : (T → String) → Indexed T → Indexed T → String → T → Type ℓ
  Put hash s s' key value = Tracked hash s' × Kept s s' × Holds hash s' key (hash value)

  insert-Put :
      (hash : T → String) (s : Indexed T) (key : String) (value : T)
      → Tracked hash s
      → lookup key s.index ≡ none
      → Put hash s
          record { target = insert key value s.target; index = insert key (hash value) s.index }
          key
          value
  insert-Put hash s key value tracked absent = (
    (λ key'. elim (Bool-cases (key == key')) [
      | inl e ↦ inr (
        value,
        ground (arith, lookup-insert key key' value s.target),
        ground (arith, lookup-insert key key' (hash value) s.index),
      )
      | inr e ↦ elim (tracked key') [
        | inl (no_value, no_hash) ↦ inl (
          ground (arith, lookup-insert key key' value s.target),
          ground (arith, lookup-insert key key' (hash value) s.index),
        )
        | inr (v, found, hashed) ↦ inr (
          v,
          ground (arith, lookup-insert key key' value s.target),
          ground (arith, lookup-insert key key' (hash value) s.index),
        )
      ]
    ]),
    (λ key' v e. elim (Bool-cases (key == key')) [
      | inl same ↦
          let gone = subst (λ q. lookup q s.index ≡ none) ((eq_iff key key').0 same) absent in
          elim (tracked key') [ inl (no_value, no_hash) ↦ cc | inr (w, found, hashed) ↦ cc ]
      | inr other ↦ ground (arith, lookup-insert key key' value s.target)
    ]),
    (value, ground (arith, lookup-insert key key value s.target, eq_refl key), refl),
  )

  known-Put :
      (hash : T → String) (s : Indexed T) (key : String) (value : T)
      → Tracked hash s
      → lookup key s.index ≡ some (hash value)
      → Put hash s s key value
  known-Put hash s key value tracked known = (
    tracked,
    λ k v e. e,
    elim (tracked key) [
      | inl (no_value, no_hash) ↦ cc
      | inr (v, found, hashed) ↦ (v, found, some-injective _ _ (sym hashed ∙ known))
    ],
  )

  pub put_map_object-Put :
      (hash : T → String) (prov_key patch_id key : String) (value : T) (s s' : Indexed T)
      (p p' : Provenance)
      → Tracked hash s
      → put_map_object prov_key patch_id key value (hash value) (s, p) ≡ ok (s', p')
      → Put hash s s' key value
  unfolding put_map_object
  put_map_object-Put hash prov_key patch_id key value s s' p p' tracked h =
      let (named, h₁) = guard-eq-ok (not (is_blank (trim_space key))) (empty_id prov_key) _ h in
      let (is_new, added, h₂) =
        >>=-eq-ok (add_hash prov_key (lookup key s.index) (hash value)) _ h₁ in
      let same = ap (λ (r : Indexed T × Provenance). r.0) (ok_inj h₂) in
      let grown : Indexed T = record {
        target = insert key value s.target;
        index = insert key (hash value) s.index;
      } in
      elim (add_hash-eq-ok prov_key (lookup key s.index) (hash value) is_new added) [
        | inl (absent, new) ↦
            subst (λ t. Put hash s t key value)
              (ap (λ (b : Bool). if b then grown else s) (sym new) ∙ same)
              (insert-Put hash s key value tracked absent)
        | inr (found, old) ↦
            subst (λ t. Put hash s t key value)
              (ap (λ (b : Bool). if b then grown else s) (sym old) ∙ same)
              (known-Put hash s key value tracked found)
      ]

  pub Kept-trans : (s t w : Indexed T) → Kept s t → Kept t w → Kept s w
  Kept-trans s t w f g key v e = g key v (f key v e)

  pub Holds-Kept :
      (hash : T → String) (s t : Indexed T) (key h : String)
      → Kept s t
      → Holds hash s key h
      → Holds hash t key h
  Holds-Kept hash s t key h kept (v, found, same) = (v, kept key v found, same)

  module _ {κ} {X : Type κ} (hash : T → String) (key : X → String) (val : X → T)
      (f : X → Indexed T × Provenance → Result PatchError (Indexed T × Provenance))
      (step : (x : X) (s s' : Indexed T) (p p' : Provenance)
        → Tracked hash s
        → f x (s, p) ≡ ok (s', p')
        → Put hash s s' (key x) (val x)) where
    pub each-Put :
        (xs : List X) (s s' : Indexed T) (p p' : Provenance)
        → Tracked hash s
        → each f xs (s, p) ≡ ok (s', p')
        → Tracked hash s' × Kept s s' × All (λ x. Holds hash s' (key x) (hash (val x))) xs
    each-Put [] s s' p p' tracked h =
        let same = ap (λ (r : Indexed T × Provenance). r.0) (ok_inj h) in
        (subst (Tracked hash) same tracked, subst (Kept s) same (λ k v e. e), tt)
    each-Put (x ∷ xs) s s' p p' tracked h =
        let (mid, first, rest) = >>=-eq-ok (f x (s, p)) (λ m. each f xs m) h in
        let (tracked', kept, holds) = step x s mid.0 p mid.1 tracked first in
        let (done, kept', more) = each-Put xs mid.0 s' mid.1 p' tracked' rest in
        (
          done,
          Kept-trans s mid.0 s' kept kept',
          (Holds-Kept hash mid.0 s' (key x) (hash (val x)) kept' holds, more),
        )

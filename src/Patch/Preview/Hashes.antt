-- ===== src/Patch/Preview/Hashes.antt =====
-- The base hashes that a draft reports, against the registry that it was made from.
use local_clash.Prelude.{
  String, ◌==◌, ◌≡◌, refl, sym, ◌∙◌, false, List, [], All, ◌∷◌, Option, none, some, Result, ok, err,
  ◌>>◌, >>=-eq-ok, ok_inj, arith, eq_refl, Bool-cases, inl, inr, subst,
}
use local_clash.Prelude.Text.{Unicode, is_blank, trim_space}
use local_clash.Prelude.Dict.{Dict, lookup, insert}
use local_clash.Patch.Data.{Record, Registry, Operation, Host, PatchError, Impact}
use local_clash.Patch.Registry.{by_id, validate_records}
use local_clash.Patch.Preview.{
  Draft, preview_operation, preview_from, preview_operations, verify_hash, verify_base_hashes,
  base_hash, impact_of, draft_of,
}
use local_clash.Patch.Preview.Kept.{OthersKept, preview_operation-kept}

-- The hash of every record is there.
abbrev pub HasHashes : Dict Record → Type 0
HasHashes base = (id : String) (r : Record) → lookup id base ≡ some r → is_blank r.sha256 ≡ false

verify_hash-found :
    (id : String) (found : Option Record)
    → ((r : Record) → found ≡ some r → is_blank r.sha256 ≡ false)
    → verify_hash id (base_hash found) found ≡ ok tt
verify_hash-found id none full = refl
verify_hash-found id (some r) full = ground (arith, full r refl, eq_refl r.sha256)

verify-eq-ok :
    (first later : Result PatchError (Unit {0}))
    → (first >> later) ≡ ok tt
    → (first ≡ ok tt) × (later ≡ ok tt)
verify-eq-ok (ok tt) later h = (refl, h)
verify-eq-ok (err e) later h = cc

verify_base_hashes-insert :
    (base : Dict Record) (id hash : String) (hashes : Dict String)
    → verify_hash id hash (lookup id base) ≡ ok tt
    → verify_base_hashes base hashes ≡ ok tt
    → verify_base_hashes base (insert id hash hashes) ≡ ok tt
unfolding verify_base_hashes insert
verify_base_hashes-insert base id hash [] v h = ground arith
verify_base_hashes-insert base id hash ((here, old) ∷ hashes) v h =
    let (first, later) =
      verify-eq-ok (verify_hash here old (lookup here base)) (verify_base_hashes base hashes) h in
    elim (Bool-cases (here == id)) [
      | inl e ↦ ground (arith, later)
      | inr e ↦ ground (arith, first, verify_base_hashes-insert base id hash hashes v later)
    ]

unfoldable pub id_of : Operation → String
unfolding trim_space
id_of op = trim_space op.patch_id

-- No two operations name the same patch.
unfoldable pub DistinctIds : List Operation → Type 0
unfolding id_of
DistinctIds [] = Unit
DistinctIds (op ∷ ops) = All (λ o. (id_of op == id_of o) ≡ false) ops × DistinctIds ops

Unchanged : Dict Record → List Record → List Operation → Type 0
Unchanged base records = All (λ o. lookup (id_of o) (by_id records) ≡ lookup (id_of o) base)

Unchanged-kept :
    (base : Dict Record) (id : String) (before after : List Record) (ops : List Operation)
    → OthersKept id before after
    → All (λ o. (id == id_of o) ≡ false) ops
    → Unchanged base before ops
    → Unchanged base after ops
unfolding Unchanged
Unchanged-kept base id before after [] kept other same = tt
Unchanged-kept base id before after (o ∷ ops) kept other same =
    (kept (id_of o) other.0 ∙ same.0, Unchanged-kept base id before after ops kept other.1 same.1)

module _ ⦃u : Unicode⦄ ⦃host : Host⦄ where
  preview_from-verified :
      (base : Dict Record) (dir : String) (ops : List Operation) (before after : Draft)
      → HasHashes base
      → DistinctIds ops
      → Unchanged base before.records ops
      → verify_base_hashes base before.base_hashes ≡ ok tt
      → preview_from dir ops before ≡ ok after
      → verify_base_hashes base after.base_hashes ≡ ok tt
  unfolding preview_from Unchanged DistinctIds
  preview_from-verified base dir [] before after full distinct same done h =
      subst (λ (d : Draft). verify_base_hashes base d.base_hashes ≡ ok tt) (ok_inj h) done
  preview_from-verified base dir (op ∷ ops) before after full distinct same done h =
      let (mid, step, rest) =
        >>=-eq-ok (preview_operation dir op before) (λ d. preview_from dir ops d) h in
      let (kept, hashes) = preview_operation-kept dir op before mid step in
      let hash = base_hash (lookup (id_of op) (by_id before.records)) in
      let found : verify_hash (id_of op) hash (lookup (id_of op) base) ≡ ok tt =
        subst (λ o. verify_hash (id_of op) (base_hash o) (lookup (id_of op) base) ≡ ok tt)
          (sym same.0) (verify_hash-found (id_of op) (lookup (id_of op) base) (full (id_of op))) in
      preview_from-verified base dir ops mid after full distinct.1
        (Unchanged-kept base (id_of op) before.records mid.records ops kept distinct.0 same.1)
        (subst (λ b. verify_base_hashes base b ≡ ok tt) (sym hashes)
          (verify_base_hashes-insert base (id_of op) hash before.base_hashes found done))
        rest

  Unchanged-start : (base : List Record) (ops : List Operation) → Unchanged (by_id base) base ops
  unfolding Unchanged
  Unchanged-start base [] = tt
  Unchanged-start base (o ∷ ops) = (refl, Unchanged-start base ops)

  -- The base hashes that a draft reports pass the check that the apply of the draft makes on the
  -- same registry, if no two of its operations name the same patch. The registry's map is that of
  -- its records, and every record has a hash.
  pub preview_operations-verified :
      (registry : Registry) (ops : List Operation) (draft : Draft) (impact : Impact)
      → registry.by_id ≡ by_id registry.records
      → HasHashes registry.by_id
      → DistinctIds ops
      → preview_operations registry ops ≡ ok (draft, impact)
      → verify_base_hashes registry.by_id draft.base_hashes ≡ ok tt
  unfolding preview_operations verify_base_hashes
  preview_operations-verified registry ops draft impact same full distinct h =
      let start = draft_of registry in
      let (d, run, h₁) = >>=-eq-ok (preview_from registry.dir ops start) _ h in
      let (checked, valid, h₂) =
        >>=-eq-ok (validate_records d.records) (λ _. ok (d, impact_of registry.records d)) h₁ in
      let verified =
        preview_from-verified registry.by_id registry.dir ops start d full distinct
          (subst (λ b. Unchanged b registry.records ops) (sym same)
            (Unchanged-start registry.records ops))
          refl run in
      subst (λ (r : Draft × Impact). verify_base_hashes registry.by_id r.0.base_hashes ≡ ok tt)
        (ok_inj h₂) verified

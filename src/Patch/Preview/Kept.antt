-- ===== src/Patch/Preview/Kept.antt =====
-- An operation leaves the records under other ids as they are.
use local_clash.Prelude.{
  String, ◌==◌, ◌≡◌, refl, sym, ap, ◌∙◌, Bool, true, false, not, List, [], ◌∷◌, Option, none, some,
  if◌then◌else◌, Result, ok, err, >>=-eq-ok, guard-eq-ok, ok_inj, subst,
}
use local_clash.Prelude.Text.{Unicode, is_blank, trim_space}
use local_clash.Prelude.Text.Laws.{trim_space_idem}
use local_clash.Prelude.Dict.{lookup, insert}
use local_clash.Patch.Data.{
  Patch, Record, Operation, Host, PatchError, op_missing, op_without_id, op_unsupported,
}
use local_clash.Patch.Registry.{
  by_id, upsert_record, remove_record, normalize_patch, validate_patch, source_policy_template,
  source_user, status_enabled, status_tombstoned, first_non_empty,
}
use local_clash.Patch.Registry.Laws.{by_id-same_id, by_id-upsert, by_id-remove}
use local_clash.Patch.Preview.{
  Draft, upsert_of, patch_from_upsert, order_for, run_operation, preview_operation, trimmed,
  base_hash, existing, upsert_patch, remove_patch, order_place, check_base, set_patch_status,
  reorder_patch, rehashed, record_run,
}

upsert_of-id :
    (op : Operation) (records : List Record) (source status title order_id : String) (patch : Patch)
    → upsert_of op records source status title order_id ≡ ok patch
    → patch.patch_id ≡ trim_space op.patch_id
unfolding upsert_of normalize_patch
upsert_of-id op records source status title order_id patch h =
    let (allocated, e, built) = >>=-eq-ok (order_for order_id records) _ h in
    sym (ap (λ (p : Patch). p.patch_id) (ok_inj built))

patch_from_upsert-id :
    (op : Operation) (found : Option Record) (records : List Record) (patch : Patch)
    → patch_from_upsert op found records ≡ ok patch
    → patch.patch_id ≡ trim_space op.patch_id
unfolding patch_from_upsert
patch_from_upsert-id op none records patch h =
    upsert_of-id op records (first_non_empty (op.source ∷ source_user ∷ []))
      (first_non_empty (op.status ∷ status_enabled ∷ []))
      (first_non_empty (op.title ∷ op.summary ∷ op.patch_id ∷ [])) (trim_space op.order_id) patch h
patch_from_upsert-id op (some r) records patch h =
    let old = r.patch in
    upsert_of-id op records (first_non_empty (op.source ∷ old.source ∷ source_user ∷ []))
      (first_non_empty (op.status ∷ old.status ∷ status_enabled ∷ []))
      (first_non_empty (op.title ∷ old.title ∷ op.summary ∷ op.patch_id ∷ []))
      (if is_blank (trim_space op.order_id) then old.order_id else trim_space op.order_id) patch h

existing-eq-ok :
    (id : String) (found : Option Record) (r : Record) → existing id found ≡ ok r → found ≡ some r
existing-eq-ok id none r h = cc
existing-eq-ok id (some x) r h = ap some (ok_inj h)

-- The records under other ids are those from before.
abbrev pub OthersKept : String → List Record → List Record → Type 0
OthersKept id before after =
    (other : String)
    → (id == other) ≡ false
    → lookup other (by_id after) ≡ lookup other (by_id before)

upsert-kept :
    (id : String) (records : List Record) (next : Record)
    → next.patch.patch_id ≡ id
    → OthersKept id records (upsert_record records next)
upsert-kept id records next same other k =
    by_id-upsert other records next (subst (λ q. (q == other) ≡ false) (sym same) k)

one_kept :
    (id : String) (records : List Record) (test : Bool) (x y : List Record × Bool × Operation)
    → OthersKept id records x.0
    → OthersKept id records y.0
    → OthersKept id records (if test then x else y).0
one_kept id records true x y p q = p
one_kept id records false x y p q = q

module _ ⦃u : Unicode⦄ ⦃host : Host⦄ where
  abbrev Step : Type 0
  Step =
      Operation → Option Record → List Record → Result PatchError (List Record × Bool × Operation)

  abbrev KeepsOthers : Step → Type 0
  KeepsOthers step =
      (op : Operation) (found : Option Record) (records : List Record)
      (after : List Record × Bool × Operation)
      → trim_space op.patch_id ≡ op.patch_id
      → lookup op.patch_id (by_id records) ≡ found
      → step op found records ≡ ok after
      → OthersKept op.patch_id records after.0

  found-same_id :
      (op : Operation) (found : Option Record) (records : List Record) (r : Record)
      → lookup op.patch_id (by_id records) ≡ found
      → existing op.patch_id found ≡ ok r
      → r.patch.patch_id ≡ op.patch_id
  found-same_id op found records r f e =
      by_id-same_id op.patch_id records r (f ∙ existing-eq-ok op.patch_id found r e)

  upsert_patch-kept : (dir : String) → KeepsOthers (upsert_patch dir)
  unfolding upsert_patch
  upsert_patch-kept dir op found records after t f h =
      let (patch, made, h₁) = >>=-eq-ok (patch_from_upsert op found records) _ h in
      let (checked, valid, h₂) = >>=-eq-ok (validate_patch patch) _ h₁ in
      subst (λ (a : List Record × Bool × Operation). OthersKept op.patch_id records a.0) (ok_inj h₂)
        (upsert-kept op.patch_id records _ (patch_from_upsert-id op found records patch made ∙ t))

  remove_patch-kept : KeepsOthers remove_patch
  unfolding remove_patch
  remove_patch-kept op found records after t f h =
      let (r, e, h₁) = >>=-eq-ok (existing op.patch_id found) _ h in
      let next = rehashed r record (r.patch) { status = status_tombstoned } in
      subst (λ (a : List Record × Bool × Operation). OthersKept op.patch_id records a.0) (ok_inj h₁)
        (one_kept op.patch_id records (r.patch.source == source_policy_template)
          (upsert_record records next, false, op) (remove_record records op.patch_id, true, op)
          (upsert-kept op.patch_id records next (found-same_id op found records r f e))
          (λ other k. by_id-remove other op.patch_id records k))

  set_patch_status-kept : KeepsOthers set_patch_status
  unfolding set_patch_status
  set_patch_status-kept op found records after t f h =
      let (r, e, h₁) = >>=-eq-ok (existing op.patch_id found) _ h in
      let (valid, h₂) = guard-eq-ok _ _ _ h₁ in
      subst (λ (a : List Record × Bool × Operation). OthersKept op.patch_id records a.0) (ok_inj h₂)
        (upsert-kept op.patch_id records _ (found-same_id op found records r f e))

  reorder_patch-kept : KeepsOthers reorder_patch
  unfolding reorder_patch
  reorder_patch-kept op found records after t f h =
      let (r, e, h₁) = >>=-eq-ok (existing op.patch_id found) _ h in
      let (order_id, placed, h₂) = >>=-eq-ok (order_place op records) _ h₁ in
      let (valid, h₃) = guard-eq-ok _ _ _ h₂ in
      subst (λ (a : List Record × Bool × Operation). OthersKept op.patch_id records a.0) (ok_inj h₃)
        (upsert-kept op.patch_id records _ (found-same_id op found records r f e))

  abbrev Keeps : String → List Record → Result PatchError (List Record × Bool × Operation) → Type 0
  Keeps id records result =
      (after : List Record × Bool × Operation) → result ≡ ok after → OthersKept id records after.0

  if-Keeps :
      (id : String) (records : List Record) (test : Bool)
      (x y : Result PatchError (List Record × Bool × Operation))
      → Keeps id records x
      → Keeps id records y
      → Keeps id records (if test then x else y)
  if-Keeps id records true x y p q = p
  if-Keeps id records false x y p q = q

  err-Keeps : (id : String) (records : List Record) (e : PatchError) → Keeps id records (err e)
  err-Keeps id records e after h = cc

  run_operation-kept :
      (dir : String) (op : Operation) (found : Option Record) (records : List Record)
      → trim_space op.patch_id ≡ op.patch_id
      → lookup op.patch_id (by_id records) ≡ found
      → Keeps op.patch_id records (run_operation dir op found records)
  unfolding run_operation
  run_operation-kept dir op found records t f =
      let keeps = if-Keeps op.patch_id records in
      keeps (op.op == "upsert_patch") (upsert_patch dir op found records) _
        (λ after. upsert_patch-kept dir op found records after t f)
        (keeps (op.op == "remove_patch") (remove_patch op found records) _
          (λ after. remove_patch-kept op found records after t f)
          (keeps (op.op == "set_patch_status") (set_patch_status op found records) _
            (λ after. set_patch_status-kept op found records after t f)
            (keeps (op.op == "reorder_patch") (reorder_patch op found records)
              (err (op_unsupported op.op)) (λ after. reorder_patch-kept op found records after t f)
              (err-Keeps op.patch_id records (op_unsupported op.op)))))

  pub preview_operation-kept :
      (dir : String) (raw : Operation) (before after : Draft)
      → preview_operation dir raw before ≡ ok after
      → OthersKept (trim_space raw.patch_id) before.records after.records
        × (after.base_hashes
            ≡ insert
                (trim_space raw.patch_id)
                (base_hash (lookup (trim_space raw.patch_id) (by_id before.records)))
                before.base_hashes)
  unfolding preview_operation record_run trimmed
  preview_operation-kept dir raw before after h =
      let op = trimmed raw in
      let found = lookup op.patch_id (by_id before.records) in
      let (named, h₁) = guard-eq-ok (not (is_blank op.op)) (op_missing op.op) _ h in
      let (given, h₂) = guard-eq-ok (not (is_blank op.patch_id)) (op_without_id op.op) _ h₁ in
      let (based, checked, h₃) =
        >>=-eq-ok (check_base op.patch_id op.base_patch_sha256 found) _ h₂ in
      let (next, run, h₄) =
        >>=-eq-ok (run_operation dir op found before.records)
          (λ n. ok (record_run before op.patch_id found n)) h₃ in
      (
        subst (λ (d : Draft). OthersKept op.patch_id before.records d.records) (ok_inj h₄)
            (run_operation-kept dir op found before.records (trim_space_idem raw.patch_id) refl next
              run),
        sym (ap (λ (d : Draft). d.base_hashes) (ok_inj h₄)),
      )

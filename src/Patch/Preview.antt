-- ===== src/Patch/Preview.antt =====
-- internal/configpatch/patch.go: operations on the patches of a registry, as a draft previews them
-- and an apply repeats them.
pub mod Kept
pub mod Hashes
pub mod Valid
use Prim.Native.Char.{Char, code}
use local_clash.Prelude.{
  ℕ, zero, suc, pos, leb, String, ◌==◌, ◌<>◌, Bool, true, false, not, ◌&&◌, ◌||◌, List, [], ◌∷◌,
  ◌++◌, Option, none, some, is_some, if◌then◌else◌, Result, ok, err, ◌>>=◌, ◌>>◌, guard,
}
use local_clash.Prelude.Text.{Unicode, is_blank, trim_space, trim_char, to_lower, sort_strings}
use local_clash.Prelude.Dict.{Dict, lookup, insert, keys}
use local_clash.Patch.Data.{
  Patch, Record, Registry, Operation, Impact, Host, PatchError, op_missing, op_without_id,
  stale_hash, stale_absent, stale_present, patch_not_found, bad_status, bad_order_id,
  op_unsupported,
}
use local_clash.Patch.Registry.{
  by_id, upsert_record, remove_record, enabled_count, first_non_empty, normalize_patch,
  validate_patch, validate_records, valid_status, midpoint_order_id, next_user_order_id,
  status_enabled, status_tombstoned, source_user, source_policy_template,
}
use local_clash.Patch.OrderId.{valid_order_id}

-- the loop of `safeTitleSlug`, with `lastDash`
unfoldable pub slug_from : Bool → String → String
slug_from last_dash String.[] = String.[]
slug_from last_dash (String.◌∷◌ c s) =
    let n = code c in
    let kept = (leb 97 n && leb n 122) || (leb 48 n && leb n 57) in
    let rest = slug_from (not kept) s in
    if kept then String.◌∷◌ c rest else if last_dash then rest else String.◌∷◌ "-" rest

abbrev pub take_text : ℕ → String → String
take_text zero s = String.[]
take_text (suc n) String.[] = String.[]
take_text (suc n) (String.◌∷◌ c s) = String.◌∷◌ c (take_text n s)

-- the slug of a title in lower case; cut at 80 characters, which are bytes here
unfoldable pub slug_of : String → String
unfolding slug_from trim_char
slug_of title =
    let slug = trim_char 45 (slug_from false title) in
    let slug' = if is_blank slug then "patch" else slug in
    if take_text 80 slug' == slug' then slug' else trim_char 45 (take_text 80 slug')

module _ ⦃u : Unicode⦄ where
  unfoldable pub safe_title_slug : String → String
  unfolding slug_of to_lower trim_space
  safe_title_slug title = slug_of (to_lower (trim_space title))

  -- canonicalFilename of a patch with a valid id
  unfoldable pub canonical_filename : Patch → String
  unfolding safe_title_slug
  canonical_filename patch = patch.patch_id <> "_" <> safe_title_slug patch.title <> ".json"

unfoldable pub order_for : String → List Record → Result PatchError String
unfolding next_user_order_id
order_for order_id records = if is_blank order_id then next_user_order_id records else ok order_id

unfoldable pub upsert_of :
    Operation → List Record → String → String → String → String → Result PatchError Patch
unfolding normalize_patch
upsert_of op records source status title order_id = do
  allocated_id ← order_for order_id records
  ok (
      normalize_patch record {
        version = pos 1;
        patch_id = op.patch_id;
        title = title;
        source = source;
        source_ref = op.source_ref;
        status = status;
        order_id = allocated_id;
        summary = op.summary;
        overlay = op.overlay;
      })

unfoldable pub patch_from_upsert : Operation → Option Record → List Record → Result PatchError Patch
unfolding first_non_empty trim_space next_user_order_id normalize_patch
patch_from_upsert op none records =
    upsert_of op records (first_non_empty (op.source ∷ source_user ∷ []))
      (first_non_empty (op.status ∷ status_enabled ∷ []))
      (first_non_empty (op.title ∷ op.summary ∷ op.patch_id ∷ [])) (trim_space op.order_id)
patch_from_upsert op (some existing) records =
    let old = existing.patch in
    let order_id = trim_space op.order_id in
    upsert_of op records (first_non_empty (op.source ∷ old.source ∷ source_user ∷ []))
      (first_non_empty (op.status ∷ old.status ∷ status_enabled ∷ []))
      (first_non_empty (op.title ∷ old.title ∷ op.summary ∷ op.patch_id ∷ []))
      (if is_blank order_id then old.order_id else order_id)

-- the variables of the loop of `previewOperations`; `recordsByID` is `by_id records`
pub record Draft : Type 0 where
  pub records : List Record
  pub normalized : List Operation
  pub base_hashes : Dict String
  pub changed : Dict Bool
  pub removed : Dict Bool

-- `base_patch_sha256` against the record that there is
abbrev pub check_base : String → String → Option Record → Result PatchError (Unit {0})
check_base patch_id base none = guard (is_blank base) (stale_present patch_id)
check_base patch_id base (some r) = guard (is_blank base || base == r.sha256) (stale_hash patch_id)

abbrev pub base_hash : Option Record → String
base_hash none = ""
base_hash (some r) = r.sha256

abbrev pub existing : String → Option Record → Result PatchError Record
existing patch_id none = err (patch_not_found patch_id)
existing patch_id (some r) = ok r

module _ ⦃u : Unicode⦄ ⦃h : Host⦄ where
  -- a record with another patch, and its new hash
  abbrev pub rehashed : Record → Patch → Record
  rehashed r patch = record r { patch = patch; sha256 = h.canonical_hash patch }

  -- What an operation makes of the records: the new ones, whether the patch was removed, and the
  -- operation with its order id.
  unfoldable pub upsert_patch :
      String
      → Operation
      → Option Record
      → List Record
      → Result PatchError (List Record × Bool × Operation)
  unfolding patch_from_upsert validate_patch upsert_record canonical_filename
  upsert_patch dir op found records = do
    patch ← patch_from_upsert op found records
    validate_patch patch
    ok (
      upsert_record records record {
        patch = patch;
        path = h.join_path dir (canonical_filename patch);
        sha256 = h.canonical_hash patch;
      },
      false,
      op,
    )

  unfoldable pub remove_patch :
      Operation → Option Record → List Record → Result PatchError (List Record × Bool × Operation)
  unfolding upsert_record remove_record
  remove_patch op found records = do
    r ← existing op.patch_id found
    ok (
        if r.patch.source == source_policy_template
        then (
          upsert_record records (rehashed r record (r.patch) { status = status_tombstoned }),
          false,
          op,
        )
        else (remove_record records op.patch_id, true, op))

  unfoldable pub set_patch_status :
      Operation → Option Record → List Record → Result PatchError (List Record × Bool × Operation)
  unfolding upsert_record trim_space valid_status
  set_patch_status op found records = do
    r ← existing op.patch_id found
    guard (valid_status (trim_space op.status)) (bad_status op.patch_id (trim_space op.status))
    ok (
      upsert_record records (rehashed r record (r.patch) { status = trim_space op.status }),
      false,
      op,
    )

  unfoldable pub order_place : Operation → List Record → Result PatchError String
  unfolding trim_space by_id midpoint_order_id
  order_place op records =
      if is_blank (trim_space op.order_id)
      then midpoint_order_id (by_id records) op.after_patch_id op.before_patch_id
      else ok (trim_space op.order_id)

  unfoldable pub reorder_patch :
      Operation → Option Record → List Record → Result PatchError (List Record × Bool × Operation)
  unfolding upsert_record valid_order_id
  reorder_patch op found records = do
    r ← existing op.patch_id found
    order_id ← order_place op records
    guard (valid_order_id order_id) (bad_order_id order_id)
    ok (
      upsert_record records (rehashed r record (r.patch) { order_id = order_id }),
      false,
      record op { normalized_order_id = order_id },
    )

  -- the switch of `previewOperations`
  unfoldable pub run_operation :
      String
      → Operation
      → Option Record
      → List Record
      → Result PatchError (List Record × Bool × Operation)
  unfolding upsert_patch
  run_operation dir op found records =
      if op.op == "upsert_patch"
      then upsert_patch dir op found records
      else if op.op == "remove_patch"
      then remove_patch op found records
      else if op.op == "set_patch_status"
      then set_patch_status op found records
      else if op.op == "reorder_patch"
      then reorder_patch op found records
      else err (op_unsupported op.op)

  unfoldable pub record_run :
      Draft → String → Option Record → List Record × Bool × Operation → Draft
  unfolding insert
  record_run d id found (records, gone, op) = record {
    records = records;
    normalized = d.normalized ++ (op ∷ []);
    base_hashes = insert id (base_hash found) d.base_hashes;
    changed = if gone then d.changed else insert id true d.changed;
    removed = if gone then insert id true d.removed else d.removed;
  }

  unfoldable pub trimmed : Operation → Operation
  unfolding trim_space
  trimmed op = record op { op = trim_space op.op; patch_id = trim_space op.patch_id }

  -- one round of the loop
  unfoldable pub preview_operation : String → Operation → Draft → Result PatchError Draft
  unfolding run_operation by_id lookup
  preview_operation dir raw d =
      let op = trimmed raw in
      let found = lookup op.patch_id (by_id d.records) in
      do
        guard (not (is_blank op.op)) (op_missing op.op)
        guard (not (is_blank op.patch_id)) (op_without_id op.op)
        check_base op.patch_id op.base_patch_sha256 found
        next ← run_operation dir op found d.records
        ok (record_run d op.patch_id found next)

  unfoldable pub preview_from : String → List Operation → Draft → Result PatchError Draft
  unfolding preview_operation
  preview_from dir [] d = ok d
  preview_from dir (op ∷ ops) d = preview_operation dir op d >>= λ d'. preview_from dir ops d'

  unfoldable pub impact_of : List Record → Draft → Impact
  unfolding enabled_count sort_strings keys
  impact_of before d = record {
    enabled_before = enabled_count before;
    enabled_after = enabled_count d.records;
    patches_changed = sort_strings (keys d.changed);
    patches_removed = sort_strings (keys d.removed);
  }

  -- the variables before the loop
  abbrev pub draft_of : Registry → Draft
  draft_of registry = record {
    records = registry.records;
    normalized = [];
    base_hashes = [];
    changed = [];
    removed = [];
  }

  unfoldable pub preview_operations : Registry → List Operation → Result PatchError (Draft × Impact)
  unfolding preview_from validate_records
  preview_operations registry ops = do
    d ← preview_from registry.dir ops (draft_of registry)
    validate_records d.records
    ok (d, impact_of registry.records d)

-- one round of the loop of `verifyBaseHashes`
abbrev pub verify_hash : String → String → Option Record → Result PatchError (Unit {0})
verify_hash patch_id expected none = guard (is_blank expected) (stale_absent patch_id)
verify_hash patch_id expected (some r) =
    if is_blank expected
    then err (stale_present patch_id)
    else guard (r.sha256 == expected) (stale_hash patch_id)

unfoldable pub verify_base_hashes : Dict Record → Dict String → Result PatchError (Unit {0})
unfolding lookup
verify_base_hashes by_id [] = ok tt
verify_base_hashes by_id ((patch_id, expected) ∷ hashes) =
    verify_hash patch_id expected (lookup patch_id by_id) >> verify_base_hashes by_id hashes

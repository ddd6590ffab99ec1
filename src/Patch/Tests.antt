-- ===== src/Patch/Tests.antt =====
-- A registry of two patches, and a draft of two operations on it.
use local_clash.Prelude.{
  ℕ, pos, String, ◌≡◌, refl, false, List, [], ◌∷◌, ok, err, Result, ◌<>◌, inr, arith, none, All,
  ◌==◌, ◌⊎◌,
}
use local_clash.Prelude.Text.{
  is_blank, trim_space, trim_char, strip_prefix?, split, decimal, contains, contains_any, to_lower,
  text_lt, sort_strings,
}
use local_clash.Prelude.Text.Ascii.{ascii}
use local_clash.Prelude.Dict.{lookup, insert, has_key, keys, lookup-All, elem}
use local_clash.LocalConfig.{Config, OverlayIntent, OverlayProxyGroupIntent}
use local_clash.Patch.Compile.{
  Object, ObjectHash, Provenance, a_proxy_group, a_policy_group, a_pack, a_transport_rule,
  a_custom_rule, a_rule_pack, a_rule_provider, append_unique, add_provenance, put_map_object,
  append_unique_object, pack_key, put_proxy_group, put_policy_group, append_pack, append_as,
  merge_groups, merge_lists, merge_overlay, merge_enabled, insert_record, sort_records,
  compile_records, config_of, no_merge,
}
use local_clash.Patch.Inventory.{template_order_id}
use local_clash.Patch.Inventory.Template.{template_order_id-Parses}
use local_clash.Patch.Compile.Groups.Compiled.{GroupsIn, compile_records-GroupsIn}
use local_clash.Patch.Data.{
  Patch, Record, Registry, Operation, Impact, Host, PatchError, stale_hash, no_order_space,
}
use local_clash.Patch.OrderId.{
  strip_digits, order_id_pattern, read_digits, put_digits, padded, valid_order_id, parse_order_id,
  format_order_id,
}
use local_clash.Patch.Registry.{
  by_id_onto, by_id, upsert_record, remove_record, enabled_count, first_non_empty, normalize_patch,
  valid_patch_id, valid_status, validate_patch, check_record, check_records, validate_records,
  order_of, midpoint, midpoint_order_id, max_order, next_user_order_id, status_enabled,
}
use local_clash.Patch.Registry.Order.{
  TrimmedOrders, LiesBehind, LiesBefore, OrdersBelow, midpoint_order_id-between,
  next_user_order_id-follows,
}
use local_clash.Patch.Preview.{
  Draft, draft_of, slug_from, slug_of, safe_title_slug, canonical_filename, upsert_of,
  patch_from_upsert, order_for, upsert_patch, remove_patch, set_patch_status, reorder_patch,
  order_place, record_run, trimmed, impact_of, run_operation, preview_operation, preview_from,
  preview_operations, verify_base_hashes,
}
use local_clash.Patch.Preview.Hashes.{HasHashes, DistinctIds, preview_operations-verified}
use local_clash.Patch.Preview.Valid.{RecordsOk, preview_operations-RecordsOk}

-- Everything that a run of a preview computes with.
preview_run : Unit {0}
unfolding trim_space trim_char strip_prefix? split decimal contains contains_any to_lower text_lt
    sort_strings lookup insert has_key keys strip_digits order_id_pattern read_digits put_digits
    padded valid_order_id parse_order_id format_order_id by_id_onto by_id upsert_record
    remove_record enabled_count first_non_empty normalize_patch valid_patch_id valid_status
    validate_patch check_record check_records validate_records order_of midpoint midpoint_order_id
    max_order next_user_order_id slug_from slug_of safe_title_slug canonical_filename upsert_of
    order_for patch_from_upsert upsert_patch remove_patch set_patch_status order_place reorder_patch
    record_run trimmed impact_of run_operation preview_operation preview_from preview_operations
    verify_base_hashes
preview_run = tt

instance host : Host
host = record {
  canonical_hash = λ p. "hash of " <> p.patch_id <> " " <> p.status <> " " <> p.order_id;
  join_path = λ dir name. dir <> "/" <> name;
}

abbrev no_overlay : OverlayIntent
no_overlay = record {
  packs = [];
  transport_rules = [];
  custom_rules = [];
  enabled_rule_packs = [];
  rule_providers = [];
  proxy_groups = [];
  policy_groups = [];
}

abbrev patch_at : String → String → Patch
patch_at id order_id = record {
  version = pos 1;
  patch_id = id;
  title = id;
  source = "user";
  source_ref = "";
  status = "enabled";
  order_id = order_id;
  summary = "";
  overlay = no_overlay;
}

abbrev record_at : String → String → Record
record_at id order_id = record {
  patch = patch_at id order_id;
  path = "patches/" <> id;
  sha256 = "hash of " <> id;
}

abbrev two_records : List Record
two_records = record_at "steam" "0550.000000" ∷ record_at "games" "0700.000000" ∷ []

abbrev registry : Registry
unfolding by_id
registry = record { dir = "patches"; records = two_records; by_id = by_id two_records }

abbrev operation : String → String → String → Operation
operation op id order_id = record {
  op = op;
  patch_id = id;
  base_patch_sha256 = "";
  title = "";
  source = "";
  source_ref = "";
  status = "disabled";
  order_id = order_id;
  summary = "";
  overlay = no_overlay;
  before_patch_id = "";
  after_patch_id = "";
  normalized_order_id = "";
}

abbrev two_operations : List Operation
two_operations =
    operation "reorder_patch" "games" "0600.000000" ∷ operation "upsert_patch" "work" "" ∷ []

new_patch : midpoint_order_id (by_id two_records) "steam" "games" ≡ ok "0625.000000"
unfolding preview_run
new_patch = refl

abbrev or_none : Result PatchError (Draft × Impact) → Draft × Impact
unfolding preview_run
or_none (ok result) = result
or_none (err e) = (draft_of registry, impact_of [] (draft_of registry))

abbrev two_drafted : Draft × Impact
unfolding preview_run or_none
two_drafted = or_none (preview_operations registry two_operations)

-- Only the operation on a patch that exists has a base hash.
two_hashes : two_drafted.0.base_hashes ≡ ("games", "hash of games") ∷ ("work", "") ∷ []
unfolding preview_run two_drafted or_none
two_hashes = refl

-- Two operations on one patch: the second base hash is the one of the first operation's result, so
-- the apply of this draft is refused.
abbrev twice : Draft × Impact
unfolding preview_run or_none
twice = or_none (
    preview_operations registry (
      operation "reorder_patch" "games" "0600.000000"
      ∷ operation "set_patch_status" "games" ""
      ∷ []))

twice-refused : verify_base_hashes registry.by_id twice.0.base_hashes ≡ err (stale_hash "games")
unfolding preview_run twice or_none registry host
twice-refused = refl

-- Behind an order of 10 or more there is no place without a `before_patch_id`.
no_place_behind : midpoint_order_id (by_id two_records) "games" "" ≡ err (no_order_space "games" "")
unfolding preview_run
no_place_behind = refl

registry-HasHashes : HasHashes registry.by_id
unfolding preview_run registry
registry-HasHashes id r h =
    lookup-All (λ (q : Record). is_blank q.sha256 ≡ false) id registry.by_id r (refl, (refl, tt)) h

preview_operations-verified_example :
    verify_base_hashes registry.by_id two_drafted.0.base_hashes ≡ ok tt
unfolding preview_run two_drafted or_none registry DistinctIds
preview_operations-verified_example =
    preview_operations-verified registry two_operations two_drafted.0 two_drafted.1 refl
      registry-HasHashes ((refl, tt), (tt, tt)) refl

preview_operations-RecordsOk_example : RecordsOk two_drafted.0.records
unfolding preview_run two_drafted or_none registry
preview_operations-RecordsOk_example =
    preview_operations-RecordsOk registry two_operations two_drafted.0 two_drafted.1 refl

two_records-TrimmedOrders : TrimmedOrders (by_id two_records)
unfolding preview_run
two_records-TrimmedOrders id r h =
    lookup-All (λ (q : Record). trim_space q.patch.order_id ≡ q.patch.order_id) id
      (by_id two_records) r (refl, (refl, tt)) h

midpoint_order_id-between_example :
    (m : ℕ) × (parse_order_id "0625.000000" ≡ ok m)
    × LiesBehind (by_id two_records) (trim_space "steam") m
    × LiesBefore (by_id two_records) (trim_space "games") m
unfolding preview_run
midpoint_order_id-between_example =
    midpoint_order_id-between (by_id two_records) "steam" "games" "0625.000000"
      two_records-TrimmedOrders refl

next_user_order_id-follows_example :
    (value : ℕ) × (parse_order_id "1000.000000" ≡ ok value) × OrdersBelow value two_records
unfolding preview_run
next_user_order_id-follows_example =
    next_user_order_id-follows two_records "1000.000000"
      (inr (550000000, refl, omega arith), (inr (700000000, refl, omega arith), tt)) refl

-- Everything that a run of the merge computes with.
compile_run : Unit {0}
unfolding preview_run elem append_unique add_provenance put_map_object append_unique_object pack_key
    put_proxy_group put_policy_group append_pack append_as merge_groups merge_lists merge_overlay
    merge_enabled insert_record sort_records compile_records
compile_run = tt

-- a hash that tells groups apart by their mode
abbrev mode_of : Object → String
mode_of (a_proxy_group g) = g.mode
mode_of (a_policy_group g) = g.mode
mode_of (a_pack p) = p.target
mode_of (a_transport_rule r) = r.target
mode_of (a_custom_rule r) = r.target
mode_of (a_rule_pack p) = p.target
mode_of (a_rule_provider p) = p.target

instance object_hash : ObjectHash
object_hash = record { canonical_hash = mode_of }

-- A patch of a group and a patch that is disabled.
abbrev grouped : Record
grouped =
    let patch = patch_at "exits" "0100.000000" in
    let group : OverlayProxyGroupIntent = record {
      id = " Japan ";
      nodes = "node a" ∷ [];
      match = none;
      mode = "auto";
      optional = false;
      reason = "";
      boundary = "";
    } in
    record {
      patch = record patch { overlay = record no_overlay { proxy_groups = group ∷ [] } };
      path = "";
      sha256 = "";
    }

abbrev disabled : Record
disabled = record grouped { patch = record (patch_at "off" "0200.000000") { status = "disabled" } }

abbrev or_empty : Result PatchError (Config × Provenance) → Config × Provenance
or_empty (ok result) = result
or_empty (err e) = (config_of "" no_merge, [])

abbrev compiled : Config × Provenance
unfolding compile_run
compiled = or_empty (compile_records (disabled ∷ grouped ∷ []) " default ")

exits_compiled : compiled.1 ≡ ("proxy_groups[Japan]", "exits" ∷ []) ∷ []
unfolding compile_run compiled
exits_compiled = refl

compile_records-GroupsIn_example :
    All
      (λ r. ((r.patch.status == status_enabled) ≡ false) ⊎ GroupsIn compiled.0 r)
      (disabled ∷ grouped ∷ [])
unfolding compile_run compiled
compile_records-GroupsIn_example =
    compile_records-GroupsIn (disabled ∷ grouped ∷ []) " default " compiled.0 compiled.1 refl

template_order_id-Parses_example :
    (value : ℕ) × (parse_order_id (template_order_id "my.template" 11) ≡ ok value)
template_order_id-Parses_example = template_order_id-Parses "my.template" 11 (omega arith)

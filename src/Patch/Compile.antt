-- ===== src/Patch/Compile.antt =====
-- internal/configpatch/patch.go: the merge of the enabled patches of a registry into one intent.
-- The metadata of the generation is left out, except for the provenance of each object.
pub mod Merged
pub mod Groups
use local_clash.Prelude.{
  String, ◌==◌, ◌<>◌, Bool, true, false, not, List, [], ◌∷◌, ◌++◌, Option, none, some,
  if◌then◌else◌, is_some, Result, ok, err, ◌>>=◌, ◌>>◌, guard,
}
use local_clash.Prelude.Text.{Unicode, is_blank, trim_space, text_lt}
use local_clash.Prelude.Dict.{Dict, lookup, insert, elem}
use local_clash.LocalConfig.{
  Config, ProxyGroup, PolicyGroup, Pack, TransportRule, CustomRule, RulePackSelection,
  ExternalRuleProvider, OverlayIntent, OverlayProxyGroupIntent, OverlayPolicyGroupIntent,
  OverlayPackIntent,
}
use local_clash.Patch.Data.{Patch, Record, PatchError, empty_id, overlay_conflict}
use local_clash.Patch.Registry.{validate_records, status_enabled}

-- what a patch may add to an intent
pub data Object : Type 0 where
  a_proxy_group : ProxyGroup → Object
  a_policy_group : PolicyGroup → Object
  a_pack : Pack → Object
  a_transport_rule : TransportRule → Object
  a_custom_rule : CustomRule → Object
  a_rule_pack : RulePackSelection → Object
  a_rule_provider : ExternalRuleProvider → Object

-- the SHA-256 of an object's JSON
pub record ObjectHash : Type 0 where
  pub canonical_hash : Object → String

unfoldable pub append_unique : List String → String → List String
unfolding elem
append_unique values value = if elem value values then values else values ++ (value ∷ [])

abbrev pub names_at : Option (List String) → List String
names_at none = []
names_at (some names) = names

-- provenance[provKey] = appendUnique(provenance[provKey], patchID)
unfoldable pub add_provenance : String → String → Dict (List String) → Dict (List String)
unfolding append_unique lookup insert
add_provenance prov_key patch_id provenance =
    insert prov_key (append_unique (names_at (lookup prov_key provenance)) patch_id) provenance

-- An index knows the key with another hash, with the same one, or not.
abbrev pub add_hash : String → Option String → String → Result PatchError Bool
add_hash prov_key none hash = ok true
add_hash prov_key (some old) hash = guard (old == hash) (overlay_conflict prov_key) >> ok false

-- a map of the intent, and its index of `mergeIndexes`
pub record Indexed {ℓ} (T : Type ℓ) : Type ℓ where
  pub target : Dict T
  pub index : Dict String

-- a list of the intent, and its index
pub record Listed {ℓ} (T : Type ℓ) : Type ℓ where
  pub target : List T
  pub index : Dict String

abbrev pub Provenance : Type 0
Provenance = Dict (List String)

module _ {ℓ} {T : Type ℓ} where
  unfoldable pub put_map_object :
      String
      → String
      → String
      → T
      → String
      → Indexed T × Provenance
      → Result PatchError (Indexed T × Provenance)
  unfolding trim_space lookup insert add_provenance
  put_map_object prov_key patch_id key value hash (s, provenance) = do
    guard (not (is_blank (trim_space key))) (empty_id prov_key)
    is_new ← add_hash prov_key (lookup key s.index) hash
    ok (
      if is_new
          then record { target = insert key value s.target; index = insert key hash s.index }
          else s,
      add_provenance prov_key patch_id provenance,
    )

  unfoldable pub append_unique_object :
      String
      → String
      → String
      → T
      → String
      → Listed T × Provenance
      → Result PatchError (Listed T × Provenance)
  unfolding trim_space lookup insert add_provenance
  append_unique_object prov_key patch_id key value hash (s, provenance) = do
    guard (not (is_blank (trim_space key))) (empty_id prov_key)
    is_new ← add_hash prov_key (lookup key s.index) hash
    ok (
      if is_new
          then record { target = s.target ++ (value ∷ []); index = insert key hash s.index }
          else s,
      add_provenance prov_key patch_id provenance,
    )

-- a loop that stops at the first error
abbrev pub each {ℓ κ} :
    {T : Type ℓ} {S : Type κ} → (T → S → Result PatchError S) → List T → S → Result PatchError S
each f [] s = ok s
each f (x ∷ xs) s = f x s >>= λ s'. each f xs s'

abbrev pub proxy_group_value : OverlayProxyGroupIntent → ProxyGroup
proxy_group_value group = record {
  mode = group.mode;
  match = group.match;
  nodes = group.nodes;
  selected_nodes = [];
  optional = group.optional;
  reason = group.reason;
  boundary = group.boundary;
}

abbrev pub policy_group_value : OverlayPolicyGroupIntent → PolicyGroup
policy_group_value group = record {
  mode = group.mode;
  exits = group.exits;
  reason = group.reason;
  boundary = group.boundary;
}

abbrev pub pack_value : OverlayPackIntent → Pack
pack_value pack = record {
  source = pack.source;
  pack = pack.pack;
  kind = pack.kind;
  target = pack.target;
  reason = pack.reason;
}

-- rules.PackKey
unfoldable pub pack_key : String → String → String
unfolding trim_space
pack_key source pack = trim_space source <> "/" <> trim_space pack

-- the parts of an intent that patches add to, with their indexes, and the provenance
pub record Merge : Type 0 where
  pub proxy_groups : Indexed ProxyGroup
  pub policy_groups : Indexed PolicyGroup
  pub packs : Listed Pack
  pub transport_rules : Listed TransportRule
  pub custom_rules : Listed CustomRule
  pub enabled_rule_packs : Listed RulePackSelection
  pub rule_providers : Listed ExternalRuleProvider
  pub provenance : Provenance

abbrev in_list : String → String → String
in_list name key = name <> "[" <> key <> "]"

module _ ⦃h : ObjectHash⦄ where
  unfoldable pub put_proxy_group :
      String
      → OverlayProxyGroupIntent
      → Indexed ProxyGroup × Provenance
      → Result PatchError (Indexed ProxyGroup × Provenance)
  unfolding trim_space put_map_object
  put_proxy_group patch_id group =
      let id = trim_space group.id in
      let value = proxy_group_value group in
      put_map_object (in_list "proxy_groups" id) patch_id id value
        (h.canonical_hash (a_proxy_group value))

  unfoldable pub put_policy_group :
      String
      → OverlayPolicyGroupIntent
      → Indexed PolicyGroup × Provenance
      → Result PatchError (Indexed PolicyGroup × Provenance)
  unfolding trim_space put_map_object
  put_policy_group patch_id group =
      let id = trim_space group.id in
      let value = policy_group_value group in
      put_map_object (in_list "policy_groups" id) patch_id id value
        (h.canonical_hash (a_policy_group value))

  unfoldable pub append_pack :
      String
      → OverlayPackIntent
      → Listed Pack × Provenance
      → Result PatchError (Listed Pack × Provenance)
  unfolding pack_key append_unique_object
  append_pack patch_id pack =
      let value = pack_value pack in
      let key = pack_key value.source value.pack in
      append_unique_object (in_list "packs" key) patch_id key value
        (h.canonical_hash (a_pack value))

  -- the loops over the lists whose elements go into the intent as they are
  unfoldable pub append_as {ℓ} :
      {T : Type ℓ}
      → String
      → String
      → (T → String)
      → (T → Object)
      → T
      → Listed T × Provenance
      → Result PatchError (Listed T × Provenance)
  unfolding trim_space append_unique_object
  append_as name patch_id id object value =
      let key = trim_space (id value) in
      append_unique_object (in_list name key) patch_id key value (h.canonical_hash (object value))

  -- the loops of `mergeOverlay` over the groups
  unfoldable pub merge_groups : Record → Merge → Result PatchError Merge
  unfolding put_proxy_group put_policy_group
  merge_groups r m =
      let overlay = r.patch.overlay in
      let patch_id = r.patch.patch_id in
      do
        (proxies, p₁) ←
            each (put_proxy_group patch_id) overlay.proxy_groups (m.proxy_groups, m.provenance)
        (policies, p₂) ←
            each (put_policy_group patch_id) overlay.policy_groups (m.policy_groups, p₁)
        ok record m { proxy_groups = proxies; policy_groups = policies; provenance = p₂ }

  -- the other loops of `mergeOverlay`
  unfoldable pub merge_lists : Record → Merge → Result PatchError Merge
  unfolding append_pack append_as
  merge_lists r m =
      let overlay = r.patch.overlay in
      let patch_id = r.patch.patch_id in
      do
        (packs, p₃) ← each (append_pack patch_id) overlay.packs (m.packs, m.provenance)
        (transports, p₄) ←
            each
              (append_as "transport_rules" patch_id (λ (x : TransportRule). x.id) a_transport_rule)
              overlay.transport_rules (m.transport_rules, p₃)
        (customs, p₅) ←
            each (append_as "custom_rules" patch_id (λ (x : CustomRule). x.id) a_custom_rule)
              overlay.custom_rules (m.custom_rules, p₄)
        (rule_packs, p₆) ←
            each
              (append_as "enabled_rule_packs" patch_id (λ (x : RulePackSelection). x.id)
                a_rule_pack)
              overlay.enabled_rule_packs (m.enabled_rule_packs, p₅)
        (providers, p₇) ←
            each
              (append_as "rule_providers" patch_id (λ (x : ExternalRuleProvider). x.id)
                a_rule_provider)
              overlay.rule_providers (m.rule_providers, p₆)
        ok record m {
          packs = packs;
          transport_rules = transports;
          custom_rules = customs;
          enabled_rule_packs = rule_packs;
          rule_providers = providers;
          provenance = p₇;
        }

  unfoldable pub merge_overlay : Record → Merge → Result PatchError Merge
  unfolding merge_groups merge_lists
  merge_overlay r m = merge_groups r m >>= λ m'. merge_lists r m'

  -- the loop over the sorted records
  unfoldable pub merge_enabled : List Record → Merge → Result PatchError Merge
  unfolding merge_overlay
  merge_enabled [] m = ok m
  merge_enabled (r ∷ records) m =
      if r.patch.status == status_enabled
      then (merge_overlay r m >>= λ m'. merge_enabled records m')
      else merge_enabled records m

-- the comparison that the records are sorted by
abbrev comes_before : Record → Record → Bool
unfolding text_lt
comes_before a b =
    if a.patch.order_id == b.patch.order_id
    then text_lt a.patch.patch_id b.patch.patch_id
    else text_lt a.patch.order_id b.patch.order_id

unfoldable pub insert_record : Record → List Record → List Record
unfolding comes_before
insert_record r [] = r ∷ []
insert_record r (s ∷ rest) =
    let later = insert_record r rest in if comes_before s r then s ∷ later else r ∷ s ∷ rest

unfoldable pub sort_records : List Record → List Record
unfolding insert_record
sort_records [] = []
sort_records (r ∷ records) = insert_record r (sort_records records)

abbrev pub no_merge : Merge
no_merge = record {
  proxy_groups = record { target = []; index = [] };
  policy_groups = record { target = []; index = [] };
  packs = record { target = []; index = [] };
  transport_rules = record { target = []; index = [] };
  custom_rules = record { target = []; index = [] };
  enabled_rule_packs = record { target = []; index = [] };
  rule_providers = record { target = []; index = [] };
  provenance = [];
}

-- `rules.TerminalDirect` is the fallback target
abbrev pub config_of : String → Merge → Config
config_of policy_template m = record {
  policy_template = policy_template;
  fallback_target = "DIRECT";
  proxy_groups = m.proxy_groups.target;
  policy_groups = m.policy_groups.target;
  transport_rules = m.transport_rules.target;
  custom_rules = m.custom_rules.target;
  enabled_rule_packs = m.enabled_rule_packs.target;
  rule_providers = m.rule_providers.target;
  packs = m.packs.target;
}

module _ ⦃u : Unicode⦄ ⦃h : ObjectHash⦄ where
  unfoldable pub compile_records : List Record → String → Result PatchError (Config × Provenance)
  unfolding validate_records sort_records merge_enabled trim_space
  compile_records records policy_template = do
    validate_records records
    m ← merge_enabled (sort_records records) no_merge
    ok (config_of (trim_space policy_template) m, m.provenance)

-- ===== src/Rules/Fragment.antt =====
-- internal/rules/model.go: `RenderFragment`, from a selection to a fragment of a Mihomo
-- configuration. Each loop over a part of the selection is a function of its own.
pub mod Grown
pub mod Closed
pub mod Members
use local_clash.Prelude.{
  ℕ, String, ◌<>◌, Bool, true, false, ◌&&◌, ◌||◌, not, List, [], ◌∷◌, ◌++◌, ◌==◌, Option, none,
  some, if◌then◌else◌, is_empty, Result, ok, err, ◌>>=◌, ◌>>◌, guard,
}
use local_clash.Prelude.Text.{Unicode, is_blank, trim_space, cut, equal_fold}
use local_clash.Prelude.Dict.{Dict, lookup, insert, keys}
use local_clash.Rules.Data.{
  Component, Pack, PackCache, SelectedPack, CustomRule, TransportRule, ExternalRuleProvider,
  Selection, Setting, Fragment, RenderError, text, no_pack_cache, pack_not_found,
  pack_not_renderable,
}
use local_clash.Rules.Line.{
  render_transport_rule, render_custom_rule_lines, render_external_rule_provider, provider_name,
}
use local_clash.Rules.Target.{
  PreparedTargets, TargetKind, Used, prepare_targets, render_target, mark_used_target,
}
use local_clash.Rules.Group.{materialize_policy_groups, materialize_proxy_groups, mark_all}

unfoldable pub find_pack : List Pack → String → Option Pack
find_pack [] id = none
find_pack (pack ∷ packs) id = if pack.id == id then some pack else find_pack packs id

-- `base@attr`
abbrev base_of : Option (String × String) → Option String
base_of none = none
base_of (some (base, attr)) =
    if is_blank (trim_space base) || is_blank (trim_space attr)
    then none
    else some (trim_space base)

unfoldable pub split_geo_site_selector : String → Option String
split_geo_site_selector selector = base_of (cut (trim_space selector) "@")

module _ ⦃u : Unicode⦄ where
  unfoldable pub is_dlc : Component → Bool
  is_dlc c = equal_fold c.behavior "v2fly-dlc"

  unfoldable pub all_dlc : List Component → Bool
  unfolding is_dlc
  all_dlc [] = true
  all_dlc (c ∷ cs) = is_dlc c && all_dlc cs

  unfoldable pub pack_is_geo_site : Pack → Bool
  unfolding all_dlc
  pack_is_geo_site pack = not (is_empty pack.components) && all_dlc pack.components

  only_geo_site : Option Pack → Option Pack
  only_geo_site none = none
  only_geo_site (some pack) = if pack_is_geo_site pack then some pack else none

  find_base : List Pack → Option String → Option Pack
  unfolding only_geo_site
  find_base packs none = none
  find_base packs (some base) = only_geo_site (find_pack packs base)

  first_found : Option Pack → Option Pack → Option Pack
  first_found (some pack) later = some pack
  first_found none later = later

  unfoldable pub find_pack_for_selector : List Pack → String → Option Pack
  unfolding find_base first_found
  find_pack_for_selector packs selector =
      first_found (find_pack packs selector) (find_base packs (split_geo_site_selector selector))

-- What `RenderFragment` has built so far.
pub record Draft : Type 0 where
  pub rules : List String
  pub providers : Dict (Dict Setting)
  pub used : Used

abbrev pub empty_draft : Draft
empty_draft = record { rules = []; providers = []; used = record { proxies = []; policies = [] } }

-- append(fragment.Rules, lines...)
unfoldable pub add_rules : List String → Draft → Draft
add_rules lines d = record d { rules = d.rules ++ lines }

unfoldable pub mark : String → TargetKind → Draft → Draft
mark target kind d = record d { used = mark_used_target target kind d.used }

unfoldable pub put_provider : String → Dict Setting → Draft → Draft
put_provider name settings d = record d { providers = insert name settings d.providers }

module _ ⦃u : Unicode⦄ (targets : PreparedTargets) where
  unfoldable pub add_transports : List TransportRule → Draft → Result RenderError Draft
  add_transports [] d = ok d
  add_transports (rule ∷ rest) d = do
    (target, kind) ← render_target rule.target targets
    line ← render_transport_rule rule target
    add_transports rest (add_rules (line ∷ []) (mark target kind d))

  unfoldable pub add_customs : List CustomRule → Draft → Result RenderError Draft
  add_customs [] d = ok d
  add_customs (custom ∷ rest) d = do
    (target, kind) ← render_target custom.target targets
    lines ← render_custom_rule_lines custom target
    add_customs rest (add_rules lines (mark target kind d))

unfoldable pub rule_set_line : String → String → String
rule_set_line provider target = "RULE-SET," <> provider <> "," <> target

unfoldable pub geo_site_line : String → String → String
geo_site_line pack target = "GEOSITE," <> pack <> "," <> target

unfoldable pub add_providers :
    PreparedTargets → List ExternalRuleProvider → Draft → Result RenderError Draft
add_providers targets [] d = ok d
add_providers targets (provider ∷ rest) d = do
  (target, kind) ← render_target provider.target targets
  rendered ← render_external_rule_provider provider
  add_providers targets rest (
      add_rules (rule_set_line provider.id target ∷ [])
        (put_provider provider.id rendered (mark target kind d)))

unfoldable pub component_settings : Component → Dict Setting
component_settings c =
    ("type", text "http")
    ∷ ("behavior", text c.behavior)
    ∷ ("format", text c.format)
    ∷ ("url", text c.url)
    ∷ ("path", text c.path)
    ∷ []

module _ ⦃u : Unicode⦄ where
  -- one round of the loop over a pack's components
  unfoldable pub add_component : SelectedPack → String → String → Component → Draft → Draft
  add_component enabled pack_id target c d =
      let name = provider_name enabled.source pack_id c.id in
      if is_dlc c
      then add_rules (geo_site_line enabled.pack target ∷ []) d
      else add_rules (rule_set_line name target ∷ []) (put_provider name (component_settings c) d)

  unfoldable pub add_components : SelectedPack → String → String → List Component → Draft → Draft
  add_components enabled pack_id target [] d = d
  add_components enabled pack_id target (c ∷ cs) d =
      add_components enabled pack_id target cs (add_component enabled pack_id target c d)

  unfoldable pub selected_pack : Dict PackCache → SelectedPack → Result RenderError Pack
  selected_pack caches enabled = elim (lookup enabled.source caches) [
    | none ↦ err (no_pack_cache enabled.source)
    | some cache ↦ elim (find_pack_for_selector cache.packs enabled.pack) [
      | none ↦ err (pack_not_found enabled.pack enabled.source)
      | some pack ↦
          if not pack.renderable && not (pack_is_geo_site pack)
          then err (pack_not_renderable enabled.pack enabled.source pack.reason)
          else ok pack
    ]
  ]

  unfoldable pub add_packs :
      PreparedTargets → Dict PackCache → List SelectedPack → Draft → Result RenderError Draft
  add_packs targets caches [] d = ok d
  add_packs targets caches (enabled ∷ rest) d = do
    pack ← selected_pack caches enabled
    (target, kind) ← render_target enabled.target targets
    add_packs targets caches rest
        (add_components enabled pack.id target pack.components (mark target kind d))

unfoldable pub add_required : PreparedTargets → List String → Draft → Result RenderError Draft
add_required targets [] d = ok d
add_required targets (required ∷ rest) d = do
  (target, kind) ← render_target required targets
  add_required targets rest (mark target kind d)

module _ ⦃u : Unicode⦄ where
  -- the loops over the parts of the selection
  unfoldable pub draft_rules :
      Selection → Dict PackCache → PreparedTargets → Result RenderError Draft
  draft_rules selection caches targets = do
    d ← add_transports targets selection.transport_rules empty_draft
    d ← add_customs targets selection.custom_rules d
    d ← add_providers targets selection.rule_providers d
    d ← add_packs targets caches selection.enabled_pack d
    add_required targets selection.required_targets d

  -- the groups of a draft, and the fragment
  unfoldable pub finish : PreparedTargets → Draft → Result RenderError Fragment
  finish targets d = do
    (policies, referenced) ← materialize_policy_groups d.used.policies targets
    (proxies, choices) ←
        materialize_proxy_groups (mark_all (keys referenced) d.used.proxies) targets
    ok (record {
      rule_providers = d.providers;
      proxy_groups = policies ++ proxies;
      rules = d.rules;
      base_manual_choices = choices;
    })

  unfoldable pub render_fragment :
      Selection → Dict PackCache → List String → Result RenderError Fragment
  render_fragment selection caches proxy_names = do
    targets ← prepare_targets selection proxy_names
    d ← draft_rules selection caches targets
    finish targets d

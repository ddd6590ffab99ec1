-- ===== src/Patch/Inventory.antt =====
-- internal/configpatch/patch.go: the listing of a registry, and the order ids of template patches.
pub mod Template
use local_clash.Prelude.{
  ℕ, suc, ◌+◌, ◌*◌, String, ◌==◌, ◌<>◌, Bool, true, false, not, ◌&&◌, List, [], ◌∷◌, ◌++◌, map,
  if◌then◌else◌,
}
use local_clash.Prelude.Text.{trim_space, text_lt, sort_strings}
use local_clash.LocalConfig.{
  OverlayIntent, OverlayPackIntent, OverlayProxyGroupIntent, OverlayPolicyGroupIntent,
  TransportRule, CustomRule, RulePackSelection, ExternalRuleProvider,
}
use local_clash.Patch.Data.{Patch, Record}
use local_clash.Patch.Registry.{status_tombstoned}
use local_clash.Patch.Compile.{pack_key}
use local_clash.Patch.OrderId.{padded}

pub record PatchSummary : Type 0 where
  pub patch_id : String
  pub title : String
  pub source : String
  pub status : String
  pub order_id : String
  pub summary : String
  pub sha256 : String
  pub path : String

-- without `Provides`
abbrev pub summary_for_record : Record → PatchSummary
summary_for_record r =
    let patch = r.patch in
    record {
      patch_id = patch.patch_id;
      title = patch.title;
      source = patch.source;
      status = patch.status;
      order_id = patch.order_id;
      summary = patch.summary;
      sha256 = r.sha256;
      path = r.path;
    }

abbrev named : String → String → String
unfolding trim_space
named kind id = kind <> "[" <> trim_space id <> "]"

unfoldable pub provides_for_overlay : OverlayIntent → List String
unfolding named pack_key trim_space sort_strings
provides_for_overlay overlay = sort_strings (
    map (λ (g : OverlayProxyGroupIntent). named "proxy_groups" g.id) overlay.proxy_groups
    ++ map (λ (g : OverlayPolicyGroupIntent). named "policy_groups" g.id) overlay.policy_groups
    ++ map
        (λ (p : OverlayPackIntent).
          "packs[" <> pack_key p.source p.pack <> " -> " <> trim_space p.target <> "]")
        overlay.packs
    ++ map (λ (r : TransportRule). named "transport_rules" r.id) overlay.transport_rules
    ++ map (λ (r : CustomRule). named "custom_rules" r.id) overlay.custom_rules
    ++ map (λ (p : RulePackSelection). named "enabled_rule_packs" p.id) overlay.enabled_rule_packs
    ++ map (λ (p : ExternalRuleProvider). named "rule_providers" p.id) overlay.rule_providers)

-- the comparison of `sortRecordsForInventory`: tombstoned patches come last
unfoldable pub inventory_less : Record → Record → Bool
unfolding text_lt
inventory_less a b =
    let gone_a = a.patch.status == status_tombstoned in
    let gone_b = b.patch.status == status_tombstoned in
    if gone_a && not gone_b
    then false
    else if not gone_a && gone_b
    then true
    else if a.patch.order_id == b.patch.order_id
    then text_lt a.patch.patch_id b.patch.patch_id
    else text_lt a.patch.order_id b.patch.order_id

unfoldable pub template_order_id : String → ℕ → String
unfolding padded
template_order_id id index =
    if id == "default.minimal.v1"
    then "0000.000000"
    else if id == "default.region-exits.v1"
    then "0100.000000"
    else if id == "default.direct-baseline.v1"
    then "0200.000000"
    else if id == "default.quic-main.v1"
    then "0300.000000"
    else if id == "default.communication-social.v1"
    then "0400.000000"
    else if id == "default.ai-dev-speedtest.v1"
    then "0500.000000"
    else if id == "default.steam.v1"
    then "0550.000000"
    else if id == "default.platform-media.v1"
    then "0600.000000"
    else if id == "default.games.v1"
    then "0700.000000"
    else if id == "default.tail-fallback.v1"
    then "0800.000000"
    else padded 4 10000 ((index + 1) * 100) ".000000"

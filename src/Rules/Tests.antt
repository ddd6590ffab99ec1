-- ===== src/Rules/Tests.antt =====
-- Runs of the rule renderer on a small selection, and the theorems at that selection.
use mathlib.Core.List.Perm
use local_clash.Prelude.{
  pos, String, ◌≡◌, refl, Bool, true, false, List, [], ◌∷◌, is_empty, ◌↔◌, ok,
}
use local_clash.Prelude.Text.{
  is_blank, trim_space, trim_char, to_lower, to_upper, decimal, cut, equal_fold, text_lt,
}
use local_clash.Prelude.Text.Ascii.{ascii}
use local_clash.Prelude.Dict.{Dict, lookup, insert, has_key, keys, elem}
use local_clash.Rules.Data.{
  Component, Pack, PackCache, ProxyGroup, PolicyGroup, CustomRule, TransportRule, Selection,
  Setting, Fragment, text, texts, number,
}
use local_clash.Rules.Line.{
  render_transport_rule, render_custom_rule_line, render_custom_rule_lines,
  render_external_rule_provider, provider_name, is_terminal_action,
}
use local_clash.Rules.Target.{
  PreparedTargets, mark_available, check_proxy_group, check_proxy_groups, check_policy_group,
  check_policy_groups, prepare_targets, render_target, mark_used_target,
}
use local_clash.Rules.Group.{
  display_sort_key, display_less, sort_names_by_display, candidate_proxies, proxy_group_at,
  policy_group_at, is_left_out, candidate_policy_exits, group_settings, build_proxy_groups,
  names_where, materialize_proxy_groups, mark_all, build_policy_groups, materialize_policy_groups,
}
use local_clash.Rules.Line.Grammar.{
  TransportAccepted, transport_line, CustomLines, render_transport_rule_iff,
  render_custom_rule_lines-CustomLines,
}
use local_clash.Rules.Target.Checked.{SelectionOk, selected_targets, prepare_targets_iff}
use local_clash.Rules.Group.Candidates.{distinct, candidate_proxies_lem}
use local_clash.Rules.Group.Order.{materialize_proxy_groups-Perm, materialize_policy_groups-Perm}
use local_clash.Rules.Fragment.Closed.{IsClosed, render_fragment-IsClosed}
use local_clash.Rules.Fragment.Members.{MembersOk, render_fragment-MembersOk}
use local_clash.Rules.Fragment.{
  find_pack, split_geo_site_selector, find_pack_for_selector, pack_is_geo_site, add_rules, mark,
  put_provider, add_transports, add_customs, add_providers, component_settings, add_component,
  add_components, selected_pack, add_packs, add_required, draft_rules, finish, render_fragment,
  rule_set_line, geo_site_line,
}

-- Everything that a run of the renderer computes with.
renderer : Unit {0}
unfolding trim_space trim_char to_lower to_upper decimal cut equal_fold text_lt lookup insert
    has_key keys render_transport_rule render_custom_rule_line render_custom_rule_lines
    render_external_rule_provider provider_name is_terminal_action check_proxy_group
    check_proxy_groups check_policy_group check_policy_groups prepare_targets mark_available
    render_target mark_used_target display_sort_key display_less sort_names_by_display
    candidate_proxies proxy_group_at policy_group_at is_left_out candidate_policy_exits
    group_settings build_proxy_groups names_where materialize_proxy_groups mark_all
    build_policy_groups materialize_policy_groups find_pack split_geo_site_selector
    find_pack_for_selector pack_is_geo_site add_rules mark put_provider add_transports add_customs
    add_providers component_settings add_component add_components selected_pack add_packs
    add_required draft_rules finish render_fragment rule_set_line geo_site_line
renderer = tt

abbrev node_group : List String → ProxyGroup
node_group nodes = record {
  nodes = nodes;
  auto = true;
  manual = false;
  smart = false;
  direct = false;
  optional = false;
}

abbrev media : PolicyGroup
media = record {
  exits = " HK " ∷ "DIRECT" ∷ "HK" ∷ "KR" ∷ [];
  auto = false;
  manual = true;
  smart = false;
}

abbrev selection : Selection
selection = record {
  version = pos 1;
  proxy_groups =
      ("HK", node_group ("hk-1" ∷ " hk-2 " ∷ "hk-1" ∷ []))
      ∷ ("KR", record (node_group []) { optional = true })
      ∷ [];
  policy_groups = ("Media", media) ∷ [];
  transport_rules =
      record { id = "quic"; target = "REJECT"; reason = ""; network = " udp"; dst_port = pos 443 }
      ∷ [];
  custom_rules =
      record {
        id = "lan";
        target = "DIRECT";
        reason = "";
        rules = record { kind = "IP_CIDR"; value = "10.0.0.0/8 "; no_resolve = true } ∷ [];
      }
      ∷ [];
  local_rule_packs = [];
  rule_providers = [];
  enabled_pack =
      record { source = "sukkaw"; pack = "stream"; target = "Media" }
      ∷ record { source = "v2fly"; pack = "google@cn"; target = "HK" }
      ∷ [];
  required_targets = "Media" ∷ [];
  fallback_target = "";
}

abbrev component : String → String → Component
component id behavior = record {
  id = id;
  behavior = behavior;
  format = "text";
  order_class = "";
  url = "https://example.org/list";
  path = "list.txt";
}

abbrev pack : String → Bool → Component → Pack
pack id renderable c = record {
  id = id;
  name = id;
  target = "";
  renderable = renderable;
  reason = "";
  components = c ∷ [];
}

abbrev cache : String → Pack → PackCache
cache source p = record {
  version = pos 1;
  source = source;
  adapter = source;
  renderable = true;
  packs = p ∷ [];
}

abbrev caches : Dict PackCache
caches =
    ("sukkaw", cache "sukkaw" (pack "stream" true (component "stream_ip" "ipcidr")))
    ∷ ("v2fly", cache "v2fly" (pack "google" false (component "google" "V2fly-DLC")))
    ∷ []

abbrev node_names : List String
node_names = "hk-1" ∷ "hk-2" ∷ []

abbrev provider : Dict Setting
provider =
    ("type", text "http")
    ∷ ("behavior", text "ipcidr")
    ∷ ("format", text "text")
    ∷ ("url", text "https://example.org/list")
    ∷ ("path", text "list.txt")
    ∷ []

abbrev fragment : Fragment
fragment = record {
  rule_providers = ("sukkaw_stream_stream_ip", provider) ∷ [];
  proxy_groups =
      (("name", text "Media")
        ∷ ("type", text "select")
        ∷ ("proxies", texts ("HK" ∷ "DIRECT" ∷ []))
        ∷ [])
      ∷ (("name", text "HK")
          ∷ ("type", text "url-test")
          ∷ ("proxies", texts ("hk-1" ∷ "hk-2" ∷ []))
          ∷ ("url", text "http://www.gstatic.com/generate_204")
          ∷ ("interval", number 300)
          ∷ [])
      ∷ [];
  rules =
      "AND,((NETWORK,UDP),(DST-PORT,443)),REJECT" ∷ "IP-CIDR,10.0.0.0/8,DIRECT,no-resolve"
      ∷ "RULE-SET,sukkaw_stream_stream_ip,Media" ∷ "GEOSITE,google@cn,HK" ∷ [];
  base_manual_choices = [];
}

rendered : render_fragment selection caches node_names ≡ ok fragment
unfolding renderer
rendered = refl

render_fragment-IsClosed_example : IsClosed selection fragment
render_fragment-IsClosed_example =
    render_fragment-IsClosed selection caches node_names fragment rendered

render_fragment-MembersOk_example : MembersOk node_names fragment
render_fragment-MembersOk_example =
    render_fragment-MembersOk selection caches node_names fragment rendered

abbrev targets : PreparedTargets
targets = selected_targets selection

prepare_targets_iff_example : (prepare_targets selection node_names ≡ ok targets) ↔ (
    SelectionOk selection node_names
    × (targets.proxy_groups ≡ selection.proxy_groups)
    × (targets.policy_groups ≡ selection.policy_groups))
prepare_targets_iff_example = prepare_targets_iff selection node_names targets

used_ab : Dict Bool
used_ab = ("HK", true) ∷ ("KR", true) ∷ []

used_ba : Dict Bool
used_ba = ("KR", true) ∷ ("HK", true) ∷ []

materialize_proxy_groups-Perm_example :
    materialize_proxy_groups used_ab targets ≡ materialize_proxy_groups used_ba targets
unfolding used_ab used_ba keys
materialize_proxy_groups-Perm_example =
    materialize_proxy_groups-Perm targets used_ab used_ba (Perm.swap "KR" "HK" [])

materialize_policy_groups-Perm_example :
    materialize_policy_groups used_ab targets ≡ materialize_policy_groups used_ba targets
unfolding used_ab used_ba keys
materialize_policy_groups-Perm_example =
    materialize_policy_groups-Perm targets used_ab used_ba (Perm.swap "KR" "HK" [])

abbrev quic : TransportRule
quic = record { id = "quic"; target = "HK"; reason = ""; network = " udp"; dst_port = pos 443 }

render_transport_rule_iff_example :
    (render_transport_rule quic "HK" ≡ ok "AND,((NETWORK,UDP),(DST-PORT,443)),HK") ↔ (
      TransportAccepted quic "HK"
      × ("AND,((NETWORK,UDP),(DST-PORT,443)),HK" ≡ transport_line 443 "HK"))
render_transport_rule_iff_example =
    render_transport_rule_iff quic "HK" "AND,((NETWORK,UDP),(DST-PORT,443)),HK"

abbrev lan : CustomRule
lan = record {
  id = "lan";
  target = "HK";
  reason = "";
  rules =
      record { kind = "domain"; value = "example.org"; no_resolve = false }
      ∷ record { kind = "IP_CIDR"; value = " 10.0.0.0/8"; no_resolve = true }
      ∷ [];
}

abbrev lan_lines : List String
lan_lines = "DOMAIN,example.org,HK" ∷ "IP-CIDR,10.0.0.0/8,HK,no-resolve" ∷ []

render_custom_rule_lines-CustomLines_example :
    (is_blank (trim_space lan.id) ≡ false)
    × (is_blank (trim_space "HK") ≡ false)
    × (is_empty lan.rules ≡ false)
    × CustomLines "HK" lan.rules lan_lines
unfolding renderer
render_custom_rule_lines-CustomLines_example =
    render_custom_rule_lines-CustomLines lan "HK" lan_lines refl

candidate_proxies_lem_example :
    (elem "hk-2" (candidate_proxies (node_group ("hk-1" ∷ " hk-2 " ∷ "hk-1" ∷ []))) ≡ true)
    × (distinct (candidate_proxies (node_group ("hk-1" ∷ " hk-2 " ∷ "hk-1" ∷ []))) ≡ true)
unfolding elem trim_space
candidate_proxies_lem_example =
    candidate_proxies_lem "hk-2" (node_group ("hk-1" ∷ " hk-2 " ∷ "hk-1" ∷ []))

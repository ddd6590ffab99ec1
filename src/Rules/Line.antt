-- ===== src/Rules/Line.antt =====
-- internal/rules/model.go: the text of one rule and the settings of one rule provider.
pub mod Grammar
use local_clash.Prelude.{
  ℕ, ℤ, pos, is_positive, magnitude, String, ◌<>◌, Bool, true, false, ◌&&◌, ◌||◌, not, List, [],
  ◌∷◌, ◌++◌, ◌==◌, ltb, if◌then◌else◌, is_empty, Result, ok, err, ◌>>=◌, ◌>>◌, guard,
}
use local_clash.Prelude.Text.{Unicode, is_blank, trim_space, trim_char, to_lower, to_upper, decimal}
use local_clash.Prelude.Dict.{Dict}
use local_clash.Rules.Data.{
  CustomRuleLine, CustomRule, TransportRule, ExternalRuleProvider, Setting, RenderError, text,
  number, transport_without_id, transport_without_target, transport_without_network,
  transport_bad_port, transport_bad_network, custom_without_id, custom_without_target,
  custom_without_rules, custom_empty_value, custom_bad_type, provider_without_id,
  provider_incomplete,
}

abbrev pub terminal_direct : String
terminal_direct = "DIRECT"

abbrev pub terminal_reject : String
terminal_reject = "REJECT"

unfoldable pub is_terminal_action : String → Bool
is_terminal_action target =
    let t = trim_space target in t == terminal_direct || t == terminal_reject

abbrev pub max_port : ℕ
max_port = 65535

module _ ⦃u : Unicode⦄ where
  unfoldable pub render_transport_rule : TransportRule → String → Result RenderError String
  render_transport_rule rule target =
      let id = trim_space rule.id in
      let network = to_upper (trim_space rule.network) in
      do
        guard (not (is_blank id)) transport_without_id
        guard (not (is_blank (trim_space target))) (transport_without_target id)
        guard (not (is_blank network)) (transport_without_network id)
        guard (network == "UDP") (transport_bad_network id rule.network)
        guard (is_positive rule.dst_port && not (ltb max_port (magnitude rule.dst_port)))
            (transport_bad_port id)
        ok (
            "AND,((NETWORK,"
            <> network
            <> "),(DST-PORT,"
            <> decimal (magnitude rule.dst_port)
            <> ")),"
            <> target)

  -- the `switch` on the rule's type
  unfoldable pub rule_kind : String → String → String → Result RenderError String
  rule_kind id raw kind =
      if kind == "domain"
      then ok "DOMAIN"
      else if kind == "domain_suffix"
      then ok "DOMAIN-SUFFIX"
      else if kind == "domain_regex"
      then ok "DOMAIN-REGEX"
      else if kind == "ip_cidr"
      then ok "IP-CIDR"
      else if kind == "ip_cidr6"
      then ok "IP-CIDR6"
      else if kind == "geoip"
      then ok "GEOIP"
      else err (custom_bad_type id raw)

  unfoldable pub render_custom_rule_line :
      String → CustomRuleLine → String → Result RenderError String
  unfolding rule_kind
  render_custom_rule_line id rule target =
      let value = trim_space rule.value in
      do
        guard (not (is_blank value)) (custom_empty_value id)
        kind ← rule_kind id rule.kind (to_lower (trim_space rule.kind))
        ok (
            kind
            <> ","
            <> value
            <> ","
            <> target
            <> (if rule.no_resolve then ",no-resolve" else ""))

  unfoldable pub render_lines :
      String → String → List CustomRuleLine → Result RenderError (List String)
  render_lines id target [] = ok []
  render_lines id target (rule ∷ rules) = do
    line ← render_custom_rule_line id rule target
    lines ← render_lines id target rules
    ok (line ∷ lines)

  unfoldable pub render_custom_rule_lines : CustomRule → String → Result RenderError (List String)
  unfolding render_lines
  render_custom_rule_lines custom target =
      let id = trim_space custom.id in
      do
        guard (not (is_blank id)) custom_without_id
        guard (not (is_blank (trim_space target))) (custom_without_target id)
        guard (not (is_empty custom.rules)) (custom_without_rules id)
        render_lines id target custom.rules

abbrev url_setting : String → Dict Setting
url_setting url = if is_blank url then [] else ("url", text url) ∷ []

abbrev interval_setting : ℤ → Dict Setting
interval_setting n = if is_positive n then ("interval", number (magnitude n)) ∷ [] else []

unfoldable pub render_external_rule_provider :
    ExternalRuleProvider → Result RenderError (Dict Setting)
render_external_rule_provider provider =
    let id = trim_space provider.id in
    let kind = trim_space provider.kind in
    let behavior = trim_space provider.behavior in
    let format = trim_space provider.format in
    let path = trim_space provider.path in
    do
      guard (not (is_blank id)) provider_without_id
      guard (not (is_blank kind || is_blank behavior || is_blank format || is_blank path))
          (provider_incomplete id)
      ok (
          ("type", text kind)
          ∷ ("behavior", text behavior)
          ∷ ("format", text format)
          ∷ ("path", text path)
          ∷ (url_setting (trim_space provider.url) ++ interval_setting provider.interval))

-- the key of a pack's component under `rule-providers`
unfoldable pub provider_name : String → String → String → String
provider_name source pack component =
    let raw = trim_space source <> "_" <> trim_space pack in
    let full =
      if is_blank component || component == pack then raw else raw <> "_" <> trim_space component in
    trim_char b'_' full

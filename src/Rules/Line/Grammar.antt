-- ===== src/Rules/Line/Grammar.antt =====
-- What the rule renderers of internal/rules/model.go accept, and the text that they produce.
use local_clash.Prelude.{
  ℕ, ◌≤◌, String, ◌<>◌, ◌≡◌, ◌⊎◌, ◌↔◌, true, false, not, List, [], ◌∷◌, eq_iff, arith, is_positive,
  magnitude, if◌then◌else◌, is_empty, ap, subst, ok, >>=-eq-ok, guard-eq-ok, ok_inj,
}
use local_clash.Prelude.Text.{Unicode, is_blank, trim_space, to_upper, to_lower, decimal}
use local_clash.Rules.Data.{CustomRuleLine, CustomRule, TransportRule}
use local_clash.Rules.Line.{
  max_port, render_transport_rule, rule_kind, render_custom_rule_line, render_lines,
  render_custom_rule_lines,
}

-- The six types of custom rules, in small letters, with the kind that the configuration has.
abbrev pub IsRuleKind : String → String → Type 0
IsRuleKind given k =
    ((given ≡ "domain") × (k ≡ "DOMAIN"))
    ⊎ ((given ≡ "domain_suffix") × (k ≡ "DOMAIN-SUFFIX"))
    ⊎ ((given ≡ "domain_regex") × (k ≡ "DOMAIN-REGEX"))
    ⊎ ((given ≡ "ip_cidr") × (k ≡ "IP-CIDR"))
    ⊎ ((given ≡ "ip_cidr6") × (k ≡ "IP-CIDR6"))
    ⊎ ((given ≡ "geoip") × (k ≡ "GEOIP"))

abbrev pub transport_line : ℕ → String → String
transport_line port target =
    "AND,((NETWORK," <> "UDP" <> "),(DST-PORT," <> decimal port <> "))," <> target

module _ ⦃u : Unicode⦄ where
  -- A rendered custom rule: the kind of its type, its trimmed value and the target, with or without
  -- `no-resolve`.
  pub record CustomLine (rule : CustomRuleLine) (target line : String) : Type 0 where
    pub kind : String
    pub known : IsRuleKind (to_lower (trim_space rule.kind)) kind
    pub value_given : is_blank (trim_space rule.value) ≡ false
    pub text :
        line
        ≡ kind
          <> ","
          <> trim_space rule.value
          <> ","
          <> target
          <> (if rule.no_resolve then ",no-resolve" else "")

  -- Line by line, the rendered custom rules.
  abbrev pub CustomLines : String → List CustomRuleLine → List String → Type 0
  CustomLines target [] [] = Unit
  CustomLines target [] (line ∷ lines) = ⊥
  CustomLines target (rule ∷ rules) [] = ⊥
  CustomLines target (rule ∷ rules) (line ∷ lines) =
      CustomLine rule target line × CustomLines target rules lines

  pub record TransportAccepted (rule : TransportRule) (target : String) : Type 0 where
    pub has_id : is_blank (trim_space rule.id) ≡ false
    pub has_target : is_blank (trim_space target) ≡ false
    pub is_udp : to_upper (trim_space rule.network) ≡ "UDP"
    pub port_min : is_positive rule.dst_port ≡ true
    pub port_max : magnitude rule.dst_port ≤ max_port

  pub transport_accepted :
      (rule : TransportRule) (target line : String)
      → render_transport_rule rule target ≡ ok line
      → TransportAccepted rule target × (line ≡ transport_line (magnitude rule.dst_port) target)
  unfolding render_transport_rule
  transport_accepted rule target line h =
      ground (arith, eq_iff (to_upper (trim_space rule.network)) "UDP")

  transport_renders :
      (rule : TransportRule) (target : String)
      → TransportAccepted rule target
      → render_transport_rule rule target ≡ ok (transport_line (magnitude rule.dst_port) target)
  unfolding render_transport_rule
  transport_renders rule target h =
      ground (arith, eq_iff (to_upper (trim_space rule.network)) "UDP", ap is_blank h.is_udp)

  -- A transport rule is rendered exactly when it has an id and a target, its network is UDP in any
  -- case, and its port lies in 1..65535; the line then names the port and ends in the target.
  pub render_transport_rule_iff :
      (rule : TransportRule) (target line : String)
      → (render_transport_rule rule target ≡ ok line)
        ↔ (TransportAccepted rule target × (line ≡ transport_line (magnitude rule.dst_port) target))
  render_transport_rule_iff rule target line =
      (transport_accepted rule target line, λ h. rw h.1 (transport_renders rule target h.0))

  rule_kind-IsRuleKind : (id raw kind k : String) → rule_kind id raw kind ≡ ok k → IsRuleKind kind k
  unfolding rule_kind
  rule_kind-IsRuleKind id raw kind k h = ground (
    arith,
    eq_iff kind "domain",
    eq_iff kind "domain_suffix",
    eq_iff kind "domain_regex",
    eq_iff kind "ip_cidr",
    eq_iff kind "ip_cidr6",
    eq_iff kind "geoip",
  )

  -- A custom rule line that renders has one of the six types, in any case, and a value that is not
  -- blank, and its text is the kind of that type, trimmed value, target and the `no-resolve` mark, in this order.
  pub render_custom_rule_line-CustomLine :
      (id target line : String) (rule : CustomRuleLine)
      → render_custom_rule_line id rule target ≡ ok line
      → CustomLine rule target line
  unfolding render_custom_rule_line
  render_custom_rule_line-CustomLine id target line rule h =
      let (value_ok, rest) = guard-eq-ok (not (is_blank (trim_space rule.value))) _ _ h in
      let (kind, found, done) =
        >>=-eq-ok (rule_kind id rule.kind (to_lower (trim_space rule.kind))) _ rest in
      record {
        kind = kind;
        known = rule_kind-IsRuleKind id rule.kind (to_lower (trim_space rule.kind)) kind found;
        value_given = ground arith;
        text = ground arith;
      }

  render_lines-CustomLines :
      (id target : String) (rules : List CustomRuleLine) (lines : List String)
      → render_lines id target rules ≡ ok lines
      → CustomLines target rules lines
  unfolding render_lines
  render_lines-CustomLines id target [] [] h = tt
  render_lines-CustomLines id target [] (line ∷ lines) h = cc
  render_lines-CustomLines id target (rule ∷ rules) lines h =
      let (first, one, more) = >>=-eq-ok (render_custom_rule_line id rule target) _ h in
      let (rest, many, done) = >>=-eq-ok (render_lines id target rules) _ more in
      subst (CustomLines target (rule ∷ rules)) (ok_inj done) (
        render_custom_rule_line-CustomLine id target first rule one,
        render_lines-CustomLines id target rules rest many,
      )

  -- A custom rule that renders has an id, a target and at least one rule, and gives one line for
  -- each of its rules, in order. A rule has one of the six types and a value that is not blank, and
  -- its line is the kind of that type, the trimmed value, the target and the `no-resolve` mark.
  pub render_custom_rule_lines-CustomLines :
      (custom : CustomRule) (target : String) (lines : List String)
      → render_custom_rule_lines custom target ≡ ok lines
      → (is_blank (trim_space custom.id) ≡ false)
        × (is_blank (trim_space target) ≡ false)
        × (is_empty custom.rules ≡ false)
        × CustomLines target custom.rules lines
  unfolding render_custom_rule_lines
  render_custom_rule_lines-CustomLines custom target lines h =
      let (a, h₁) = guard-eq-ok (not (is_blank (trim_space custom.id))) _ _ h in
      let (b, h₂) = guard-eq-ok (not (is_blank (trim_space target))) _ _ h₁ in
      let (c, h₃) = guard-eq-ok (not (is_empty custom.rules)) _ _ h₂ in
      (
        ground arith,
        ground arith,
        ground arith,
        render_lines-CustomLines (trim_space custom.id) target custom.rules lines h₃,
      )

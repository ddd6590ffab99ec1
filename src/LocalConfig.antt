-- ===== src/LocalConfig.antt =====
-- internal/localconfig/config.go: the data of localclash-intent.json, and the overlay of a patch
-- (internal/configplan/plan.go), which is made of the same parts.
use local_clash.Prelude.{ℤ, String, Bool, List, Option}
use local_clash.Prelude.Dict.{Dict}

pub record Match : Type 0 where
  pub kind : String
  pub pattern : String
  pub source_ids : List String
  pub min : ℤ
  pub max : ℤ
  pub case_sensitive : Bool

pub record ProxyGroup : Type 0 where
  pub mode : String
  pub match : Option Match
  pub nodes : List String
  pub selected_nodes : List String
  pub optional : Bool
  pub reason : String
  pub boundary : String

pub record PolicyGroup : Type 0 where
  pub mode : String
  pub exits : List String
  pub reason : String
  pub boundary : String

pub record TransportRule : Type 0 where
  pub id : String
  pub target : String
  pub reason : String
  pub network : String
  pub dst_port : ℤ

pub record Pack : Type 0 where
  pub source : String
  pub pack : String
  pub kind : String
  pub target : String
  pub reason : String

pub record CustomRuleLine : Type 0 where
  pub kind : String
  pub value : String
  pub no_resolve : Bool

pub record CustomRule : Type 0 where
  pub id : String
  pub target : String
  pub reason : String
  pub rules : List CustomRuleLine

pub record RulePackSelection : Type 0 where
  pub id : String
  pub target : String
  pub reason : String

pub record ExternalRuleProvider : Type 0 where
  pub id : String
  pub target : String
  pub reason : String
  pub kind : String
  pub behavior : String
  pub format : String
  pub path : String
  pub url : String
  pub interval : ℤ

-- `Config` without the metadata of its generation
pub record Config : Type 0 where
  pub policy_template : String
  pub fallback_target : String
  pub proxy_groups : Dict ProxyGroup
  pub policy_groups : Dict PolicyGroup
  pub transport_rules : List TransportRule
  pub custom_rules : List CustomRule
  pub enabled_rule_packs : List RulePackSelection
  pub rule_providers : List ExternalRuleProvider
  pub packs : List Pack

pub record OverlayPackIntent : Type 0 where
  pub source : String
  pub pack : String
  pub kind : String
  pub target : String
  pub reason : String

pub record OverlayProxyGroupIntent : Type 0 where
  pub id : String
  pub nodes : List String
  pub match : Option Match
  pub mode : String
  pub optional : Bool
  pub reason : String
  pub boundary : String

pub record OverlayPolicyGroupIntent : Type 0 where
  pub id : String
  pub mode : String
  pub exits : List String
  pub reason : String
  pub boundary : String

pub record OverlayIntent : Type 0 where
  pub packs : List OverlayPackIntent
  pub transport_rules : List TransportRule
  pub custom_rules : List CustomRule
  pub enabled_rule_packs : List RulePackSelection
  pub rule_providers : List ExternalRuleProvider
  pub proxy_groups : List OverlayProxyGroupIntent
  pub policy_groups : List OverlayPolicyGroupIntent

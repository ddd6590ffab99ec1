-- ===== src/Rules/Data.antt =====
-- internal/rules/model.go: the data of a selection and of a rendered fragment.
-- `map[string]any` with the values that this package writes is `Dict Setting`.
use local_clash.Prelude.{ℕ, ℤ, String, Bool, List}
use local_clash.Prelude.Dict.{Dict}

pub record Component : Type 0 where
  pub id : String
  pub behavior : String
  pub format : String
  pub order_class : String
  pub url : String
  pub path : String

pub record Pack : Type 0 where
  pub id : String
  pub name : String
  pub target : String
  pub renderable : Bool
  pub reason : String
  pub components : List Component

pub record PackCache : Type 0 where
  pub version : ℤ
  pub source : String
  pub adapter : String
  pub renderable : Bool
  pub packs : List Pack

pub record ProxyGroup : Type 0 where
  pub nodes : List String
  pub auto : Bool
  pub manual : Bool
  pub smart : Bool
  pub direct : Bool
  pub optional : Bool

pub record PolicyGroup : Type 0 where
  pub exits : List String
  pub auto : Bool
  pub manual : Bool
  pub smart : Bool

pub record SelectedPack : Type 0 where
  pub source : String
  pub pack : String
  pub target : String

pub record SelectedLocalRulePack : Type 0 where
  pub id : String
  pub name : String
  pub target : String
  pub reason : String
  pub rule_count : ℤ

pub record CustomRuleLine : Type 0 where
  pub kind : String
  pub value : String
  pub no_resolve : Bool

pub record CustomRule : Type 0 where
  pub id : String
  pub target : String
  pub reason : String
  pub rules : List CustomRuleLine

pub record TransportRule : Type 0 where
  pub id : String
  pub target : String
  pub reason : String
  pub network : String
  pub dst_port : ℤ

pub record ExternalRuleProvider : Type 0 where
  pub id : String
  pub target : String
  pub reason : String
  pub kind : String
  pub behavior : String
  pub format : String
  pub path : String
  pub url : String
  pub interval : ℤ

pub record Selection : Type 0 where
  pub version : ℤ
  pub proxy_groups : Dict ProxyGroup
  pub policy_groups : Dict PolicyGroup
  pub transport_rules : List TransportRule
  pub custom_rules : List CustomRule
  pub local_rule_packs : List SelectedLocalRulePack
  pub rule_providers : List ExternalRuleProvider
  pub enabled_pack : List SelectedPack
  pub required_targets : List String
  pub fallback_target : String

-- a value of a `map[string]any` of this package
pub data Setting : Type 0 where
  text : String → Setting
  texts : List String → Setting
  number : ℕ → Setting
  flag : Bool → Setting

pub record Fragment : Type 0 where
  pub rule_providers : Dict (Dict Setting)
  pub proxy_groups : List (Dict Setting)
  pub rules : List String
  pub base_manual_choices : List String

-- One constructor for each error message; the arguments are those of the message.
pub data RenderError : Type 0 where
  group_without_nodes group_many_modes group_without_choices : String → RenderError
  group_direct_with_mode group_empty_node : String → RenderError
  group_unknown_node : String → String → RenderError
  policy_conflict policy_without_exits policy_many_modes policy_without_choices :
      String → RenderError
  policy_empty_exit : String → RenderError
  policy_unknown_exit : String → String → RenderError
  unknown_target : String → RenderError
  transport_without_id : RenderError
  transport_without_target transport_without_network transport_bad_port : String → RenderError
  transport_bad_network : String → String → RenderError
  custom_without_id : RenderError
  custom_without_target custom_without_rules custom_empty_value : String → RenderError
  custom_bad_type : String → String → RenderError
  provider_without_id : RenderError
  provider_incomplete : String → RenderError
  no_pack_cache : String → RenderError
  pack_not_found : String → String → RenderError
  pack_not_renderable : String → String → String → RenderError
  group_without_candidates policy_without_candidates : String → RenderError
  in_policy : String → RenderError → RenderError

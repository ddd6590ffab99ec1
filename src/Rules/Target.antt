-- ===== src/Rules/Target.antt =====
-- internal/rules/model.go: the checks on a selection's groups, and the resolution of a target.
pub mod Checked
use local_clash.Prelude.{
  ℕ, suc, zero, ◌+◌, String, Bool, true, false, ◌&&◌, ◌||◌, not, List, [], ◌∷◌, ◌==◌, Option, none,
  some, ltb, nat_eq, if◌then◌else◌, is_empty, Result, ok, err, ◌>>=◌, ◌>>◌, guard,
}
use local_clash.Prelude.Text.{is_blank, trim_space}
use local_clash.Prelude.Dict.{Dict, lookup, insert, has_key}
use local_clash.Rules.Data.{
  ProxyGroup, PolicyGroup, Selection, RenderError, group_without_nodes, group_many_modes,
  group_without_choices, group_direct_with_mode, group_empty_node, group_unknown_node,
  policy_conflict, policy_without_exits, policy_many_modes, policy_without_choices,
  policy_empty_exit, policy_unknown_exit, unknown_target,
}
use local_clash.Rules.Line.{is_terminal_action}

pub record PreparedTargets : Type 0 where
  pub proxy_groups : Dict ProxyGroup
  pub policy_groups : Dict PolicyGroup

pub data TargetKind : Type 0 where
  terminal proxy_group policy_group : TargetKind

abbrev bit : Bool → ℕ
bit true = 1
bit false = 0

-- the loop that counts the enabled modes
unfoldable pub enabled_modes : Bool → Bool → Bool → ℕ
enabled_modes auto manual smart = bit auto + bit manual + bit smart

-- available[name] = true
unfoldable pub mark_available : List String → Dict Bool → Dict Bool
mark_available [] available = available
mark_available (name ∷ names) available = mark_available names (insert name true available)

-- the loop over a group's nodes; `seen` holds the names that were checked
unfoldable pub check_nodes :
    Dict Bool → String → List String → Dict Bool → Result RenderError (Unit {0})
check_nodes available group [] seen = ok tt
check_nodes available group (raw ∷ nodes) seen =
    let node = trim_space raw in
    let old = has_key node seen in
    let rest = check_nodes available group nodes (if old then seen else insert node true seen) in
    if is_blank node
    then err (group_empty_node group)
    else if old || has_key node available
    then rest
    else err (group_unknown_node group node)

unfoldable pub check_proxy_group : Dict Bool → String → ProxyGroup → Result RenderError (Unit {0})
unfolding check_nodes enabled_modes
check_proxy_group available name g =
    let modes = enabled_modes g.auto g.manual g.smart in
    do
      guard (not (is_empty g.nodes && not g.direct && not g.optional)) (group_without_nodes name)
      guard (not (ltb 1 modes)) (group_many_modes name)
      guard (not (nat_eq modes 0 && not g.direct)) (group_without_choices name)
      guard (not (g.direct && (g.auto || g.smart))) (group_direct_with_mode name)
      check_nodes available name g.nodes []

unfoldable pub check_proxy_groups : Dict Bool → Dict ProxyGroup → Result RenderError (Unit {0})
check_proxy_groups available [] = ok tt
check_proxy_groups available ((name, g) ∷ groups) = do
  check_proxy_group available name g
  check_proxy_groups available groups

-- the loop over a policy group's exits
unfoldable pub check_exits :
    Dict ProxyGroup → String → List String → Dict Bool → Result RenderError (Unit {0})
check_exits proxies group [] seen = ok tt
check_exits proxies group (raw ∷ exits) seen =
    let exit = trim_space raw in
    let old = has_key exit seen in
    let rest = check_exits proxies group exits (if old then seen else insert exit true seen) in
    if is_blank exit
    then err (policy_empty_exit group)
    else if old || is_terminal_action exit || has_key exit proxies
    then rest
    else err (policy_unknown_exit group exit)

unfoldable pub check_policy_group :
    Dict ProxyGroup → String → PolicyGroup → Result RenderError (Unit {0})
unfolding check_exits enabled_modes
check_policy_group proxies name g =
    let modes = enabled_modes g.auto g.manual g.smart in
    do
      guard (not (has_key name proxies)) (policy_conflict name)
      guard (not (is_empty g.exits)) (policy_without_exits name)
      guard (not (ltb 1 modes)) (policy_many_modes name)
      guard (not (nat_eq modes 0)) (policy_without_choices name)
      check_exits proxies name g.exits []

unfoldable pub check_policy_groups :
    Dict ProxyGroup → Dict PolicyGroup → Result RenderError (Unit {0})
check_policy_groups proxies [] = ok tt
check_policy_groups proxies ((name, g) ∷ groups) = do
  check_policy_group proxies name g
  check_policy_groups proxies groups

unfoldable pub prepare_targets : Selection → List String → Result RenderError PreparedTargets
prepare_targets selection proxy_names = do
  check_proxy_groups (mark_available proxy_names []) selection.proxy_groups
  check_policy_groups selection.proxy_groups selection.policy_groups
  ok (record { proxy_groups = selection.proxy_groups; policy_groups = selection.policy_groups })

unfoldable pub render_target : String → PreparedTargets → Result RenderError (String × TargetKind)
render_target target targets =
    let trimmed = trim_space target in
    if is_terminal_action trimmed
    then ok (trimmed, terminal)
    else if has_key trimmed targets.proxy_groups
    then ok (trimmed, proxy_group)
    else if has_key trimmed targets.policy_groups
    then ok (trimmed, policy_group)
    else err (unknown_target target)

-- The sets of proxy groups and of policy groups that rules refer to.
pub record Used : Type 0 where
  pub proxies : Dict Bool
  pub policies : Dict Bool

unfoldable pub mark_used_target : String → TargetKind → Used → Used
mark_used_target target proxy_group used = record used { proxies = insert target true used.proxies }
mark_used_target target policy_group used = record used {
  policies = insert target true used.policies;
}
mark_used_target target terminal used = used

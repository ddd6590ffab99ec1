-- ===== src/Rules/Fragment/Closed.antt =====
-- `RenderFragment` renders a closed fragment: its rules name only what it defines.
use local_clash.Prelude.{
  String, ◌≡◌, sym, ◌⊎◌, true, List, [], ◌∷◌, arith, All, ok, >>=-eq-ok, subst,
}
use local_clash.Prelude.Text.{Unicode}
use local_clash.Prelude.Dict.{Dict, keys}
use local_clash.Rules.Data.{PackCache, Selection, Fragment}
use local_clash.Rules.Target.{PreparedTargets, prepare_targets}
use local_clash.Rules.Target.Checked.{selected_targets, prepared_targets}
use local_clash.Rules.Group.{
  is_left_out, proxy_group_at, materialize_proxy_groups, materialize_policy_groups, mark_all,
}
use local_clash.Rules.Group.Rendered.{
  has_group, has_group-append, has_key-mark_all, materialize_proxy_groups-has,
  materialize_policy_groups-has,
}
use local_clash.Rules.Fragment.{Draft, draft_rules, finish, render_fragment}
use local_clash.Rules.Fragment.Grown.{
  RuleForm, RuleForm-mono, IsDefined, IsMarked, RuleOk, draft_rules-DraftOk,
}

-- What a rule of a fragment may name as its target: a terminal action, a group of the fragment, or
-- an optional proxy group of the selection that was left out because it has no candidates.
abbrev pub TargetOk : PreparedTargets → Fragment → String → Type 0
TargetOk targets fragment t =
    (t ≡ "DIRECT")
    ⊎ (t ≡ "REJECT")
    ⊎ (has_group t fragment.proxy_groups ≡ true)
    ⊎ (is_left_out (proxy_group_at targets t) ≡ true)

abbrev pub IsClosed : ⦃u : Unicode⦄ → Selection → Fragment → Type 0
IsClosed selection fragment =
    All
      (RuleForm (IsDefined fragment.rule_providers)
        (TargetOk (selected_targets selection) fragment))
      fragment.rules

module _ ⦃u : Unicode⦄ (targets : PreparedTargets) (d : Draft) (fragment : Fragment)
    (done : finish targets d ≡ ok fragment) where
  marked-TargetOk : (t : String) → IsMarked targets d.used t → TargetOk targets fragment t
  unfolding finish
  marked-TargetOk t m =
      let (policies, made, e₁) =
        >>=-eq-ok (materialize_policy_groups d.used.policies targets) _ done in
      let used = mark_all (keys policies.1) d.used.proxies in
      let (proxies, built, e₂) = >>=-eq-ok (materialize_proxy_groups used targets) _ e₁ in
      ground (
        arith,
        has_group-append t policies.0 proxies.0,
        has_key-mark_all t (keys policies.1) d.used.proxies,
        materialize_policy_groups-has targets d.used.policies policies.1 policies.0 t made,
        materialize_proxy_groups-has targets used proxies.1 proxies.0 t built,
      )

  finish_keeps : (fragment.rules ≡ d.rules) × (fragment.rule_providers ≡ d.providers)
  unfolding finish
  finish_keeps =
      let (policies, made, e₁) =
        >>=-eq-ok (materialize_policy_groups d.used.policies targets) _ done in
      let (proxies, built, e₂) =
        >>=-eq-ok (materialize_proxy_groups (mark_all (keys policies.1) d.used.proxies) targets) _
          e₁ in
      (ground arith, ground arith)

  closed_lines :
      (lines : List String)
      → All (RuleOk targets d) lines
      → All (RuleForm (IsDefined fragment.rule_providers) (TargetOk targets fragment)) lines
  closed_lines [] h = tt
  closed_lines (line ∷ lines) h = (
    RuleForm-mono (IsDefined d.providers) (IsDefined fragment.rule_providers)
        (IsMarked targets d.used) (TargetOk targets fragment) line (λ p k. rw (finish_keeps.1) k)
        marked-TargetOk h.0,
    closed_lines lines h.1,
  )

module _ ⦃u : Unicode⦄ where
  -- Every rule of a rendered fragment has one of the four forms (UDP transport rule, custom rule,
  -- rule set, geosite), a rule set names a provider that the fragment defines, and the rule's target
  -- is DIRECT, REJECT, a group that the fragment defines, or an optional proxy group of the selection
  -- that has no candidates.
  pub render_fragment-IsClosed :
      (selection : Selection) (caches : Dict PackCache) (names : List String) (fragment : Fragment)
      → render_fragment selection caches names ≡ ok fragment
      → IsClosed selection fragment
  unfolding render_fragment
  render_fragment-IsClosed selection caches names fragment h =
      let (targets, prepared, h₁) = >>=-eq-ok (prepare_targets selection names) _ h in
      let (d, drafted, h₂) = >>=-eq-ok (draft_rules selection caches targets) _ h₁ in
      subst
        (λ t.
          All (RuleForm (IsDefined fragment.rule_providers) (TargetOk t fragment)) fragment.rules)
        (prepared_targets selection names targets prepared)
        (closed_lines targets d fragment h₂ fragment.rules (
          subst (All (RuleOk targets d)) (sym (finish_keeps targets d fragment h₂).0)
            (draft_rules-DraftOk targets selection caches d drafted)))

-- ===== src/Rules/Fragment/Members.antt =====
-- The members of the groups of a rendered fragment.
use local_clash.Prelude.{
  String, ◌≡◌, sym, subst, ◌⊎◌, inl, inr, Bool, true, not, List, [], ◌∷◌, ◌++◌, arith, All, All-map,
  All-append, Option-cases, is_empty, Result, ok, err, >>=-eq-ok, guard-eq-ok, ok_inj,
}
use local_clash.Prelude.Text.{Unicode}
use local_clash.Prelude.Dict.{Dict, lookup, keys, elem, elem-keys}
use local_clash.Rules.Data.{PackCache, Selection, Setting, Fragment, RenderError}
use local_clash.Rules.Target.{PreparedTargets, prepare_targets}
use local_clash.Rules.Target.Checked.{ExitOk, AllGroups, PolicyGroupOk, prepared-Ok}
use local_clash.Rules.Group.{
  policy_group_at, candidate_policy_exits, wrap_error, mark_all, build_policy_groups,
  materialize_proxy_groups, materialize_policy_groups, ordered_proxy_names, sort_names_by_display,
}
use local_clash.Rules.Group.Exits.{CandidateOk, candidate_policy_exits-Ok}
use local_clash.Rules.Group.Rendered.{
  has_group, has_group-append, has_key-mark_all, materialize_proxy_groups-has,
}
use local_clash.Rules.Group.Forms.{
  GroupForm, GroupForm-mono, IsNode, group_settings-Form, AllGroups-lookup, build_proxy_groups-Form,
  build_policy_groups-marks,
}
use local_clash.Rules.Fragment.{Draft, draft_rules, finish, render_fragment}

exits_known :
    (targets : PreparedTargets) (name : String)
    → AllGroups (PolicyGroupOk targets.proxy_groups) targets.policy_groups
    → All (ExitOk targets.proxy_groups) (policy_group_at targets name).exits
unfolding policy_group_at
exits_known targets name h = elim (Option-cases (lookup name targets.policy_groups)) [
  | inl absent ↦ rw absent tt
  | inr (g, found) ↦ rw found (
      AllGroups-lookup (PolicyGroupOk targets.proxy_groups)
        (λ g. All (ExitOk targets.proxy_groups) g.exits) name g targets.policy_groups
        (λ n w good. good.exits_known) h found)
]

wrap_error-eq-ok {ℓ} :
    {A : Type ℓ} (name : String) (r : Result RenderError A) {a : A}
    → wrap_error name r ≡ ok a
    → r ≡ ok a
wrap_error-eq-ok name (ok a) h = h
wrap_error-eq-ok name (err e) h = cc

abbrev PolicyMember : PreparedTargets → Dict Bool → Dict Setting → Type 0
PolicyMember targets marked = GroupForm (CandidateOk targets marked)

build_policy_groups-Form :
    (targets : PreparedTargets) (names : List String) (referenced : Dict Bool)
    (found : List (Dict Setting) × Dict Bool)
    → AllGroups (PolicyGroupOk targets.proxy_groups) targets.policy_groups
    → build_policy_groups targets names referenced ≡ ok found
    → All (PolicyMember targets found.1) found.0
unfolding build_policy_groups
build_policy_groups-Form targets [] referenced found p h =
    subst {A = List (Dict Setting) × Dict Bool} (λ f. All (PolicyMember targets f.1) f.0) (ok_inj h)
      tt
build_policy_groups-Form targets (name ∷ names) referenced found p h =
    let g = policy_group_at targets name in
    let (c, wrapped, h₁) = >>=-eq-ok (wrap_error name (candidate_policy_exits g targets)) _ h in
    let (_, h₂) = guard-eq-ok (not (is_empty c.0)) _ _ h₁ in
    let marked = mark_all (keys c.1) referenced in
    let (built, rest, done) = >>=-eq-ok (build_policy_groups targets names marked) _ h₂ in
    let members =
      All-map (CandidateOk targets c.1) (CandidateOk targets built.1) c.0
        (λ m k. ground (
          arith,
          has_key-mark_all m (keys c.1) referenced,
          elem-keys m c.1,
          build_policy_groups-marks targets names marked built m rest,
        ))
        (candidate_policy_exits-Ok targets g c (exits_known targets name p)
          (wrap_error-eq-ok name (candidate_policy_exits g targets) wrapped)) in
    subst {A = List (Dict Setting) × Dict Bool} (λ f. All (PolicyMember targets f.1) f.0)
      (ok_inj done)
      (
        group_settings-Form (CandidateOk targets built.1) g.auto g.smart name c.0 c.0 members
            members,
        build_policy_groups-Form targets names marked built p rest,
      )

-- A member of a group: a terminal action, a node of the subscription, or a group of the fragment.
abbrev pub MemberOk : List String → Fragment → String → Type 0
MemberOk names fragment m =
    (m ≡ "DIRECT")
    ⊎ (m ≡ "REJECT")
    ⊎ (elem m names ≡ true)
    ⊎ (has_group m fragment.proxy_groups ≡ true)

abbrev pub MembersOk : List String → Fragment → Type 0
MembersOk names fragment = All (GroupForm (MemberOk names fragment)) fragment.proxy_groups

module _ ⦃u : Unicode⦄ where
  finish-MembersOk :
      (names : List String) (selection : Selection) (targets : PreparedTargets) (d : Draft)
      (fragment : Fragment)
      → prepare_targets selection names ≡ ok targets
      → finish targets d ≡ ok fragment
      → MembersOk names fragment
  unfolding finish materialize_policy_groups materialize_proxy_groups
  finish-MembersOk names selection targets d fragment prepared done =
      let (proxies_ok, policies_ok) = prepared-Ok selection names targets prepared in
      let (policies, made, e₁) =
        >>=-eq-ok (materialize_policy_groups d.used.policies targets) _ done in
      let used = mark_all (keys policies.1) d.used.proxies in
      let (proxies, built, e₂) = >>=-eq-ok (materialize_proxy_groups used targets) _ e₁ in
      let groups : fragment.proxy_groups ≡ policies.0 ++ proxies.0 = ground arith in
      subst (All (GroupForm (MemberOk names fragment))) (sym groups) (
        All-append (GroupForm (MemberOk names fragment)) policies.0 proxies.0
          (All-map (PolicyMember targets policies.1) (GroupForm (MemberOk names fragment))
            policies.0
            (λ g.
              GroupForm-mono (CandidateOk targets policies.1) (MemberOk names fragment) g (λ m k.
                ground (
                  arith,
                  has_group-append m policies.0 proxies.0,
                  elem-keys m policies.1,
                  has_key-mark_all m (keys policies.1) d.used.proxies,
                  materialize_proxy_groups-has targets used proxies.1 proxies.0 m built,
                )))
            (build_policy_groups-Form targets (sort_names_by_display (keys d.used.policies)) []
              policies policies_ok made))
          (All-map (GroupForm (IsNode names)) (GroupForm (MemberOk names fragment)) proxies.0
            (λ g. GroupForm-mono (IsNode names) (MemberOk names fragment) g (λ m k. ground arith))
            (build_proxy_groups-Form names targets (ordered_proxy_names targets (keys used))
              proxies.1 proxies.0 proxies_ok built)))

  -- Every group of a rendered fragment has a name and a list of members, and each member is DIRECT,
  -- REJECT, the name of a node of the subscription, or a group of the same fragment.
  pub render_fragment-MembersOk :
      (selection : Selection) (caches : Dict PackCache) (names : List String) (fragment : Fragment)
      → render_fragment selection caches names ≡ ok fragment
      → MembersOk names fragment
  unfolding render_fragment
  render_fragment-MembersOk selection caches names fragment h =
      let (targets, prepared, h₁) = >>=-eq-ok (prepare_targets selection names) _ h in
      let (d, drafted, h₂) = >>=-eq-ok (draft_rules selection caches targets) _ h₁ in
      finish-MembersOk names selection targets d fragment prepared h₂

-- ===== src/Rules/Target/Checked.antt =====
-- What `prepareTargets` of internal/rules/model.go accepts, and what `renderTarget` resolves.
use local_clash.Prelude.{
  String, ◌≡◌, refl, sym, subst, ◌⊎◌, inl, inr, ◌↔◌, Bool, true, false, ◌&&◌, ◌||◌, not, List, [],
  ◌∷◌, eq_iff, arith, All, Bool-cases, ltb, nat_eq, is_empty, ok, >>=-eq-ok,
}
use local_clash.Prelude.Text.{is_blank, trim_space}
use local_clash.Prelude.Text.Laws.{trim_space_idem}
use local_clash.Prelude.Dict.{Dict, insert, has_key, has_key-insert, elem}
use local_clash.Rules.Data.{ProxyGroup, PolicyGroup, Selection}
use local_clash.Rules.Line.{is_terminal_action}
use local_clash.Rules.Target.{
  PreparedTargets, TargetKind, terminal, proxy_group, policy_group, mark_available, check_nodes,
  check_proxy_group, check_proxy_groups, check_exits, check_policy_group, check_policy_groups,
  enabled_modes, prepare_targets, render_target,
}

-- A node of a group names a node of the subscription.
abbrev pub NodeOk : Dict Bool → String → Type 0
NodeOk available raw =
    (is_blank (trim_space raw) ≡ false) × (has_key (trim_space raw) available ≡ true)

-- what was seen was checked
abbrev SeenAvailable : Dict Bool → Dict Bool → Type 0
SeenAvailable seen available = (x : String) → has_key x seen ≡ true → has_key x available ≡ true

SeenAvailable-insert :
    (x : String) (seen available : Dict Bool)
    → SeenAvailable seen available
    → has_key x available ≡ true
    → SeenAvailable (insert x true seen) available
SeenAvailable-insert x seen available s h y k =
    ground (arith, s y, has_key-insert x y true seen, eq_iff x y)

check_nodes-All :
    (available : Dict Bool) (group : String) (nodes : List String) (seen : Dict Bool)
    → SeenAvailable seen available
    → check_nodes available group nodes seen ≡ ok tt
    → All (NodeOk available) nodes
unfolding check_nodes
check_nodes-All available group [] seen s h = tt
check_nodes-All available group (raw ∷ nodes) seen s h =
    elim (Bool-cases (has_key (trim_space raw) seen)) [
      | inl old ↦ (
        (ground arith, s (trim_space raw) old),
        check_nodes-All available group nodes seen s (ground arith),
      )
      | inr new ↦
          let known : has_key (trim_space raw) available ≡ true = ground arith in
          (
            (ground arith, known),
            check_nodes-All available group nodes (insert (trim_space raw) true seen)
                (SeenAvailable-insert (trim_space raw) seen available s known) (ground arith),
          )
    ]

All-check_nodes :
    (available : Dict Bool) (group : String) (nodes : List String) (seen : Dict Bool)
    → All (NodeOk available) nodes
    → check_nodes available group nodes seen ≡ ok tt
unfolding check_nodes
All-check_nodes available group [] seen h = refl
All-check_nodes available group (raw ∷ nodes) seen h = ground (
  arith,
  All-check_nodes available group nodes seen h.1,
  All-check_nodes available group nodes (insert (trim_space raw) true seen) h.1,
)

-- What a proxy group must satisfy.
pub record ProxyGroupOk (available : Dict Bool) (g : ProxyGroup) : Type 0 where
  pub not_empty : (is_empty g.nodes && not g.direct && not g.optional) ≡ false
  pub one_mode : ltb 1 (enabled_modes g.auto g.manual g.smart) ≡ false
  pub some_choice : (nat_eq (enabled_modes g.auto g.manual g.smart) 0 && not g.direct) ≡ false
  pub direct_alone : (g.direct && (g.auto || g.smart)) ≡ false
  pub nodes_known : All (NodeOk available) g.nodes

check_proxy_group-Ok :
    (available : Dict Bool) (name : String) (g : ProxyGroup)
    → check_proxy_group available name g ≡ ok tt
    → ProxyGroupOk available g
unfolding check_proxy_group
check_proxy_group-Ok available name g h = record {
  not_empty = ground arith;
  one_mode = ground arith;
  some_choice = ground arith;
  direct_alone = ground arith;
  nodes_known =
      check_nodes-All available name g.nodes [] (unfold has_key in λ x k. cc) (ground arith);
}

Ok-check_proxy_group :
    (available : Dict Bool) (name : String) (g : ProxyGroup)
    → ProxyGroupOk available g
    → check_proxy_group available name g ≡ ok tt
unfolding check_proxy_group
Ok-check_proxy_group available name g h =
    ground (arith, All-check_nodes available name g.nodes [] h.nodes_known)

abbrev pub AllGroups {ℓ} : {V : Type ℓ} → (String → V → Type 0) → Dict V → Type 0
AllGroups P [] = Unit
AllGroups P ((name, g) ∷ groups) = P name g × AllGroups P groups

check_proxy_groups_iff :
    (available : Dict Bool) (groups : Dict ProxyGroup)
    → (check_proxy_groups available groups ≡ ok tt)
      ↔ AllGroups (λ _ g. ProxyGroupOk available g) groups
unfolding check_proxy_groups
check_proxy_groups_iff available [] = (λ _. tt, λ _. refl)
check_proxy_groups_iff available ((name, g) ∷ groups) = (
  λ h.
      let (done, first, rest) = >>=-eq-ok (check_proxy_group available name g) _ h in
      (
        check_proxy_group-Ok available name g first,
        (check_proxy_groups_iff available groups).0 rest,
      ),
  λ h. ground (
    arith,
    Ok-check_proxy_group available name g h.0,
    (check_proxy_groups_iff available groups).1 h.1,
  ),
)

-- An exit of a policy group is a terminal action or a proxy group.
abbrev pub ExitOk : Dict ProxyGroup → String → Type 0
ExitOk proxies raw =
    (is_blank (trim_space raw) ≡ false)
    × ((is_terminal_action (trim_space raw) || has_key (trim_space raw) proxies) ≡ true)

abbrev SeenOk : Dict Bool → Dict ProxyGroup → Type 0
SeenOk seen proxies =
    (x : String) → has_key x seen ≡ true → (is_terminal_action x || has_key x proxies) ≡ true

SeenOk-insert :
    (x : String) (seen : Dict Bool) (proxies : Dict ProxyGroup)
    → SeenOk seen proxies
    → (is_terminal_action x || has_key x proxies) ≡ true
    → SeenOk (insert x true seen) proxies
SeenOk-insert x seen proxies s h y k = ground (arith, s y, has_key-insert x y true seen, eq_iff x y)

check_exits-All :
    (proxies : Dict ProxyGroup) (group : String) (exits : List String) (seen : Dict Bool)
    → SeenOk seen proxies
    → check_exits proxies group exits seen ≡ ok tt
    → All (ExitOk proxies) exits
unfolding check_exits
check_exits-All proxies group [] seen s h = tt
check_exits-All proxies group (raw ∷ exits) seen s h =
    elim (Bool-cases (has_key (trim_space raw) seen)) [
      | inl old ↦ (
        (ground arith, s (trim_space raw) old),
        check_exits-All proxies group exits seen s (ground arith),
      )
      | inr new ↦
          let known : (is_terminal_action (trim_space raw) || has_key (trim_space raw) proxies)
              ≡ true =
            ground arith in
          (
            (ground arith, known),
            check_exits-All proxies group exits (insert (trim_space raw) true seen)
                (SeenOk-insert (trim_space raw) seen proxies s known) (ground arith),
          )
    ]

All-check_exits :
    (proxies : Dict ProxyGroup) (group : String) (exits : List String) (seen : Dict Bool)
    → All (ExitOk proxies) exits
    → check_exits proxies group exits seen ≡ ok tt
unfolding check_exits
All-check_exits proxies group [] seen h = refl
All-check_exits proxies group (raw ∷ exits) seen h = ground (
  arith,
  All-check_exits proxies group exits seen h.1,
  All-check_exits proxies group exits (insert (trim_space raw) true seen) h.1,
)

pub record PolicyGroupOk (proxies : Dict ProxyGroup) (name : String) (g : PolicyGroup)
    : Type 0 where
  pub no_conflict : has_key name proxies ≡ false
  pub not_empty : is_empty g.exits ≡ false
  pub one_mode : enabled_modes g.auto g.manual g.smart ≡ 1
  pub exits_known : All (ExitOk proxies) g.exits

check_policy_group-Ok :
    (proxies : Dict ProxyGroup) (name : String) (g : PolicyGroup)
    → check_policy_group proxies name g ≡ ok tt
    → PolicyGroupOk proxies name g
unfolding check_policy_group
check_policy_group-Ok proxies name g h = record {
  no_conflict = ground arith;
  not_empty = ground arith;
  one_mode = ground arith;
  exits_known =
      check_exits-All proxies name g.exits [] (unfold has_key in λ x k. cc) (ground arith);
}

Ok-check_policy_group :
    (proxies : Dict ProxyGroup) (name : String) (g : PolicyGroup)
    → PolicyGroupOk proxies name g
    → check_policy_group proxies name g ≡ ok tt
unfolding check_policy_group
Ok-check_policy_group proxies name g h =
    ground (arith, All-check_exits proxies name g.exits [] h.exits_known)

check_policy_groups_iff :
    (proxies : Dict ProxyGroup) (groups : Dict PolicyGroup)
    → (check_policy_groups proxies groups ≡ ok tt) ↔ AllGroups (PolicyGroupOk proxies) groups
unfolding check_policy_groups
check_policy_groups_iff proxies [] = (λ _. tt, λ _. refl)
check_policy_groups_iff proxies ((name, g) ∷ groups) = (
  λ h.
      let (done, first, rest) = >>=-eq-ok (check_policy_group proxies name g) _ h in
      (check_policy_group-Ok proxies name g first, (check_policy_groups_iff proxies groups).0 rest),
  λ h. ground (
    arith,
    Ok-check_policy_group proxies name g h.0,
    (check_policy_groups_iff proxies groups).1 h.1,
  ),
)

pub record SelectionOk (selection : Selection) (proxy_names : List String) : Type 0 where
  pub proxies_ok :
      AllGroups (λ _ g. ProxyGroupOk (mark_available proxy_names []) g) selection.proxy_groups
  pub policies_ok : AllGroups (PolicyGroupOk selection.proxy_groups) selection.policy_groups

-- The targets are prepared exactly when every proxy group and every policy group of the selection
-- is sound: they are then the selection's own groups.
pub prepare_targets_iff :
    (selection : Selection) (proxy_names : List String) (targets : PreparedTargets)
    → (prepare_targets selection proxy_names ≡ ok targets) ↔ (
        SelectionOk selection proxy_names
        × (targets.proxy_groups ≡ selection.proxy_groups)
        × (targets.policy_groups ≡ selection.policy_groups))
unfolding prepare_targets
prepare_targets_iff selection proxy_names targets =
    let available = mark_available proxy_names [] in
    (
      λ h.
          let (_, first, more) =
            >>=-eq-ok (check_proxy_groups available selection.proxy_groups) _ h in
          let (_, second, done) =
            >>=-eq-ok (check_policy_groups selection.proxy_groups selection.policy_groups) _ more in
          (
            record {
              proxies_ok = (check_proxy_groups_iff available selection.proxy_groups).0 first;
              policies_ok =
                  (check_policy_groups_iff selection.proxy_groups selection.policy_groups).0 second;
            },
            ground arith,
            ground arith,
          ),
      λ h. ground (
        arith,
        (check_proxy_groups_iff available selection.proxy_groups).1 h.0.proxies_ok,
        (check_policy_groups_iff selection.proxy_groups selection.policy_groups).1 h.0.policies_ok,
      ),
    )

-- The groups of the selection, which the targets hold once they are checked.
abbrev pub selected_targets : Selection → PreparedTargets
selected_targets s = record { proxy_groups = s.proxy_groups; policy_groups = s.policy_groups }

pub prepared_targets :
    (selection : Selection) (names : List String) (targets : PreparedTargets)
    → prepare_targets selection names ≡ ok targets
    → targets ≡ selected_targets selection
prepared_targets selection names targets h =
    let (_, proxies, policies) = (prepare_targets_iff selection names targets).0 h in
    λ i. record { proxy_groups = proxies i; policy_groups = policies i }

-- The prepared groups were checked.
pub prepared-Ok :
    (selection : Selection) (names : List String) (targets : PreparedTargets)
    → prepare_targets selection names ≡ ok targets
    → AllGroups (λ _ g. ProxyGroupOk (mark_available names []) g) targets.proxy_groups
      × AllGroups (PolicyGroupOk targets.proxy_groups) targets.policy_groups
prepared-Ok selection names targets h =
    let good = ((prepare_targets_iff selection names targets).0 h).0 in
    subst
      (λ t.
        AllGroups (λ _ g. ProxyGroupOk (mark_available names []) g) t.proxy_groups
        × AllGroups (PolicyGroupOk t.proxy_groups) t.policy_groups)
      (sym (prepared_targets selection names targets h)) (good.proxies_ok, good.policies_ok)

has_key-mark_available :
    (x : String) (names : List String) (m : Dict Bool)
    → has_key x (mark_available names m) ≡ (elem x names || has_key x m)
unfolding mark_available elem
has_key-mark_available x [] m = refl
has_key-mark_available x (y ∷ names) m =
    ground (arith, has_key-mark_available x names (insert y true m), has_key-insert y x true m)

-- A node that passed is one of the subscription's names.
pub elem_of_NodeOk :
    (names : List String) (raw : String)
    → NodeOk (mark_available names []) raw
    → elem (trim_space raw) names ≡ true
unfolding has_key
elem_of_NodeOk names raw h = ground (arith, has_key-mark_available (trim_space raw) names [])

-- What a target is resolved to.
abbrev pub Resolves : PreparedTargets → String → TargetKind → Type 0
Resolves targets t terminal = (t ≡ "DIRECT") ⊎ (t ≡ "REJECT")
Resolves targets t proxy_group = has_key t targets.proxy_groups ≡ true
Resolves targets t policy_group = has_key t targets.policy_groups ≡ true

terminal_of_trimmed :
    (target : String)
    → is_terminal_action (trim_space target) ≡ true
    → (trim_space target ≡ "DIRECT") ⊎ (trim_space target ≡ "REJECT")
unfolding is_terminal_action
terminal_of_trimmed target h = ground (
  arith,
  trim_space_idem target,
  eq_iff (trim_space target) "DIRECT",
  eq_iff (trim_space target) "REJECT",
)

-- A target that resolves is trimmed, and is of the kind that is returned with it.
pub render_target-Resolves :
    (target t : String) (kind : TargetKind) (targets : PreparedTargets)
    → render_target target targets ≡ ok (t, kind)
    → (t ≡ trim_space target) × Resolves targets t kind
unfolding render_target
render_target-Resolves target t terminal targets h = ground (arith, terminal_of_trimmed target)
render_target-Resolves target t proxy_group targets h = ground arith
render_target-Resolves target t policy_group targets h = ground arith

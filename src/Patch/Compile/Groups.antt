-- ===== src/Patch/Compile/Groups.antt =====
-- The merge of one patch takes its groups in and keeps those of the patches before.
pub mod Compiled
use local_clash.Prelude.{
  String, ◌==◌, ◌≡◌, refl, sym, ap, ◌∙◌, ◌⊎◌, inl, inr, subst, Bool, true, false, List, [], ◌∷◌,
  All, All-map, if◌then◌else◌, Result, ok, err, ◌>>=◌, >>=-eq-ok, ok_inj, arith, Bool-cases,
}
use local_clash.Prelude.Text.{Unicode, trim_space}
use local_clash.LocalConfig.{
  Config, ProxyGroup, PolicyGroup, OverlayProxyGroupIntent, OverlayPolicyGroupIntent, TransportRule,
  CustomRule, RulePackSelection, ExternalRuleProvider,
}
use local_clash.Patch.Data.{Patch, Record, PatchError}
use local_clash.Patch.Registry.{status_enabled, validate_records}
use local_clash.Patch.Compile.{
  Object, ObjectHash, a_proxy_group, a_policy_group, Indexed, Provenance, Merge, each,
  put_proxy_group, put_policy_group, append_pack, append_as, proxy_group_value, policy_group_value,
  merge_groups, merge_lists, merge_overlay, merge_enabled, sort_records, insert_record,
  compile_records, config_of, a_transport_rule, a_custom_rule, a_rule_pack, a_rule_provider,
}
use local_clash.Patch.Compile.Merged.{
  Tracked, Holds, Kept, Kept-trans, Holds-Kept, each-Put, put_map_object-Put,
}

module _ ⦃h : ObjectHash⦄ where
  abbrev pub proxy_hash : ProxyGroup → String
  proxy_hash g = h.canonical_hash (a_proxy_group g)

  abbrev pub policy_hash : PolicyGroup → String
  policy_hash g = h.canonical_hash (a_policy_group g)

  pub MergeOk : Merge → Type 0
  MergeOk m = Tracked proxy_hash m.proxy_groups × Tracked policy_hash m.policy_groups

  pub MergeKept : Merge → Merge → Type 0
  MergeKept m m' = Kept m.proxy_groups m'.proxy_groups × Kept m.policy_groups m'.policy_groups

  -- The merge has the groups of a patch, or others with the same hashes.
  abbrev pub GroupsHeld : Merge → Record → Type 0
  GroupsHeld m r =
      All
        (λ (g : OverlayProxyGroupIntent).
          Holds proxy_hash m.proxy_groups (trim_space g.id) (proxy_hash (proxy_group_value g)))
        r.patch.overlay.proxy_groups
      × All
          (λ (g : OverlayPolicyGroupIntent).
            Holds policy_hash m.policy_groups (trim_space g.id)
              (policy_hash (policy_group_value g)))
          r.patch.overlay.policy_groups

  merge_groups-GroupsHeld :
      (r : Record) (m m' : Merge)
      → MergeOk m
      → merge_groups r m ≡ ok m'
      → MergeOk m' × MergeKept m m' × GroupsHeld m' r
  unfolding merge_groups MergeOk MergeKept put_proxy_group put_policy_group
  merge_groups-GroupsHeld r m m' good e =
      let overlay = r.patch.overlay in
      let id = r.patch.patch_id in
      let (s₁, e₁, h₁) =
        >>=-eq-ok (each (put_proxy_group id) overlay.proxy_groups (m.proxy_groups, m.provenance)) _
          e in
      let (s₂, e₂, h₂) =
        >>=-eq-ok (each (put_policy_group id) overlay.policy_groups (m.policy_groups, s₁.1)) _ h₁ in
      let (ok₁, kept₁, held₁) =
        each-Put proxy_hash (λ (g : OverlayProxyGroupIntent). trim_space g.id) proxy_group_value
          (put_proxy_group id)
          (λ g s s' p p'.
            put_map_object-Put proxy_hash _ id (trim_space g.id) (proxy_group_value g) s s' p p')
          overlay.proxy_groups m.proxy_groups s₁.0 m.provenance s₁.1 good.0 e₁ in
      let (ok₂, kept₂, held₂) =
        each-Put policy_hash (λ (g : OverlayPolicyGroupIntent). trim_space g.id) policy_group_value
          (put_policy_group id)
          (λ g s s' p p'.
            put_map_object-Put policy_hash _ id (trim_space g.id) (policy_group_value g) s s' p p')
          overlay.policy_groups m.policy_groups s₂.0 s₁.1 s₂.1 good.1 e₂ in
      subst (λ t. MergeOk t × MergeKept m t × GroupsHeld t r) (ok_inj h₂)
        ((ok₁, ok₂), (kept₁, kept₂), (held₁, held₂))

  -- Two merges with the same groups.
  SameGroups : Merge → Merge → Type 0
  SameGroups m m' = (m'.proxy_groups ≡ m.proxy_groups) × (m'.policy_groups ≡ m.policy_groups)

  merge_lists-SameGroups : (r : Record) (m m' : Merge) → merge_lists r m ≡ ok m' → SameGroups m m'
  unfolding merge_lists SameGroups
  merge_lists-SameGroups r m m' e =
      let overlay = r.patch.overlay in
      let id = r.patch.patch_id in
      let (s₃, e₃, h₃) =
        >>=-eq-ok (each (append_pack id) overlay.packs (m.packs, m.provenance)) _ e in
      let (s₄, e₄, h₄) =
        >>=-eq-ok
          (each (append_as "transport_rules" id (λ (x : TransportRule). x.id) a_transport_rule)
            overlay.transport_rules (m.transport_rules, s₃.1))
          _ h₃ in
      let (s₅, e₅, h₅) =
        >>=-eq-ok
          (each (append_as "custom_rules" id (λ (x : CustomRule). x.id) a_custom_rule)
            overlay.custom_rules (m.custom_rules, s₄.1))
          _ h₄ in
      let (s₆, e₆, h₆) =
        >>=-eq-ok
          (each (append_as "enabled_rule_packs" id (λ (x : RulePackSelection). x.id) a_rule_pack)
            overlay.enabled_rule_packs (m.enabled_rule_packs, s₅.1))
          _ h₅ in
      let (s₇, e₇, h₇) =
        >>=-eq-ok
          (each (append_as "rule_providers" id (λ (x : ExternalRuleProvider). x.id) a_rule_provider)
            overlay.rule_providers (m.rule_providers, s₆.1))
          _ h₆ in
      (
        sym (ap (λ (t : Merge). t.proxy_groups) (ok_inj h₇)),
        sym (ap (λ (t : Merge). t.policy_groups) (ok_inj h₇)),
      )

  pub merge_overlay-GroupsHeld :
      (r : Record) (m m' : Merge)
      → MergeOk m
      → merge_overlay r m ≡ ok m'
      → MergeOk m' × MergeKept m m' × GroupsHeld m' r
  unfolding merge_overlay SameGroups MergeOk MergeKept
  merge_overlay-GroupsHeld r m m' good e =
      let (mid, e₁, h₁) = >>=-eq-ok (merge_groups r m) (λ t. merge_lists r t) e in
      let (p, q) = merge_lists-SameGroups r mid m' h₁ in
      let (ok₁, kept, held) = merge_groups-GroupsHeld r m mid good e₁ in
      (
        (subst (Tracked proxy_hash) (sym p) ok₁.0, subst (Tracked policy_hash) (sym q) ok₁.1),
        (subst (Kept m.proxy_groups) (sym p) kept.0, subst (Kept m.policy_groups) (sym q) kept.1),
        (
          subst
              (λ t.
                All
                  (λ (g : OverlayProxyGroupIntent).
                    Holds proxy_hash t (trim_space g.id) (proxy_hash (proxy_group_value g)))
                  r.patch.overlay.proxy_groups)
              (sym p) held.0,
          subst
              (λ t.
                All
                  (λ (g : OverlayPolicyGroupIntent).
                    Holds policy_hash t (trim_space g.id) (policy_hash (policy_group_value g)))
                  r.patch.overlay.policy_groups)
              (sym q) held.1,
        ),
      )

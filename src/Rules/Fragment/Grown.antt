-- ===== src/Rules/Fragment/Grown.antt =====
-- What each loop of `RenderFragment` adds to the draft: every rule of the draft has the form of its
-- part of the selection, its provider is defined, and its target is marked as used.
use local_clash.Prelude.{
  ℕ, ℤ, ◌≤◌, String, ◌≡◌, refl, ◌⊎◌, inl, inr, true, List, [], ◌∷◌, arith, All, All-append,
  Bool-cases, ok, >>=-eq-ok, subst, is_positive, magnitude, ok_inj,
}
use local_clash.Prelude.Text.{Unicode}
use local_clash.Prelude.Dict.{Dict, insert, has_key, has_key-insert_self, has_key-insert_keep}
use local_clash.Rules.Data.{
  Component, PackCache, SelectedPack, CustomRuleLine, CustomRule, TransportRule,
  ExternalRuleProvider, Selection, Setting,
}
use local_clash.Rules.Line.{
  max_port, provider_name, render_transport_rule, render_custom_rule_lines,
  render_external_rule_provider,
}
use local_clash.Rules.Line.Grammar.{
  transport_line, transport_accepted, CustomLine, CustomLines, render_custom_rule_lines-CustomLines,
}
use local_clash.Rules.Target.{
  PreparedTargets, TargetKind, terminal, proxy_group, policy_group, Used, render_target,
  mark_used_target,
}
use local_clash.Rules.Target.Checked.{render_target-Resolves}
use local_clash.Rules.Fragment.{
  Draft, empty_draft, add_rules, mark, put_provider, add_transports, add_customs, add_providers,
  add_component, add_components, add_packs, add_required, draft_rules, rule_set_line, geo_site_line,
  is_dlc, component_settings, selected_pack,
}

-- A target that a rule may name: a terminal action, or a group that is marked as used.
abbrev pub IsMarked : PreparedTargets → Used → String → Type 0
IsMarked targets used t =
    (t ≡ "DIRECT")
    ⊎ (t ≡ "REJECT")
    ⊎ (has_key t targets.proxy_groups ≡ true) × (has_key t used.proxies ≡ true)
    ⊎ (has_key t targets.policy_groups ≡ true) × (has_key t used.policies ≡ true)

render_target-IsMarked :
    (raw t : String) (kind : TargetKind) (targets : PreparedTargets) (used : Used)
    → render_target raw targets ≡ ok (t, kind)
    → IsMarked targets (mark_used_target t kind used) t
unfolding mark_used_target
render_target-IsMarked raw t terminal targets used h =
    ground (arith, render_target-Resolves raw t terminal targets h)
render_target-IsMarked raw t proxy_group targets used h = ground (
  arith,
  render_target-Resolves raw t proxy_group targets h,
  has_key-insert_self t true used.proxies,
)
render_target-IsMarked raw t policy_group targets used h = ground (
  arith,
  render_target-Resolves raw t policy_group targets h,
  has_key-insert_self t true used.policies,
)

-- The form of a rule, by the part of the selection that it comes from.
pub data RuleForm ⦃u : Unicode⦄ (defined : String → Type 0) (named : String → Type 0)
    (line : String) : Type 0 where
  transport :
      (port : ℕ) (t : String)
      → 1 ≤ port
      → port ≤ max_port
      → line ≡ transport_line port t
      → named t
      → RuleForm defined named line
  custom :
      (rule : CustomRuleLine) (t : String)
      → CustomLine rule t line
      → named t
      → RuleForm defined named line
  rule_set :
      (provider t : String)
      → line ≡ rule_set_line provider t
      → defined provider
      → named t
      → RuleForm defined named line
  geo_site : (pack t : String) → line ≡ geo_site_line pack t → named t → RuleForm defined named line

pub RuleForm-mono :
    ⦃u : Unicode⦄ (defined defined' named named' : String → Type 0) (line : String)
    → ((p : String) → defined p → defined' p)
    → ((t : String) → named t → named' t)
    → RuleForm defined named line
    → RuleForm defined' named' line
RuleForm-mono defined defined' named named' line f g (RuleForm.transport port t low a b n) =
    RuleForm.transport port t low a b (g t n)
RuleForm-mono defined defined' named named' line f g (RuleForm.custom rule t a n) =
    RuleForm.custom rule t a (g t n)
RuleForm-mono defined defined' named named' line f g (RuleForm.rule_set p t a d n) =
    RuleForm.rule_set p t a (f p d) (g t n)
RuleForm-mono defined defined' named named' line f g (RuleForm.geo_site p t a n) =
    RuleForm.geo_site p t a (g t n)

abbrev pub IsDefined : Dict (Dict Setting) → String → Type 0
IsDefined providers p = has_key p providers ≡ true

module _ ⦃u : Unicode⦄ (targets : PreparedTargets) where
  abbrev pub RuleOk : Draft → String → Type 0
  RuleOk d = RuleForm (IsDefined d.providers) (IsMarked targets d.used)

  abbrev pub DraftOk : Draft → Type 0
  DraftOk d = All (RuleOk d) d.rules

  IsMarked-mark :
      (t' t : String) (kind : TargetKind) (used : Used)
      → IsMarked targets used t
      → IsMarked targets (mark_used_target t' kind used) t
  unfolding mark_used_target
  IsMarked-mark t' t terminal used h = h
  IsMarked-mark t' t proxy_group used h = ground (arith, has_key-insert_keep t' t true used.proxies)
  IsMarked-mark t' t policy_group used h =
      ground (arith, has_key-insert_keep t' t true used.policies)

  All-mono :
      (d d' : Draft) (lines : List String)
      → ((p : String) → IsDefined d.providers p → IsDefined d'.providers p)
      → ((t : String) → IsMarked targets d.used t → IsMarked targets d'.used t)
      → All (RuleOk d) lines
      → All (RuleOk d') lines
  All-mono d d' [] f g h = tt
  All-mono d d' (line ∷ lines) f g h = (
    RuleForm-mono (IsDefined d.providers) (IsDefined d'.providers) (IsMarked targets d.used)
        (IsMarked targets d'.used) line f g h.0,
    All-mono d d' lines f g h.1,
  )

  mark-DraftOk : (t : String) (kind : TargetKind) (d : Draft) → DraftOk d → DraftOk (mark t kind d)
  unfolding mark
  mark-DraftOk t kind d h =
      All-mono d (record d { used = mark_used_target t kind d.used }) d.rules (λ p k. k)
        (λ t' k. IsMarked-mark t t' kind d.used k) h

  put_provider-DraftOk :
      (name : String) (settings : Dict Setting) (d : Draft)
      → DraftOk d
      → DraftOk (put_provider name settings d)
  unfolding put_provider
  put_provider-DraftOk name settings d h =
      All-mono d (record d { providers = insert name settings d.providers }) d.rules
        (λ p k. has_key-insert_keep name p settings d.providers k) (λ t k. k) h

  add_rules-DraftOk :
      (lines : List String) (d : Draft)
      → DraftOk d
      → All (RuleOk d) lines
      → DraftOk (add_rules lines d)
  unfolding add_rules
  add_rules-DraftOk lines d h k = All-append (RuleOk d) d.rules lines h k

  marked :
      (raw t : String) (kind : TargetKind) (d : Draft)
      → render_target raw targets ≡ ok (t, kind)
      → IsMarked targets (mark t kind d).used t
  unfolding mark
  marked raw t kind d h = render_target-IsMarked raw t kind targets d.used h

positive_magnitude : (n : ℤ) → is_positive n ≡ true → 1 ≤ magnitude n
positive_magnitude n h = ground arith

module _ ⦃u : Unicode⦄ (targets : PreparedTargets) where
  add_transports-DraftOk :
      (rules : List TransportRule) (d d' : Draft)
      → DraftOk targets d
      → add_transports targets rules d ≡ ok d'
      → DraftOk targets d'
  unfolding add_transports
  add_transports-DraftOk [] d d' h e = subst (DraftOk targets) (ok_inj e) h
  add_transports-DraftOk (rule ∷ rest) d d' h e =
      let (found, resolved, e₁) = >>=-eq-ok (render_target rule.target targets) _ e in
      let (line, rendered, e₂) = >>=-eq-ok (render_transport_rule rule found.0) _ e₁ in
      let (accepted, shape) = transport_accepted rule found.0 line rendered in
      let m = mark found.0 found.1 d in
      add_transports-DraftOk rest (add_rules (line ∷ []) m) d'
        (add_rules-DraftOk targets (line ∷ []) m (mark-DraftOk targets found.0 found.1 d h) (
          RuleForm.transport (magnitude rule.dst_port) found.0
              (positive_magnitude rule.dst_port accepted.port_min) accepted.port_max shape
              (marked targets rule.target found.0 found.1 d resolved),
          tt,
        ))
        e₂

  custom_forms :
      (rules : List CustomRuleLine) (t : String) (lines : List String) (d : Draft)
      → IsMarked targets d.used t
      → CustomLines t rules lines
      → All (RuleOk targets d) lines
  custom_forms [] t [] d m h = tt
  custom_forms [] t (line ∷ lines) d m h = absurd h
  custom_forms (rule ∷ rules) t [] d m h = tt
  custom_forms (rule ∷ rules) t (line ∷ lines) d m h =
      (RuleForm.custom rule t h.0 m, custom_forms rules t lines d m h.1)

  add_customs-DraftOk :
      (customs : List CustomRule) (d d' : Draft)
      → DraftOk targets d
      → add_customs targets customs d ≡ ok d'
      → DraftOk targets d'
  unfolding add_customs
  add_customs-DraftOk [] d d' h e = subst (DraftOk targets) (ok_inj e) h
  add_customs-DraftOk (rule ∷ rest) d d' h e =
      let (found, resolved, e₁) = >>=-eq-ok (render_target rule.target targets) _ e in
      let (lines, rendered, e₂) = >>=-eq-ok (render_custom_rule_lines rule found.0) _ e₁ in
      let m = mark found.0 found.1 d in
      add_customs-DraftOk rest (add_rules lines m) d'
        (add_rules-DraftOk targets lines m (mark-DraftOk targets found.0 found.1 d h) (
          custom_forms rule.rules found.0 lines m
            (marked targets rule.target found.0 found.1 d resolved)
            (render_custom_rule_lines-CustomLines rule found.0 lines rendered).3))
        e₂

  -- A provider's rule joins a draft that has its target marked.
  join_rule_set :
      (name t : String) (settings : Dict Setting) (d : Draft)
      → DraftOk targets d
      → IsMarked targets d.used t
      → DraftOk targets (add_rules (rule_set_line name t ∷ []) (put_provider name settings d))
  join_rule_set name t settings d h m =
      add_rules-DraftOk targets (rule_set_line name t ∷ []) (put_provider name settings d)
        (put_provider-DraftOk targets name settings d h)
        (unfold put_provider in
          (RuleForm.rule_set name t refl (has_key-insert_self name settings d.providers) m, tt))

  add_providers-DraftOk :
      (providers : List ExternalRuleProvider) (d d' : Draft)
      → DraftOk targets d
      → add_providers targets providers d ≡ ok d'
      → DraftOk targets d'
  unfolding add_providers
  add_providers-DraftOk [] d d' h e = subst (DraftOk targets) (ok_inj e) h
  add_providers-DraftOk (provider ∷ rest) d d' h e =
      let (found, resolved, e₁) = >>=-eq-ok (render_target provider.target targets) _ e in
      let (settings, rendered, e₂) = >>=-eq-ok (render_external_rule_provider provider) _ e₁ in
      let m = mark found.0 found.1 d in
      add_providers-DraftOk rest
        (add_rules (rule_set_line provider.id found.0 ∷ []) (put_provider provider.id settings m))
        d'
        (join_rule_set provider.id found.0 settings m (mark-DraftOk targets found.0 found.1 d h)
          (marked targets provider.target found.0 found.1 d resolved))
        e₂

  add_component-DraftOk :
      (enabled : SelectedPack) (pack_id t : String) (c : Component) (d : Draft)
      → DraftOk targets d
      → IsMarked targets d.used t
      → DraftOk targets (add_component enabled pack_id t c d)
        × IsMarked targets (add_component enabled pack_id t c d).used t
  unfolding add_component
  add_component-DraftOk enabled pack_id t c d h m =
      let name = provider_name enabled.source pack_id c.id in
      elim (Bool-cases (is_dlc c)) [
        | inl dlc ↦ rw dlc (
          add_rules-DraftOk targets (geo_site_line enabled.pack t ∷ []) d h
              (RuleForm.geo_site enabled.pack t refl m, tt),
          unfold add_rules in m,
        )
        | inr http ↦
            rw http (
              join_rule_set name t (component_settings c) d h m,
              unfold add_rules put_provider in m,
            )
      ]

  add_components-DraftOk :
      (enabled : SelectedPack) (pack_id t : String) (components : List Component) (d : Draft)
      → DraftOk targets d
      → IsMarked targets d.used t
      → DraftOk targets (add_components enabled pack_id t components d)
  unfolding add_components
  add_components-DraftOk enabled pack_id t [] d h m = h
  add_components-DraftOk enabled pack_id t (c ∷ cs) d h m =
      let (h', m') = add_component-DraftOk enabled pack_id t c d h m in
      add_components-DraftOk enabled pack_id t cs (add_component enabled pack_id t c d) h' m'

  add_packs-DraftOk :
      (caches : Dict PackCache) (packs : List SelectedPack) (d d' : Draft)
      → DraftOk targets d
      → add_packs targets caches packs d ≡ ok d'
      → DraftOk targets d'
  unfolding add_packs
  add_packs-DraftOk caches [] d d' h e = subst (DraftOk targets) (ok_inj e) h
  add_packs-DraftOk caches (enabled ∷ rest) d d' h e =
      let (pack, selected, e₁) = >>=-eq-ok (selected_pack caches enabled) _ e in
      let (found, resolved, e₂) = >>=-eq-ok (render_target enabled.target targets) _ e₁ in
      let m = mark found.0 found.1 d in
      add_packs-DraftOk caches rest (add_components enabled pack.id found.0 pack.components m) d'
        (add_components-DraftOk enabled pack.id found.0 pack.components m
          (mark-DraftOk targets found.0 found.1 d h)
          (marked targets enabled.target found.0 found.1 d resolved))
        e₂

  add_required-DraftOk :
      (required : List String) (d d' : Draft)
      → DraftOk targets d
      → add_required targets required d ≡ ok d'
      → DraftOk targets d'
  unfolding add_required
  add_required-DraftOk [] d d' h e = subst (DraftOk targets) (ok_inj e) h
  add_required-DraftOk (raw ∷ rest) d d' h e =
      let (found, resolved, e₁) = >>=-eq-ok (render_target raw targets) _ e in
      add_required-DraftOk rest (mark found.0 found.1 d) d'
        (mark-DraftOk targets found.0 found.1 d h) e₁

  -- Every rule of a finished draft has the form of its part of the selection.
  pub draft_rules-DraftOk :
      (selection : Selection) (caches : Dict PackCache) (d : Draft)
      → draft_rules selection caches targets ≡ ok d
      → DraftOk targets d
  unfolding draft_rules
  draft_rules-DraftOk selection caches d e =
      let (a, ea, e₁) =
        >>=-eq-ok (add_transports targets selection.transport_rules empty_draft) _ e in
      let (b, eb, e₂) = >>=-eq-ok (add_customs targets selection.custom_rules a) _ e₁ in
      let (c, ec, e₃) = >>=-eq-ok (add_providers targets selection.rule_providers b) _ e₂ in
      let (f, ef, e₄) = >>=-eq-ok (add_packs targets caches selection.enabled_pack c) _ e₃ in
      add_required-DraftOk selection.required_targets f d
        (add_packs-DraftOk caches selection.enabled_pack c f
          (add_providers-DraftOk selection.rule_providers b c
            (add_customs-DraftOk selection.custom_rules a b
              (add_transports-DraftOk selection.transport_rules empty_draft a tt ea) eb)
            ec)
          ef)
        e₄

-- ===== src/Patch/Compile/Groups/Compiled.antt =====
-- The compiled intent holds the groups of every enabled patch.
use local_clash.Prelude.{
  String, some, ◌==◌, ◌≡◌, refl, sym, ap, ◌∙◌, ◌⊎◌, inl, inr, subst, Bool, true, false, List, [],
  ◌∷◌, All, All-map, if◌then◌else◌, ok, ◌>>=◌, >>=-eq-ok, ok_inj, arith, Bool-cases,
}
use local_clash.Prelude.Text.{Unicode, trim_space}
use local_clash.Prelude.Dict.{lookup}
use local_clash.LocalConfig.{
  Config, ProxyGroup, PolicyGroup, OverlayProxyGroupIntent, OverlayPolicyGroupIntent,
}
use local_clash.Patch.Data.{Record}
use local_clash.Patch.Registry.{status_enabled, validate_records}
use local_clash.Patch.Compile.{
  ObjectHash, Provenance, Merge, proxy_group_value, policy_group_value, merge_overlay,
  merge_enabled, sort_records, insert_record, compile_records, no_merge, comes_before,
}
use local_clash.Patch.Compile.Merged.{Kept-trans, Holds-Kept}
use local_clash.Patch.Compile.Groups.{
  proxy_hash, policy_hash, MergeOk, MergeKept, GroupsHeld, merge_overlay-GroupsHeld,
}

move_back {ℓ} :
    (P : Record → Type ℓ) (behind : Bool) (r s : Record) (rs later : List Record)
    → (All P later → P r × All P rs)
    → All P (if behind then s ∷ later else r ∷ s ∷ rs)
    → P r × All P (s ∷ rs)
move_back P true r s rs later f h = ((f h.1).0, (h.0, (f h.1).1))
move_back P false r s rs later f h = h

All-insert_record {ℓ} :
    (P : Record → Type ℓ) (r : Record) (rs : List Record)
    → All P (insert_record r rs)
    → P r × All P rs
unfolding insert_record
All-insert_record P r [] h = (h.0, tt)
All-insert_record P r (s ∷ rs) h =
    move_back P (comes_before s r) r s rs (insert_record r rs) (All-insert_record P r rs) h

All-sort_records {ℓ} : (P : Record → Type ℓ) (rs : List Record) → All P (sort_records rs) → All P rs
unfolding sort_records
All-sort_records P [] h = tt
All-sort_records P (r ∷ rs) h =
    let (first, rest) = All-insert_record P r (sort_records rs) h in
    (first, All-sort_records P rs rest)

module _ ⦃h : ObjectHash⦄ where
  -- The intent holds the groups of a patch, or others with the same hashes.
  abbrev pub GroupsIn : Config → Record → Type 0
  GroupsIn config r =
      All
        (λ (g : OverlayProxyGroupIntent).
          (v : ProxyGroup) × (lookup (trim_space g.id) config.proxy_groups ≡ some v)
          × (proxy_hash v ≡ proxy_hash (proxy_group_value g)))
        r.patch.overlay.proxy_groups
      × All
          (λ (g : OverlayPolicyGroupIntent).
            (v : PolicyGroup) × (lookup (trim_space g.id) config.policy_groups ≡ some v)
            × (policy_hash v ≡ policy_hash (policy_group_value g)))
          r.patch.overlay.policy_groups

  abbrev IfEnabled : Merge → Record → Type 0
  IfEnabled m r = ((r.patch.status == status_enabled) ≡ false) ⊎ GroupsHeld m r

  GroupsHeld-kept : (m m' : Merge) (r : Record) → MergeKept m m' → GroupsHeld m r → GroupsHeld m' r
  unfolding MergeKept
  GroupsHeld-kept m m' r kept held = (
    All-map _ _ r.patch.overlay.proxy_groups
        (λ g.
          Holds-Kept proxy_hash m.proxy_groups m'.proxy_groups (trim_space g.id)
            (proxy_hash (proxy_group_value g)) kept.0)
        held.0,
    All-map _ _ r.patch.overlay.policy_groups
        (λ g.
          Holds-Kept policy_hash m.policy_groups m'.policy_groups (trim_space g.id)
            (policy_hash (policy_group_value g)) kept.1)
        held.1,
  )

  MergeKept-trans : (m t w : Merge) → MergeKept m t → MergeKept t w → MergeKept m w
  unfolding MergeKept
  MergeKept-trans m t w f g = (
    Kept-trans m.proxy_groups t.proxy_groups w.proxy_groups f.0 g.0,
    Kept-trans m.policy_groups t.policy_groups w.policy_groups f.1 g.1,
  )

  merge_enabled-off :
      (r : Record) (rs : List Record) (m : Merge)
      → (r.patch.status == status_enabled) ≡ false
      → merge_enabled (r ∷ rs) m ≡ merge_enabled rs m
  unfolding merge_enabled
  merge_enabled-off r rs m e = ground arith

  merge_enabled-on :
      (r : Record) (rs : List Record) (m : Merge)
      → (r.patch.status == status_enabled) ≡ true
      → merge_enabled (r ∷ rs) m ≡ (merge_overlay r m >>= λ m'. merge_enabled rs m')
  unfolding merge_enabled
  merge_enabled-on r rs m e = ground arith

  merge_enabled-GroupsHeld :
      (rs : List Record) (m m' : Merge)
      → MergeOk m
      → merge_enabled rs m ≡ ok m'
      → MergeKept m m' × All (IfEnabled m') rs
  unfolding merge_enabled MergeKept
  merge_enabled-GroupsHeld [] m m' good e =
      (subst (MergeKept m) (ok_inj e) ((λ key v q. q), (λ key v q. q)), tt)
  merge_enabled-GroupsHeld (r ∷ rs) m m' good e =
      elim (Bool-cases (r.patch.status == status_enabled)) [
        | inr off ↦
            let (kept, held) =
              merge_enabled-GroupsHeld rs m m' good (sym (merge_enabled-off r rs m off) ∙ e) in
            (kept, (inl off, held))
        | inl on ↦
            let (mid, first, rest) =
              >>=-eq-ok (merge_overlay r m) (λ t. merge_enabled rs t)
                (sym (merge_enabled-on r rs m on) ∙ e) in
            let (good', kept, held) = merge_overlay-GroupsHeld r m mid good first in
            let (kept', more) = merge_enabled-GroupsHeld rs mid m' good' rest in
            (MergeKept-trans m mid m' kept kept', (inr (GroupsHeld-kept mid m' r kept' held), more))
      ]

  module _ ⦃u : Unicode⦄ where
    -- When the records of a registry compile, the intent has under the id of every group of an
    -- enabled patch a group with the hash of that group.
    pub compile_records-GroupsIn :
        (records : List Record) (policy_template : String) (config : Config)
        (provenance : Provenance)
        → compile_records records policy_template ≡ ok (config, provenance)
        → All (λ r. ((r.patch.status == status_enabled) ≡ false) ⊎ GroupsIn config r) records
    unfolding compile_records MergeOk lookup
    compile_records-GroupsIn records policy_template config provenance e =
        let (checked, valid, e₁) = >>=-eq-ok (validate_records records) _ e in
        let (m, merged, e₂) = >>=-eq-ok (merge_enabled (sort_records records) no_merge) _ e₁ in
        let (kept, held) =
          merge_enabled-GroupsHeld (sort_records records) no_merge m
            ((λ key. inl (refl, refl)), (λ key. inl (refl, refl))) merged in
        subst
          (λ (c : Config).
            All (λ r. ((r.patch.status == status_enabled) ≡ false) ⊎ GroupsIn c r) records)
          (ap (λ (q : Config × Provenance). q.0) (ok_inj e₂))
          (All-sort_records (IfEnabled m) records held)

-- ===== src/Rules/Group/Exits.antt =====
-- The candidates of a checked policy group.
use local_clash.Prelude.{
  String, ◌≡◌, ◌⊎◌, inl, inr, Bool, true, false, List, [], ◌∷◌, arith, All, All-map, Bool-cases,
  if◌then◌else◌, ok, >>=-eq-ok, ok_inj, subst,
}
use local_clash.Prelude.Dict.{Dict, insert, has_key, has_key-insert_self, has_key-insert_keep}
use local_clash.Rules.Data.{PolicyGroup}
use local_clash.Rules.Target.{
  PreparedTargets, TargetKind, terminal, proxy_group, policy_group, render_target,
}
use local_clash.Rules.Target.Checked.{ExitOk, render_target-Resolves}
use local_clash.Rules.Group.{
  is_left_out, is_proxy_group, skips_exit, proxy_group_at, exits_from, candidate_policy_exits,
}

-- A candidate is a terminal action, or a referenced proxy group that is not left out.
abbrev pub CandidateOk : PreparedTargets → Dict Bool → String → Type 0
CandidateOk targets referenced m =
    (m ≡ "DIRECT")
    ⊎ (m ≡ "REJECT")
    ⊎ (has_key m referenced ≡ true) × (is_left_out (proxy_group_at targets m) ≡ false)

-- A checked exit never resolves to a policy group.
not_policy :
    (targets : PreparedTargets) (raw t : String)
    → ExitOk targets.proxy_groups raw
    → render_target raw targets ≡ ok (t, policy_group)
    → ⊥
unfolding render_target
not_policy targets raw t h e = ground arith

CandidateOk-new :
    (targets : PreparedTargets) (raw t : String) (kind : TargetKind) (seen referenced : Dict Bool)
    → ExitOk targets.proxy_groups raw
    → render_target raw targets ≡ ok (t, kind)
    → skips_exit targets t kind seen ≡ false
    → CandidateOk targets (if is_proxy_group kind then insert t true referenced else referenced) t
CandidateOk-new targets raw t terminal seen referenced h e k =
    ground (arith, render_target-Resolves raw t terminal targets e)
CandidateOk-new targets raw t proxy_group seen referenced h e k =
    inr (inr (has_key-insert_self t true referenced, ground arith))
CandidateOk-new targets raw t policy_group seen referenced h e k =
    absurd (not_policy targets raw t h e)

CandidateOk-keep :
    (targets : PreparedTargets) (t m : String) (kind : TargetKind) (referenced : Dict Bool)
    → CandidateOk targets referenced m
    → CandidateOk targets (if is_proxy_group kind then insert t true referenced else referenced) m
CandidateOk-keep targets t m terminal referenced h = h
CandidateOk-keep targets t m proxy_group referenced h =
    ground (arith, has_key-insert_keep t m true referenced)
CandidateOk-keep targets t m policy_group referenced h = h

-- One more round of the loop over the exits.
extended :
    PreparedTargets
    → String
    → TargetKind
    → Dict Bool
    → List String × Dict Bool
    → List String × Dict Bool
extended targets t kind seen later =
    if skips_exit targets t kind seen
    then (later.0, later.1)
    else (t ∷ later.0, if is_proxy_group kind then insert t true later.1 else later.1)

extended-Ok :
    (targets : PreparedTargets) (raw t : String) (kind : TargetKind) (seen : Dict Bool)
    (later : List String × Dict Bool)
    → ExitOk targets.proxy_groups raw
    → render_target raw targets ≡ ok (t, kind)
    → All (CandidateOk targets later.1) later.0
    → All
        (CandidateOk targets (extended targets t kind seen later).1)
        (extended targets t kind seen later).0
unfolding extended
extended-Ok targets raw t kind seen later h e before =
    elim (Bool-cases (skips_exit targets t kind seen)) [
      | inl out ↦ rw out before
      | inr kept ↦
          let referenced = if is_proxy_group kind then insert t true later.1 else later.1 in
          rw kept (
            CandidateOk-new targets raw t kind seen later.1 h e kept,
            All-map (CandidateOk targets later.1) (CandidateOk targets referenced) later.0
                (λ m. CandidateOk-keep targets t m kind later.1) before,
          )
    ]

exits_from-Ok :
    (targets : PreparedTargets) (exits : List String) (seen : Dict Bool)
    (found : List String × Dict Bool)
    → All (ExitOk targets.proxy_groups) exits
    → exits_from targets exits seen ≡ ok found
    → All (CandidateOk targets found.1) found.0
unfolding exits_from extended
exits_from-Ok targets [] seen found h e =
    subst {A = List String × Dict Bool} (λ f. All (CandidateOk targets f.1) f.0) (ok_inj e) tt
exits_from-Ok targets (raw ∷ exits) seen found h e =
    let (target, resolved, e₁) = >>=-eq-ok (render_target raw targets) _ e in
    let skip = skips_exit targets target.0 target.1 seen in
    let seen' = if skip then seen else insert target.0 true seen in
    let (later, rest, done) = >>=-eq-ok (exits_from targets exits seen') _ e₁ in
    subst {A = List String × Dict Bool} (λ f. All (CandidateOk targets f.1) f.0) (ok_inj done)
      (extended-Ok targets raw target.0 target.1 seen later h.0 resolved
        (exits_from-Ok targets exits seen' later h.1 rest))

-- The candidates of a checked policy group are terminal actions and referenced proxy groups that
-- are not left out.
pub candidate_policy_exits-Ok :
    (targets : PreparedTargets) (group : PolicyGroup) (found : List String × Dict Bool)
    → All (ExitOk targets.proxy_groups) group.exits
    → candidate_policy_exits group targets ≡ ok found
    → All (CandidateOk targets found.1) found.0
unfolding candidate_policy_exits
candidate_policy_exits-Ok targets group found h e = exits_from-Ok targets group.exits [] found h e

-- ===== src/Rules/Group/Forms.antt =====
-- The settings of the rendered groups: a name, and members of a known kind.
use local_clash.Prelude.{
  String, ◌≡◌, refl, subst, ◌⊎◌, inl, inr, Bool, true, false, ◌||◌, not, List, [], ◌∷◌, ◌++◌, ◌==◌,
  arith, All, All-map, All-append, Bool-cases, Option-cases, if◌then◌else◌, is_empty, some, ok,
  >>=-eq-ok, guard-eq-ok, ok_inj,
}
use local_clash.Prelude.Text.{is_blank, trim_space}
use local_clash.Prelude.Dict.{Dict, lookup, insert, has_key, keys, elem}
use local_clash.Rules.Data.{Setting, text, texts}
use local_clash.Rules.Target.{PreparedTargets, mark_available}
use local_clash.Rules.Target.Checked.{NodeOk, AllGroups, ProxyGroupOk, elem_of_NodeOk}
use local_clash.Rules.Group.{
  candidates_from, candidate_proxies, proxy_group_at, policy_group_at, candidate_policy_exits,
  group_settings, wrap_error, mark_all, build_proxy_groups, build_policy_groups,
}
use local_clash.Rules.Group.Rendered.{has_key-mark_all, proxy_settings, build_proxy_groups-step}

-- A group with a name, and with members that satisfy `P`.
pub record GroupForm (P : String → Type 0) (g : Dict Setting) : Type 0 where
  pub name : String
  pub members : List String
  pub named : lookup "name" g ≡ some (text name)
  pub listed : lookup "proxies" g ≡ some (texts members)
  pub all : All P members

pub GroupForm-mono :
    (P Q : String → Type 0) (g : Dict Setting)
    → ((m : String) → P m → Q m)
    → GroupForm P g
    → GroupForm Q g
GroupForm-mono P Q g f h = record {
  name = h.name;
  members = h.members;
  named = h.named;
  listed = h.listed;
  all = All-map P Q h.members f h.all;
}

pub group_settings-Form :
    (P : String → Type 0) (auto smart : Bool) (name : String) (candidates choices : List String)
    → All P candidates
    → All P choices
    → GroupForm P (group_settings auto smart name candidates choices)
unfolding group_settings lookup
group_settings-Form P true smart name candidates choices h k = record {
  name = name;
  members = candidates;
  named = refl;
  listed = refl;
  all = h;
}
group_settings-Form P false true name candidates choices h k = record {
  name = name;
  members = candidates;
  named = refl;
  listed = refl;
  all = h;
}
group_settings-Form P false false name candidates choices h k = record {
  name = name;
  members = choices;
  named = refl;
  listed = refl;
  all = k;
}

-- what holds of every group holds of the one at a key
pub AllGroups-lookup {ℓ} :
    {V : Type ℓ} (P : String → V → Type 0) (Q : V → Type 0) (k : String) (v : V) (m : Dict V)
    → ((n : String) (w : V) → P n w → Q w)
    → AllGroups P m
    → lookup k m ≡ some v
    → Q v
unfolding lookup
AllGroups-lookup P Q k v [] f h e = cc
AllGroups-lookup P Q k v ((j, w) ∷ m) f h e = elim (Bool-cases (j == k)) [
  | inl here ↦ let same : w ≡ v = ground arith in subst Q same (f j w h.0)
  | inr there ↦ AllGroups-lookup P Q k v m f h.1 (ground arith)
]

module _ (names : List String) where
  candidates_from-elem :
      (nodes : List String) (seen : Dict Bool)
      → All (NodeOk (mark_available names [])) nodes
      → All (λ m. elem m names ≡ true) (candidates_from nodes seen)
  unfolding candidates_from
  candidates_from-elem [] seen h = tt
  candidates_from-elem (raw ∷ nodes) seen h =
      let skip = is_blank (trim_space raw) || has_key (trim_space raw) seen in
      elim (Bool-cases skip) [
        | inl out ↦ rw out (candidates_from-elem nodes seen h.1)
        | inr kept ↦ rw kept (
          elem_of_NodeOk names raw h.0,
          candidates_from-elem nodes (insert (trim_space raw) true seen) h.1,
        )
      ]

  candidate_proxies-elem :
      (targets : PreparedTargets) (name : String)
      → AllGroups (λ _ g. ProxyGroupOk (mark_available names []) g) targets.proxy_groups
      → All (λ m. elem m names ≡ true) (candidate_proxies (proxy_group_at targets name))
  unfolding candidate_proxies proxy_group_at
  candidate_proxies-elem targets name h = elim (Option-cases (lookup name targets.proxy_groups)) [
    | inl absent ↦ rw absent (unfold candidates_from in tt)
    | inr (g, found) ↦ rw found (
        candidates_from-elem g.nodes [] (
          AllGroups-lookup (λ _ g. ProxyGroupOk (mark_available names []) g)
            (λ g. All (NodeOk (mark_available names [])) g.nodes) name g targets.proxy_groups
            (λ n w ok_w. ok_w.nodes_known) h found))
  ]

-- A proxy group's members are nodes of the subscription, or DIRECT.
abbrev pub IsNode : List String → String → Type 0
IsNode names m = (elem m names ≡ true) ⊎ (m ≡ "DIRECT")

proxy_settings-Form :
    (names : List String) (targets : PreparedTargets) (name : String)
    → AllGroups (λ _ g. ProxyGroupOk (mark_available names []) g) targets.proxy_groups
    → GroupForm (IsNode names) (proxy_settings targets name)
proxy_settings-Form names targets name h =
    let g = proxy_group_at targets name in
    let nodes =
      All-map (λ m. elem m names ≡ true) (IsNode names) (candidate_proxies g) (λ m k. inl k)
        (candidate_proxies-elem names targets name h) in
    group_settings-Form (IsNode names) g.auto g.smart name (candidate_proxies g)
      (candidate_proxies g ++ (if g.direct then "DIRECT" ∷ [] else [])) nodes
      (All-append (IsNode names) (candidate_proxies g) (if g.direct then "DIRECT" ∷ [] else [])
        nodes (direct_form g.direct))
  where
    direct_form : (b : Bool) → All (IsNode names) (if b then "DIRECT" ∷ [] else [])
    direct_form true = (inr refl, tt)
    direct_form false = tt

pub build_proxy_groups-Form :
    (names : List String) (targets : PreparedTargets) (group_names choices : List String)
    (groups : List (Dict Setting))
    → AllGroups (λ _ g. ProxyGroupOk (mark_available names []) g) targets.proxy_groups
    → build_proxy_groups targets group_names ≡ ok (groups, choices)
    → All (GroupForm (IsNode names)) groups
unfolding build_proxy_groups
build_proxy_groups-Form names targets [] choices groups h e =
    let none_built : [] ≡ groups = ground arith in
    subst (All (GroupForm (IsNode names))) none_built tt
build_proxy_groups-Form names targets (name ∷ group_names) choices groups h e =
    elim (build_proxy_groups-step targets name group_names choices groups e) [
      | inl (out, rest) ↦ build_proxy_groups-Form names targets group_names choices groups h rest
      | inr (built, rest, first) ↦ rw first (
        proxy_settings-Form names targets name h,
        build_proxy_groups-Form names targets group_names built.1 built.0 h rest,
      )
    ]

-- what is marked stays marked
pub build_policy_groups-marks :
    (targets : PreparedTargets) (names : List String) (referenced : Dict Bool)
    (found : List (Dict Setting) × Dict Bool) (n : String)
    → build_policy_groups targets names referenced ≡ ok found
    → has_key n referenced ≡ true
    → has_key n found.1 ≡ true
unfolding build_policy_groups
build_policy_groups-marks targets [] referenced found n h k =
    subst {A = List (Dict Setting) × Dict Bool} (λ f. has_key n f.1 ≡ true) (ok_inj h) k
build_policy_groups-marks targets (name ∷ names) referenced found n h k =
    let (c, _, h₁) =
      >>=-eq-ok (wrap_error name (candidate_policy_exits (policy_group_at targets name) targets)) _
        h in
    let (_, h₂) = guard-eq-ok (not (is_empty c.0)) _ _ h₁ in
    let marked = mark_all (keys c.1) referenced in
    let (built, rest, done) = >>=-eq-ok (build_policy_groups targets names marked) _ h₂ in
    subst {A = List (Dict Setting) × Dict Bool} (λ f. has_key n f.1 ≡ true) (ok_inj done)
      (build_policy_groups-marks targets names marked built n rest
        (ground (arith, has_key-mark_all n (keys c.1) referenced)))

-- ===== src/Rules/Group.antt =====
-- internal/rules/model.go: the Mihomo proxy groups that a fragment's rules refer to.
pub mod Order
pub mod Candidates
pub mod Rendered
pub mod Exits
pub mod Forms
use Prim.Native.Char.{Char}
use local_clash.Prelude.{
  ℕ, String, Bool, true, false, ◌&&◌, ◌||◌, not, List, [], ◌∷◌, ◌++◌, ◌==◌, Option, none, some,
  if◌then◌else◌, is_empty, Result, ok, err, ◌>>=◌, ◌>>◌, guard,
}
use local_clash.Prelude.Text.{Unicode, is_blank, trim_space, trim_left, text_lt}
use local_clash.Prelude.Dict.{Dict, lookup, insert, has_key, keys}
use local_clash.Rules.Data.{
  ProxyGroup, PolicyGroup, RenderError, Setting, text, texts, number, flag,
  group_without_candidates, policy_without_candidates, in_policy,
}
use local_clash.Rules.Target.{
  PreparedTargets, TargetKind, terminal, proxy_group, policy_group, render_target,
}

abbrev is_word : ⦃u : Unicode⦄ → Char → Bool
is_word ⦃u⦄ r = u.is_letter r || u.is_number r

module _ ⦃u : Unicode⦄ where
  unfoldable pub display_sort_key : String → String
  display_sort_key name = trim_space (trim_left (λ r. not (is_word r)) (trim_space name))

  -- the comparison of `sortNamesByDisplay`
  unfoldable pub display_less : String → String → Bool
  display_less a b =
      let left = display_sort_key a in
      let right = display_sort_key b in if left == right then text_lt a b else text_lt left right

  unfoldable pub insert_by_display : String → List String → List String
  insert_by_display name [] = name ∷ []
  insert_by_display name (x ∷ xs) =
      if display_less x name then x ∷ insert_by_display name xs else name ∷ x ∷ xs

  -- `sort.Slice` by `display_less`: the result of any correct sort
  unfoldable pub sort_names_by_display : List String → List String
  unfolding insert_by_display
  sort_names_by_display [] = []
  sort_names_by_display (x ∷ xs) = insert_by_display x (sort_names_by_display xs)

-- the loop of `candidateProxies`
unfoldable pub candidates_from : List String → Dict Bool → List String
candidates_from [] seen = []
candidates_from (raw ∷ nodes) seen =
    let proxy = trim_space raw in
    let skip = is_blank proxy || has_key proxy seen in
    let rest = candidates_from nodes (if skip then seen else insert proxy true seen) in
    if skip then rest else proxy ∷ rest

unfoldable pub candidate_proxies : ProxyGroup → List String
unfolding candidates_from
candidate_proxies group = candidates_from group.nodes []

abbrev empty_group : ProxyGroup
empty_group = record {
  nodes = [];
  auto = false;
  manual = false;
  smart = false;
  direct = false;
  optional = false;
}

abbrev empty_policy : PolicyGroup
empty_policy = record { exits = []; auto = false; manual = false; smart = false }

abbrev pub group_or : Option ProxyGroup → ProxyGroup
group_or none = empty_group
group_or (some g) = g

abbrev pub policy_or : Option PolicyGroup → PolicyGroup
policy_or none = empty_policy
policy_or (some g) = g

-- `targets.proxyGroups[name]`, the zero value if the key is missing
unfoldable pub proxy_group_at : PreparedTargets → String → ProxyGroup
proxy_group_at targets name = group_or (lookup name targets.proxy_groups)

unfoldable pub policy_group_at : PreparedTargets → String → PolicyGroup
policy_group_at targets name = policy_or (lookup name targets.policy_groups)

-- An optional group that is not direct and has no candidates is left out everywhere.
unfoldable pub is_left_out : ProxyGroup → Bool
is_left_out g = g.optional && not g.direct && is_empty (candidate_proxies g)

abbrev pub is_proxy_group : TargetKind → Bool
is_proxy_group proxy_group = true
is_proxy_group _ = false

abbrev pub skips_exit : PreparedTargets → String → TargetKind → Dict Bool → Bool
skips_exit targets exit kind seen =
    is_blank exit
    || has_key exit seen
    || (is_proxy_group kind && is_left_out (proxy_group_at targets exit))

-- the loop of `candidatePolicyExits`: the candidates, and the proxy groups among them
unfoldable pub exits_from :
    PreparedTargets → List String → Dict Bool → Result RenderError (List String × Dict Bool)
exits_from targets [] seen = ok ([], [])
exits_from targets (raw ∷ exits) seen = do
  (exit, kind) ← render_target raw targets
  let skip = skips_exit targets exit kind seen
  (candidates, referenced) ← exits_from targets exits (if skip then seen else insert exit true seen)
  ok (
      if skip then (candidates, referenced) else (
        exit ∷ candidates,
        if is_proxy_group kind then insert exit true referenced else referenced,
      ))

unfoldable pub candidate_policy_exits :
    PolicyGroup → PreparedTargets → Result RenderError (List String × Dict Bool)
unfolding exits_from
candidate_policy_exits group targets = exits_from targets group.exits []

-- The groups of type `url-test`, `smart` and `select`.
unfoldable pub auto_group : String → List String → Dict Setting
auto_group name candidates =
    ("name", text name)
    ∷ ("type", text "url-test")
    ∷ ("proxies", texts candidates)
    ∷ ("url", text "http://www.gstatic.com/generate_204")
    ∷ ("interval", number 300)
    ∷ []

unfoldable pub smart_group : String → List String → Dict Setting
smart_group name candidates =
    ("name", text name)
    ∷ ("type", text "smart")
    ∷ ("proxies", texts candidates)
    ∷ ("uselightgbm", flag true)
    ∷ ("prefer-asn", flag true)
    ∷ []

unfoldable pub select_group : String → List String → Dict Setting
select_group name candidates =
    ("name", text name) ∷ ("type", text "select") ∷ ("proxies", texts candidates) ∷ []

unfoldable pub group_settings : Bool → Bool → String → List String → List String → Dict Setting
unfolding auto_group smart_group select_group
group_settings auto smart name candidates choices =
    if auto
    then auto_group name candidates
    else if smart
    then smart_group name candidates
    else select_group name choices

-- the loop over the sorted names
unfoldable pub build_proxy_groups :
    PreparedTargets → List String → Result RenderError (List (Dict Setting) × List String)
build_proxy_groups targets [] = ok ([], [])
build_proxy_groups targets (name ∷ names) =
    let group = proxy_group_at targets name in
    let candidates = candidate_proxies group in
    let rest = build_proxy_groups targets names in
    if is_empty candidates && group.optional && not group.direct then rest else (do
      guard (not (is_empty candidates && not group.direct)) (group_without_candidates name)
      (groups, choices) ← rest
      ok (
        group_settings group.auto group.smart name candidates
              (candidates ++ (if group.direct then "DIRECT" ∷ [] else []))
            ∷ groups,
        if group.optional && not group.direct then name ∷ choices else choices,
      ))

-- the names of `used` for which `region` holds
unfoldable pub names_where : (String → Bool) → List String → List String
names_where region [] = []
names_where region (name ∷ names) =
    let rest = names_where region names in if region name then name ∷ rest else rest

abbrev pub is_region : PreparedTargets → String → Bool
is_region targets name =
    let group = proxy_group_at targets name in group.optional && not group.direct

module _ ⦃u : Unicode⦄ where
  unfoldable pub ordered_proxy_names : PreparedTargets → List String → List String
  ordered_proxy_names targets used =
      sort_names_by_display (names_where (λ n. not (is_region targets n)) used)
      ++ sort_names_by_display (names_where (is_region targets) used)

  unfoldable pub materialize_proxy_groups :
      Dict Bool → PreparedTargets → Result RenderError (List (Dict Setting) × List String)
  unfolding ordered_proxy_names
  materialize_proxy_groups used targets =
      build_proxy_groups targets (ordered_proxy_names targets (keys used))

abbrev pub wrap_error {ℓ} : {A : Type ℓ} → String → Result RenderError A → Result RenderError A
wrap_error name (ok a) = ok a
wrap_error name (err e) = err (in_policy name e)

-- referencedProxyGroups[proxy] = true, for each
unfoldable pub mark_all : List String → Dict Bool → Dict Bool
mark_all [] marked = marked
mark_all (name ∷ names) marked = mark_all names (insert name true marked)

-- the loop over the sorted names; `referenced` grows as in the source
unfoldable pub build_policy_groups :
    PreparedTargets → List String → Dict Bool → Result RenderError (List (Dict Setting) × Dict Bool)
build_policy_groups targets [] referenced = ok ([], referenced)
build_policy_groups targets (name ∷ names) referenced =
    let group = policy_group_at targets name in
    do
      (candidates, proxies) ← wrap_error name (candidate_policy_exits group targets)
      guard (not (is_empty candidates)) (policy_without_candidates name)
      (groups, marked) ← build_policy_groups targets names (mark_all (keys proxies) referenced)
      ok (group_settings group.auto group.smart name candidates candidates ∷ groups, marked)

module _ ⦃u : Unicode⦄ where
  unfoldable pub materialize_policy_groups :
      Dict Bool → PreparedTargets → Result RenderError (List (Dict Setting) × Dict Bool)
  materialize_policy_groups used targets =
      build_policy_groups targets (sort_names_by_display (keys used)) []

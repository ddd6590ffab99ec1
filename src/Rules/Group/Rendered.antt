-- ===== src/Rules/Group/Rendered.antt =====
-- Which groups are rendered, and what they hold.
use local_clash.Prelude.{
  String, ◌≡◌, refl, ◌∙◌, ◌⊎◌, inl, inr, Bool, true, false, ◌||◌, ◌&&◌, not, List, [], ◌∷◌, ◌++◌,
  ◌==◌, eq_iff, arith, Bool-cases, if◌then◌else◌, is_empty, Option, some, ok, >>=-eq-ok,
  guard-eq-ok,
}
use local_clash.Prelude.Text.{Unicode}
use local_clash.Prelude.Dict.{
  Dict, lookup, insert, has_key, has_key-insert, keys, elem, elem-append, elem-keys,
}
use local_clash.Rules.Data.{Setting, text}
use local_clash.Rules.Target.{PreparedTargets}
use local_clash.Rules.Group.Order.{elem-sort}
use local_clash.Rules.Group.{
  group_settings, candidate_proxies, candidate_policy_exits, is_left_out, proxy_group_at,
  policy_group_at, build_proxy_groups, build_policy_groups, names_where, mark_all,
  ordered_proxy_names, sort_names_by_display, wrap_error, materialize_proxy_groups,
  materialize_policy_groups,
}

is_named : String → Option Setting → Bool
is_named name (some (text n)) = n == name
is_named name _ = false

-- A group of this name is among the groups.
unfoldable pub has_group : String → List (Dict Setting) → Bool
unfolding is_named lookup
has_group name [] = false
has_group name (g ∷ groups) = is_named name (lookup "name" g) || has_group name groups

pub has_group-append :
    (n : String) (xs ys : List (Dict Setting))
    → has_group n (xs ++ ys) ≡ (has_group n xs || has_group n ys)
unfolding has_group
has_group-append n [] ys = refl
has_group-append n (x ∷ xs) ys = ground (arith, has_group-append n xs ys)

named_settings :
    (auto smart : Bool) (name : String) (candidates choices : List String)
    → lookup "name" (group_settings auto smart name candidates choices) ≡ some (text name)
unfolding group_settings lookup
named_settings true smart name candidates choices = refl
named_settings false true name candidates choices = refl
named_settings false false name candidates choices = refl

build_policy_groups-has :
    (targets : PreparedTargets) (names : List String) (referenced marked : Dict Bool)
    (groups : List (Dict Setting)) (n : String)
    → build_policy_groups targets names referenced ≡ ok (groups, marked)
    → elem n names ≡ true
    → has_group n groups ≡ true
unfolding build_policy_groups elem has_group
build_policy_groups-has targets [] referenced marked groups n h e = cc
build_policy_groups-has targets (name ∷ names) referenced marked groups n h e =
    let g = policy_group_at targets name in
    let (found, _, h₁) = >>=-eq-ok (wrap_error name (candidate_policy_exits g targets)) _ h in
    let (_, h₂) = guard-eq-ok (not (is_empty found.0)) _ _ h₁ in
    let (built, rest, done) =
      >>=-eq-ok (build_policy_groups targets names (mark_all (keys found.1) referenced)) _ h₂ in
    ground (
      arith,
      build_policy_groups-has targets names (mark_all (keys found.1) referenced) built.1 built.0 n,
      named_settings g.auto g.smart name found.0 found.0,
    )

-- The settings that one proxy group is rendered to.
abbrev pub proxy_settings : PreparedTargets → String → Dict Setting
proxy_settings targets name =
    let g = proxy_group_at targets name in
    group_settings g.auto g.smart name (candidate_proxies g)
      (candidate_proxies g ++ (if g.direct then "DIRECT" ∷ [] else []))

-- One round of the loop: the group is left out, or it is the first of the result.
pub build_proxy_groups-step :
    (targets : PreparedTargets) (name : String) (names choices : List String)
    (groups : List (Dict Setting))
    → build_proxy_groups targets (name ∷ names) ≡ ok (groups, choices)
    → ((is_left_out (proxy_group_at targets name) ≡ true)
        × (build_proxy_groups targets names ≡ ok (groups, choices)))
      ⊎ ((built : List (Dict Setting) × List String) × (build_proxy_groups targets names ≡ ok built)
          × (groups ≡ proxy_settings targets name ∷ built.0))
unfolding build_proxy_groups is_left_out
build_proxy_groups-step targets name names choices groups h =
    let g = proxy_group_at targets name in
    elim (Bool-cases (is_empty (candidate_proxies g) && g.optional && not g.direct)) [
      | inl out ↦ inl (ground arith, rw out at h)
      | inr kept ↦
          let k = rw kept at h in
          let (_, h₁) = guard-eq-ok (not (is_empty (candidate_proxies g) && not g.direct)) _ _ k in
          let (built, rest, done) = >>=-eq-ok (build_proxy_groups targets names) _ h₁ in
          inr (built, rest, ground arith)
    ]

build_proxy_groups-has :
    (targets : PreparedTargets) (names choices : List String) (groups : List (Dict Setting))
    (n : String)
    → build_proxy_groups targets names ≡ ok (groups, choices)
    → elem n names ≡ true
    → (has_group n groups || is_left_out (proxy_group_at targets n)) ≡ true
unfolding elem has_group
build_proxy_groups-has targets [] choices groups n h e = cc
build_proxy_groups-has targets (name ∷ names) choices groups n h e =
    let g = proxy_group_at targets name in
    elim (build_proxy_groups-step targets name names choices groups h) [
      | inl (out, rest) ↦
          ground (arith, eq_iff name n, build_proxy_groups-has targets names choices groups n rest)
      | inr (built, rest, first) ↦ ground (
        arith,
        eq_iff name n,
        build_proxy_groups-has targets names built.1 built.0 n rest,
        named_settings g.auto g.smart name (candidate_proxies g)
            (candidate_proxies g ++ (if g.direct then "DIRECT" ∷ [] else [])),
      )
    ]

elem-names_where :
    (region : String → Bool) (n : String) (xs : List String)
    → elem n (names_where region xs) ≡ (elem n xs && region n)
unfolding elem names_where
elem-names_where region n [] = refl
elem-names_where region n (x ∷ xs) = ground (arith, elem-names_where region n xs, eq_iff x n)

-- what is marked stays marked, and what is listed gets marked
pub has_key-mark_all :
    (n : String) (names : List String) (m : Dict Bool)
    → has_key n (mark_all names m) ≡ (elem n names || has_key n m)
unfolding mark_all elem
has_key-mark_all n [] m = refl
has_key-mark_all n (x ∷ names) m =
    ground (arith, has_key-mark_all n names (insert x true m), has_key-insert x n true m)

module _ ⦃u : Unicode⦄ where
  elem-ordered :
      (targets : PreparedTargets) (n : String) (xs : List String)
      → elem n (ordered_proxy_names targets xs) ≡ elem n xs
  unfolding ordered_proxy_names
  elem-ordered targets n xs = simp (elem-append, elem-sort, elem-names_where) (ground arith)

  -- Every used proxy group is rendered or left out.
  pub materialize_proxy_groups-has :
      (targets : PreparedTargets) (used : Dict Bool) (choices : List String)
      (groups : List (Dict Setting)) (n : String)
      → materialize_proxy_groups used targets ≡ ok (groups, choices)
      → has_key n used ≡ true
      → (has_group n groups || is_left_out (proxy_group_at targets n)) ≡ true
  unfolding materialize_proxy_groups
  materialize_proxy_groups-has targets used choices groups n h k =
      build_proxy_groups-has targets (ordered_proxy_names targets (keys used)) choices groups n h
        (elem-ordered targets n (keys used) ∙ elem-keys n used ∙ k)

  -- Every used policy group is rendered.
  pub materialize_policy_groups-has :
      (targets : PreparedTargets) (used marked : Dict Bool) (groups : List (Dict Setting))
      (n : String)
      → materialize_policy_groups used targets ≡ ok (groups, marked)
      → has_key n used ≡ true
      → has_group n groups ≡ true
  unfolding materialize_policy_groups
  materialize_policy_groups-has targets used marked groups n h k =
      build_policy_groups-has targets (sort_names_by_display (keys used)) [] marked groups n h
        (elem-sort n (keys used) ∙ elem-keys n used ∙ k)

-- ===== src/Rules/Group/Order.antt =====
-- `sortNamesByDisplay`: a strict linear order, and one result for every order of the input.
use mathlib.Core.List.{Perm, Permᴰ}
use mathlib.Core.List.Permᴰ as PermD
use mathlib.Core.Logic.{∥∥₁_elim}
use mathlib.Core.HLevel.{hedberg}
use local_clash.Prelude.{
  String, ◌≡◌, refl, ◌∙◌, Bool, true, false, ◌||◌, not, List, [], ◌∷◌, ◌==◌, eq_iff, arith,
  Bool-cases, All, if◌then◌else◌, inl, inr, ap, ap₂, ◌++◌,
}
use local_clash.Prelude.Text.{Unicode}
use local_clash.Prelude.Text.Laws.{text_lt_irrefl, text_lt_trans, text_lt_total}
use local_clash.Prelude.Dict.{Dict, keys, elem}
use local_clash.Rules.Target.{PreparedTargets}
use local_clash.Rules.Group.{
  display_sort_key, display_less, insert_by_display, sort_names_by_display, names_where, is_region,
  ordered_proxy_names, build_proxy_groups, build_policy_groups, materialize_proxy_groups,
  materialize_policy_groups,
}

String-discrete : Discrete String
String-discrete s t = elim (Bool-cases (s == t)) [
  | inl same ↦ yes ((eq_iff s t).0 same)
  | inr other ↦ no (λ e. cc (other, (eq_iff s t).1 e))
]

texts_set : IsSet (List String)
texts_set = hlevel (hedberg String-discrete)

module _ ⦃u : Unicode⦄ where
  display_less_irrefl : (a : String) → display_less a a ≡ false
  unfolding display_less
  display_less_irrefl a = ground (arith, text_lt_irrefl a, text_lt_irrefl (display_sort_key a))

  display_less_trans :
      (a b c : String) → display_less a b ≡ true → display_less b c ≡ true → display_less a c ≡ true
  unfolding display_less
  display_less_trans a b c h k = ground (
    arith,
    eq_iff (display_sort_key a) (display_sort_key b),
    eq_iff (display_sort_key b) (display_sort_key c),
    eq_iff (display_sort_key a) (display_sort_key c),
    text_lt_trans a b c,
    text_lt_trans (display_sort_key a) (display_sort_key b) (display_sort_key c),
    text_lt_trans (display_sort_key a) (display_sort_key b) (display_sort_key a),
    text_lt_irrefl (display_sort_key a),
  )

  display_less_total : (a b : String) → display_less a b ≡ false → display_less b a ≡ false → a ≡ b
  unfolding display_less
  display_less_total a b h k = ground (
    arith,
    eq_iff (display_sort_key a) (display_sort_key b),
    eq_iff (display_sort_key b) (display_sort_key a),
    text_lt_total a b,
    text_lt_total (display_sort_key a) (display_sort_key b),
  )

  -- two insertions commute
  insert_by_display_comm :
      (a b : String) (xs : List String)
      → insert_by_display a (insert_by_display b xs) ≡ insert_by_display b (insert_by_display a xs)
  unfolding insert_by_display
  insert_by_display_comm a b [] =
      ground (arith, display_less_total a b, display_less_trans a b a, display_less_irrefl a)
  insert_by_display_comm a b (x ∷ xs) = ground (
    arith,
    insert_by_display_comm a b xs,
    display_less_total a b,
    display_less_trans a b a,
    display_less_irrefl a,
    display_less_trans x a b,
    display_less_trans x b a,
  )

  sort-Permᴰ :
      {xs ys : List String} → Permᴰ xs ys → sort_names_by_display xs ≡ sort_names_by_display ys
  unfolding sort_names_by_display
  sort-Permᴰ Permᴰ.nil = refl
  sort-Permᴰ (Permᴰ.cons {a = x} e p) = rw (e, sort-Permᴰ p)
  sort-Permᴰ (Permᴰ.swap {a = x} {b = y} {l = l} e f) =
      rw (e, f) (insert_by_display_comm _ _ (sort_names_by_display l))
  sort-Permᴰ (Permᴰ.trans p q) = sort-Permᴰ p ∙ sort-Permᴰ q

  -- The sorted names do not depend on the order in which Go's map hands them out.
  pub sort-Perm :
      {xs ys : List String} → Perm xs ys → sort_names_by_display xs ≡ sort_names_by_display ys
  sort-Perm p = ∥∥₁_elim p (texts_set _ _) sort-Permᴰ

  -- each name comes before those behind it
  abbrev pub IsSorted : List String → Type 0
  IsSorted [] = Unit
  IsSorted (x ∷ xs) = All (λ y. display_less y x ≡ false) xs × IsSorted xs

  All-insert_by_display :
      (x y : String) (xs : List String)
      → display_less y x ≡ false
      → All (λ z. display_less z x ≡ false) xs
      → All (λ z. display_less z x ≡ false) (insert_by_display y xs)
  unfolding insert_by_display
  All-insert_by_display x y [] h k = (h, tt)
  All-insert_by_display x y (z ∷ xs) h k = elim (Bool-cases (display_less z y)) [
    | inl lt ↦ rw lt (k.0, All-insert_by_display x y xs h k.1)
    | inr ge ↦ rw ge (h, k)
  ]

  All-not_less_trans :
      (x y : String) (xs : List String)
      → display_less y x ≡ false
      → All (λ z. display_less z y ≡ false) xs
      → All (λ z. display_less z x ≡ false) xs
  All-not_less_trans x y [] h k = tt
  All-not_less_trans x y (z ∷ xs) h k = (
    ground (arith, display_less_total x y, display_less_trans z x y),
    All-not_less_trans x y xs h k.1,
  )

  insert_by_display-IsSorted :
      (y : String) (xs : List String) → IsSorted xs → IsSorted (insert_by_display y xs)
  unfolding insert_by_display
  insert_by_display-IsSorted y [] h = (tt, tt)
  insert_by_display-IsSorted y (x ∷ xs) h = elim (Bool-cases (display_less x y)) [
    | inl lt ↦ rw lt (
      All-insert_by_display x y xs (ground (arith, display_less_trans x y x, display_less_irrefl x))
          h.0,
      insert_by_display-IsSorted y xs h.1,
    )
    | inr ge ↦ rw ge ((ge, All-not_less_trans y x xs ge h.0), h)
  ]

  pub sort-IsSorted : (xs : List String) → IsSorted (sort_names_by_display xs)
  unfolding sort_names_by_display
  sort-IsSorted [] = tt
  sort-IsSorted (x ∷ xs) =
      insert_by_display-IsSorted x (sort_names_by_display xs) (sort-IsSorted xs)

  elem-insert_by_display :
      (n x : String) (xs : List String) → elem n (insert_by_display x xs) ≡ (x == n || elem n xs)
  unfolding insert_by_display elem
  elem-insert_by_display n x [] = refl
  elem-insert_by_display n x (y ∷ xs) = ground (arith, elem-insert_by_display n x xs)

  pub elem-sort : (n : String) (xs : List String) → elem n (sort_names_by_display xs) ≡ elem n xs
  unfolding sort_names_by_display elem
  elem-sort n [] = refl
  elem-sort n (x ∷ xs) =
      ground (arith, elem-sort n xs, elem-insert_by_display n x (sort_names_by_display xs))

keep_cons :
    (r : Bool) (x : String) {xs ys : List String}
    → Permᴰ xs ys
    → Permᴰ (if r then x ∷ xs else xs) (if r then x ∷ ys else ys)
keep_cons true x p = Permᴰ.cons refl p
keep_cons false x p = p

keep_swap :
    (r s : Bool) (x y : String) (l : List String)
    → Permᴰ
        (if r then x ∷ (if s then y ∷ l else l) else (if s then y ∷ l else l))
        (if s then y ∷ (if r then x ∷ l else l) else (if r then x ∷ l else l))
keep_swap true true x y l = Permᴰ.swap refl refl
keep_swap true false x y l = PermD.refl (x ∷ l)
keep_swap false true x y l = PermD.refl (y ∷ l)
keep_swap false false x y l = PermD.refl l

names_where-Permᴰ :
    (region : String → Bool) {xs ys : List String}
    → Permᴰ xs ys
    → Permᴰ (names_where region xs) (names_where region ys)
unfolding names_where
names_where-Permᴰ region Permᴰ.nil = Permᴰ.nil
names_where-Permᴰ region (Permᴰ.cons {b = y} e p) =
    rw e (keep_cons (region y) y (names_where-Permᴰ region p))
names_where-Permᴰ region (Permᴰ.swap {a' = y} {b' = x} {l = l} e f) =
    rw (e, f) (keep_swap (region x) (region y) x y (names_where region l))
names_where-Permᴰ region (Permᴰ.trans p q) =
    Permᴰ.trans (names_where-Permᴰ region p) (names_where-Permᴰ region q)

module _ ⦃u : Unicode⦄ where
  ordered-Permᴰ :
      (targets : PreparedTargets) {xs ys : List String}
      → Permᴰ xs ys
      → ordered_proxy_names targets xs ≡ ordered_proxy_names targets ys
  unfolding ordered_proxy_names
  ordered-Permᴰ targets p =
      ap₂ (λ (a b : List String). a ++ b)
        (sort-Permᴰ (names_where-Permᴰ (λ n. not (is_region targets n)) p))
        (sort-Permᴰ (names_where-Permᴰ (is_region targets) p))

  -- Go's random order of iteration over the used proxy groups does not change what is rendered:
  -- sets with the same names, in any order, give the same groups, the same choices and the same
  -- error.
  pub materialize_proxy_groups-Perm :
      (targets : PreparedTargets) (used used' : Dict Bool)
      → Perm (keys used) (keys used')
      → materialize_proxy_groups used targets ≡ materialize_proxy_groups used' targets
  unfolding materialize_proxy_groups
  materialize_proxy_groups-Perm targets used used' p =
      ap (build_proxy_groups targets) (∥∥₁_elim p (texts_set _ _) (ordered-Permᴰ targets))

  -- The same of the used policy groups.
  pub materialize_policy_groups-Perm :
      (targets : PreparedTargets) (used used' : Dict Bool)
      → Perm (keys used) (keys used')
      → materialize_policy_groups used targets ≡ materialize_policy_groups used' targets
  unfolding materialize_policy_groups
  materialize_policy_groups-Perm targets used used' p =
      ap (λ names. build_policy_groups targets names []) (sort-Perm p)

-- ===== src/Patch/Registry/Order.antt =====
-- The places that order ids give to patches.
use local_clash.Prelude.{
  ℕ, ◌+◌, ◌/◌, ◌-◌, ◌<◌, ◌≤◌, ltb, leb, String, ◌==◌, ◌≡◌, refl, sym, ap, ◌∙◌, subst, true, false,
  not, ◌&&◌, List, [], ◌∷◌, All, Option, none, some, if◌then◌else◌, Result, ok, err, ◌>>=◌,
  >>=-eq-ok, guard-eq-ok, ok_inj, arith, Bool-cases, ◌⊎◌, inl, inr, some-injective,
}
use local_clash.Prelude.Text.{is_blank, trim_space}
use local_clash.Prelude.Dict.{Dict, lookup}
use local_clash.Patch.Data.{
  Record, PatchError, reorder_without_place, no_order_space, patch_not_found,
}
use local_clash.Patch.Registry.{
  midpoint, midpoint_order_id, order_of, low_end, high_end, in_registry, allocated, max_order,
  next_user_order_id, status_tombstoned,
}
use local_clash.Patch.OrderId.{parse_order_id, format_order_id, valid_order_id}
use local_clash.Patch.OrderId.RoundTrip.{parse-format, valid-format}

-- A trimmed order id that parses is a number below 10^10.
parse-bound :
    (order_id : String) (value : ℕ)
    → trim_space order_id ≡ order_id
    → parse_order_id order_id ≡ ok value
    → value < 10000000000
unfolding parse_order_id
parse-bound order_id value t h = elim (Bool-cases (valid_order_id order_id)) [
  | inl valid ↦
      let (v, bound, formatted, parsed) = valid-format order_id valid t in
      subst (λ n. n < 10000000000) (ok_inj (sym parsed ∙ h)) bound
  | inr invalid ↦ ground arith
]

midpoint-lies :
    (low : Option ℕ) (high : ℕ) (full : PatchError) (s : String)
    → high < 10000000000
    → midpoint low high full ≡ ok s
    → (m : ℕ) × (parse_order_id s ≡ ok m) × (m < high) × ((l : ℕ) → low ≡ some l → l < m)
unfolding midpoint
midpoint-lies none high full s bound h =
    let (space, made) =
      guard-eq-ok (not (leb high 0)) full (ok (format_order_id ((high - 1) / 2))) h in
    (
      (high - 1) / 2,
      subst (λ t. parse_order_id t ≡ ok ((high - 1) / 2)) (ok_inj made)
          (parse-format ((high - 1) / 2) (omega arith)),
      ground arith,
      λ l e. ground arith,
    )
midpoint-lies (some low) high full s bound h =
    let (space, made) =
      guard-eq-ok (not (leb high (low + 1))) full (ok (format_order_id ((low + high) / 2))) h in
    let wide : low + 1 < high = ground arith in
    (
      (low + high) / 2,
      subst (λ t. parse_order_id t ≡ ok ((low + high) / 2)) (ok_inj made)
          (parse-format ((low + high) / 2) (omega arith)),
      omega arith,
      λ l e. subst (λ n. n < (low + high) / 2) (some-injective _ _ e) (omega arith),
    )

in_registry-eq-ok :
    (parsed : Result String ℕ) (value : ℕ) → in_registry parsed ≡ ok value → parsed ≡ ok value
in_registry-eq-ok (ok v) value h = ap ok (ok_inj h)
in_registry-eq-ok (err e) value h = cc

allocated-eq-ok :
    (id : String) (parsed : Result String ℕ) (value : ℕ)
    → allocated id parsed ≡ ok value
    → parsed ≡ ok value
allocated-eq-ok id (ok v) value h = ap ok (ok_inj h)
allocated-eq-ok id (err e) value h = cc

order_of-eq-ok :
    (found : Option Record) (missing : PatchError) (value : ℕ)
    → order_of found missing ≡ ok value
    → (r : Record) × (found ≡ some r) × (parse_order_id r.patch.order_id ≡ ok value)
unfolding order_of
order_of-eq-ok none missing value h = cc
order_of-eq-ok (some r) missing value h =
    (r, refl, in_registry-eq-ok (parse_order_id r.patch.order_id) value h)

-- The order id of the patch `id`.
abbrev pub OrderIs : Dict Record → String → ℕ → Type 0
OrderIs records id value =
    (r : Record) × (lookup id records ≡ some r) × (parse_order_id r.patch.order_id ≡ ok value)

-- Every order id in the map is trimmed.
abbrev pub TrimmedOrders : Dict Record → Type 0
TrimmedOrders records =
    (id : String) (r : Record)
    → lookup id records ≡ some r
    → trim_space r.patch.order_id ≡ r.patch.order_id

low_end-cases :
    (id : String) (records : Dict Record) (low : Option ℕ)
    → low_end id (lookup id records) ≡ ok low
    → (is_blank id ≡ true) ⊎ ((value : ℕ) × (low ≡ some value) × OrderIs records id value)
low_end-cases id records low h = elim (Bool-cases (is_blank id)) [
  | inl e ↦ inl e
  | inr e ↦
      let found : (order_of (lookup id records) (patch_not_found id) >>= λ v. ok (some v))
          ≡ ok low =
        ground arith in
      let (value, known, same) =
        >>=-eq-ok (order_of (lookup id records) (patch_not_found id)) _ found in
      inr (
        value,
        sym (ok_inj same),
        order_of-eq-ok (lookup id records) (patch_not_found id) value known,
      )
]

high_end-cases :
    (id : String) (records : Dict Record) (high : ℕ)
    → high_end id (lookup id records) ≡ ok high
    → ((is_blank id ≡ true) × (high ≡ 10000000)) ⊎ OrderIs records id high
high_end-cases id records high h = elim (Bool-cases (is_blank id)) [
  | inl e ↦ inl (e, ground arith)
  | inr e ↦
      let found : order_of (lookup id records) (patch_not_found id) ≡ ok high = ground arith in
      inr (order_of-eq-ok (lookup id records) (patch_not_found id) high found)
]

high_end-bound :
    (id : String) (records : Dict Record) (high : ℕ)
    → TrimmedOrders records
    → high_end id (lookup id records) ≡ ok high
    → high < 10000000000
high_end-bound id records high trimmed h = elim (high_end-cases id records high h) [
  | inl (blank, e) ↦ omega arith
  | inr (r, found, parsed) ↦ parse-bound r.patch.order_id high (trimmed id r found) parsed
]

-- A place behind the patch `after`, where one is named, and before the patch `before`, where one is
-- named.
abbrev pub LiesBehind : Dict Record → String → ℕ → Type 0
LiesBehind records after m = (is_blank after ≡ true) ⊎ ((l : ℕ) × OrderIs records after l × (l < m))

abbrev pub LiesBefore : Dict Record → String → ℕ → Type 0
LiesBefore records before m =
    (is_blank before ≡ true) ⊎ ((high : ℕ) × OrderIs records before high × (m < high))

-- The order id that a reordering computes parses to a number strictly behind the order of the patch
-- that it names as `after` and strictly before the one that it names as `before`. The order ids of
-- the records are trimmed.
pub midpoint_order_id-between :
    (records : Dict Record) (after before order_id : String)
    → TrimmedOrders records
    → midpoint_order_id records after before ≡ ok order_id
    → (m : ℕ) × (parse_order_id order_id ≡ ok m)
      × LiesBehind records (trim_space after) m
      × LiesBefore records (trim_space before) m
unfolding midpoint_order_id
midpoint_order_id-between records after before order_id trimmed h =
    let a = trim_space after in
    let b = trim_space before in
    let (named, h₁) =
      guard-eq-ok (not (is_blank a && is_blank b)) reorder_without_place
        (low_end a (lookup a records) >>= λ low.
          high_end b (lookup b records) >>= λ high. midpoint low high (no_order_space a b))
        h in
    let (low, low_ok, h₂) = >>=-eq-ok (low_end a (lookup a records)) _ h₁ in
    let (high, high_ok, h₃) =
      >>=-eq-ok (high_end b (lookup b records)) (λ high. midpoint low high (no_order_space a b))
        h₂ in
    let (m, parsed, below, above) =
      midpoint-lies low high (no_order_space a b) order_id
        (high_end-bound b records high trimmed high_ok) h₃ in
    (
      m,
      parsed,
      elim (low_end-cases a records low low_ok) [
        | inl blank ↦ inl blank
        | inr (l, same, order) ↦ inr (l, order, above l same)
      ],
      elim (high_end-cases b records high high_ok) [
        | inl (blank, e) ↦ inl blank
        | inr order ↦ inr (high, order, below)
      ],
    )

-- The patches that are not tombstoned have an order id below `limit`.
abbrev pub OrdersBelow : ℕ → List Record → Type 0
OrdersBelow limit = All (λ r.
    (r.patch.status == status_tombstoned ≡ true)
    ⊎ ((x : ℕ) × (parse_order_id r.patch.order_id ≡ ok x) × (x < limit)))

OrdersBelow-weaken :
    (small large : ℕ) (records : List Record)
    → small ≤ large
    → OrdersBelow small records
    → OrdersBelow large records
OrdersBelow-weaken small large [] le h = tt
OrdersBelow-weaken small large (r ∷ records) le h = (
  elim h.0 [ inl gone ↦ inl gone | inr (x, parsed, few) ↦ inr (x, parsed, omega arith) ],
  OrdersBelow-weaken small large records le h.1,
)

max_order-gone :
    (r : Record) (records : List Record) (max : ℕ)
    → (r.patch.status == status_tombstoned) ≡ true
    → max_order (r ∷ records) max ≡ max_order records max
unfolding max_order
max_order-gone r records max e = ground arith

max_order-live :
    (r : Record) (records : List Record) (max x : ℕ)
    → (r.patch.status == status_tombstoned) ≡ false
    → parse_order_id r.patch.order_id ≡ ok x
    → max_order (r ∷ records) max ≡ max_order records (if ltb max x then x else max)
unfolding max_order
max_order-live r records max x e p = ground arith

max_order-bounds :
    (records : List Record) (max limit found : ℕ)
    → max < limit
    → OrdersBelow limit records
    → max_order records max ≡ ok found
    → (found < limit) × (max ≤ found) × OrdersBelow (found + 1) records
unfolding max_order
max_order-bounds [] max limit found small below h =
    (subst (λ n. n < limit) (ok_inj h) small, omega (arith, ok_inj h), tt)
max_order-bounds (r ∷ records) max limit found small below h =
    elim (Bool-cases (r.patch.status == status_tombstoned)) [
      | inl gone ↦
          let (few, more, rest) =
            max_order-bounds records max limit found small below.1
              (sym (max_order-gone r records max gone) ∙ h) in
          (few, more, (inl gone, rest))
      | inr live ↦ elim below.0 [
        | inl gone ↦ cc
        | inr (x, parsed, few) ↦
            let (bound, more, rest) =
              max_order-bounds records (if ltb max x then x else max) limit found (ground arith)
                below.1 (sym (max_order-live r records max x live parsed) ∙ h) in
            (bound, ground arith, (inr (x, parsed, ground arith), rest))
      ]
    ]

-- The order id given to a new patch parses to a number above the orders of all patches that are
-- not tombstoned. Those orders are below 9999000000.
pub next_user_order_id-follows :
    (records : List Record) (order_id : String)
    → OrdersBelow 9999000000 records
    → next_user_order_id records ≡ ok order_id
    → (value : ℕ) × (parse_order_id order_id ≡ ok value) × OrdersBelow value records
unfolding next_user_order_id
next_user_order_id-follows records order_id below h =
    let (max, found, made) = >>=-eq-ok (max_order records 999000000) _ h in
    let (few, more, rest) =
      max_order-bounds records 999000000 9999000000 max (omega arith) below found in
    (
      max + 1000000,
      subst (λ t. parse_order_id t ≡ ok (max + 1000000)) (ok_inj made)
          (parse-format (max + 1000000) (omega arith)),
      OrdersBelow-weaken (max + 1) (max + 1000000) records (omega arith) rest,
    )

-- ===== src/Prelude/Dict.antt =====
-- Go's `map[string]V` as an association list. Iteration follows the list: the program's results
-- that depend on Go's random order of iteration are proved equal for every list.
use Prim.Native.String.{String}
use mathlib.Core.Path.{◌≡◌, refl, subst}
use mathlib.Core.Logic.{inl, inr}
use mathlib.Core.Bool.{Bool, true, false, ◌||◌}
use mathlib.Core.List.{List, [], ◌∷◌, ◌++◌}
use mathlib.Core.Option.{Option, none, some, some-injective}
use native.Mathlib.Omega.{arith}
use text.Mathlib.Text.{◌==◌}
use text.Mathlib.TextEquality.{eq_iff}
use text.Mathlib.TextPositions.{eq_refl}
use local_clash.Prelude.Tests.{if◌then◌else◌, is_some, Bool-cases}
use local_clash.Prelude.Lists.{All}

abbrev pub Dict {ℓ} : Type ℓ → Type ℓ
Dict V = List (String × V)

module _ {ℓ} {V : Type ℓ} where
  unfoldable pub lookup : String → Dict V → Option V
  lookup key [] = none
  lookup key ((here, value) ∷ rest) = if here == key then some value else lookup key rest

  -- m[key] = value
  unfoldable pub insert : String → V → Dict V → Dict V
  insert key value [] = (key, value) ∷ []
  insert key value ((here, old) ∷ rest) =
      if here == key then (key, value) ∷ rest else (here, old) ∷ insert key value rest

  -- _, ok := m[k]
  unfoldable pub has_key : String → Dict V → Bool
  unfolding lookup
  has_key k m = is_some (lookup k m)

  unfoldable pub keys : Dict V → List String
  keys [] = []
  keys ((j, v) ∷ m) = j ∷ keys m

  pub lookup-insert :
      (at key : String) (value : V) (dict : Dict V)
      → lookup key (insert at value dict) ≡ (if at == key then some value else lookup key dict)
  unfolding lookup insert
  lookup-insert at key value [] = refl
  lookup-insert at key value ((here, old) ∷ rest) =
      ground
        (arith, lookup-insert at key value rest, eq_iff here at, eq_iff here key, eq_iff at key)

  -- What every value of a map has, a value that is found has.
  pub lookup-All {κ} :
      (P : V → Type κ) (key : String) (dict : Dict V) (value : V)
      → All (λ entry. P entry.1) dict
      → lookup key dict ≡ some value
      → P value
  unfolding lookup
  lookup-All P key [] value every h = cc
  lookup-All P key ((here, old) ∷ rest) value every h = elim (Bool-cases (here == key)) [
    | inl e ↦
        let same : some old ≡ some value = ground arith in subst P (some-injective _ _ same) every.0
    | inr e ↦
        let later : lookup key rest ≡ some value = ground arith in
        lookup-All P key rest value every.1 later
  ]

-- slices.Contains
unfoldable pub elem : String → List String → Bool
elem k [] = false
elem k (x ∷ xs) = x == k || elem k xs

pub elem-append : (k : String) (xs ys : List String) → elem k (xs ++ ys) ≡ (elem k xs || elem k ys)
unfolding elem
elem-append k [] ys = refl
elem-append k (x ∷ xs) ys = ground (arith, elem-append k xs ys)

module _ {ℓ} {V : Type ℓ} where
  pub has_key-insert :
      (k j : String) (v : V) (m : Dict V)
      → has_key j (insert k v m) ≡ (if k == j then true else has_key j m)
  unfolding has_key
  has_key-insert k j v m = rw lookup-insert (ground arith)

  pub elem-keys : (k : String) (m : Dict V) → elem k (keys m) ≡ has_key k m
  unfolding elem keys has_key lookup
  elem-keys k [] = refl
  elem-keys k ((j, v) ∷ m) = ground (arith, elem-keys k m)

  pub has_key-insert_self : (k : String) (v : V) (m : Dict V) → has_key k (insert k v m) ≡ true
  has_key-insert_self k v m = simp (has_key-insert, eq_refl)

  pub has_key-insert_keep :
      (k j : String) (v : V) (m : Dict V) → has_key j m ≡ true → has_key j (insert k v m) ≡ true
  has_key-insert_keep k j v m h = ground (arith, has_key-insert k j v m)

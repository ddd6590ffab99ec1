-- ===== src/Patch/OrderId/RoundTrip.antt =====
-- Order ids are the numbers below 10^10: formatting and parsing are inverse.
use local_clash.Prelude.{
  ℕ, ◌+◌, ◌*◌, ◌/◌, ◌%◌, ◌<◌, String, true, false, List, [], ◌∷◌, some, ok, ◌≡◌, refl, sym, ap, ap₂,
  ◌∙◌, arith, Option-cases, Bool-cases, inl, inr, nat_eq,
}
use Prim.Native.Char.{code}
use text.Mathlib.TextEquality.{Char-path}
use local_clash.Prelude.Text.{is_blank, trim_space, strip_prefix?, split}
use local_clash.Patch.OrderId.{
  strip_digits, read_digits, put_digits, padded, order_id_pattern, valid_order_id, parse_order_id,
  format_order_id, fraction, point, is_fraction,
}
use local_clash.Patch.OrderId.Digits.{
  read_digits-put_digits, strip_digits-put_digits, strip_digits-eq-some, is_plain,
  is_plain-put_digits, trim_space-plain, split-put_digits,
}

absurd_false {ℓ} : {A : Type ℓ} → false ≡ true → A
absurd_false h = cc

abbrev fraction_text : ℕ → String
fraction_text v = put_digits 6 (v % 1000000) ""

-- the text that a number below 10^10 is formatted to
abbrev id_text : ℕ → String
id_text v = put_digits 4 (v / 1000000) (String.◌∷◌ "." (fraction_text v))

format-id_text : (v : ℕ) → v < 10000000000 → format_order_id v ≡ id_text v
unfolding format_order_id padded
format-id_text v h = ground arith

id_text-IsPlain : (v : ℕ) → is_plain (id_text v) ≡ true
unfolding is_plain
id_text-IsPlain v =
    is_plain-put_digits 4 (v / 1000000) (String.◌∷◌ "." (fraction_text v))
    ∙ is_plain-put_digits 6 (v % 1000000) ""

id_text-split :
    (v : ℕ) → split 46 (id_text v) ≡ put_digits 4 (v / 1000000) "" ∷ fraction_text v ∷ []
unfolding split
id_text-split v =
    split-put_digits 4 (v / 1000000) (String.◌∷◌ "." (fraction_text v)) "" (fraction_text v ∷ [])
      (ap (λ (ps : List String). "" ∷ ps) (split-put_digits 6 (v % 1000000) "" "" [] refl))

id_text-pattern : (v : ℕ) → order_id_pattern (id_text v) ≡ true
unfolding order_id_pattern strip_prefix? strip_digits
id_text-pattern v =
    ap (λ o. fraction (point o))
      (strip_digits-put_digits 4 0 (v / 1000000) (String.◌∷◌ "." (fraction_text v)))
    ∙ ap is_fraction (strip_digits-put_digits 6 0 (v % 1000000) "")

id_text-valid : (v : ℕ) → valid_order_id (id_text v) ≡ true
unfolding valid_order_id
id_text-valid v =
    ap order_id_pattern (trim_space-plain (id_text v) (id_text-IsPlain v)) ∙ id_text-pattern v

id_text-value :
    (v : ℕ)
    → v < 10000000000
    → read_digits 0 (put_digits 4 (v / 1000000) "") * 1000000 + read_digits 0 (fraction_text v) ≡ v
unfolding read_digits
id_text-value v h =
    ap₂ (λ a b. a * 1000000 + b) (read_digits-put_digits 4 (v / 1000000) "" (omega arith))
      (read_digits-put_digits 6 (v % 1000000) "" (omega arith))
    ∙ omega arith

-- Parsing gives back a number below 10^10 that was formatted.
pub parse-format :
    (value : ℕ) → value < 10000000000 → parse_order_id (format_order_id value) ≡ ok value
unfolding parse_order_id
parse-format v h =
    ap parse_order_id (format-id_text v h)
    ∙ ground (arith, id_text-valid v, id_text-split v, id_text-value v h)

point-eq-some : (s t : String) → strip_prefix? "." s ≡ some t → s ≡ String.◌∷◌ "." t
unfolding strip_prefix?
point-eq-some String.[] t h = cc
point-eq-some (String.◌∷◌ c s) t h = elim (Bool-cases (nat_eq 46 (code c))) [
  | inl e ↦ ap₂ String.◌∷◌ (Char-path c "." (ground arith)) (ground arith)
  | inr e ↦ ground arith
]

is_blank-eq : (s : String) → is_blank s ≡ true → s ≡ ""
is_blank-eq String.[] h = refl
is_blank-eq (String.◌∷◌ c s) h = cc

fraction-eq-true :
    (s : String) → fraction (some s) ≡ true → (f : ℕ) × (f < 1000000) × (s ≡ put_digits 6 f "")
unfolding fraction
fraction-eq-true s h = elim (Option-cases (strip_digits 6 s)) [
  | inl e ↦ absurd_false (sym (ap is_fraction e) ∙ h)
  | inr (rest, e) ↦
      let (f, bound, same) = strip_digits-eq-some 6 s rest e in
      let blank : is_blank rest ≡ true = sym (ap is_fraction e) ∙ h in
      (f, bound, same ∙ ap (put_digits 6 f) (is_blank-eq rest blank))
]

pattern-eq-id_text :
    (s : String) → order_id_pattern s ≡ true → (v : ℕ) × (v < 10000000000) × (s ≡ id_text v)
unfolding order_id_pattern
pattern-eq-id_text s h = elim (Option-cases (strip_digits 4 s)) [
  | inl e ↦ absurd_false (sym (ap (λ o. fraction (point o)) e) ∙ h)
  | inr (rest, e) ↦ elim (Option-cases (strip_prefix? "." rest)) [
    | inl k ↦ absurd_false (sym (ap (λ o. fraction (point o)) e ∙ ap fraction k) ∙ h)
    | inr (frac, k) ↦
        let (w, w_bound, w_same) = strip_digits-eq-some 4 s rest e in
        let (f, f_bound, f_same) =
          fraction-eq-true frac (sym (ap (λ o. fraction (point o)) e ∙ ap fraction k) ∙ h) in
        let tail = point-eq-some rest frac k ∙ ap (String.◌∷◌ ".") f_same in
        (
          w * 1000000 + f,
          omega arith,
          w_same
              ∙ (ap (put_digits 4 w) tail
                  ∙ ap₂ (λ a b. put_digits 4 a (String.◌∷◌ "." (put_digits 6 b ""))) (omega arith)
                      (omega arith)),
        )
  ]
]

-- Every trimmed valid order id is formatted from a number below 10^10.
pub valid-format :
    (order_id : String)
    → valid_order_id order_id ≡ true
    → trim_space order_id ≡ order_id
    → (value : ℕ) × (value < 10000000000)
      × (format_order_id value ≡ order_id)
      × (parse_order_id order_id ≡ ok value)
unfolding valid_order_id
valid-format s h t =
    let (v, bound, same) = pattern-eq-id_text s (ap order_id_pattern (sym t) ∙ h) in
    let formatted = format-id_text v bound ∙ sym same in
    (v, bound, formatted, ap parse_order_id (sym formatted) ∙ parse-format v bound)

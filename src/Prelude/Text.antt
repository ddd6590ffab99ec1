-- ===== src/Prelude/Text.antt =====
-- What the program uses of Go's `strings` and `fmt`, on texts as sequences of Unicode scalars
-- (a Go string that holds valid UTF-8). Only Unicode's letter tables are a parameter, `Unicode`.
pub mod Laws
pub mod Ascii
use Prim.Native.Nat.{ℕ, zero, suc, ◌+◌, ◌-◌, ◌/◌, ◌%◌}
use Prim.Native.Char.{Char, code}
use Prim.Native.String.{String, char_at, ◌++◌}
use mathlib.Core.Bool.{Bool, true, false, not, ◌&&◌, ◌||◌}
use mathlib.Core.List.{List, [], ◌∷◌}
use mathlib.Core.Option.{Option, none, some}
use text.Mathlib.Text.{◌==◌}
use local_clash.Prelude.Tests.{ltb, leb, nat_eq, if◌then◌else◌, is_some}

-- unicode.ToLower, unicode.ToUpper, unicode.IsLetter, unicode.IsNumber, and whether two scalars
-- lie in one orbit of unicode.SimpleFold
pub record Unicode : Type 0 where
  pub lower : Char → Char
  pub upper : Char → Char
  pub is_letter : Char → Bool
  pub is_number : Char → Bool
  pub same_fold : Char → Char → Bool

-- unicode.IsSpace
unfoldable pub is_space : ℕ → Bool
is_space c =
    (leb 9 c && leb c 13)
    || nat_eq c 32
    || nat_eq c 0x85
    || nat_eq c 0xa0
    || nat_eq c 0x1680
    || (leb 0x2000 c && leb c 0x200a)
    || nat_eq c 0x2028
    || nat_eq c 0x2029
    || nat_eq c 0x202f
    || nat_eq c 0x205f
    || nat_eq c 0x3000

abbrev pub is_blank : String → Bool
is_blank String.[] = true
is_blank (String.◌∷◌ c s) = false

-- strings.TrimLeftFunc and strings.TrimRightFunc
unfoldable pub trim_left : (Char → Bool) → String → String
trim_left p String.[] = String.[]
trim_left p (String.◌∷◌ c s) = let rest = trim_left p s in if p c then rest else String.◌∷◌ c s

unfoldable pub trim_right : (Char → Bool) → String → String
trim_right p String.[] = String.[]
trim_right p (String.◌∷◌ c s) =
    let rest = trim_right p s in if is_blank rest && p c then String.[] else String.◌∷◌ c rest

-- strings.TrimSpace
unfoldable pub trim_space : String → String
unfolding trim_left trim_right is_space
trim_space s = trim_right (λ c. is_space (code c)) (trim_left (λ c. is_space (code c)) s)

-- strings.Trim with a cutset of one character
unfoldable pub trim_char : ℕ → String → String
unfolding trim_left trim_right
trim_char n s = trim_right (λ c. nat_eq (code c) n) (trim_left (λ c. nat_eq (code c) n) s)

unfoldable pub map_text : (Char → Char) → String → String
map_text f String.[] = String.[]
map_text f (String.◌∷◌ c s) = String.◌∷◌ (f c) (map_text f s)

module _ ⦃u : Unicode⦄ where
  -- strings.ToLower
  unfoldable pub to_lower : String → String
  unfolding map_text
  to_lower s = map_text u.lower s

  -- strings.ToUpper
  unfoldable pub to_upper : String → String
  unfolding map_text
  to_upper s = map_text u.upper s

  -- strings.EqualFold
  unfoldable pub equal_fold : String → String → Bool
  equal_fold String.[] String.[] = true
  equal_fold String.[] (String.◌∷◌ d t) = false
  equal_fold (String.◌∷◌ c s) String.[] = false
  equal_fold (String.◌∷◌ c s) (String.◌∷◌ d t) = u.same_fold c d && equal_fold s t

-- What is left of a text behind a prefix.
unfoldable pub strip_prefix? : String → String → Option String
strip_prefix? String.[] s = some s
strip_prefix? (String.◌∷◌ p ps) String.[] = none
strip_prefix? (String.◌∷◌ p ps) (String.◌∷◌ c s) =
    if nat_eq (code p) (code c) then strip_prefix? ps s else none

-- strings.HasPrefix
unfoldable pub has_prefix : String → String → Bool
unfolding strip_prefix?
has_prefix s p = is_some (strip_prefix? p s)

abbrev text_or : Option String → String → String
text_or none d = d
text_or (some s) d = s

-- strings.TrimPrefix
unfoldable pub trim_prefix : String → String → String
unfolding strip_prefix?
trim_prefix s p = text_or (strip_prefix? p s) s

-- strings.HasSuffix
unfoldable pub has_suffix : String → String → Bool
has_suffix String.[] p = is_blank p
has_suffix (String.◌∷◌ c s) p = (String.◌∷◌ c s) == p || has_suffix s p

-- strings.TrimSuffix
unfoldable pub trim_suffix : String → String → String
trim_suffix String.[] p = String.[]
trim_suffix (String.◌∷◌ c s) p =
    if (String.◌∷◌ c s) == p then String.[] else String.◌∷◌ c (trim_suffix s p)

-- strings.Contains
unfoldable pub contains : String → String → Bool
unfolding strip_prefix?
contains String.[] p = is_blank p
contains (String.◌∷◌ c s) p = is_some (strip_prefix? p (String.◌∷◌ c s)) || contains s p

abbrev keep_before : Char → Option (String × String) → Option (String × String)
keep_before c none = none
keep_before c (some (before, after)) = some (String.◌∷◌ c before, after)

abbrev cut_here : Option String → Option (String × String) → Option (String × String)
cut_here none later = later
cut_here (some after) later = some (String.[], after)

-- strings.Cut; `none` is `found == false`
unfoldable pub cut : String → String → Option (String × String)
unfolding strip_prefix?
cut String.[] sep = if is_blank sep then some (String.[], String.[]) else none
cut (String.◌∷◌ c s) sep = cut_here (strip_prefix? sep (String.◌∷◌ c s)) (keep_before c (cut s sep))

abbrev push_char : Char → List String → List String
push_char c [] = (String.◌∷◌ c String.[]) ∷ []
push_char c (part ∷ rest) = (String.◌∷◌ c part) ∷ rest

-- strings.Split by one character
unfoldable pub split : ℕ → String → List String
split n String.[] = String.[] ∷ []
split n (String.◌∷◌ c s) =
    let rest = split n s in if nat_eq (code c) n then String.[] ∷ rest else push_char c rest

-- strings.ReplaceAll of one character by a text
unfoldable pub replace_char : ℕ → String → String → String
replace_char n r String.[] = String.[]
replace_char n r (String.◌∷◌ c s) =
    if nat_eq (code c) n then r ++ replace_char n r s else String.◌∷◌ c (replace_char n r s)

-- strings.Join
unfoldable pub join : List String → String → String
join [] sep = ""
join (s ∷ []) sep = s
join (s ∷ t ∷ rest) sep = s ++ sep ++ join (t ∷ rest) sep

-- Go's `<` on strings; the order of UTF-8 bytes is that of scalars
unfoldable pub text_lt : String → String → Bool
text_lt String.[] String.[] = false
text_lt String.[] (String.◌∷◌ d t) = true
text_lt (String.◌∷◌ c s) String.[] = false
text_lt (String.◌∷◌ c s) (String.◌∷◌ d t) =
    ltb (code c) (code d) || (nat_eq (code c) (code d) && text_lt s t)

insert_string : String → List String → List String
unfolding text_lt
insert_string s [] = s ∷ []
insert_string s (t ∷ rest) =
    let later = insert_string s rest in if text_lt t s then t ∷ later else s ∷ t ∷ rest

-- sort.Strings
unfoldable pub sort_strings : List String → List String
unfolding insert_string
sort_strings [] = []
sort_strings (s ∷ rest) = insert_string s (sort_strings rest)

-- strings.ContainsAny, with a test for the characters
unfoldable pub contains_any : (Char → Bool) → String → Bool
contains_any p String.[] = false
contains_any p (String.◌∷◌ c s) = p c || contains_any p s

digit : ℕ → Char
digit n = char_at "0123456789" n

digits_fuel : ℕ → ℕ → String → String
unfolding digit
digits_fuel zero n acc = acc
digits_fuel (suc f) n acc =
    let more = digits_fuel f (n / 10) (String.◌∷◌ (digit (n % 10)) acc) in
    if ltb n 10 then String.◌∷◌ (digit n) acc else more

-- fmt's `%d` of a number that is not negative; it has at most `n + 1` digits
unfoldable pub decimal : ℕ → String
unfolding digits_fuel
decimal n = digits_fuel (suc n) n ""

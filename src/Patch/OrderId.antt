-- ===== src/Patch/OrderId.antt =====
-- internal/configpatch/patch.go: order ids such as "0100.000000", which are numbers below 10^10.
mod Tests
pub mod Digits
pub mod RoundTrip
use Prim.Native.Char.{Char, code}
use Prim.Native.String.{char_at}
use local_clash.Prelude.{
  ℕ, zero, suc, ◌+◌, ◌-◌, ◌*◌, ◌/◌, ◌%◌, ltb, leb, String, ◌<>◌, Bool, true, false, ◌&&◌, List, [],
  ◌∷◌, Option, none, some, if◌then◌else◌, Result, ok, err,
}
use local_clash.Prelude.Text.{is_blank, trim_space, strip_prefix?, split, decimal}

abbrev pub is_digit : Char → Bool
is_digit c = leb 48 (code c) && leb (code c) 57

-- `[0-9]{n}` at the start of a text: what is left behind it
unfoldable pub strip_digits : ℕ → String → Option String
strip_digits zero s = some s
strip_digits (suc n) String.[] = none
strip_digits (suc n) (String.◌∷◌ c s) =
    let rest = strip_digits n s in if is_digit c then rest else none

abbrev pub is_fraction : Option String → Bool
is_fraction none = false
is_fraction (some rest) = is_blank rest

abbrev pub fraction : Option String → Bool
unfolding strip_digits
fraction none = false
fraction (some s) = is_fraction (strip_digits 6 s)

abbrev pub point : Option String → Option String
unfolding strip_prefix?
point none = none
point (some s) = strip_prefix? "." s

-- orderIDPattern: `^[0-9]{4}\.[0-9]{6}$`
unfoldable pub order_id_pattern : String → Bool
unfolding strip_digits strip_prefix?
order_id_pattern s = fraction (point (strip_digits 4 s))

unfoldable pub valid_order_id : String → Bool
unfolding trim_space order_id_pattern
valid_order_id order_id = order_id_pattern (trim_space order_id)

-- strconv.ParseInt of a text without a sign, below 2^63; the callers ignore its error, with which
-- it gives 0
unfoldable pub read_digits : ℕ → String → ℕ
read_digits n String.[] = n
read_digits n (String.◌∷◌ c s) =
    let rest = read_digits (n * 10 + (code c - 48)) s in if is_digit c then rest else 0

abbrev pub NotAnOrderId : Type 0
NotAnOrderId = String

abbrev pub part : List String → ℕ → String
part [] n = ""
part (x ∷ xs) zero = x
part (x ∷ xs) (suc n) = part xs n

unfoldable pub parse_order_id : String → Result NotAnOrderId ℕ
unfolding valid_order_id split read_digits
parse_order_id order_id =
    let parts = split 46 order_id in
    if valid_order_id order_id
    then ok (read_digits 0 (part parts 0) * 1000000 + read_digits 0 (part parts 1))
    else err order_id

-- fmt's `%0nd` of a number below 10^n, in front of a text
unfoldable pub put_digits : ℕ → ℕ → String → String
put_digits zero v s = s
put_digits (suc n) v s = put_digits n (v / 10) (String.◌∷◌ (char_at "0123456789" (v % 10)) s)

-- fmt's `%04d` and `%06d`: a number with more digits has all of them
unfoldable pub padded : ℕ → ℕ → ℕ → String → String
unfolding put_digits decimal
padded n limit v s = if ltb v limit then put_digits n v s else decimal v <> s

-- The callers pass no negative number.
unfoldable pub format_order_id : ℕ → String
unfolding padded
format_order_id value =
    padded 4 10000 (value / 1000000) (String.◌∷◌ "." (padded 6 1000000 (value % 1000000) ""))

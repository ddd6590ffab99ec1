-- ===== src/Prelude/Text/Ascii.antt =====
-- Unicode's letter tables cut down to ASCII: a value of the parameter `Unicode`, for the tests.
use Prim.Native.Char.{Char, code}
use Prim.Native.String.{String}
use mathlib.Core.Bool.{Bool, ◌&&◌, ◌||◌}
use local_clash.Prelude.Tests.{leb, nat_eq, if◌then◌else◌}
use local_clash.Prelude.Text.{Unicode}

-- the character that stands in `to` where `c` stands in `from`
abbrev translate : String → String → Char → Char
translate String.[] to c = c
translate (String.◌∷◌ a from) String.[] c = c
translate (String.◌∷◌ a from) (String.◌∷◌ b to) c =
    let later = translate from to c in if nat_eq (code a) (code c) then b else later

abbrev small : String
small = "abcdefghijklmnopqrstuvwxyz"

abbrev capital : String
capital = "ABCDEFGHIJKLMNOPQRSTUVWXYZ"

abbrev lower_ascii : Char → Char
lower_ascii = translate capital small

abbrev is_between : Char → Char → Char → Bool
is_between a b c = leb (code a) (code c) && leb (code c) (code b)

instance abbrev pub ascii : Unicode
ascii = record {
  lower = lower_ascii;
  upper = translate small capital;
  is_letter = λ c. is_between "a" "z" c || is_between "A" "Z" c;
  is_number = is_between "0" "9";
  same_fold = λ c d. nat_eq (code (lower_ascii c)) (code (lower_ascii d));
}

-- ===== src/Patch/OrderId/Digits.antt =====
-- Digits put in front of a text, and read again.
use Prim.Native.Char.{Char, code}
use Prim.Native.String.{char_at}
use local_clash.Prelude.{
  ℕ, zero, suc, ◌+◌, ◌-◌, ◌*◌, ◌/◌, ◌%◌, ◌^◌, ◌<◌, ◌≤◌, nat_eq, ◌||◌, String, Bool, true, false,
  ◌&&◌, List, ◌∷◌, some, some-injective, ◌≡◌, refl, sym, ap, ap₂, ◌∙◌, arith,
}
use native.Mathlib.Nat.{mul_assoc, mul-le-mul_right}
use text.Mathlib.TextEquality.{Char-path}
use local_clash.Prelude.Text.{trim_space, trim_left, trim_right, is_space, split}
use local_clash.Patch.OrderId.{is_digit, strip_digits, read_digits, put_digits}

pub digit_code : (n : ℕ) → n < 10 → code (char_at "0123456789" n) ≡ 48 + n
digit_code zero h = refl
digit_code (suc zero) h = refl
digit_code (suc (suc zero)) h = refl
digit_code (suc (suc (suc zero))) h = refl
digit_code (suc (suc (suc (suc zero)))) h = refl
digit_code (suc (suc (suc (suc (suc zero))))) h = refl
digit_code (suc (suc (suc (suc (suc (suc zero)))))) h = refl
digit_code (suc (suc (suc (suc (suc (suc (suc zero))))))) h = refl
digit_code (suc (suc (suc (suc (suc (suc (suc (suc zero)))))))) h = refl
digit_code (suc (suc (suc (suc (suc (suc (suc (suc (suc zero))))))))) h = refl
digit_code (suc (suc (suc (suc (suc (suc (suc (suc (suc (suc n)))))))))) h = omega arith

pub digit-IsDigit : (n : ℕ) → n < 10 → is_digit (char_at "0123456789" n) ≡ true
digit-IsDigit n h = ground (arith, digit_code n h)

abbrev pub last_digit : ℕ → Char
last_digit v = char_at "0123456789" (v % 10)

read_digits-step :
    (v : ℕ) (s : String) → read_digits (v / 10) (String.◌∷◌ (last_digit v) s) ≡ read_digits v s
unfolding read_digits
read_digits-step v s =
    let value : v / 10 * 10 + (code (last_digit v) - 48) ≡ v =
      omega (arith, digit_code (v % 10) (omega arith)) in
    ground (arith, digit-IsDigit (v % 10) (omega arith), ap (λ n. read_digits n s) value)

pub read_digits-put_digits :
    (n v : ℕ) (s : String) → v < 10 ^ n → read_digits 0 (put_digits n v s) ≡ read_digits v s
unfolding put_digits
read_digits-put_digits zero v s h = ap (λ m. read_digits m s) (omega arith)
read_digits-put_digits (suc n) v s h =
    read_digits-put_digits n (v / 10) (String.◌∷◌ (last_digit v) s) (omega arith)
    ∙ read_digits-step v s

pub strip_digits-put_digits :
    (n k v : ℕ) (s : String) → strip_digits (n + k) (put_digits n v s) ≡ strip_digits k s
unfolding put_digits strip_digits
strip_digits-put_digits zero k v s = ap (λ m. strip_digits m s) (omega arith)
strip_digits-put_digits (suc n) k v s =
    ap (λ m. strip_digits m (put_digits n (v / 10) (String.◌∷◌ (last_digit v) s))) (omega arith)
    ∙ (strip_digits-put_digits n (suc k) (v / 10) (String.◌∷◌ (last_digit v) s)
        ∙ ground (arith, digit-IsDigit (v % 10) (omega arith)))

-- Nothing but digits and points.
abbrev plain_char : Char → Bool
plain_char c = is_digit c || nat_eq (code c) 46

unfoldable pub is_plain : String → Bool
is_plain String.[] = true
is_plain (String.◌∷◌ c s) = plain_char c && is_plain s

pub is_plain-put_digits : (n v : ℕ) (s : String) → is_plain (put_digits n v s) ≡ is_plain s
unfolding put_digits is_plain
is_plain-put_digits zero v s = refl
is_plain-put_digits (suc n) v s =
    is_plain-put_digits n (v / 10) (String.◌∷◌ (last_digit v) s)
    ∙ ground (arith, digit-IsDigit (v % 10) (omega arith))

plain-no_space : (c : Char) → plain_char c ≡ true → is_space (code c) ≡ false
unfolding is_space
plain-no_space c h = ground arith

trim_right-plain : (s : String) → is_plain s ≡ true → trim_right (λ c. is_space (code c)) s ≡ s
unfolding is_plain trim_right
trim_right-plain String.[] h = refl
trim_right-plain (String.◌∷◌ c s) h = ground (arith, trim_right-plain s, plain-no_space c)

trim_left-plain : (s : String) → is_plain s ≡ true → trim_left (λ c. is_space (code c)) s ≡ s
unfolding is_plain trim_left
trim_left-plain String.[] h = refl
trim_left-plain (String.◌∷◌ c s) h = ground (arith, plain-no_space c)

pub trim_space-plain : (s : String) → is_plain s ≡ true → trim_space s ≡ s
unfolding trim_space
trim_space-plain s h =
    ap (trim_right (λ c. is_space (code c))) (trim_left-plain s h) ∙ trim_right-plain s h

split-digit :
    (n : ℕ)
    → n < 10
    → (s x : String) (xs : List String) → split 46 s ≡ x ∷ xs
    → split 46 (String.◌∷◌ (char_at "0123456789" n) s)
      ≡ (String.◌∷◌ (char_at "0123456789" n) x) ∷ xs
unfolding split
split-digit n h s x xs e = ground (arith, digit_code n h, e)

pub split-put_digits :
    (n v : ℕ) (s x : String) (xs : List String)
    → split 46 s ≡ x ∷ xs
    → split 46 (put_digits n v s) ≡ put_digits n v x ∷ xs
unfolding put_digits
split-put_digits zero v s x xs e = e
split-put_digits (suc n) v s x xs e =
    split-put_digits n (v / 10) (String.◌∷◌ (last_digit v) s) (String.◌∷◌ (last_digit v) x) xs
      (split-digit (v % 10) (omega arith) s x xs e)

-- A digit before digits is the first digit of a larger number.
pub put_digits-cons :
    (n c v : ℕ) (s : String)
    → c < 10
    → v < 10 ^ n
    → put_digits (suc n) (c * 10 ^ n + v) s ≡ String.◌∷◌ (char_at "0123456789" c) (put_digits n v s)
unfolding put_digits
put_digits-cons zero c v s hc hv = ap (λ d. String.◌∷◌ (char_at "0123456789" d) s) (omega arith)
put_digits-cons (suc n) c v s hc hv =
    let power : 10 ^ suc n ≡ 10 ^ n * 10 = omega arith in
    let scaled : c * 10 ^ suc n ≡ c * 10 ^ n * 10 =
      ap (λ q. c * q) power ∙ sym (mul_assoc c (10 ^ n) 10) in
    let quotient : (c * 10 ^ suc n + v) / 10 ≡ c * 10 ^ n + v / 10 = omega (arith, scaled) in
    let digit : (c * 10 ^ suc n + v) % 10 ≡ v % 10 = omega (arith, scaled) in
    ap₂ (λ q d. put_digits (suc n) q (String.◌∷◌ (char_at "0123456789" d) s)) quotient digit
    ∙ put_digits-cons n c (v / 10) (String.◌∷◌ (last_digit v) s) hc (omega arith)

char_of_digit : (c : Char) → is_digit c ≡ true → char_at "0123456789" (code c - 48) ≡ c
char_of_digit c h =
    Char-path (char_at "0123456789" (code c - 48)) c
      (ground (arith, digit_code (code c - 48) (ground arith)))

strip_digits-suc :
    (n : ℕ) (c : Char) (s rest : String)
    → strip_digits (suc n) (String.◌∷◌ c s) ≡ some rest
    → (is_digit c ≡ true) × (strip_digits n s ≡ some rest)
unfolding strip_digits
strip_digits-suc n c s rest h = ground arith

digit_bound : (c p v : ℕ) → c < 10 → v < p → c * p + v < 10 * p
digit_bound c p v h k = let few : c ≤ 9 = omega arith in omega (arith, mul-le-mul_right p few)

-- Digits at the start of a text are those of a number.
pub strip_digits-eq-some :
    (n : ℕ) (s rest : String)
    → strip_digits n s ≡ some rest
    → (v : ℕ) × (v < 10 ^ n) × (s ≡ put_digits n v rest)
unfolding strip_digits put_digits
strip_digits-eq-some zero s rest h = (0, omega arith, some-injective _ _ h)
strip_digits-eq-some (suc n) String.[] rest h = cc
strip_digits-eq-some (suc n) (String.◌∷◌ c s) rest h =
    let (digit, tail) = strip_digits-suc n c s rest h in
    let (v, bound, same) = strip_digits-eq-some n s rest tail in
    let small : code c - 48 < 10 = ground arith in
    (
      (code c - 48) * 10 ^ n + v,
      omega (arith, digit_bound (code c - 48) (10 ^ n) v small bound),
      sym (
          put_digits-cons n (code c - 48) v rest small bound
          ∙ ap₂ String.◌∷◌ (char_of_digit c digit) (sym same)),
    )

-- ===== src/Prelude/Text/Laws.antt =====
-- Laws of the text functions.
use Prim.Native.Char.{Char, code}
use Prim.Native.String.{String}
use mathlib.Core.Path.{◌≡◌, refl}
use mathlib.Core.Bool.{Bool, true, false}
use native.Mathlib.Omega.{arith}
use text.Mathlib.TextEquality.{Char-path}
use local_clash.Prelude.Tests.{if◌then◌else◌}
use local_clash.Prelude.Text.{is_space, trim_left, trim_right, trim_space, text_lt}

-- The text does not begin with a character of `p`.
abbrev head_clear : (Char → Bool) → String → Bool
head_clear p String.[] = true
head_clear p (String.◌∷◌ c s) = if p c then false else true

module _ (p : Char → Bool) where
  trim_left-clear : (s : String) → head_clear p (trim_left p s) ≡ true
  unfolding trim_left
  trim_left-clear String.[] = refl
  trim_left-clear (String.◌∷◌ c s) = ground (arith, trim_left-clear s)

  trim_left-fixed : (s : String) → head_clear p s ≡ true → trim_left p s ≡ s
  unfolding trim_left
  trim_left-fixed String.[] h = refl
  trim_left-fixed (String.◌∷◌ c s) h = ground arith

  trim_right-clear : (s : String) → head_clear p s ≡ true → head_clear p (trim_right p s) ≡ true
  unfolding trim_right
  trim_right-clear String.[] h = refl
  trim_right-clear (String.◌∷◌ c s) h = ground arith

  trim_right_idem : (s : String) → trim_right p (trim_right p s) ≡ trim_right p s
  unfolding trim_right
  trim_right_idem String.[] = refl
  trim_right_idem (String.◌∷◌ c s) = ground (arith, trim_right_idem s)

  trim_both_idem :
      (s : String)
      → trim_right p (trim_left p (trim_right p (trim_left p s))) ≡ trim_right p (trim_left p s)
  trim_both_idem s =
      rw
        (trim_left-fixed (trim_right p (trim_left p s))
          (trim_right-clear (trim_left p s) (trim_left-clear s)))
        (trim_right_idem (trim_left p s))

-- Trimming twice is trimming once.
pub trim_space_idem : (s : String) → trim_space (trim_space s) ≡ trim_space s
unfolding trim_space
trim_space_idem s = trim_both_idem (λ c. is_space (code c)) s

-- `text_lt` is a strict linear order.
pub text_lt_irrefl : (s : String) → text_lt s s ≡ false
unfolding text_lt
text_lt_irrefl String.[] = refl
text_lt_irrefl (String.◌∷◌ c s) = ground (arith, text_lt_irrefl s)

pub text_lt_trans : (s t r : String) → text_lt s t ≡ true → text_lt t r ≡ true → text_lt s r ≡ true
unfolding text_lt
text_lt_trans String.[] String.[] r h k = cc
text_lt_trans String.[] (String.◌∷◌ d t) String.[] h k = cc
text_lt_trans String.[] (String.◌∷◌ d t) (String.◌∷◌ e r) h k = refl
text_lt_trans (String.◌∷◌ c s) String.[] r h k = cc
text_lt_trans (String.◌∷◌ c s) (String.◌∷◌ d t) String.[] h k = cc
text_lt_trans (String.◌∷◌ c s) (String.◌∷◌ d t) (String.◌∷◌ e r) h k =
    ground (arith, text_lt_trans s t r)

pub text_lt_total : (s t : String) → text_lt s t ≡ false → text_lt t s ≡ false → s ≡ t
unfolding text_lt
text_lt_total String.[] String.[] h k = refl
text_lt_total String.[] (String.◌∷◌ d t) h k = cc
text_lt_total (String.◌∷◌ c s) String.[] h k = cc
text_lt_total (String.◌∷◌ c s) (String.◌∷◌ d t) h k =
    cc (Char-path c d (ground arith), text_lt_total s t (ground arith) (ground arith))

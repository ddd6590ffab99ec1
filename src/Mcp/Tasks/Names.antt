-- ===== src/Mcp/Tasks/Names.antt =====
-- The name of a tool in a file name.
use Prim.Native.Char.{Char, code}
use local_clash.Prelude.{
  ◌≤◌, String, ◌≡◌, ◌⊎◌, refl, Bool, true, false, if◌then◌else◌, Bool-cases, inl, inr, arith,
}
use local_clash.Prelude.Text.{is_blank, trim_space}
use local_clash.Mcp.Tasks.{keeps_char, dash, sanitized, sanitize_task_tool}

-- A small letter, a capital, a digit, `-` or `_`, by its code in ASCII.
abbrev pub IsNameChar : Char → Type 0
IsNameChar c =
    ((97 ≤ code c) × (code c ≤ 122))
    ⊎ ((65 ≤ code c) × (code c ≤ 90))
    ⊎ ((48 ≤ code c) × (code c ≤ 57))
    ⊎ (code c ≡ 45)
    ⊎ (code c ≡ 95)

pub IsNameText : String → Type 0
IsNameText String.[] = Unit
IsNameText (String.◌∷◌ c s) = IsNameChar c × IsNameText s

keeps_char-IsNameChar : (c : Char) → keeps_char c ≡ true → IsNameChar c
unfolding keeps_char
keeps_char-IsNameChar c h = ground arith

keeps_char-dash : keeps_char dash ≡ true
unfolding keeps_char
keeps_char-dash = refl

sanitized-IsNameText : (s : String) → IsNameText (sanitized s)
unfolding IsNameText sanitized
sanitized-IsNameText String.[] = tt
sanitized-IsNameText (String.◌∷◌ c s) = elim (Bool-cases (keeps_char c)) [
  | inl kept ↦ rw kept (keeps_char-IsNameChar c kept, sanitized-IsNameText s)
  | inr other ↦ rw other (keeps_char-IsNameChar dash keeps_char-dash, sanitized-IsNameText s)
]

if-IsNameText :
    (test : Bool) (s t : String)
    → (test ≡ false → is_blank t ≡ false)
    → IsNameText s
    → IsNameText t
    → is_blank s ≡ false
    → IsNameText (if test then s else t) × (is_blank (if test then s else t) ≡ false)
if-IsNameText true s t b h k n = (h, n)
if-IsNameText false s t b h k n = (k, b refl)

task-IsNameText : IsNameText "task"
unfolding IsNameText
task-IsNameText = ground arith

-- The name of a tool in a file name is not empty, and every character of it is a letter or a
-- digit of ASCII, a dash or an underscore.
pub sanitize_task_tool-IsNameText :
    (tool : String)
    → IsNameText (sanitize_task_tool tool) × (is_blank (sanitize_task_tool tool) ≡ false)
unfolding sanitize_task_tool
sanitize_task_tool-IsNameText tool =
    let text = sanitized (trim_space tool) in
    if-IsNameText (is_blank text) "task" text (λ h. h) task-IsNameText
      (sanitized-IsNameText (trim_space tool)) refl

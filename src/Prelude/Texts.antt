-- ===== src/Prelude/Texts.antt =====
-- Texts: native strings for keys and fixed sentences, code points where the program walks a text.
use Prim.Native.Nat.{ℕ, zero, suc, ◌≤◌}
use native.Mathlib.Omega.{arith}
use Prim.Native.Char.{code}
use Prim.Native.String.{String, ◌++◌}
use mathlib.Core.List.{List, [], ◌∷◌}
use mathlib.Core.Option.{Option, none, some}
use mathlib.Core.Bool.{Bool, true, false, ◌&&◌}
use whatsapp_bot.Prelude.Tests.{◌==◌, nat_eq, if◌then◌else◌}

-- What the program does character by character, it does over the code points.
abbrev pub Text : Type 0
Text = List ℕ

abbrev pub codes : String → Text
codes String.[] = []
codes (String.◌∷◌ c s) = code c ∷ codes s

-- `text[:limit]`
abbrev pub clip : ℕ → String → String
clip zero s = String.[]
clip (suc n) String.[] = String.[]
clip (suc n) (String.◌∷◌ c s) = String.◌∷◌ c (clip n s)

-- `text or None`
abbrev pub or_none : String → Option String
or_none String.[] = none
or_none (String.◌∷◌ c s) = some (String.◌∷◌ c s)

-- `a or b` on an optional text
abbrev pub or_text : Option String → String → String
or_text none other = other
or_text (some String.[]) other = other
or_text (some (String.◌∷◌ c s)) other = String.◌∷◌ c s

-- `text.lstrip("+")`
abbrev pub lstrip_plus : String → String
lstrip_plus String.[] = String.[]
lstrip_plus (String.◌∷◌ c s) =
    let rest = lstrip_plus s in if code c == b'+' then rest else String.◌∷◌ c s

-- `len(text)`
abbrev pub text_length : String → ℕ
text_length String.[] = 0
text_length (String.◌∷◌ c s) = suc (text_length s)

pub text_length-clip : (n : ℕ) (s : String) → text_length (clip n s) ≤ n
text_length-clip zero s = omega arith
text_length-clip (suc n) String.[] = omega arith
text_length-clip (suc n) (String.◌∷◌ c s) = omega (arith, text_length-clip n s)

-- A text put together from pieces, as an f-string is.
abbrev pub joined : List String → String
joined [] = String.[]
joined (s ∷ pieces) = s ++ joined pieces

abbrev pub is_blank : String → Bool
is_blank String.[] = true
is_blank (String.◌∷◌ _ _) = false

-- `phone` where `not phone` is false.
abbrev pub usable : Option String → Option String
usable none = none
usable (some phone) = or_none phone

-- `text.rstrip` of the characters that a test accepts
abbrev pub rstrip_of : (ℕ → Bool) → String → String
rstrip_of drops String.[] = String.[]
rstrip_of drops (String.◌∷◌ c s) =
    let rest = rstrip_of drops s in
    if is_blank rest && drops (code c) then String.[] else String.◌∷◌ c rest

-- `text.lstrip` of the characters that a test accepts
abbrev pub lstrip_of : (ℕ → Bool) → String → String
lstrip_of drops String.[] = String.[]
lstrip_of drops (String.◌∷◌ c s) =
    let rest = lstrip_of drops s in if drops (code c) then rest else String.◌∷◌ c s

-- `text.strip` of the characters that a test accepts
abbrev pub strip_of : (ℕ → Bool) → String → String
strip_of drops text = rstrip_of drops (lstrip_of drops text)

-- ===== src/Web/JsonText.antt =====
-- How `JSON.stringify` writes a string.
use fearless.Base.{ℕ, Str, codes, [], ◌∷◌, ◌++◌, ◌==◌, ltb, if◌then◌else◌, ◌≡◌, refl, append_assoc}
use fearless.Emit.Escape.{hex_byte}

unfoldable pub json_unit : ℕ → Str
unfolding hex_byte
json_unit c =
    if c == b'"'
    then b'\\' ∷ b'"' ∷ []
    else if c == b'\\'
    then b'\\' ∷ b'\\' ∷ []
    else if c == 8
    then b'\\' ∷ b'b' ∷ []
    else if c == 9
    then b'\\' ∷ b't' ∷ []
    else if c == 10
    then b'\\' ∷ b'n' ∷ []
    else if c == 12
    then b'\\' ∷ b'f' ∷ []
    else if c == 13
    then b'\\' ∷ b'r' ∷ []
    else if ltb c 0x20
    then codes "\\u00" ++ hex_byte c
    else c ∷ []

-- The text between the quotes. (Surrogates are taken to stand in pairs.)
unfoldable pub json_escape : Str → Str
unfolding json_unit
json_escape [] = []
json_escape (c ∷ s) = json_unit c ++ json_escape s

unfoldable pub json_quote : Str → Str
unfolding json_escape
json_quote s = b'"' ∷ (json_escape s ++ b'"' ∷ [])

pub json_escape-append : (s t : Str) → json_escape (s ++ t) ≡ json_escape s ++ json_escape t
unfolding json_escape
json_escape-append [] t = refl
json_escape-append (c ∷ s) t =
    rw (json_escape-append s t)
      (rw (append_assoc (json_unit c) (json_escape s) (json_escape t)) refl)

-- ===== src/Emit/Escape.antt =====
-- packages/aot-transpiler/src/emit/escape.ts: `escapeRustByteString`.
use fearless.Base.{ℕ, ◌+◌, ◌/◌, ◌%◌, Str, List, [], ◌∷◌, ◌++◌, ◌==◌, ◌&&◌, leb, ltb, if◌then◌else◌}

unfoldable pub hex_digit : ℕ → ℕ
hex_digit d = if ltb d 10 then b'0' + d else 87 + d

-- `b.toString(16).padStart(2, "0")` of a byte
unfoldable pub hex_byte : ℕ → Str
hex_byte b = hex_digit (b / 16) ∷ hex_digit (b % 16) ∷ []

unfoldable pub escape_byte : ℕ → Str
unfolding hex_byte
escape_byte b =
    if b == 0x22
    then b'\\' ∷ b'"' ∷ []
    else if b == 0x5c
    then b'\\' ∷ b'\\' ∷ []
    else if b == 0x0a
    then b'\\' ∷ b'n' ∷ []
    else if b == 0x0d
    then b'\\' ∷ b'r' ∷ []
    else if b == 0x09
    then b'\\' ∷ b't' ∷ []
    else if leb 0x20 b && leb b 0x7e
    then b ∷ []
    else b'\\' ∷ b'x' ∷ hex_byte b

unfoldable pub escape_rust_byte_string : List ℕ → Str
unfolding escape_byte
escape_rust_byte_string [] = []
escape_rust_byte_string (b ∷ bytes) = escape_byte b ++ escape_rust_byte_string bytes

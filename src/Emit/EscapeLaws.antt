-- ===== src/Emit/EscapeLaws.antt =====
-- An escaped byte string is read back by the rules of Rust's byte string literals.
use fearless.Base.{
  Bool, ℕ, ◌+◌, ◌-◌, ◌*◌, ◌/◌, ◌%◌, ◌<◌, ◌≡◌, refl, Option, none, some, true, false, Str, List, [],
  ◌∷◌, ◌++◌, ◌==◌, ◌&&◌, leb, if◌then◌else◌, arith, All, All-append, ◌≤◌,
}
use mathlib.Core.Option.{map}
use fearless.Emit.Escape.{hex_digit, hex_byte, escape_byte, escape_rust_byte_string}

-- Where a reader of a literal is: outside of an escape, behind a backslash, or in `\x` with the digits
-- that it has read.
pub data Reading : Type 0 where
  plain slash hex_first : Reading
  hex_second : ℕ → Reading

abbrev hex_value : ℕ → Option ℕ
hex_value c =
    if leb b'0' c && leb c b'9'
    then some (c - b'0')
    else if leb b'a' c && leb c b'f'
    then some (c - 87)
    else none

-- What a unit of a literal `b"…"` adds, and where the reader is then. Taken are printable ASCII but the
-- quote and the backslash, and the escapes for these two, the line feed, the carriage return, the tab
-- and two hexadecimal digits.
unfoldable read_unit : Reading → ℕ → Option (List ℕ × Reading)
read_unit plain c =
    if c == b'\\'
    then some ([], slash)
    else if c == b'"'
    then none
    else if leb 0x20 c && leb c 0x7e
    then some (c ∷ [], plain)
    else none
read_unit slash c =
    if c == b'x'
    then some ([], hex_first)
    else if c == b'"'
    then some (0x22 ∷ [], plain)
    else if c == b'\\'
    then some (0x5c ∷ [], plain)
    else if c == b'n'
    then some (0x0a ∷ [], plain)
    else if c == b'r'
    then some (0x0d ∷ [], plain)
    else if c == b't'
    then some (0x09 ∷ [], plain)
    else none
read_unit hex_first c = map (λ d. ([], hex_second d)) (hex_value c)
read_unit (hex_second d) c = map (λ e. ((d * 16 + e) ∷ [], plain)) (hex_value c)

abbrev go_on : Option (List ℕ × Reading) → (Reading → Option (List ℕ)) → Option (List ℕ)
go_on none rest = none
go_on (some (out, reading)) rest = map (λ bs. out ++ bs) (rest reading)

abbrev finished : Reading → Option (List ℕ)
finished plain = some []
finished _ = none

unfoldable pub read_bytes : Reading → Str → Option (List ℕ)
unfolding read_unit
read_bytes reading [] = finished reading
read_bytes reading (c ∷ s) = go_on (read_unit reading c) (λ r. read_bytes r s)

two_steps :
    (n : ℕ) (o : Option (List ℕ))
    → map (λ bs. [] ++ bs) (map (λ bs. (n ∷ []) ++ bs) o) ≡ map (λ bs. n ∷ bs) o
two_steps n none = refl
two_steps n (some bs) = refl

hex_value-hex_digit : (d : ℕ) → d < 16 → hex_value (hex_digit d) ≡ some d
unfolding hex_digit
hex_value-hex_digit d h = ground arith

read_bytes-hex_byte :
    (b : ℕ) (s : Str)
    → b < 256
    → read_bytes hex_first (hex_byte b ++ s) ≡ map (λ bs. b ∷ bs) (read_bytes plain s)
unfolding read_bytes hex_byte
read_bytes-hex_byte b s h =
    rw (hex_value-hex_digit (b / 16) (omega arith), hex_value-hex_digit (b % 16) (omega arith))
      (let whole : b / 16 * 16 + b % 16 ≡ b = omega arith in
        rw whole (two_steps b (read_bytes plain s)))

read_plain :
    (b : ℕ) (s : Str)
    → leb 0x20 b && leb b 0x7e ≡ true
    → b == 0x22 ≡ false
    → b == 0x5c ≡ false
    → read_bytes plain (b ∷ s) ≡ map (λ bs. b ∷ bs) (read_bytes plain s)
unfolding read_bytes
read_plain b s p quote backslash =
    let taken : read_unit plain b ≡ some (b ∷ [], plain) = ground arith in rw taken refl

read_bytes-escape_byte :
    (b : ℕ) (s : Str)
    → b < 256
    → read_bytes plain (escape_byte b ++ s) ≡ map (λ bs. b ∷ bs) (read_bytes plain s)
unfolding read_bytes escape_byte
read_bytes-escape_byte b s h =
    let rest = read_bytes plain s in
    let hex = read_bytes-hex_byte b s h in ground (arith, two_steps b rest, hex, read_plain b s)

-- The escape of a string of bytes, put between quotes, is a literal that Rust reads as these bytes.
pub read_bytes-escape_rust_byte_string :
    (bytes : List ℕ)
    → All (λ b. b < 256) bytes
    → read_bytes plain (escape_rust_byte_string bytes) ≡ some bytes
unfolding escape_rust_byte_string read_bytes
read_bytes-escape_rust_byte_string [] h = refl
read_bytes-escape_rust_byte_string (b ∷ bytes) (h, hs) =
    rw
      (
        read_bytes-escape_byte b (escape_rust_byte_string bytes) h,
        read_bytes-escape_rust_byte_string bytes hs,
      )
      refl

-- A unit that may stand between the quotes of a byte string literal.
abbrev pub Printable : ℕ → Type 0
Printable c = 32 ≤ c × c ≤ 126

hex_digit-Printable : (d : ℕ) → d < 16 → Printable (hex_digit d)
unfolding hex_digit
hex_digit-Printable d h = ground arith

hex_byte-Printable : (b : ℕ) → b < 256 → All Printable (hex_byte b)
unfolding hex_byte
hex_byte-Printable b h =
    (hex_digit-Printable (b / 16) (omega arith), (hex_digit-Printable (b % 16) (omega arith), tt))

All-if :
    (c : Bool) (xs ys : Str)
    → (c ≡ true → All Printable xs)
    → All Printable ys
    → All Printable (if c then xs else ys)
All-if true xs ys h k = h refl
All-if false xs ys h k = k

kept-Printable : (b : ℕ) → leb 0x20 b && leb b 0x7e ≡ true → All Printable (b ∷ [])
kept-Printable b h =
    let low : 32 ≤ b = ground arith in let high : b ≤ 126 = ground arith in ((low, high), tt)

escape_byte-Printable : (b : ℕ) → b < 256 → All Printable (escape_byte b)
unfolding escape_byte
escape_byte-Printable b h =
    All-if (b == 0x22) _ _ (λ _. omega arith)
      (All-if (b == 0x5c) _ _ (λ _. omega arith)
        (All-if (b == 0x0a) _ _ (λ _. omega arith)
          (All-if (b == 0x0d) _ _ (λ _. omega arith)
            (All-if (b == 0x09) _ _ (λ _. omega arith)
              (All-if (leb 0x20 b && leb b 0x7e) _ _ (kept-Printable b)
                (omega arith, (omega arith, hex_byte-Printable b h)))))))

-- The escape of a string of bytes consists of printable ASCII: no unit of it is below 32 or over 126.
pub escape_rust_byte_string-Printable :
    (bytes : List ℕ) → All (λ b. b < 256) bytes → All Printable (escape_rust_byte_string bytes)
unfolding escape_rust_byte_string
escape_rust_byte_string-Printable [] h = tt
escape_rust_byte_string-Printable (b ∷ bytes) (h, hs) =
    All-append Printable (escape_byte b) (escape_rust_byte_string bytes) (escape_byte-Printable b h)
      (escape_rust_byte_string-Printable bytes hs)

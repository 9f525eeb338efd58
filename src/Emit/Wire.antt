-- ===== src/Emit/Wire.antt =====
-- The head of an HTTP response as RFC 9112 spells it, and how Rust reads the expressions that
-- packages/aot-transpiler/src/emit/rust.ts emits for the reads of a request. The emitter uses neither.
use fearless.Base.{
  str_eq_iff, ℕ, Option, none, some, Bool, true, false, Str, codes, str_eq, [], ◌∷◌, ◌++◌, Dict,
  ◌==◌, if◌then◌else◌, or_else, ◌≡◌, refl, arith,
}
use mathlib.Core.Option.{map}
use fearless.Emit.Response.{decimal, escape_quotes, getter}
use fearless.Emit.StatusText.{status_text}
use fearless.Transpile.Shapes.{
  CtxRead, param_read, query_read, header_read, input_read, method_input, path_input, url_input,
  ip_input,
}

-- Fields, each on a line that ends in CR LF, in front of `rest`.
abbrev pub field_lines : Dict Str → Str → Str
field_lines [] rest = rest
field_lines ((name, value) ∷ fields) rest =
    name ++ (codes ": " ++ (value ++ (13 ∷ 10 ∷ field_lines fields rest)))

-- The status line with the reason phrase of `statusText`, the fields, and `rest`.
abbrev pub head_lines : ℕ → Dict Str → Str → Str
head_lines status fields rest =
    (codes "HTTP/1.1 " ++ (decimal status ++ (b' ' ∷ (status_text status ++ (13 ∷ 10 ∷ [])))))
    ++ field_lines fields rest

-- The text of a Rust string literal up to its quote, behind which only `closing` stands. The flag is
-- set behind a backslash.
unfoldable pub quoted : Str → Bool → Str → Option Str
unfolding str_eq
quoted closing escaped [] = none
quoted closing true (c ∷ s) = map (λ t. c ∷ t) (quoted closing false s)
quoted closing false (c ∷ s) =
    let behind_slash = quoted closing true s in
    let more = map (λ t. c ∷ t) (quoted closing false s) in
    if c == b'\\'
    then behind_slash
    else if c == b'"'
    then (if str_eq s closing then some [] else none)
    else more

unfoldable pub strip : Str → Str → Option Str
strip [] s = some s
strip (p ∷ ps) [] = none
strip (p ∷ ps) (c ∷ s) = let rest = strip ps s in if p == c then rest else none

abbrev argument : Option Str → Option Str
argument none = none
argument (some s) = quoted (codes ")") false s

-- The read of the request that a Rust expression makes: `param`, `query_get` and `header` of
-- `AotRequest` look a name up in the maps of that kind, the other four are its fields.
unfoldable pub read_of : Str → Option CtxRead
unfolding quoted strip str_eq
read_of s = or_else (map param_read (argument (strip (codes "req.param(\"") s))) (
    or_else (map query_read (argument (strip (codes "req.query_get(\"") s))) (
      or_else (map header_read (argument (strip (codes "req.header(\"") s))) (
        if str_eq s (codes "req.method")
        then some (input_read method_input)
        else if str_eq s (codes "req.path")
        then some (input_read path_input)
        else if str_eq s (codes "req.url")
        then some (input_read url_input)
        else if str_eq s (codes "req.ip")
        then some (input_read ip_input)
        else none)))

pub quoted-escape_quotes :
    (closing s : Str) → quoted closing false (escape_quotes s ++ (b'"' ∷ closing)) ≡ some s
unfolding quoted escape_quotes
quoted-escape_quotes closing [] = ground (arith, str_eq_iff closing closing)
quoted-escape_quotes closing (c ∷ s) = ground (arith, quoted-escape_quotes closing s)

-- Rust reads the expression for a read as this read.
pub read_of-getter : (r : CtxRead) → read_of (getter r) ≡ some r
unfolding read_of getter
read_of-getter (param_read name) = rw (quoted-escape_quotes (codes ")") name) refl
read_of-getter (query_read name) = rw (quoted-escape_quotes (codes ")") name) refl
read_of-getter (header_read name) = rw (quoted-escape_quotes (codes ")") name) refl
read_of-getter (input_read method_input) = refl
read_of-getter (input_read path_input) = refl
read_of-getter (input_read url_input) = refl
read_of-getter (input_read ip_input) = refl

-- ===== src/Web/Platform.antt =====
-- The functions of the JavaScript engine and of Node that the code calls and that are not modelled.
use fearless.Base.{ℕ, Option, Str, List}
use fearless.Web.Values.{Json}

pub record Platform : Type 0 where
  -- `JSON.stringify`, on the values that JSON can show
  pub stringify : Json → Str
  -- `JSON.parse`; none is its exception
  pub parse_json : Str → Option Json
  -- `decodeURIComponent`; none is its exception
  pub decode_uri_component : Str → Option Str
  -- `[...new URLSearchParams(text).entries()]`
  pub search_params : Str → List (Str × Str)
  -- `String(n)` of an integer that is not negative
  pub number_to_string : ℕ → Str
  -- `s.toLowerCase()` and `s.toUpperCase()`
  pub to_lower_case : Str → Str
  pub to_upper_case : Str → Str
  -- `String(Object.prototype[key])`
  pub inherited_text : Str → Str

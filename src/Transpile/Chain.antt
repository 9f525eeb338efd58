-- ===== src/Transpile/Chain.antt =====
-- packages/aot-transpiler/src/emit/extract.ts: `unwrapCtxChain`, which reads a chain from its last
-- link to its first.
use fearless.Base.{
  ℕ, ◌+◌, ◌-◌, ◌*◌, Option, none, some, Str, codes, str_eq, [], ◌∷◌, ◌&&◌, leb, if◌then◌else◌, Dict,
  put,
}
use fearless.Syntax.{
  Node, identifier, string_literal, numeric_literal, property_access, call_of, object_literal,
  Nodes, Properties, no_properties, assignment, other_property, PropertyName, identifier_name,
  string_name, numeric_name, other_name, handler_param_name, first_node, second_node,
}
use fearless.Transpile.Json.{unless_null}

-- What the loop has read: the variables `status`, `contentTypeOverride` and `headerOverrides`.
pub record Overrides : Type 0 where
  pub status : Option ℕ
  pub content_type : Option Str
  pub headers : Dict Str

pub record UnwrappedChain : Type 0 where
  pub terminal_method : Str
  pub terminal_args : Nodes
  pub overrides : Overrides

abbrev pub no_overrides : Overrides
no_overrides = record { status = none; content_type = none; headers = [] }

abbrev pub leading_digits : ℕ → Str → ℕ
leading_digits n [] = n
leading_digits n (c ∷ s) =
    let rest = leading_digits (10 * n + (c - b'0')) s in
    if leb b'0' c && leb c b'9' then rest else n

-- `parseInt(text, 10)`, of the text of a literal, which has a digit first.
abbrev pub parse_int : Str → ℕ
parse_int s = leading_digits 0 s

-- The text of a property's name. (The source text of a numeric name is taken to be in normal form.)
abbrev name_text : PropertyName → Str
name_text (identifier_name s) = s
name_text (string_name s) = s
name_text (numeric_name s) = s
name_text (other_name s n) = s

module _ (to_lower_case : Str → Str) where
  unfoldable pub override_header : Str → Str → Overrides → Overrides
  unfolding str_eq put
  override_header name v o =
      let key = to_lower_case name in
      if str_eq key (codes "content-type")
      then record o { content_type = some v }
      else record o { headers = put key v o.headers }

  abbrev override_property : PropertyName → Node → Overrides → Overrides
  override_property name (string_literal v) o = override_header (name_text name) v o
  override_property name _ o = o

  unfoldable pub override_properties : Properties → Overrides → Overrides
  unfolding override_header
  override_properties no_properties o = o
  override_properties (assignment name n ps) o = override_properties ps (override_property name n o)
  override_properties (other_property ns ps) o = override_properties ps o

  abbrev pub status_link : Option Node → Overrides → Option Overrides
  status_link (some (numeric_literal s)) o = some (record o { status = some (parse_int s) })
  status_link _ o = none

  abbrev pub header_link : Option Node → Option Node → Overrides → Option Overrides
  header_link (some (string_literal k)) (some (string_literal v)) o = some (override_header k v o)
  header_link _ _ o = none

  abbrev pub headers_link : Option Node → Overrides → Option Overrides
  headers_link (some (object_literal ps)) o = some (override_properties ps o)
  headers_link _ o = none

  -- The body of the loop, for a call of `method`.
  unfoldable pub link_step : Str → Nodes → Overrides → Option Overrides
  unfolding str_eq override_header override_properties
  link_step method args o =
      if str_eq method (codes "status")
      then status_link (first_node args) o
      else if str_eq method (codes "header")
      then header_link (first_node args) (second_node args) o
      else if str_eq method (codes "setHeaders")
      then headers_link (first_node args) o
      else none

  unfoldable pub unwrap_links : Node → Overrides → Option Overrides
  unfolding link_step str_eq
  unwrap_links (call_of (property_access cursor method) args) o =
      unless_null (link_step method args o) (λ o'. unwrap_links cursor o')
  unwrap_links (identifier name) o = if str_eq name handler_param_name then some o else none
  unwrap_links _ o = none

  abbrev pub unwrapped : Str → Nodes → Option Overrides → Option UnwrappedChain
  unwrapped method args none = none
  unwrapped method args (some o) =
      some (record { terminal_method = method; terminal_args = args; overrides = o })

  unfoldable pub unwrap_ctx_chain : Node → Option UnwrappedChain
  unfolding unwrap_links
  unwrap_ctx_chain (call_of (property_access cursor method) args) =
      unwrapped method args (unwrap_links cursor no_overrides)
  unwrap_ctx_chain _ = none

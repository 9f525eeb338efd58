-- ===== src/Transpile/Reads.antt =====
-- packages/aot-transpiler/src/emit/extract.ts: `matchCtxRead`. The parameter `ctxParamName` is always
-- `HANDLER_PARAM_NAME`.
use fearless.Base.{Option, none, some, Str, codes, str_eq, [], if◌then◌else◌, get_or}
use mathlib.Core.Option.{map}
use fearless.Syntax.{
  Node, identifier, string_literal, plain_template, property_access, element_access,
  handler_param_name,
}
use fearless.Transpile.Shapes.{
  CtxRead, param_read, query_read, header_read, input_read, InputName, method_input, path_input,
  url_input, ip_input,
}

unfoldable pub input_of : Str → Option InputName
unfolding str_eq
input_of name =
    if str_eq name (codes "method")
    then some method_input
    else if str_eq name (codes "path")
    then some path_input
    else if str_eq name (codes "url")
    then some url_input
    else if str_eq name (codes "ip")
    then some ip_input
    else none

module _ (to_lower_case : Str → Str) where
  unfoldable pub collection_read : Str → Str → Option CtxRead
  unfolding str_eq
  collection_read collection name =
      if str_eq collection (codes "params")
      then some (param_read name)
      else if str_eq collection (codes "query")
      then some (query_read name)
      else if str_eq collection (codes "headers")
      then some (header_read (to_lower_case name))
      else none

  abbrev pub read_if_ctx : Str → Option CtxRead → Option CtxRead
  read_if_ctx name read = if str_eq name handler_param_name then read else none

  unfoldable pub match_ctx_read : Node → Option CtxRead
  unfolding input_of collection_read str_eq
  match_ctx_read (property_access (identifier c) name) =
      read_if_ctx c (map input_read (input_of name))
  match_ctx_read (property_access (property_access (identifier c) collection) name) =
      read_if_ctx c (collection_read collection name)
  match_ctx_read (element_access (property_access (identifier c) collection) (string_literal key)) =
      read_if_ctx c (collection_read collection key)
  match_ctx_read (element_access (property_access (identifier c) collection) (plain_template key)) =
      read_if_ctx c (collection_read collection key)
  match_ctx_read _ = none

-- `param`, `query_get` and `header` of packages/aot-transpiler/src/runtime/mod.rs, for a request of
-- which `request` has the texts: what is missing is the empty text.
abbrev pub rust_read : (CtxRead → Option Str) → CtxRead → Str
rust_read request r = get_or (request r) []

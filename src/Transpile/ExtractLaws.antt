-- ===== src/Transpile/ExtractLaws.antt =====
-- The response that the transpiler computes for `ctx. … .json(…)` against the one of src/ctx.ts.
use fearless.Base.{ℕ, Option, none, some, Str, List}
use fearless.Web.Values.{Json, Result, ok, throw}
use fearless.Web.Response.{WebResponse}
use fearless.Syntax.{Node, identifier, property_access, call_of, no_nodes, node, handler_param_name}
use fearless.Transpile.Shapes.{CtxRead, ResponseShape, static_shape, dynamic_shape}
use fearless.Transpile.Written.{written}
use fearless.Transpile.ChainLaws.{Link, chain_call}

abbrev pub ctx_chain : List Link → Str → Node → Node
ctx_chain ls method arg =
    call_of (property_access (chain_call (identifier handler_param_name) ls) method)
      (node arg no_nodes)

abbrev pub shape_status : ResponseShape → ℕ
shape_status (static_shape status ct text) = status
shape_status (dynamic_shape status ct chunks) = status

-- The status and the body of a response, if there is one.
abbrev pub answer : Result WebResponse → Option (ℕ × Option Str)
answer (ok r) = some (r.status, r.body)
answer (throw e) = none

module _ (to_lower_case : Str → Str) (url_encode : Str → Str) (reads : CtxRead → Str) where
  -- The body that the emitted code writes.
  abbrev pub shape_body : ResponseShape → Str
  shape_body (static_shape status ct text) = text
  shape_body (dynamic_shape status ct chunks) = written url_encode reads chunks

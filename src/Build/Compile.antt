-- ===== src/Build/Compile.antt =====
-- packages/aot-build/src/index.ts: `compileApp`, and `transpileHandler` of aot-transpiler as it calls it.
-- `emit_async` is `emitAsyncHandler` without the name of the function, for the handles of the file; no
-- theorem assumes anything of it. `handles` are the names of these handles.
use fearless.Base.{
  ℕ, suc, Option, none, some, Bool, true, false, ◌&&◌, ◌||◌, Str, codes, List, [], ◌∷◌, ◌++◌, leb,
  if◌then◌else◌,
}
use fearless.Routing.Pattern.{HttpMethod, get_method}
use fearless.Syntax.{
  Node, identifier, property_access, call_of, no_nodes, node, handler_param_name, concise,
}
use fearless.Emit.Response.{decimal}
use fearless.Transpile.Function.{
  unsupported_construct, Outcome, success, failure, fn_name, transpile_sync_handler,
}
use fearless.Analyze.Handler.{Handler, named_parameter, body_node}
use fearless.Analyze.Analysis.{AnalysisResult, compilable, not_compilable, analyze_handler}

-- What `visit` registers, in the order of the source: a call of `get`, `post` and so on with a literal
-- path and an expression, and a call of `text`, `json` or `html` with a literal path and a body.
pub data HandlerArg : Type 0 where
  inline_function : Handler → HandlerArg
  other_expression : HandlerArg

pub data Registration : Type 0 where
  handler_call : HttpMethod → Str → HandlerArg → Registration
  template_call : Str → Str → Node → Registration

pub record TranspileResult : Type 0 where
  pub rust_source : Str
  pub fn_name : Str
  pub is_async : Bool

pub data DiscoveredRoute : Type 0 where
  aot_route : HttpMethod → Str → TranspileResult → DiscoveredRoute
  bun_route template_route : HttpMethod → Str → DiscoveredRoute

-- `path.replace(/[^a-zA-Z0-9]/g, "_")`
abbrev is_alphanumeric : ℕ → Bool
is_alphanumeric c =
    leb b'a' c && leb c b'z' || (leb b'A' c && leb c b'Z' || leb b'0' c && leb c b'9')

unfoldable pub path_id : Str → Str
path_id [] = []
path_id (c ∷ s) = (if is_alphanumeric c then c else b'_') ∷ path_id s

unfoldable pub route_id : ℕ → Str → Str
unfolding decimal path_id
route_id counter path = decimal counter ++ (b'_' ∷ path_id path)

unfoldable pub template_id : ℕ → Str → Str
unfolding decimal path_id
template_id counter path = decimal counter ++ (b'_' ∷ (codes "template_" ++ path_id path))

-- `(ctx) => ctx.<method>(<body>)`
abbrev pub synthetic_handler : Str → Node → Handler
synthetic_handler method body = record {
  is_async = false;
  parameters = named_parameter (codes "ctx") ∷ [];
  body =
      concise
        (call_of (property_access (identifier handler_param_name) method) (node body no_nodes));
}

module _ (to_lower_case : Str → Str) (encode : Str → List ℕ) (handles : List Str)
    (emit_async : Str → Handler → Option Str) where
  abbrev pub async_result : Str → Handler → Option Str → Outcome TranspileResult
  async_result id h none = failure (unsupported_construct (body_node h.body))
  async_result id h (some source) =
      success (record { rust_source = source; fn_name = fn_name id; is_async = true })

  abbrev pub sync_result : Str → Outcome Str → Outcome TranspileResult
  sync_result id (failure e) = failure e
  sync_result id (success source) =
      success (record { rust_source = source; fn_name = fn_name id; is_async = false })

  unfoldable pub transpile_handler : Str → Handler → Outcome TranspileResult
  unfolding transpile_sync_handler fn_name
  transpile_handler id h =
      if h.is_async
      then async_result id h (emit_async id h)
      else sync_result id (transpile_sync_handler encode to_lower_case id h.body)

  abbrev pub transpiled : AnalysisResult → Outcome TranspileResult → Option TranspileResult
  transpiled (not_compilable reasons) o = none
  transpiled compilable (failure e) = none
  transpiled compilable (success r) = some r

  -- The result for an inline function, if it is compiled.
  unfoldable pub compiled_handler : List Str → Str → Handler → Option TranspileResult
  unfolding analyze_handler transpile_handler
  compiled_handler names id h = transpiled (analyze_handler names h) (transpile_handler id h)

  abbrev pub aot_or : DiscoveredRoute → HttpMethod → Str → Option TranspileResult → DiscoveredRoute
  aot_or other method path none = other
  aot_or other method path (some r) = aot_route method path r

  unfoldable pub discover_handler_route : HttpMethod → Str → HandlerArg → ℕ → DiscoveredRoute
  unfolding compiled_handler route_id
  discover_handler_route method path other_expression counter = bun_route method path
  discover_handler_route method path (inline_function h) counter =
      aot_or (bun_route method path) method path
        (compiled_handler handles (route_id counter path) h)

  -- The synthetic source declares no handles.
  unfoldable pub synthesize_template_as_aot : Str → Str → Node → ℕ → Option TranspileResult
  unfolding compiled_handler template_id
  synthesize_template_as_aot method path body counter =
      compiled_handler [] (template_id counter path) (synthetic_handler method body)

  unfoldable pub route_of : Registration → ℕ → DiscoveredRoute
  unfolding discover_handler_route synthesize_template_as_aot
  route_of (handler_call method path arg) counter = discover_handler_route method path arg counter
  route_of (template_call method path body) counter =
      aot_or (template_route get_method path) get_method path
        (synthesize_template_as_aot method path body counter)

  abbrev pub next_counter : DiscoveredRoute → ℕ → ℕ
  next_counter (aot_route method path r) counter = suc counter
  next_counter _ counter = counter

  -- The routes of `compileApp`, from the counter on.
  unfoldable pub compile_routes : ℕ → List Registration → List DiscoveredRoute
  unfolding route_of
  compile_routes counter [] = []
  compile_routes counter (r ∷ rs) =
      route_of r counter ∷ compile_routes (next_counter (route_of r counter) counter) rs

-- The functions that the emitted file declares for a compiled route: its handler, and for an async one
-- the adapter that calls it.
abbrev pub functions_of : TranspileResult → List Str
functions_of r =
    if r.is_async then r.fn_name ∷ (r.fn_name ++ codes "_dispatch") ∷ [] else r.fn_name ∷ []

abbrev pub handler_functions : List DiscoveredRoute → List Str
handler_functions [] = []
handler_functions (aot_route method path r ∷ routes) = functions_of r ++ handler_functions routes
handler_functions (bun_route method path ∷ routes) = handler_functions routes
handler_functions (template_route method path ∷ routes) = handler_functions routes

-- The function that wires the handlers stands behind them, if there are any.
abbrev pub and_register : List Str → List Str
and_register [] = []
and_register (name ∷ names) = name ∷ (names ++ codes "register" ∷ [])

abbrev pub emitted_functions : List DiscoveredRoute → List Str
emitted_functions routes = and_register (handler_functions routes)

pub record Summary : Type 0 where
  pub total : ℕ
  pub aot : ℕ
  pub bun : ℕ
  pub template : ℕ

abbrev is_aot : DiscoveredRoute → Bool
is_aot (aot_route method path r) = true
is_aot _ = false

abbrev is_bun : DiscoveredRoute → Bool
is_bun (bun_route method path) = true
is_bun _ = false

abbrev is_template : DiscoveredRoute → Bool
is_template (template_route method path) = true
is_template _ = false

abbrev count : (DiscoveredRoute → Bool) → List DiscoveredRoute → ℕ
count test [] = 0
count test (r ∷ rs) = let rest = count test rs in if test r then suc rest else rest

abbrev pub summary_of : List DiscoveredRoute → Summary
summary_of routes = record {
  total = count (λ r. true) routes;
  aot = count is_aot routes;
  bun = count is_bun routes;
  template = count is_template routes;
}

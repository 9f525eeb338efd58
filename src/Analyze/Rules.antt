-- ===== src/Analyze/Rules.antt =====
-- packages/aot-analyzer/src/rules: the rules that look at each node of the body by itself, and the
-- rules on calls, returns, templates and free identifiers.
use fearless.Base.{
  Bool, true, false, not, ◌&&◌, ◌||◌, Str, codes, str_eq, List, [], ◌∷◌, ◌++◌, some_of,
  if◌then◌else◌,
}
use fearless.Syntax.{
  Node, identifier, string_literal, plain_template, numeric_literal, property_access,
  element_access, call_of, await_of, return_nothing, return_of, throw_of, loop_of, function_like,
  handler_param_name, HandlerBody, concise, statements,
}
use fearless.Analyze.Walk.{Descent, stop, children, arguments, visited}
use fearless.Analyze.Handler.{
  no_promise, no_dynamic_property, no_throw, no_loops, no_disallowed_calls, return_shape, Reason,
  report, report_handler, Handler, body_node, has, report_where, is_handle_call,
}

abbrev pub allowed_ctx_builders : List Str
allowed_ctx_builders =
    codes "json"
    ∷ codes "text"
    ∷ codes "html"
    ∷ codes "raw"
    ∷ codes "redirect"
    ∷ codes "notFound"
    ∷ codes "noContent"
    ∷ []

abbrev pub allowed_ctx_chains : List Str
allowed_ctx_chains = codes "status" ∷ codes "header" ∷ codes "setHeaders" ∷ []

abbrev pub allowed_ctx_inputs : List Str
allowed_ctx_inputs =
    codes "method"
    ∷ codes "path"
    ∷ codes "url"
    ∷ codes "params"
    ∷ codes "query"
    ∷ codes "headers"
    ∷ codes "ip"
    ∷ codes "state"
    ∷ []

abbrev pub allowed_method : Str → Bool
allowed_method name = has name allowed_ctx_builders || has name allowed_ctx_chains

abbrev everywhere : Node → Descent
everywhere n = children

abbrev pub below_body : Handler → List Node
below_body h = visited everywhere (body_node h.body)

abbrev pub is_throw : Node → Bool
is_throw (throw_of n) = true
is_throw _ = false

abbrev pub is_loop : Node → Bool
is_loop (loop_of ns) = true
is_loop _ = false

unfoldable pub is_promise : Node → Bool
unfolding str_eq
is_promise (identifier name) = str_eq name (codes "Promise")
is_promise (property_access n name) = has name (codes "then" ∷ codes "catch" ∷ codes "finally" ∷ [])
is_promise _ = false

abbrev pub is_dynamic_access : Node → Bool
is_dynamic_access (element_access n (string_literal s)) = false
is_dynamic_access (element_access n (numeric_literal s)) = false
is_dynamic_access (element_access n (plain_template s)) = false
is_dynamic_access (element_access n m) = true
is_dynamic_access _ = false

unfoldable pub no_throw_rule : Handler → List Reason
unfolding visited
no_throw_rule h = report_where no_throw is_throw (below_body h)

unfoldable pub no_loops_rule : Handler → List Reason
unfolding visited
no_loops_rule h = report_where no_loops is_loop (below_body h)

unfoldable pub no_promise_rule : Handler → List Reason
unfolding visited is_promise
no_promise_rule h = report_where no_promise is_promise (below_body h)

unfoldable pub no_dynamic_property_rule : Handler → List Reason
unfolding visited
no_dynamic_property_rule h = report_where no_dynamic_property is_dynamic_access (below_body h)

-- The loop that walks the callee's chain of calls back, and the test of where it ends.
unfoldable pub chain_ends_at_ctx : Node → Bool
unfolding str_eq
chain_ends_at_ctx (call_of (property_access n method) args) =
    let rest = chain_ends_at_ctx n in if allowed_method method then rest else false
chain_ends_at_ctx (identifier name) = str_eq name handler_param_name
chain_ends_at_ctx _ = false

abbrev pub is_math_call : Node → Str → Bool
is_math_call (identifier name) method =
    str_eq name (codes "Math") && has method (codes "floor" ∷ codes "random" ∷ [])
is_math_call _ method = false

abbrev pub is_handle : List Str → Node → Bool
is_handle handles (identifier name) = has name handles
is_handle handles _ = false

-- Whether a call is reported, by its callee.
unfoldable pub is_disallowed_callee : List Str → Node → Bool
unfolding chain_ends_at_ctx str_eq
is_disallowed_callee handles (property_access n method) =
    if chain_ends_at_ctx n
    then not (allowed_method method)
    else not (is_handle handles n || is_math_call n method)
is_disallowed_callee handles _ = true

unfoldable pub is_disallowed_call : List Str → Node → Bool
unfolding is_disallowed_callee
is_disallowed_call handles (call_of callee args) = is_disallowed_callee handles callee
is_disallowed_call handles _ = false

-- At a call the visitor goes on to the arguments, and not to the callee.
abbrev pub past_callees : Node → Descent
past_callees (call_of callee args) = arguments
past_callees _ = children

unfoldable pub no_disallowed_calls_rule : List Str → Handler → List Reason
unfolding visited is_disallowed_call
no_disallowed_calls_rule handles h =
    report_where no_disallowed_calls (is_disallowed_call handles)
      (visited past_callees (body_node h.body))

-- The loop of `isCtxBuilderCall`, and its test of the root.
unfoldable pub is_ctx_chain : Node → Bool
unfolding str_eq
is_ctx_chain (call_of (property_access n method) args) =
    let rest = is_ctx_chain n in if has method allowed_ctx_chains then rest else false
is_ctx_chain (property_access n name) = is_ctx_chain n
is_ctx_chain (identifier name) = str_eq name handler_param_name
is_ctx_chain _ = false

unfoldable pub is_ctx_builder_call : Node → Bool
unfolding is_ctx_chain str_eq
is_ctx_builder_call (call_of (property_access n method) args) =
    is_ctx_chain n && has method allowed_ctx_builders
is_ctx_builder_call _ = false

abbrev is_handle_await_call : List Str → Node → Bool
is_handle_await_call handles (await_of n) = is_handle_call handles n
is_handle_await_call handles _ = false

unfoldable pub is_valid_return : List Str → Node → Bool
unfolding is_ctx_builder_call is_handle_call
is_valid_return handles e = is_ctx_builder_call e || is_handle_await_call handles e

-- `visitReturns` stops at a return, and at a nested function.
abbrev pub to_returns : Node → Descent
to_returns return_nothing = stop
to_returns (return_of e) = stop
to_returns (function_like ns) = stop
to_returns _ = children

abbrev pub is_return : Node → Bool
is_return return_nothing = true
is_return (return_of e) = true
is_return _ = false

unfoldable pub is_invalid_return : List Str → Node → Bool
unfolding is_valid_return
is_invalid_return handles return_nothing = true
is_invalid_return handles (return_of e) = not (is_valid_return handles e)
is_invalid_return handles _ = false

unfoldable pub return_shape_reasons : List Str → HandlerBody → List Reason
unfolding visited is_valid_return is_invalid_return
return_shape_reasons handles (concise e) =
    if is_valid_return handles e then [] else report return_shape e ∷ []
return_shape_reasons handles (statements ns) =
    let returns = visited to_returns (body_node (statements ns)) in
    report_where return_shape (is_invalid_return handles) returns
    ++ (if some_of is_return returns then [] else report_handler return_shape ∷ [])

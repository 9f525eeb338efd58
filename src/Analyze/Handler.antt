-- ===== src/Analyze/Handler.antt =====
-- packages/aot-analyzer/src/types.ts and rules/handler-shape.ts, rules/no-await.ts,
-- rules/_handle-await-check.ts: what a rule is given and reports, and the rules on `async` and `await`.
use fearless.Base.{
  Option, none, some, Bool, false, not, ◌&&◌, Str, str_eq, List, [], ◌∷◌, ◌++◌, some_of,
  if◌then◌else◌,
}
use fearless.Syntax.{
  Node, identifier, property_access, call_of, await_of, block_of, handler_param_name, HandlerBody,
  concise, statements,
}
use fearless.Analyze.Walk.{Descent, stop, children, visited}

pub data RuleId : Type 0 where
  handler_shape no_await no_promise no_external_identifiers no_dynamic_property no_throw no_loops :
      RuleId
  no_disallowed_calls return_shape template_substitutions : RuleId

-- A reason without its texts: the rule, and the node that it points at, if that is not the handler.
pub record Reason : Type 0 where
  pub rule : RuleId
  pub at : Option Node

abbrev pub report : RuleId → Node → Reason
report rule n = record { rule = rule; at = some n }

abbrev pub report_handler : RuleId → Reason
report_handler rule = record { rule = rule; at = none }

-- A parameter that is not a plain identifier is a pattern.
pub data Parameter : Type 0 where
  named_parameter : Str → Parameter
  pattern_parameter : Node → Parameter

pub record Handler : Type 0 where
  pub is_async : Bool
  pub parameters : List Parameter
  pub body : HandlerBody

abbrev pub body_node : HandlerBody → Node
body_node (concise e) = e
body_node (statements ns) = block_of ns

abbrev pub has : Str → List Str → Bool
has name names = some_of (str_eq name) names

-- The nodes that pass the test are reported.
abbrev pub report_where : RuleId → (Node → Bool) → List Node → List Reason
report_where rule test [] = []
report_where rule test (n ∷ ns) =
    let rest = report_where rule test ns in if test n then report rule n ∷ rest else rest

-- `<handleVar>.<method>(…)`; `handles` are the variable names of the discovered handles.
unfoldable pub is_handle_call : List Str → Node → Bool
unfolding str_eq
is_handle_call handles (call_of (property_access (identifier h) method) args) = has h handles
is_handle_call handles _ = false

unfoldable pub offends : List Str → Node → Bool
unfolding is_handle_call
offends handles (await_of n) = not (is_handle_call handles n)
offends handles _ = false

abbrev pub until_await : Node → Descent
until_await (await_of n) = stop
until_await _ = children

-- `checkAllAwaitsOnHandles`: the result's `ok`. (The visitor does nothing after the first offence.)
unfoldable pub check_all_awaits_on_handles : List Str → Node → Bool
unfolding visited offends
check_all_awaits_on_handles handles body =
    not (some_of (offends handles) (visited until_await body))

unfoldable pub no_await_rule : List Str → Handler → List Reason
unfolding check_all_awaits_on_handles visited offends
no_await_rule handles h =
    let offences =
      report_where no_await (offends handles) (visited until_await (body_node h.body)) in
    if check_all_awaits_on_handles handles (body_node h.body) then [] else offences

abbrev pub parameter_reasons : List Parameter → List Reason
parameter_reasons (named_parameter name ∷ []) =
    if str_eq name handler_param_name then [] else report_handler handler_shape ∷ []
parameter_reasons (pattern_parameter n ∷ []) = report handler_shape n ∷ []
parameter_reasons _ = report_handler handler_shape ∷ []

unfoldable pub handler_shape_rule : List Str → Handler → List Reason
unfolding check_all_awaits_on_handles str_eq
handler_shape_rule handles h =
    (if h.is_async && not (check_all_awaits_on_handles handles (body_node h.body))
      then report_handler handler_shape ∷ []
      else [])
    ++ parameter_reasons h.parameters

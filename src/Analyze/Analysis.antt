-- ===== src/Analyze/Analysis.antt =====
-- packages/aot-analyzer/src: rules/template-substitutions.ts, rules/no-external-identifiers.ts, and
-- `analyzeHandler` of index.ts for a handler that is given as a node.
use fearless.Base.{Bool, false, ◌&&◌, ◌||◌, Str, codes, str_eq, List, [], ◌∷◌, ◌++◌, if◌then◌else◌}
use fearless.Syntax.{
  Node, identifier, string_literal, plain_template, numeric_literal, property_access,
  element_access, call_of, binary, plus_operator, asterisk_operator, template_of,
  variable_declaration, parameter_declaration, no_nodes, node, Spans, no_spans, span,
  handler_param_name,
}
use fearless.Analyze.Uses.{uses}
use fearless.Analyze.Handler.{
  no_external_identifiers, template_substitutions, Reason, report, Handler, body_node, has,
  handler_shape_rule, no_await_rule,
}
use fearless.Analyze.Rules.{
  allowed_ctx_inputs, below_body, no_promise_rule, no_dynamic_property_rule, no_throw_rule,
  no_loops_rule, no_disallowed_calls_rule, return_shape_reasons,
}

-- `Math.random() * n`, for a numeric literal
abbrev is_scaled_random : Node → Bool
is_scaled_random
      (binary asterisk_operator
        (call_of (property_access (identifier object) method) args)
        (numeric_literal n)) =
    str_eq object (codes "Math") && str_eq method (codes "random")
is_scaled_random _ = false

abbrev is_floor_of_random : Node → Bool
is_floor_of_random (call_of (property_access (identifier object) method) (node arg no_nodes)) =
    str_eq object (codes "Math") && str_eq method (codes "floor") && is_scaled_random arg
is_floor_of_random _ = false

unfoldable pub is_math_random_pattern : Node → Bool
unfolding str_eq
is_math_random_pattern (binary plus_operator n (numeric_literal m)) = is_floor_of_random n
is_math_random_pattern n = is_floor_of_random n

abbrev pub readable_collections : List Str
readable_collections = codes "params" ∷ codes "query" ∷ codes "headers" ∷ []

unfoldable pub is_ctx_read : Node → Bool
unfolding str_eq
is_ctx_read (property_access (identifier c) name) =
    str_eq c handler_param_name && has name allowed_ctx_inputs
is_ctx_read (property_access (property_access (identifier c) collection) name) =
    str_eq c handler_param_name && has collection readable_collections
is_ctx_read (element_access (property_access (identifier c) collection) (string_literal key)) =
    str_eq c handler_param_name && has collection readable_collections
is_ctx_read (element_access (property_access (identifier c) collection) (plain_template key)) =
    str_eq c handler_param_name && has collection readable_collections
is_ctx_read _ = false

unfoldable pub is_allowed_substitution : Node → Bool
unfolding is_math_random_pattern is_ctx_read
is_allowed_substitution n = is_math_random_pattern n || is_ctx_read n

abbrev span_reasons : Spans → List Reason
span_reasons no_spans = []
span_reasons (span n text ss) =
    let rest = span_reasons ss in
    if is_allowed_substitution n then rest else report template_substitutions n ∷ rest

abbrev template_reasons : List Node → List Reason
template_reasons [] = []
template_reasons (template_of head ss ∷ ns) = span_reasons ss ++ template_reasons ns
template_reasons (n ∷ ns) = template_reasons ns

unfoldable pub template_substitutions_rule : Handler → List Reason
unfolding is_allowed_substitution
template_substitutions_rule h = template_reasons (below_body h)

abbrev pub allowed_globals : List Str
allowed_globals =
    codes "ctx"
    ∷ codes "undefined"
    ∷ codes "null"
    ∷ codes "true"
    ∷ codes "false"
    ∷ codes "Infinity"
    ∷ codes "NaN"
    ∷ codes "Math"
    ∷ []

-- `collectLocals`, over the nodes of the body
abbrev collect_locals : List Node → List Str
collect_locals [] = []
collect_locals (variable_declaration name n ∷ ns) = name ∷ collect_locals ns
collect_locals (parameter_declaration name n ∷ ns) = name ∷ collect_locals ns
collect_locals (n ∷ ns) = collect_locals ns

abbrev pub with_sql : List Str → List Str
with_sql [] = []
with_sql (name ∷ names) = codes "sql" ∷ name ∷ names

-- The body has no parent, so an identifier that is the body is no use.
abbrev body_uses : Node → List Str
body_uses (identifier name) = []
body_uses n = uses n

abbrev external_reasons : (Str → Bool) → List Str → List Reason
external_reasons known [] = []
external_reasons known (name ∷ names) =
    let rest = external_reasons known names in
    if known name then rest else report no_external_identifiers (identifier name) ∷ rest

-- Uses at different places have different reasons, so the filter by place keeps them all.
unfoldable pub no_external_identifiers_rule : List Str → Handler → List Reason
unfolding uses str_eq
no_external_identifiers_rule handles h =
    let local_scope = handler_param_name ∷ collect_locals (below_body h) in
    external_reasons
      (λ name. has name local_scope || (has name allowed_globals || has name (with_sql handles)))
      (body_uses (body_node h.body))

-- The reasons of `PHASE_0_RULES`, in order.
unfoldable pub phase_0_reasons : List Str → Handler → List Reason
unfolding handler_shape_rule no_await_rule no_promise_rule no_external_identifiers_rule
    no_dynamic_property_rule no_throw_rule no_loops_rule no_disallowed_calls_rule
    return_shape_reasons template_substitutions_rule
phase_0_reasons handles h =
    handler_shape_rule handles h
    ++ (no_await_rule handles h
        ++ (no_promise_rule h
            ++ (no_external_identifiers_rule handles h
                ++ (no_dynamic_property_rule h
                    ++ (no_throw_rule h
                        ++ (no_loops_rule h
                            ++ (no_disallowed_calls_rule handles h
                                ++ (return_shape_reasons handles h.body
                                    ++ template_substitutions_rule h))))))))

pub data AnalysisResult : Type 0 where
  compilable : AnalysisResult
  not_compilable : List Reason → AnalysisResult

abbrev pub result_of : List Reason → AnalysisResult
result_of [] = compilable
result_of (r ∷ rs) = not_compilable (r ∷ rs)

unfoldable pub analyze_handler : List Str → Handler → AnalysisResult
unfolding phase_0_reasons
analyze_handler handles h = result_of (phase_0_reasons handles h)

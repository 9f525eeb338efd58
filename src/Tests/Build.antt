-- ===== src/Tests/Build.antt =====
-- Examples for the analyser and for SQL at build time.
use fearless.Base.{List, none, ◌≡◌, refl, ◌↔◌, some, true, false, Str, codes, [], ◌∷◌, All}
use mathlib.Core.Option
use fearless.Syntax.{
  Node, identifier, string_literal, property_access, call_of, no_nodes, node, handler_param_name,
  concise, other_node, variable_declaration, tagged_template, plain_template,
}
use fearless.Transpile.Shapes.{param_read, static_shape}
use fearless.Transpile.Reads.{match_ctx_read}
use fearless.Transpile.Extract.{extract_response_shape}
use fearless.Analyze.Handler.{Handler, named_parameter}
use fearless.Analyze.Rules.{is_valid_return}
use fearless.Analyze.Analysis.{is_allowed_substitution}
use fearless.Analyze.Agreement.{analysis_covers_transpiler}
use fearless.Routing.Pattern.{get_method, post_method}
use fearless.Build.Compile.{
  Registration, handler_call, inline_function, compile_routes, emitted_functions,
}
use fearless.Build.Names.{Distinct, compile_routes-Distinct}
use fearless.Sql.Template.{TaggedTemplate, with_spans, SqlTemplate, parse_sql_template}
use fearless.Sql.TemplateLaws.{Agrees, parse_sql_template-sql}
use fearless.Sql.Collection.{TranspileResult, CollectedSql, collect_sql}
use fearless.Sql.CollectionLaws.{Agreed, collect_sql_iff}
use fearless.Sql.Kept.{statements_of}

abbrev pong : Node
pong =
    call_of (property_access (identifier handler_param_name) (codes "text"))
      (node (string_literal (codes "pong")) no_nodes)

abbrev ping_handler : Handler
ping_handler = record {
  is_async = false;
  parameters = named_parameter (codes "ctx") ∷ [];
  body = concise pong;
}

abbrev same : Str → Str
same s = s

abbrev id_param : Node
id_param =
    property_access (property_access (identifier handler_param_name) (codes "params")) (codes "id")

id_read : match_ctx_read same id_param ≡ some (param_read (codes "id"))
unfolding match_ctx_read
id_read = refl

pong_extracted :
    extract_response_shape same pong
    ≡ some (static_shape 200 (codes "text/plain; charset=utf-8") (codes "pong"))
unfolding extract_response_shape
pong_extracted = refl

analysis_covers_transpiler_example :
    (is_allowed_substitution id_param ≡ true) × (is_valid_return [] pong ≡ true)
analysis_covers_transpiler_example =
    analysis_covers_transpiler same id_param pong (param_read (codes "id"))
      (static_shape 200 (codes "text/plain; charset=utf-8") (codes "pong")) [] id_read
      pong_extracted

abbrev by_id : TaggedTemplate
by_id = record {
  tag = some (codes "sql");
  template = with_spans (codes "SELECT a FROM t WHERE id = ") (
      record { expression = codes "ctx.params.id"; literal_text = codes " AND b = " }
      ∷ record { expression = codes "ctx.query.b"; literal_text = [] }
      ∷ []);
}

parse_sql_template-sql_example :
    (t : SqlTemplate) × (parse_sql_template by_id ≡ some t)
    × Agrees t by_id.template (codes "7" ∷ codes "x" ∷ [])
parse_sql_template-sql_example = parse_sql_template-sql by_id (codes "7" ∷ codes "x" ∷ []) refl refl

abbrev one_statement : TranspileResult
one_statement = record {
  is_async = true;
  statements = (codes "db_0", codes "SELECT 1") ∷ [];
  registered_handle_names = codes "primary" ∷ [];
}

collect_sql_iff_example :
    ((c : CollectedSql) × (collect_sql (λ names. names) (one_statement ∷ []) ≡ some c)) ↔ (
      (text_of : Str → Str) × All
        (λ r. All (Agreed text_of) (statements_of r))
        (one_statement ∷ []))
collect_sql_iff_example = collect_sql_iff (λ names. names) (one_statement ∷ [])

-- Two routes with the same path, and so with the same path in their ids.
abbrev ping_routes : List Registration
ping_routes =
    handler_call get_method (codes "/ping") (inline_function ping_handler)
    ∷ handler_call post_method (codes "/ping") (inline_function ping_handler)
    ∷ []

compile_routes-Distinct_example :
    Distinct (emitted_functions (compile_routes same (λ s. s) [] (λ id h. none) 0 ping_routes))
compile_routes-Distinct_example =
    compile_routes-Distinct same (λ s. s) [] (λ id h. none) ping_routes

-- `const db = fearless.sql("primary"); … db.queryOne(sql`SELECT 1`)`
abbrev handle_file : Node
handle_file = other_node (
    node
      (variable_declaration (codes "db") (
        call_of (property_access (identifier (codes "fearless")) (codes "sql"))
          (node (string_literal (codes "primary")) no_nodes)))
      (node
        (call_of (property_access (identifier (codes "db")) (codes "queryOne")) (
          node (tagged_template (identifier (codes "sql")) (plain_template (codes "SELECT 1")))
            no_nodes))
        no_nodes))

-- ===== src/Sql/Collection.antt =====
-- packages/aot-build/src/sql-collection.ts: `collectSql`. `sort_names` is the sort of an array of
-- strings.
use fearless.Base.{
  Option, none, some, Bool, false, not, Str, str_eq, List, [], ◌∷◌, ◌++◌, Dict, get, put, some_of,
  if◌then◌else◌,
}
use mathlib.Core.Option.{map}
use fearless.Transpile.Json.{unless_null}

-- What the loop reads of a `TranspileResult`.
pub record TranspileResult : Type 0 where
  pub is_async : Bool
  pub statements : Dict Str
  pub registered_handle_names : List Str

pub record CollectedSql : Type 0 where
  pub statements : Dict Str
  pub registered_handle_names : List Str

abbrev pub conflicts : Option Str → Str → Bool
conflicts none text = false
conflicts (some existing) text = not (str_eq existing text)

-- The statements of one handler; none where it throws.
unfoldable pub add_statements : Dict Str → Dict Str → Option (Dict Str)
unfolding get put str_eq
add_statements [] statements = some statements
add_statements ((key, text) ∷ rest) statements =
    let added = add_statements rest (put key text statements) in
    if conflicts (get key statements) text then none else added

abbrev add_name : Str → List Str → List Str
add_name name names = if some_of (str_eq name) names then names else names ++ name ∷ []

-- `Set.add` of each name
abbrev pub add_names : List Str → List Str → List Str
add_names [] names = names
add_names (name ∷ rest) names = add_names rest (add_name name names)

unfoldable pub collect_results : List TranspileResult → CollectedSql → Option CollectedSql
unfolding add_statements str_eq
collect_results [] collected = some collected
collect_results (r ∷ rs) collected =
    let skipped = collect_results rs collected in
    let added = unless_null (add_statements r.statements collected.statements) (λ statements.
      collect_results rs (record {
        statements = statements;
        registered_handle_names =
            add_names r.registered_handle_names collected.registered_handle_names;
      })) in
    if r.is_async then added else skipped

abbrev pub sorted_by : (List Str → List Str) → CollectedSql → CollectedSql
sorted_by sort_names c = record c { registered_handle_names = sort_names c.registered_handle_names }

unfoldable pub collect_sql : (List Str → List Str) → List TranspileResult → Option CollectedSql
unfolding collect_results
collect_sql sort_names results =
    map (sorted_by sort_names)
      (collect_results results (record { statements = []; registered_handle_names = [] }))

-- ===== src/Transpile/Guards.antt =====
-- packages/aot-transpiler/src/index.ts: the conditions of `if` as Rust source, and the returns of a
-- handler's body, each with the guard that leads to it.
use fearless.Base.{Option, none, some, Str, codes, str_eq, List, [], ◌∷◌, ◌++◌, if◌then◌else◌}
use fearless.Syntax.{
  Node, identifier, string_literal, plain_template, numeric_literal, property_access,
  element_access, binary, equals_equals_equals, equals_equals, exclamation_equals_equals,
  exclamation_equals, ampersand_ampersand, bar_bar, Nodes, no_nodes, node, return_of, if_then,
  if_then_else, block_of, handler_param_name,
}
use fearless.Emit.Response.{escape_quotes}

-- `ctx.method`, `ctx.path`, `ctx.url` and `ctx.ip`
unfoldable pub render_input : Str → Str → Option Str
unfolding str_eq
render_input target name =
    if str_eq target handler_param_name
    then (if str_eq name (codes "method")
        then some (codes "req." ++ name)
        else if str_eq name (codes "path")
        then some (codes "req." ++ name)
        else if str_eq name (codes "url")
        then some (codes "req." ++ name)
        else if str_eq name (codes "ip")
        then some (codes "req." ++ name)
        else none)
    else none

-- Both texts, if neither is null.
abbrev pub with_both : Option Str → Option Str → (Str → Str → Str) → Option Str
with_both (some left) (some right) f = some (f left right)
with_both _ _ f = none

abbrev pub compared : Str → Str → Str → Str
compared operator left right = left ++ (operator ++ right)

abbrev pub conjoined : Str → Str → Str → Str
conjoined operator left right =
    b'(' ∷ (left ++ (codes ") " ++ (operator ++ (codes " (" ++ (right ++ codes ")")))))

abbrev pub negated : Str → Str
negated cond = codes "!(" ++ (cond ++ codes ")")

abbrev pub guarded : Option Str → Str → Str
guarded none cond = cond
guarded (some guard) cond = conjoined (codes "&&") guard cond

abbrev pub ReturnBlock : Type 0
ReturnBlock = Option Str × Node

abbrev pub if_some : Option Str → (Str → List ReturnBlock) → List ReturnBlock
if_some none f = []
if_some (some cond) f = f cond

module _ (to_lower_case : Str → Str) where
  -- `ctx.params`, `ctx.query` and `ctx.headers` at a key
  unfoldable pub render_collection : Str → Str → Str → Option Str
  unfolding str_eq escape_quotes
  render_collection target collection key =
      if str_eq target handler_param_name
      then (if str_eq collection (codes "params")
          then some (codes "req.param(\"" ++ (escape_quotes key ++ codes "\")"))
          else if str_eq collection (codes "query")
          then some (codes "req.query_get(\"" ++ (escape_quotes key ++ codes "\")"))
          else if str_eq collection (codes "headers")
          then some (codes "req.header(\"" ++ (escape_quotes (to_lower_case key) ++ codes "\")"))
          else none)
      else none

  unfoldable pub render_value_as_rust : Node → Option Str
  unfolding render_input render_collection escape_quotes
  render_value_as_rust (string_literal s) = some (b'"' ∷ (escape_quotes s ++ codes "\""))
  render_value_as_rust (plain_template s) = some (b'"' ∷ (escape_quotes s ++ codes "\""))
  render_value_as_rust (numeric_literal s) = some s
  render_value_as_rust (property_access (identifier c) name) = render_input c name
  render_value_as_rust (property_access (property_access (identifier c) collection) name) =
      render_collection c collection name
  render_value_as_rust
        (element_access (property_access (identifier c) collection) (string_literal key)) =
      render_collection c collection key
  render_value_as_rust
        (element_access (property_access (identifier c) collection) (plain_template key)) =
      render_collection c collection key
  render_value_as_rust _ = none

  unfoldable pub render_condition_as_rust : Node → Option Str
  unfolding render_value_as_rust
  render_condition_as_rust (binary equals_equals_equals m n) =
      with_both (render_value_as_rust m) (render_value_as_rust n) (compared (codes " == "))
  render_condition_as_rust (binary equals_equals m n) =
      with_both (render_value_as_rust m) (render_value_as_rust n) (compared (codes " == "))
  render_condition_as_rust (binary exclamation_equals_equals m n) =
      with_both (render_value_as_rust m) (render_value_as_rust n) (compared (codes " != "))
  render_condition_as_rust (binary exclamation_equals m n) =
      with_both (render_value_as_rust m) (render_value_as_rust n) (compared (codes " != "))
  render_condition_as_rust (binary ampersand_ampersand m n) =
      with_both (render_condition_as_rust m) (render_condition_as_rust n) (conjoined (codes "&&"))
  render_condition_as_rust (binary bar_bar m n) =
      with_both (render_condition_as_rust m) (render_condition_as_rust n) (conjoined (codes "||"))
  render_condition_as_rust _ = none

  -- The blocks that `walkStatements` and `walkBranch` push, in order.
  unfoldable mutual
    unfolding render_condition_as_rust

    pub walk_statements : Nodes → Option Str → List ReturnBlock
    walk_statements no_nodes guard = []
    walk_statements (node (return_of e) rest) guard = (guard, e) ∷ []
    walk_statements (node (if_then c t) rest) guard =
        if_some (render_condition_as_rust c) (λ cond. walk_branch t (guarded guard cond))
        ++ walk_statements rest guard
    walk_statements (node (if_then_else c t e) rest) guard =
        if_some (render_condition_as_rust c) (λ cond.
          walk_branch t (guarded guard cond) ++ walk_branch e (guarded guard (negated cond)))
        ++ walk_statements rest guard
    walk_statements (node _ rest) guard = walk_statements rest guard

    pub walk_branch : Node → Str → List ReturnBlock
    walk_branch (block_of ns) guard = walk_statements ns (some guard)
    walk_branch (return_of e) guard = (some guard, e) ∷ []
    walk_branch (if_then c t) guard =
        if_some (render_condition_as_rust c) (λ cond. walk_branch t (guarded (some guard) cond))
    walk_branch (if_then_else c t e) guard = if_some (render_condition_as_rust c) (λ cond.
        walk_branch t (guarded (some guard) cond)
        ++ walk_branch e (guarded (some guard) (negated cond)))
    walk_branch _ guard = []

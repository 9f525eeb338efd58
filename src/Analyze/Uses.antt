-- ===== src/Analyze/Uses.antt =====
-- packages/aot-analyzer/src/rules/no-external-identifiers.ts: the identifiers that are uses.
use fearless.Base.{Str, List, [], ◌∷◌, ◌++◌}
use fearless.Syntax.{
  Node, identifier, string_literal, plain_template, numeric_literal, true_keyword, false_keyword,
  null_keyword, minus_of, property_access, element_access, call_of, binary, template_of,
  tagged_template, object_literal, array_literal, await_of, variable_declaration,
  parameter_declaration, block_of, return_nothing, return_of, if_then, if_then_else, throw_of,
  loop_of, function_like, other_node, Nodes, no_nodes, node, Spans, no_spans, span, Properties,
  no_properties, assignment, other_property, PropertyName, identifier_name, string_name,
  numeric_name, other_name,
}

-- What `visit` takes for a use, in order, of a node that has a parent: every identifier but the names
-- of declarations, of properties that are read, and of properties of an object literal.
unfoldable mutual
  pub uses : Node → List Str
  uses (identifier s) = s ∷ []
  uses (string_literal s) = []
  uses (plain_template s) = []
  uses (numeric_literal s) = []
  uses true_keyword = []
  uses false_keyword = []
  uses null_keyword = []
  uses (minus_of n) = uses n
  uses (property_access n s) = uses n
  uses (element_access n m) = (uses n ++ uses m)
  uses (call_of n ns) = uses n ++ uses_all ns
  uses (binary o n m) = (uses n ++ uses m)
  uses (template_of s ss) = uses_spans ss
  uses (tagged_template n m) = uses n ++ uses m
  uses (object_literal ps) = uses_properties ps
  uses (array_literal ns) = uses_all ns
  uses (await_of n) = uses n
  uses (variable_declaration s n) = uses n
  uses (parameter_declaration s n) = uses n
  uses (block_of ns) = uses_all ns
  uses return_nothing = []
  uses (return_of n) = uses n
  uses (if_then n m) = (uses n ++ uses m)
  uses (if_then_else n m k) = (uses n ++ (uses m ++ uses k))
  uses (throw_of n) = uses n
  uses (loop_of ns) = uses_all ns
  uses (function_like ns) = uses_all ns
  uses (other_node ns) = uses_all ns

  pub uses_all : Nodes → List Str
  uses_all no_nodes = []
  uses_all (node n ns) = uses n ++ uses_all ns

  pub uses_spans : Spans → List Str
  uses_spans no_spans = []
  uses_spans (span n s ss) = uses n ++ uses_spans ss

  pub uses_properties : Properties → List Str
  uses_properties no_properties = []
  uses_properties (assignment name n ps) = uses_name name ++ (uses n ++ uses_properties ps)
  uses_properties (other_property ns ps) = uses_all ns ++ uses_properties ps

  pub uses_name : PropertyName → List Str
  uses_name (identifier_name s) = []
  uses_name (string_name s) = []
  uses_name (numeric_name s) = []
  uses_name (other_name s n) = uses n

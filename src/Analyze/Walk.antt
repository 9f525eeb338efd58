-- ===== src/Analyze/Walk.antt =====
-- packages/aot-analyzer: the visitors of the rules. A visitor is called for a node and, unless it stops
-- there, for its children by `forEachChild`.
use fearless.Base.{List, [], ◌∷◌, ◌++◌}
use fearless.Syntax.{
  Node, identifier, string_literal, plain_template, numeric_literal, true_keyword, false_keyword,
  null_keyword, minus_of, property_access, element_access, call_of, binary, template_of,
  tagged_template, object_literal, array_literal, await_of, variable_declaration,
  parameter_declaration, block_of, return_nothing, return_of, if_then, if_then_else, throw_of,
  loop_of, function_like, other_node, Nodes, no_nodes, node, Spans, no_spans, span, Properties,
  no_properties, assignment, other_property, PropertyName, identifier_name, string_name,
  numeric_name, other_name,
}

-- What a visitor does at a node: it stops, or it goes on to the children, or to the arguments only.
pub data Descent : Type 0 where
  stop children arguments : Descent

abbrev go : Descent → List Node → List Node → List Node
go stop callee rest = []
go children callee rest = callee ++ rest
go arguments callee rest = rest

module _ (descent : Node → Descent) where
  -- The nodes for which the visitor is called, in order.
  unfoldable mutual
    pub visited : Node → List Node
    visited (identifier s) = identifier s ∷ []
    visited (string_literal s) = string_literal s ∷ []
    visited (plain_template s) = plain_template s ∷ []
    visited (numeric_literal s) = numeric_literal s ∷ []
    visited true_keyword = true_keyword ∷ []
    visited false_keyword = false_keyword ∷ []
    visited null_keyword = null_keyword ∷ []
    visited (minus_of n) = let below = visited n in minus_of n ∷ go (descent (minus_of n)) [] below
    visited (property_access n s) =
        let below = (visited n ++ identifier s ∷ []) in
        property_access n s ∷ go (descent (property_access n s)) [] below
    visited (element_access n m) =
        let below = (visited n ++ visited m) in
        element_access n m ∷ go (descent (element_access n m)) [] below
    visited (call_of n ns) =
        let callee = visited n in
        let rest = visited_all ns in call_of n ns ∷ go (descent (call_of n ns)) callee rest
    visited (binary o n m) =
        let below = (visited n ++ visited m) in binary o n m ∷ go (descent (binary o n m)) [] below
    visited (template_of s ss) =
        let below = visited_spans ss in template_of s ss ∷ go (descent (template_of s ss)) [] below
    visited (tagged_template n m) =
        let below = visited n ++ visited m in
        tagged_template n m ∷ go (descent (tagged_template n m)) [] below
    visited (object_literal ps) =
        let below = visited_properties ps in
        object_literal ps ∷ go (descent (object_literal ps)) [] below
    visited (array_literal ns) =
        let below = visited_all ns in array_literal ns ∷ go (descent (array_literal ns)) [] below
    visited (await_of n) = let below = visited n in await_of n ∷ go (descent (await_of n)) [] below
    visited (variable_declaration s n) =
        let below = identifier s ∷ visited n in
        variable_declaration s n ∷ go (descent (variable_declaration s n)) [] below
    visited (parameter_declaration s n) =
        let below = identifier s ∷ visited n in
        parameter_declaration s n ∷ go (descent (parameter_declaration s n)) [] below
    visited (block_of ns) =
        let below = visited_all ns in block_of ns ∷ go (descent (block_of ns)) [] below
    visited return_nothing = return_nothing ∷ []
    visited (return_of n) =
        let below = visited n in return_of n ∷ go (descent (return_of n)) [] below
    visited (if_then n m) =
        let below = (visited n ++ visited m) in if_then n m ∷ go (descent (if_then n m)) [] below
    visited (if_then_else n m k) =
        let below = (visited n ++ (visited m ++ visited k)) in
        if_then_else n m k ∷ go (descent (if_then_else n m k)) [] below
    visited (throw_of n) = let below = visited n in throw_of n ∷ go (descent (throw_of n)) [] below
    visited (loop_of ns) =
        let below = visited_all ns in loop_of ns ∷ go (descent (loop_of ns)) [] below
    visited (function_like ns) =
        let below = visited_all ns in function_like ns ∷ go (descent (function_like ns)) [] below
    visited (other_node ns) =
        let below = visited_all ns in other_node ns ∷ go (descent (other_node ns)) [] below

    pub visited_all : Nodes → List Node
    visited_all no_nodes = []
    visited_all (node n ns) = visited n ++ visited_all ns

    pub visited_spans : Spans → List Node
    visited_spans no_spans = []
    visited_spans (span n s ss) = visited n ++ visited_spans ss

    pub visited_properties : Properties → List Node
    visited_properties no_properties = []
    visited_properties (assignment name n ps) =
        visited_name name ++ (visited n ++ visited_properties ps)
    visited_properties (other_property ns ps) = visited_all ns ++ visited_properties ps

    pub visited_name : PropertyName → List Node
    visited_name (identifier_name s) = identifier s ∷ []
    visited_name (string_name s) = string_literal s ∷ []
    visited_name (numeric_name s) = numeric_literal s ∷ []
    visited_name (other_name s n) = visited n

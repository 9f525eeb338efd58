-- ===== src/Syntax.antt =====
-- packages/aot-analyzer and packages/aot-transpiler: the syntax trees of TypeScript, as far as the two
-- packages tell its nodes apart. Trees that they never look into are `other_node` with its children.
-- A `variable_declaration` and a `parameter_declaration` are declared with an identifier and have an
-- initializer; the second also stands for the name of a function declaration and for a variable or a
-- parameter without one. A method is an `other_property` with one `function_like`.
-- Tokens that no test asks for, such as the texts of a template, are parts of their node.
use fearless.Base.{Str, codes, Option, none, some}

pub data BinaryOperator : Type 0 where
  equals_equals_equals equals_equals exclamation_equals_equals exclamation_equals : BinaryOperator
  ampersand_ampersand bar_bar plus_operator asterisk_operator other_operator : BinaryOperator

mutual
  pub data Node : Type 0 where
    identifier string_literal plain_template numeric_literal : Str → Node
    true_keyword false_keyword null_keyword : Node
    minus_of : Node → Node
    property_access : Node → Str → Node
    element_access : Node → Node → Node
    call_of : Node → Nodes → Node
    binary : BinaryOperator → Node → Node → Node
    template_of : Str → Spans → Node
    tagged_template : Node → Node → Node
    object_literal : Properties → Node
    array_literal : Nodes → Node
    await_of : Node → Node
    variable_declaration parameter_declaration : Str → Node → Node
    block_of : Nodes → Node
    return_nothing : Node
    return_of : Node → Node
    if_then : Node → Node → Node
    if_then_else : Node → Node → Node → Node
    throw_of : Node → Node
    loop_of : Nodes → Node
    function_like : Nodes → Node
    other_node : Nodes → Node

  pub data Nodes : Type 0 where
    no_nodes : Nodes
    node : Node → Nodes → Nodes

  -- The `${…}` of a template, each with the text behind it.
  pub data Spans : Type 0 where
    no_spans : Spans
    span : Node → Str → Spans → Spans

  pub data Properties : Type 0 where
    no_properties : Properties
    assignment : PropertyName → Node → Properties → Properties
    other_property : Nodes → Properties → Properties

  -- A name that is neither an identifier nor a literal is kept with its source text.
  pub data PropertyName : Type 0 where
    identifier_name string_name numeric_name : Str → PropertyName
    other_name : Str → Node → PropertyName

-- `HANDLER_PARAM_NAME`
abbrev pub handler_param_name : Str
handler_param_name = codes "ctx"

-- The argument at 0 and at 1, if any.
abbrev pub first_node : Nodes → Option Node
first_node no_nodes = none
first_node (node n ns) = some n

abbrev pub second_node : Nodes → Option Node
second_node (node m (node n ns)) = some n
second_node _ = none

-- `handler.body`: of a block its statements, else an expression.
pub data HandlerBody : Type 0 where
  concise : Node → HandlerBody
  statements : Nodes → HandlerBody

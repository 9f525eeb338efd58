-- ===== src/Analyze/Handles.antt =====
-- packages/aot-analyzer/src/handles.ts: `discoverHandles`. `source_text` is the text of a node in the
-- source file, `getText`.
use fearless.Base.{
  Option, none, some, Str, codes, str_eq, List, [], ◌∷◌, ◌++◌, Dict, put, map, if◌then◌else◌,
}
use fearless.Syntax.{
  Node, identifier, string_literal, plain_template, property_access, call_of, template_of,
  tagged_template, variable_declaration, Spans, no_spans, span, first_node,
}
use fearless.Sql.Template.{
  TemplateSpan, no_substitution, with_spans, TaggedTemplate, SqlTemplate, parse_sql_template,
}
use fearless.Analyze.Walk.{visited, children}

pub data HandleKind : Type 0 where
  sql_handle kv_handle http_handle : HandleKind

-- Positions are left out.
pub record HandleMethodCall : Type 0 where
  pub method_name : Str
  pub sql_template : SqlTemplate

pub record DiscoveredHandle : Type 0 where
  pub variable_name : Str
  pub kind : HandleKind
  pub registered_name : Str
  pub method_calls : List HandleMethodCall

unfoldable pub kind_of : Str → Option HandleKind
unfolding str_eq
kind_of name =
    if str_eq name (codes "sql")
    then some sql_handle
    else if str_eq name (codes "kv")
    then some kv_handle
    else if str_eq name (codes "http")
    then some http_handle
    else none

abbrev literal_name : Option Node → Option Str
literal_name (some (string_literal s)) = some s
literal_name (some (plain_template s)) = some s
literal_name _ = none

-- The handle, before any call of it is found.
abbrev handle_named : Str → Option HandleKind → Option Str → Option DiscoveredHandle
handle_named name (some kind) (some registered) =
    some (record {
      variable_name = name;
      kind = kind;
      registered_name = registered;
      method_calls = [];
    })
handle_named name _ _ = none

unfoldable pub match_fearless_handle : Node → Option DiscoveredHandle
unfolding kind_of str_eq
match_fearless_handle
      (variable_declaration name (call_of (property_access (identifier object) method) args)) =
    if str_eq object (codes "fearless")
    then handle_named name (kind_of method) (literal_name (first_node args))
    else none
match_fearless_handle _ = none

abbrev pub set_handle : Option DiscoveredHandle → Dict DiscoveredHandle → Dict DiscoveredHandle
set_handle none handles = handles
set_handle (some h) handles = put h.variable_name h handles

-- `visitDeclarations`, over the nodes of the file
unfoldable pub visit_declarations : List Node → Dict DiscoveredHandle → Dict DiscoveredHandle
unfolding match_fearless_handle put
visit_declarations [] handles = handles
visit_declarations (n ∷ ns) handles =
    visit_declarations ns (set_handle (match_fearless_handle n) handles)

module _ (source_text : Node → Str) where
  abbrev spans_texts : Spans → List TemplateSpan
  spans_texts no_spans = []
  spans_texts (span n text ss) =
      record { expression = source_text n; literal_text = text } ∷ spans_texts ss

  abbrev identifier_text : Node → Option Str
  identifier_text (identifier name) = some name
  identifier_text _ = none

  -- The tagged template that `parseSqlTemplate` is given.
  abbrev tagged : Node → Node → Option TaggedTemplate
  tagged tag (plain_template text) =
      some (record { tag = identifier_text tag; template = no_substitution text })
  tagged tag (template_of head ss) =
      some (record { tag = identifier_text tag; template = with_spans head (spans_texts ss) })
  tagged tag _ = none

  abbrev template_argument : Option Node → Option SqlTemplate
  template_argument (some (tagged_template tag template)) = elim (tagged tag template) [
    | none ↦ none
    | some node ↦ parse_sql_template node
  ]
  template_argument _ = none

  abbrev method_call : Str → Option SqlTemplate → Option HandleMethodCall
  method_call method none = none
  method_call method (some t) = some (record { method_name = method; sql_template = t })

  -- The object of a call `<object>.<method>(sql…, …)`, and the call.
  unfoldable pub template_call : Node → Option (Str × HandleMethodCall)
  unfolding parse_sql_template
  template_call (call_of (property_access (identifier object) method) args) =
      elim (method_call method (template_argument (first_node args))) [
        | none ↦ none
        | some c ↦ some (object, c)
      ]
  template_call _ = none

  -- A call is pushed to its handle, if there is one.
  abbrev pub push_call : Option (Str × HandleMethodCall) → DiscoveredHandle → DiscoveredHandle
  push_call none h = h
  push_call (some (object, c)) h =
      if str_eq object h.variable_name
      then record h { method_calls = h.method_calls ++ c ∷ [] }
      else h

  -- `visitCalls`, over the nodes of the file. Each handle is updated in its place in the map.
  unfoldable pub visit_calls : List Node → List DiscoveredHandle → List DiscoveredHandle
  unfolding template_call str_eq
  visit_calls [] handles = handles
  visit_calls (n ∷ ns) handles = visit_calls ns (map (push_call (template_call n)) handles)

  abbrev pub values : Dict DiscoveredHandle → List DiscoveredHandle
  values [] = []
  values ((name, h) ∷ handles) = h ∷ values handles

  unfoldable pub discover_handles : Node → List DiscoveredHandle
  unfolding visit_declarations visit_calls visited
  discover_handles source_file =
      let nodes = visited (λ n. children) source_file in
      visit_calls nodes (values (visit_declarations nodes []))

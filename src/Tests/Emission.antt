-- ===== src/Tests/Emission.antt =====
-- Examples for the transpiler: a handler that branches on the method, and a response of JSON.
use fearless.Base.{
  ℕ, ◌%◌, ◌<◌, ◌≡◌, refl, Option, none, some, false, Str, codes, List, [], ◌∷◌, ◌++◌, map, arith,
  All, join, length, starts_with,
}
use fearless.Web.Values.{Json}
use fearless.Syntax.{
  Node, identifier, string_literal, true_keyword, property_access, call_of, binary,
  equals_equals_equals, object_literal, Nodes, no_nodes, node, no_properties, assignment,
  identifier_name, return_of, if_then, handler_param_name,
}
use fearless.Transpile.Shapes.{
  CtxRead, param_read, json_string_format, BodyChunk, literal, read_chunk, ResponseShape,
  static_shape, dynamic_shape,
}
use fearless.Transpile.Value.{
  JsonValue, text_value, true_value, object_value, no_entries, json_entry,
}
use fearless.Transpile.Reads.{rust_read}
use fearless.Transpile.ChainLaws.{Link, status_call, header_call}
use fearless.Transpile.ExtractLaws.{ctx_chain}
use fearless.Transpile.Formula.{Formula}
use fearless.Emit.Response.{decimal, newline, emit_static}
use fearless.Emit.EscapeLaws.{plain, read_bytes}
use fearless.Emit.Machine.{out_literal, print_statement}
use fearless.Emit.ResponseLaws.{static_head, emit_static_lem}
use fearless.Transpile.Chain.{parse_int}

-- A request that is `a"` for each read.
abbrev request : CtxRead → Option Str
request r = some (codes "a\"")

abbrev reads : CtxRead → Str
reads = rust_read request

abbrev same : Str → Str
same s = s

abbrev ctx_param : Str → Node
ctx_param name =
    property_access (property_access (identifier handler_param_name) (codes "params")) name

-- `{ id: ctx.params.id, ok: true }`
abbrev entity : Node
entity = object_literal (
    assignment (identifier_name (codes "id")) (ctx_param (codes "id"))
      (assignment (identifier_name (codes "ok")) true_keyword no_properties))

abbrev entity_chunks : List BodyChunk
entity_chunks =
    literal (codes "{")
    ∷ literal (codes "\"id\":")
    ∷ literal (codes "\"")
    ∷ read_chunk (param_read (codes "id")) json_string_format
    ∷ literal (codes "\"")
    ∷ literal (codes ",")
    ∷ literal (codes "\"ok\":")
    ∷ literal (codes "true")
    ∷ literal (codes "}")
    ∷ []

abbrev entity_value : JsonValue
entity_value = object_value (
    json_entry (codes "id") (text_value (codes "a\""))
      (json_entry (codes "ok") true_value no_entries))

abbrev links : List Link
links = status_call (codes "201") ∷ header_call (codes "X-A") (codes "b") ∷ []

abbrev created : ResponseShape
created = dynamic_shape 201 (codes "application/json") entity_chunks

abbrev show_entity : Json → Str
show_entity j = codes "{\"id\":\"a\\\"\",\"ok\":true}"

-- UTF-8 is shortened to the low byte of a code unit.
abbrev low_bytes : Str → List ℕ
low_bytes s = map (λ c. c % 256) s

low_bytes_are_bytes : (s : Str) → All (λ b. b < 256) (low_bytes s)
low_bytes_are_bytes [] = tt
low_bytes_are_bytes (c ∷ s) = (omega arith, low_bytes_are_bytes s)

not_redirect : starts_with (codes "redirect:") (codes "text/plain") ≡ false
unfolding starts_with
not_redirect = refl

emit_static_lem_example :
    (escaped : Str) × (emit_static low_bytes 200 (codes "text/plain") (codes "pong")
      ≡ join newline (
          codes "    // static response — bytes computed at compile time"
          ∷ print_statement (out_literal escaped)
          ∷ []))
    × (read_bytes plain escaped
        ≡ some (
            low_bytes (static_head low_bytes same reads 200 (codes "text/plain") 4)
            ++ low_bytes (codes "pong")))
    × (parse_int (decimal (length (low_bytes (codes "pong")))) ≡ length (low_bytes (codes "pong")))
emit_static_lem_example =
    emit_static_lem low_bytes same reads low_bytes_are_bytes 200 (codes "text/plain") (codes "pong")
      not_redirect

-- `if (ctx.method === "POST") return ctx.status(201)….json(…); return ctx.text("pong")`
abbrev pong : Node
pong =
    call_of (property_access (identifier handler_param_name) (codes "text"))
      (node (string_literal (codes "pong")) no_nodes)

abbrev branching : Nodes
branching =
    node
      (if_then
        (binary equals_equals_equals
          (property_access (identifier handler_param_name) (codes "method"))
          (string_literal (codes "POST")))
        (return_of (ctx_chain links (codes "json") entity)))
      (node (return_of pong) no_nodes)

abbrev emitted : List (Option Str × ResponseShape)
emitted =
    (some (codes "req.method == \"POST\""), created)
    ∷ (none, static_shape 200 (codes "text/plain; charset=utf-8") (codes "pong"))
    ∷ []

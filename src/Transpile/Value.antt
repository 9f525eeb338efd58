-- ===== src/Transpile/Value.antt =====
-- What the emitted code shows of an expression: a JSON value in which each read is the text that the
-- Rust code reads, its text, and the text that the emitted chunks write. The transpiler does not use
-- this file; what the expression means in JavaScript is in `Transpile.Meaning`.
use fearless.Base.{Option, none, some, Str, codes, List, [], ◌∷◌, ◌++◌, ◌≡◌}
use mathlib.Core.Option.{map}
use fearless.Web.JsonText.{json_escape, json_quote}
use fearless.Syntax.{
  Node, string_literal, plain_template, numeric_literal, true_keyword, false_keyword, null_keyword,
  minus_of, template_of, object_literal, array_literal, Nodes, no_nodes, node, Spans, no_spans,
  span, Properties, no_properties, assignment, other_property,
}
use fearless.Transpile.Shapes.{
  ChunkFormat, raw_format, json_string_format, url_format, CtxRead, BodyChunk, literal, read_chunk,
}
use fearless.Transpile.Reads.{match_ctx_read}
use fearless.Transpile.Json.{unless_null, property_key_text, entry_text, in_brackets}

-- A number is its text; an object is the list of its entries, in order.
mutual
  pub data JsonValue : Type 0 where
    text_value number_value : Str → JsonValue
    true_value false_value null_value : JsonValue
    object_value : JsonEntries → JsonValue
    array_value : JsonValues → JsonValue

  pub data JsonValues : Type 0 where
    no_values : JsonValues
    json_value : JsonValue → JsonValues → JsonValues

  pub data JsonEntries : Type 0 where
    no_entries : JsonEntries
    json_entry : Str → JsonValue → JsonEntries → JsonEntries

unfoldable mutual
  unfolding json_quote

  pub print : JsonValue → Str
  print (text_value s) = json_quote s
  print (number_value s) = s
  print true_value = codes "true"
  print false_value = codes "false"
  print null_value = codes "null"
  print (object_value es) = in_brackets b'{' b'}' (print_entries es)
  print (array_value vs) = in_brackets b'[' b']' (print_values vs)

  pub print_entries : JsonEntries → List Str
  print_entries no_entries = []
  print_entries (json_entry key v es) = entry_text key (print v) ∷ print_entries es

  pub print_values : JsonValues → List Str
  print_values no_values = []
  print_values (json_value v vs) = print v ∷ print_values vs

module _ (to_lower_case : Str → Str) (reads : CtxRead → Str) where
  -- The text of a template behind its head.
  unfoldable pub shown_spans : Spans → Option Str
  unfolding match_ctx_read
  shown_spans no_spans = some []
  shown_spans (span n text ss) =
      unless_null (match_ctx_read to_lower_case n)
        (λ r. map (λ rest. reads r ++ (text ++ rest)) (shown_spans ss))

  unfoldable mutual
    unfolding match_ctx_read shown_spans

    pub shown_value : Node → Option JsonValue
    shown_value (string_literal s) = some (text_value s)
    shown_value (plain_template s) = some (text_value s)
    shown_value (numeric_literal s) = some (number_value s)
    shown_value true_keyword = some true_value
    shown_value false_keyword = some false_value
    shown_value null_keyword = some null_value
    shown_value (minus_of (numeric_literal s)) = some (number_value (b'-' ∷ s))
    shown_value (template_of head ss) = map (λ rest. text_value (head ++ rest)) (shown_spans ss)
    shown_value (object_literal ps) = map object_value (shown_entries ps)
    shown_value (array_literal ns) = map array_value (shown_values ns)
    shown_value n = map (λ r. text_value (reads r)) (match_ctx_read to_lower_case n)

    pub shown_entries : Properties → Option JsonEntries
    shown_entries no_properties = some no_entries
    shown_entries (assignment name n ps) =
        unless_null (property_key_text name)
          (λ key. unless_null (shown_value n) (λ v. map (json_entry key v) (shown_entries ps)))
    shown_entries (other_property ns ps) = none

    pub shown_values : Nodes → Option JsonValues
    shown_values no_nodes = some no_values
    shown_values (node n ns) =
        unless_null (shown_value n) (λ v. map (json_value v) (shown_values ns))

module _ (url_encode : Str → Str) (reads : CtxRead → Str) where
  abbrev pub write_read : ChunkFormat → Str → Str
  write_read raw_format s = s
  write_read json_string_format s = json_escape s
  write_read url_format s = url_encode s

  abbrev pub write_chunk : BodyChunk → Str
  write_chunk (literal s) = s
  write_chunk (read_chunk r format) = write_read format (reads r)

  -- What the emitted code writes to the body, chunk after chunk.
  unfoldable pub write_chunks : List BodyChunk → Str
  unfolding json_escape
  write_chunks [] = []
  write_chunks (c ∷ cs) = write_chunk c ++ write_chunks cs

-- The texts of a template hold nothing that JSON escapes.
unfoldable pub PlainSpans : Spans → Type 0
PlainSpans no_spans = Unit
PlainSpans (span n text ss) = (json_escape text ≡ text) × PlainSpans ss

unfoldable mutual
  unfolding PlainSpans

  pub PlainTexts : Node → Type 0
  PlainTexts (template_of head ss) = (json_escape head ≡ head) × PlainSpans ss
  PlainTexts (object_literal ps) = PlainProperties ps
  PlainTexts (array_literal ns) = PlainItems ns
  PlainTexts _ = Unit

  pub PlainProperties : Properties → Type 0
  PlainProperties no_properties = Unit
  PlainProperties (assignment name n ps) = PlainTexts n × PlainProperties ps
  PlainProperties (other_property ns ps) = PlainProperties ps

  pub PlainItems : Nodes → Type 0
  PlainItems no_nodes = Unit
  PlainItems (node n ns) = PlainTexts n × PlainItems ns

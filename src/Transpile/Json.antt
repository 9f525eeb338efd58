-- ===== src/Transpile/Json.antt =====
-- packages/aot-transpiler/src/emit/extract.ts: the JSON that an expression stands for, as a text where
-- it is static (`renderJsonLiteral`), else as chunks (`renderJsonChunks`).
use fearless.Base.{
  ℕ, Option, none, some, Bool, true, false, Str, codes, List, [], ◌∷◌, ◌++◌, join, if◌then◌else◌,
}
use mathlib.Core.Option.{map}
use fearless.Web.JsonText.{json_quote}
use fearless.Syntax.{
  Node, string_literal, plain_template, numeric_literal, true_keyword, false_keyword, null_keyword,
  minus_of, template_of, object_literal, array_literal, Nodes, no_nodes, node, Spans, no_spans,
  span, Properties, no_properties, assignment, other_property, PropertyName, identifier_name,
  string_name, numeric_name, other_name,
}
use fearless.Transpile.Shapes.{
  ChunkFormat, json_string_format, CtxRead, BodyChunk, literal, read_chunk,
}
use fearless.Transpile.Reads.{match_ctx_read}

-- A function that may return null, at the place where its caller returns null too.
abbrev pub unless_null {ℓ κ} : {A : Type ℓ} {B : Type κ} → Option A → (A → Option B) → Option B
unless_null none f = none
unless_null (some a) f = f a

abbrev pub property_key_text : PropertyName → Option Str
property_key_text (identifier_name s) = some s
property_key_text (string_name s) = some s
property_key_text (numeric_name s) = some s
property_key_text (other_name s n) = none

abbrev pub entry_text : Str → Str → Str
entry_text key text = json_quote key ++ (b':' ∷ text)

abbrev pub in_brackets : ℕ → ℕ → List Str → Str
in_brackets opening closing entries = opening ∷ (join (codes ",") entries ++ closing ∷ [])

unfoldable mutual
  pub render_json_literal : Node → Option Str
  render_json_literal (string_literal s) = some (json_quote s)
  render_json_literal (plain_template s) = some (json_quote s)
  render_json_literal (numeric_literal s) = some s
  render_json_literal true_keyword = some (codes "true")
  render_json_literal false_keyword = some (codes "false")
  render_json_literal null_keyword = some (codes "null")
  render_json_literal (minus_of (numeric_literal s)) = some (b'-' ∷ s)
  render_json_literal (object_literal ps) = map (in_brackets b'{' b'}') (literal_entries ps)
  render_json_literal (array_literal ns) = map (in_brackets b'[' b']') (literal_items ns)
  render_json_literal _ = none

  pub literal_entries : Properties → Option (List Str)
  literal_entries no_properties = some []
  literal_entries (assignment name n ps) = unless_null (property_key_text name) (λ key.
      unless_null (render_json_literal n)
        (λ text. map (λ entries. entry_text key text ∷ entries) (literal_entries ps)))
  literal_entries (other_property ns ps) = none

  pub literal_items : Nodes → Option (List Str)
  literal_items no_nodes = some []
  literal_items (node n ns) =
      unless_null (render_json_literal n)
        (λ text. map (λ entries. text ∷ entries) (literal_items ns))

-- A chunk for a text that is not empty.
abbrev pub literal_unless_empty : Str → List BodyChunk → List BodyChunk
literal_unless_empty [] chunks = chunks
literal_unless_empty (c ∷ s) chunks = literal (c ∷ s) ∷ chunks

abbrev pub enclosed : Str → Str → List BodyChunk → List BodyChunk
enclosed opening closing chunks = literal opening ∷ (chunks ++ literal closing ∷ [])

abbrev pub comma_unless : Bool → List BodyChunk → List BodyChunk
comma_unless first chunks = if first then chunks else literal (codes ",") ∷ chunks

abbrev pub read_in_quotes : CtxRead → List BodyChunk
read_in_quotes r = enclosed (codes "\"") (codes "\"") (read_chunk r json_string_format ∷ [])

-- A static fragment comes first, a read of the request next.
abbrev pub or_dynamic :
    Option Str → Option CtxRead → Option (List BodyChunk) → Option (List BodyChunk)
or_dynamic (some text) read chunks = some (literal text ∷ [])
or_dynamic none (some r) chunks = some (read_in_quotes r)
or_dynamic none none chunks = chunks

module _ (to_lower_case : Str → Str) where
  unfoldable pub template_spans : Spans → ChunkFormat → Option (List BodyChunk)
  unfolding match_ctx_read
  template_spans no_spans format = some []
  template_spans (span n text ss) format = unless_null (match_ctx_read to_lower_case n) (λ r.
      map (λ chunks. read_chunk r format ∷ literal_unless_empty text chunks)
        (template_spans ss format))

  unfoldable pub render_template_chunks : Str → Spans → ChunkFormat → Option (List BodyChunk)
  unfolding template_spans
  render_template_chunks head spans format =
      map (literal_unless_empty head) (template_spans spans format)

  -- `renderJsonValue`: what it pushes to `out`; none where it returns false, and `out` is dropped.
  unfoldable mutual
    unfolding render_json_literal match_ctx_read render_template_chunks json_quote

    pub render_json_value : Node → Option (List BodyChunk)
    render_json_value (template_of head spans) = or_dynamic none none (
        map (enclosed (codes "\"") (codes "\""))
          (render_template_chunks head spans json_string_format))
    render_json_value (object_literal ps) =
        or_dynamic (render_json_literal (object_literal ps)) none
          (map (enclosed (codes "{") (codes "}")) (render_json_properties true ps))
    render_json_value (array_literal ns) =
        or_dynamic (render_json_literal (array_literal ns)) none
          (map (enclosed (codes "[") (codes "]")) (render_json_items true ns))
    render_json_value n = or_dynamic (render_json_literal n) (match_ctx_read to_lower_case n) none

    pub render_json_properties : Bool → Properties → Option (List BodyChunk)
    render_json_properties first no_properties = some []
    render_json_properties first (assignment name n ps) =
        unless_null (property_key_text name) (λ key. unless_null (render_json_value n) (λ chunks.
          map
            (λ rest. comma_unless first (literal (json_quote key ++ b':' ∷ []) ∷ (chunks ++ rest)))
            (render_json_properties false ps)))
    render_json_properties first (other_property ns ps) = none

    pub render_json_items : Bool → Nodes → Option (List BodyChunk)
    render_json_items first no_nodes = some []
    render_json_items first (node n ns) =
        unless_null (render_json_value n)
          (λ chunks. map (λ rest. comma_unless first (chunks ++ rest)) (render_json_items false ns))

-- ===== src/Transpile/JsonLaws.antt =====
-- The chunks of an expression write the text of its value.
use fearless.Base.{
  ℕ, Option, none, some, Bool, true, false, Str, codes, List, [], ◌∷◌, ◌++◌, ◌≡◌, refl, ap, sym,
  ◌∙◌, append_assoc, inl, inr,
}
use mathlib.Core.Option.{map, some-injective}
use fearless.Web.JsonText.{json_escape, json_quote}
use fearless.Syntax.{
  Node, string_literal, plain_template, numeric_literal, true_keyword, false_keyword, null_keyword,
  minus_of, template_of, object_literal, array_literal, Nodes, no_nodes, node, Spans, no_spans,
  span, Properties, no_properties, assignment, other_property, PropertyName,
}
use fearless.Transpile.Shapes.{json_string_format, CtxRead, BodyChunk, literal, read_chunk}
use fearless.Transpile.Reads.{match_ctx_read}
use fearless.Transpile.Json.{
  property_key_text, entry_text, render_json_literal, literal_unless_empty, enclosed, comma_unless,
  or_dynamic, template_spans, render_template_chunks, render_json_value, render_json_properties,
  render_json_items,
}
use fearless.Transpile.Value.{
  JsonValue, JsonValues, JsonEntries, text_value, object_value, array_value, no_values, json_value,
  no_entries, json_entry, print, print_entries, print_values, shown_spans, shown_value,
  shown_entries, shown_values, write_chunks, PlainSpans, PlainTexts, PlainProperties, PlainItems,
}
use fearless.Transpile.LiteralLaws.{unless_null-eq-some, map-eq-some, render_json_literal_lem}
use fearless.Transpile.Written.{
  written, written-enclosed, written-literal, written-read_in_quotes, span_lem, template_lem,
  item_lem, comma_texts, comma_texts-eq-join, or_dynamic-eq-some,
}

module _ (to_lower_case : Str → Str) (url_encode : Str → Str) (reads : CtxRead → Str) where
  -- The chunks of a template write its text, in which JSON escapes what is read.
  template_spans_lem :
      (ss : Spans) (cs : List BodyChunk)
      → PlainSpans ss
      → template_spans to_lower_case ss json_string_format ≡ some cs
      → (s : Str) × (shown_spans to_lower_case reads ss ≡ some s)
        × (written url_encode reads cs ≡ json_escape s)
  unfolding template_spans shown_spans PlainSpans written write_chunks json_escape
  template_spans_lem no_spans cs p h =
      ([], refl, ap (written url_encode reads) (sym (some-injective [] cs h)))
  template_spans_lem (span n text ss) cs (p, ps) h =
      let (r, e, h1) = unless_null-eq-some (match_ctx_read to_lower_case n) _ cs h in
      let (ds, es, shown) =
        map-eq-some (λ chunks. read_chunk r json_string_format ∷ literal_unless_empty text chunks)
          (template_spans to_lower_case ss json_string_format) cs h1 in
      let (s, found, w) = template_spans_lem ss ds ps es in
      (
        reads r ++ (text ++ s),
        rw (e, found) refl,
        span_lem url_encode reads r text s ds cs p w shown,
      )

  -- An expression that is neither static nor composed of others has the value of its read.
  leaf_lem :
      (n : Node) (cs : List BodyChunk)
      → (render_json_literal n ≡ none
          → shown_value to_lower_case reads n
            ≡ map (λ r. text_value (reads r)) (match_ctx_read to_lower_case n))
      → or_dynamic (render_json_literal n) (match_ctx_read to_lower_case n) none ≡ some cs
      → (v : JsonValue) × (shown_value to_lower_case reads n ≡ some v)
        × (written url_encode reads cs ≡ print v)
  unfolding print
  leaf_lem n cs k h =
      elim (or_dynamic-eq-some (render_json_literal n) (match_ctx_read to_lower_case n) none cs h) [
        | inl (t, e, eq) ↦
            let (v, found, printed) = render_json_literal_lem to_lower_case reads n t e in
            (
              v,
              found,
              ap (written url_encode reads) eq ∙ written-literal url_encode reads t ∙ sym printed,
            )
        | inr (inl (r, e, found, eq)) ↦ (
          text_value (reads r),
          k e ∙ rw found refl,
          ap (written url_encode reads) eq ∙ written-read_in_quotes url_encode reads r,
        )
        | inr (inr absent) ↦ cc
      ]

  -- An object or an array is static, or its chunks stand between brackets.
  composed_lem :
      (n : Node) (opening closing : ℕ) (ds : Option (List BodyChunk)) (cs : List BodyChunk)
      → or_dynamic (render_json_literal n) none (map (enclosed (opening ∷ []) (closing ∷ [])) ds)
        ≡ some cs
      → ((es : List BodyChunk)
          → ds ≡ some es
          → (v : JsonValue) × (shown_value to_lower_case reads n ≡ some v)
            × (opening ∷ (written url_encode reads es ++ closing ∷ []) ≡ print v))
      → (v : JsonValue) × (shown_value to_lower_case reads n ≡ some v)
        × (written url_encode reads cs ≡ print v)
  composed_lem n opening closing ds cs h k =
      elim (or_dynamic-eq-some (render_json_literal n) none
        (map (enclosed (opening ∷ []) (closing ∷ [])) ds) cs h) [
          | inl (t, e, eq) ↦
              let (v, found, printed) = render_json_literal_lem to_lower_case reads n t e in
              (
                v,
                found,
                ap (written url_encode reads) eq ∙ written-literal url_encode reads t ∙ sym printed,
              )
          | inr (inl (r, e, found, eq)) ↦ cc
          | inr (inr composed) ↦
              let (es, e, eq) =
                map-eq-some (enclosed (opening ∷ []) (closing ∷ [])) ds cs composed in
              let (v, found, printed) = k es e in
              (
                v,
                found,
                ap (written url_encode reads) (sym eq)
                    ∙ written-enclosed url_encode reads (opening ∷ []) (closing ∷ []) es
                    ∙ printed,
              )
        ]

  shown_entries-assignment :
      (name : PropertyName) (n : Node) (ps : Properties) (key : Str) (v : JsonValue)
      (es : JsonEntries)
      → property_key_text name ≡ some key
      → shown_value to_lower_case reads n ≡ some v
      → shown_entries to_lower_case reads ps ≡ some es
      → shown_entries to_lower_case reads (assignment name n ps) ≡ some (json_entry key v es)
  unfolding shown_entries
  shown_entries-assignment name n ps key v es k e h = rw (k, e, h) refl

  mutual
    unfolding render_json_value render_template_chunks shown_value print PlainTexts comma_texts
        written write_chunks

    value_lem :
        (n : Node) (cs : List BodyChunk)
        → PlainTexts n
        → render_json_value to_lower_case n ≡ some cs
        → (v : JsonValue) × (shown_value to_lower_case reads n ≡ some v)
          × (written url_encode reads cs ≡ print v)
    value_lem (template_of head ss) cs (p, ps) h =
        let (es, e, f) =
          map-eq-some (enclosed (codes "\"") (codes "\""))
            (render_template_chunks to_lower_case head ss json_string_format) cs h in
        let (ds, e', f') =
          map-eq-some (literal_unless_empty head)
            (template_spans to_lower_case ss json_string_format) es e in
        let (s, found, w) = template_spans_lem ss ds ps e' in
        (
          text_value (head ++ s),
          rw found refl,
          template_lem url_encode reads head s ds es cs p w f' f,
        )
    value_lem (object_literal ps) cs p h =
        composed_lem (object_literal ps) b'{' b'}' (render_json_properties to_lower_case true ps) cs
          h
          (λ es e.
            let (vs, found, w) = entries_lem true ps es p e in
            (object_value vs, rw found refl, rw (w, comma_texts-eq-join (print_entries vs)) refl))
    value_lem (array_literal ns) cs p h =
        composed_lem (array_literal ns) b'[' b']' (render_json_items to_lower_case true ns) cs h
          (λ es e.
            let (vs, found, w) = items_lem true ns es p e in
            (array_value vs, rw found refl, rw (w, comma_texts-eq-join (print_values vs)) refl))
    value_lem (string_literal s) cs p h = leaf_lem (string_literal s) cs (λ e. cc) h
    value_lem (plain_template s) cs p h = leaf_lem (plain_template s) cs (λ e. cc) h
    value_lem (numeric_literal s) cs p h = leaf_lem (numeric_literal s) cs (λ e. cc) h
    value_lem true_keyword cs p h = leaf_lem true_keyword cs (λ e. cc) h
    value_lem false_keyword cs p h = leaf_lem false_keyword cs (λ e. cc) h
    value_lem null_keyword cs p h = leaf_lem null_keyword cs (λ e. cc) h
    value_lem (minus_of (numeric_literal s)) cs p h =
        leaf_lem (minus_of (numeric_literal s)) cs (λ e. cc) h
    value_lem n cs p h = leaf_lem n cs (λ e. refl) h

    entries_lem :
        (first : Bool) (ps : Properties) (cs : List BodyChunk)
        → PlainProperties ps
        → render_json_properties to_lower_case first ps ≡ some cs
        → (es : JsonEntries) × (shown_entries to_lower_case reads ps ≡ some es)
          × (written url_encode reads cs ≡ comma_texts first (print_entries es))
    entries_lem first no_properties cs p h =
        (no_entries, refl, ap (written url_encode reads) (sym (some-injective [] cs h)))
    entries_lem first (assignment name n ps) cs (p, pp) h =
        let (key, k, h1) = unless_null-eq-some (property_key_text name) _ cs h in
        let (ds, e, h2) = unless_null-eq-some (render_json_value to_lower_case n) _ cs h1 in
        let (rest, es, shown) =
          map-eq-some
            (λ rest. comma_unless first (literal (json_quote key ++ b':' ∷ []) ∷ (ds ++ rest)))
            (render_json_properties to_lower_case false ps) cs h2 in
        let (v, ev, pv) = value_lem n ds p e in
        let (vs, evs, pvs) = entries_lem false ps rest pp es in
        (
          json_entry key v vs,
          shown_entries-assignment name n ps key v vs k ev evs,
          item_lem url_encode reads first (print_entries vs) (entry_text key (print v))
              (literal (json_quote key ++ b':' ∷ []) ∷ ds) rest cs
              (append_assoc (json_quote key) (b':' ∷ []) (written url_encode reads ds) ∙ rw pv refl)
              pvs shown,
        )
    entries_lem first (other_property ns ps) cs p h = cc

    items_lem :
        (first : Bool) (ns : Nodes) (cs : List BodyChunk)
        → PlainItems ns
        → render_json_items to_lower_case first ns ≡ some cs
        → (vs : JsonValues) × (shown_values to_lower_case reads ns ≡ some vs)
          × (written url_encode reads cs ≡ comma_texts first (print_values vs))
    items_lem first no_nodes cs p h =
        (no_values, refl, ap (written url_encode reads) (sym (some-injective [] cs h)))
    items_lem first (node n ns) cs (p, pp) h =
        let (ds, e, h2) = unless_null-eq-some (render_json_value to_lower_case n) _ cs h in
        let (rest, es, shown) =
          map-eq-some (λ rest. comma_unless first (ds ++ rest))
            (render_json_items to_lower_case false ns) cs h2 in
        let (v, ev, pv) = value_lem n ds p e in
        let (vs, evs, pvs) = items_lem false ns rest pp es in
        (
          json_value v vs,
          rw (ev, evs) refl,
          item_lem url_encode reads first (print_values vs) (print v) ds rest cs pv pvs shown,
        )

  -- An expression whose templates hold nothing that JSON escapes, and for which `renderJsonValue`
  -- gives chunks: the chunks write the text of the value that the emitted code shows.
  pub shown_chunks :
      (n : Node) (cs : List BodyChunk)
      → PlainTexts n
      → render_json_value to_lower_case n ≡ some cs
      → (v : JsonValue) × (shown_value to_lower_case reads n ≡ some v)
        × (written url_encode reads cs ≡ print v)
  shown_chunks n cs p h = value_lem n cs p h

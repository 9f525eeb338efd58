-- ===== src/Transpile/Meaning.antt =====
-- What the response expressions of a handler mean in JavaScript, where the JSON text of their value is
-- that of their entries in order. The transpiler does not use this file. `request` has the texts of a
-- request: none where `ctx.params`, `ctx.query` or `ctx.headers` hold no text under a name, as where
-- it is missing, repeated in the query, or inherited.
use fearless.Base.{
  ℕ, Option, none, some, Bool, true, false, not, ◌&&◌, ◌||◌, Str, codes, str_eq, [], ◌∷◌, ◌++◌, leb,
  if◌then◌else◌, ◌≡◌, ap,
}
use mathlib.Core.Option.{map}
use fearless.Syntax.{
  Node, string_literal, plain_template, numeric_literal, true_keyword, false_keyword, null_keyword,
  minus_of, template_of, object_literal, array_literal, Nodes, no_nodes, node, Spans, no_spans,
  span, Properties, no_properties, assignment, other_property,
}
use fearless.Transpile.Shapes.{CtxRead}
use fearless.Transpile.Reads.{match_ctx_read, rust_read}
use fearless.Transpile.ReadLaws.{js_text, js_text-eq-some}
use fearless.Transpile.Json.{unless_null, property_key_text}
use fearless.Transpile.LiteralLaws.{unless_null-eq-some, map-eq-some}
use fearless.Transpile.Value.{
  JsonValue, JsonValues, JsonEntries, text_value, number_value, true_value, false_value, null_value,
  object_value, array_value, no_values, json_value, no_entries, json_entry, shown_spans,
  shown_value, shown_entries, shown_values,
}

abbrev is_digit : ℕ → Bool
is_digit c = leb b'0' c && leb c b'9'

unfoldable digits_only : Str → Bool
digits_only [] = true
digits_only (c ∷ s) = is_digit c && digits_only s

unfoldable has_key : Str → JsonEntries → Bool
has_key key no_entries = false
has_key key (json_entry k v es) = str_eq k key || has_key key es

-- A key that keeps its place: it consists not of digits only, which would be sorted to the front; it is
-- not `__proto__`, which sets the prototype; and it is not given again.
unfoldable pub keeps_place : Str → JsonEntries → Bool
unfolding digits_only has_key str_eq
keeps_place key es =
    not (digits_only key) && (not (str_eq key (codes "__proto__")) && not (has_key key es))

-- A number as TypeScript writes it begins with a digit, unless it is infinite.
abbrev pub is_finite : Str → Bool
is_finite [] = false
is_finite (c ∷ s) = is_digit c

abbrev pub provided {ℓ} : {A : Type ℓ} → Bool → A → Option A
provided b a = if b then some a else none

module _ (to_lower_case : Str → Str) (request : CtxRead → Option Str) where
  -- The text of a template behind its head.
  unfoldable pub spans_text : Spans → Option Str
  unfolding js_text
  spans_text no_spans = some []
  spans_text (span n text ss) =
      unless_null (js_text to_lower_case request n)
        (λ s. map (λ rest. s ++ (text ++ rest)) (spans_text ss))

  -- None where a read of the request has no text, where a number is infinite or -0, and where a key
  -- does not keep its place.
  unfoldable mutual
    unfolding js_text spans_text keeps_place str_eq

    pub value_of : Node → Option JsonValue
    value_of (string_literal s) = some (text_value s)
    value_of (plain_template s) = some (text_value s)
    value_of (numeric_literal s) = provided (is_finite s) (number_value s)
    value_of true_keyword = some true_value
    value_of false_keyword = some false_value
    value_of null_keyword = some null_value
    value_of (minus_of (numeric_literal s)) =
        provided (is_finite s && not (str_eq s (codes "0"))) (number_value (b'-' ∷ s))
    value_of (template_of head ss) = map (λ rest. text_value (head ++ rest)) (spans_text ss)
    value_of (object_literal ps) = map object_value (entries_of ps)
    value_of (array_literal ns) = map array_value (values_of ns)
    value_of n = map text_value (js_text to_lower_case request n)

    pub entries_of : Properties → Option JsonEntries
    entries_of no_properties = some no_entries
    entries_of (assignment name n ps) = unless_null (property_key_text name) (λ key.
        unless_null (value_of n) (λ v.
          unless_null (entries_of ps) (λ es. provided (keeps_place key es) (json_entry key v es))))
    entries_of (other_property ns ps) = none

    pub values_of : Nodes → Option JsonValues
    values_of no_nodes = some no_values
    values_of (node n ns) = unless_null (value_of n) (λ v. map (json_value v) (values_of ns))

  provided-eq-some : {A : Type 0} (b : Bool) (a c : A) → provided b a ≡ some c → some a ≡ some c
  provided-eq-some true a c h = h
  provided-eq-some false a c h = cc

  leaf :
      (n : Node) (v : JsonValue)
      → map text_value (js_text to_lower_case request n) ≡ some v
      → map (λ r. text_value (rust_read request r)) (match_ctx_read to_lower_case n) ≡ some v
  leaf n v h =
      let (s, e, made) = map-eq-some text_value (js_text to_lower_case request n) v h in
      let (r, found, same) = js_text-eq-some to_lower_case request n s e in
      rw (found, same) (ap some made)

  shown_spans_lem :
      (ss : Spans) (s : Str)
      → spans_text ss ≡ some s
      → shown_spans to_lower_case (rust_read request) ss ≡ some s
  unfolding spans_text shown_spans
  shown_spans_lem no_spans s h = h
  shown_spans_lem (span n text ss) s h =
      let (t, e, h1) = unless_null-eq-some (js_text to_lower_case request n) _ s h in
      let (r, found, same) = js_text-eq-some to_lower_case request n t e in
      let (rest, e', made) = map-eq-some (λ rest. t ++ (text ++ rest)) (spans_text ss) s h1 in
      rw (found, shown_spans_lem ss rest e', same) (ap some made)

  mutual
    unfolding value_of shown_value

    shown_lem :
        (n : Node) (v : JsonValue)
        → value_of n ≡ some v
        → shown_value to_lower_case (rust_read request) n ≡ some v
    shown_lem (string_literal s) v h = h
    shown_lem (plain_template s) v h = h
    shown_lem (numeric_literal s) v h = provided-eq-some (is_finite s) (number_value s) v h
    shown_lem true_keyword v h = h
    shown_lem false_keyword v h = h
    shown_lem null_keyword v h = h
    shown_lem (minus_of (numeric_literal s)) v h =
        provided-eq-some (is_finite s && not (str_eq s (codes "0"))) (number_value (b'-' ∷ s)) v h
    shown_lem (template_of head ss) v h =
        let (rest, e, made) = map-eq-some (λ rest. text_value (head ++ rest)) (spans_text ss) v h in
        rw (shown_spans_lem ss rest e) (ap some made)
    shown_lem (object_literal ps) v h =
        let (es, e, made) = map-eq-some object_value (entries_of ps) v h in
        rw (shown_entries_lem ps es e) (ap some made)
    shown_lem (array_literal ns) v h =
        let (vs, e, made) = map-eq-some array_value (values_of ns) v h in
        rw (shown_values_lem ns vs e) (ap some made)
    shown_lem n v h = leaf n v h

    shown_entries_lem :
        (ps : Properties) (es : JsonEntries)
        → entries_of ps ≡ some es
        → shown_entries to_lower_case (rust_read request) ps ≡ some es
    shown_entries_lem no_properties es h = h
    shown_entries_lem (assignment name n ps) es h =
        let (key, k, h1) = unless_null-eq-some (property_key_text name) _ es h in
        let (v, e, h2) = unless_null-eq-some (value_of n) _ es h1 in
        let (rest, e', h3) = unless_null-eq-some (entries_of ps) _ es h2 in
        rw (k, shown_lem n v e, shown_entries_lem ps rest e')
          (provided-eq-some (keeps_place key rest) (json_entry key v rest) es h3)
    shown_entries_lem (other_property ns ps) es h = cc

    shown_values_lem :
        (ns : Nodes) (vs : JsonValues)
        → values_of ns ≡ some vs
        → shown_values to_lower_case (rust_read request) ns ≡ some vs
    shown_values_lem no_nodes vs h = h
    shown_values_lem (node n ns) vs h =
        let (v, e, h1) = unless_null-eq-some (value_of n) _ vs h in
        let (rest, e', made) = map-eq-some (json_value v) (values_of ns) vs h1 in
        rw (shown_lem n v e, shown_values_lem ns rest e') (ap some made)

  -- Where an expression has a value in JavaScript, the emitted code shows this value.
  pub shown_value_lem :
      (n : Node) (v : JsonValue)
      → value_of n ≡ some v
      → shown_value to_lower_case (rust_read request) n ≡ some v
  shown_value_lem n v h = shown_lem n v h

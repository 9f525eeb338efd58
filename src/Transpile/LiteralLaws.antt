-- ===== src/Transpile/LiteralLaws.antt =====
-- The static JSON of an expression is the text of its value.
use fearless.Base.{Option, none, some, Str, List, ◌∷◌, ◌≡◌, refl}
use mathlib.Core.Option.{map, some-injective}
use fearless.Syntax.{
  Node, string_literal, plain_template, numeric_literal, true_keyword, false_keyword, null_keyword,
  minus_of, object_literal, array_literal, Nodes, no_nodes, node, Properties, no_properties,
  assignment, other_property,
}
use fearless.Transpile.Shapes.{CtxRead}
use fearless.Transpile.Json.{
  unless_null, property_key_text, entry_text, in_brackets, render_json_literal, literal_entries,
  literal_items,
}
use fearless.Transpile.Value.{
  JsonValue, JsonValues, JsonEntries, text_value, number_value, true_value, false_value, null_value,
  object_value, array_value, no_values, json_value, no_entries, json_entry, print, print_entries,
  print_values, shown_value, shown_entries, shown_values,
}

-- What a chain of steps that may return null has as its result, each step has.
pub unless_null-eq-some :
    {A B : Type 0} (o : Option A) (f : A → Option B) (b : B)
    → unless_null o f ≡ some b
    → (a : A) × (o ≡ some a) × (f a ≡ some b)
unless_null-eq-some none f b h = cc
unless_null-eq-some (some a) f b h = (a, refl, h)

pub map-eq-some :
    {A B : Type 0} (f : A → B) (o : Option A) (b : B)
    → map f o ≡ some b
    → (a : A) × (o ≡ some a) × (f a ≡ b)
map-eq-some f none b h = cc
map-eq-some f (some a) b h = (a, refl, some-injective (f a) b h)

module _ (to_lower_case : Str → Str) (reads : CtxRead → Str) where
  mutual
    unfolding render_json_literal shown_value print

    pub render_json_literal_lem :
        (n : Node) (text : Str)
        → render_json_literal n ≡ some text
        → (v : JsonValue) × (shown_value to_lower_case reads n ≡ some v) × (print v ≡ text)
    render_json_literal_lem (string_literal s) text h = (text_value s, refl, some-injective _ _ h)
    render_json_literal_lem (plain_template s) text h = (text_value s, refl, some-injective _ _ h)
    render_json_literal_lem (numeric_literal s) text h =
        (number_value s, refl, some-injective _ _ h)
    render_json_literal_lem true_keyword text h = (true_value, refl, some-injective _ _ h)
    render_json_literal_lem false_keyword text h = (false_value, refl, some-injective _ _ h)
    render_json_literal_lem null_keyword text h = (null_value, refl, some-injective _ _ h)
    render_json_literal_lem (minus_of (numeric_literal s)) text h =
        (number_value (b'-' ∷ s), refl, some-injective _ _ h)
    render_json_literal_lem (object_literal ps) text h =
        let (texts, e, shown) = map-eq-some (in_brackets b'{' b'}') (literal_entries ps) text h in
        let (es, e', printed) = literal_entries_lem ps texts e in
        (object_value es, rw e' refl, rw printed shown)
    render_json_literal_lem (array_literal ns) text h =
        let (texts, e, shown) = map-eq-some (in_brackets b'[' b']') (literal_items ns) text h in
        let (vs, e', printed) = literal_items_lem ns texts e in
        (array_value vs, rw e' refl, rw printed shown)
    render_json_literal_lem _ text h = cc

    literal_entries_lem :
        (ps : Properties) (texts : List Str)
        → literal_entries ps ≡ some texts
        → (es : JsonEntries) × (shown_entries to_lower_case reads ps ≡ some es)
          × (print_entries es ≡ texts)
    literal_entries_lem no_properties texts h = (no_entries, refl, some-injective _ _ h)
    literal_entries_lem (assignment name n ps) texts h =
        let (key, k, h1) = unless_null-eq-some (property_key_text name) _ texts h in
        let (t, e, h2) = unless_null-eq-some (render_json_literal n) _ texts h1 in
        let (ts, es, shown) =
          map-eq-some (λ entries. entry_text key t ∷ entries) (literal_entries ps) texts h2 in
        let (v, ev, pv) = render_json_literal_lem n t e in
        let (vs, evs, pvs) = literal_entries_lem ps ts es in
        (json_entry key v vs, rw (k, ev, evs) refl, rw (pv, pvs) shown)
    literal_entries_lem (other_property ns ps) texts h = cc

    literal_items_lem :
        (ns : Nodes) (texts : List Str)
        → literal_items ns ≡ some texts
        → (vs : JsonValues) × (shown_values to_lower_case reads ns ≡ some vs)
          × (print_values vs ≡ texts)
    literal_items_lem no_nodes texts h = (no_values, refl, some-injective _ _ h)
    literal_items_lem (node n ns) texts h =
        let (t, e, h2) = unless_null-eq-some (render_json_literal n) _ texts h in
        let (ts, es, shown) = map-eq-some (λ entries. t ∷ entries) (literal_items ns) texts h2 in
        let (v, ev, pv) = render_json_literal_lem n t e in
        let (vs, evs, pvs) = literal_items_lem ns ts es in
        (json_value v vs, rw (ev, evs) refl, rw (pv, pvs) shown)

-- ===== src/Transpile/GuardLaws.antt =====
-- The guards are the conditions: a guard that is rendered is the text of a formula that is true when
-- the condition holds, and the first open branch is the return that the statements reach.
use fearless.Base.{
  Option, none, some, Bool, not, ◌&&◌, ◌||◌, Str, codes, str_eq, str_eq_iff, if◌then◌else◌, ◌≡◌,
  refl, ap, ◌∙◌, arith,
}
use mathlib.Core.Option.{some-injective}
use mathlib.Core.Option
use fearless.Syntax.{
  Node, identifier, string_literal, plain_template, property_access, element_access, binary,
  equals_equals_equals, equals_equals, exclamation_equals_equals, exclamation_equals,
  ampersand_ampersand, bar_bar, handler_param_name,
}
use fearless.Emit.Response.{getter}
use fearless.Transpile.Shapes.{CtxRead, input_read}
use fearless.Transpile.Reads.{match_ctx_read, rust_read, input_of, collection_read}
use fearless.Transpile.LiteralLaws.{map-eq-some}
use fearless.Transpile.ReadLaws.{js_text, js_text-eq-some}
use fearless.Transpile.Guards.{
  render_input, render_collection, render_value_as_rust, with_both, compared, conjoined,
  render_condition_as_rust,
}
use fearless.Transpile.Formula.{
  RustValue, text_literal, get_read, Formula, equal, unequal, both, either, print_value,
  print_formula, both_tests, value, truth, operand, compare_texts, condition,
}

both_tests-eq-some :
    (o p : Option Bool) (f : Bool → Bool → Bool) (b : Bool)
    → both_tests o p f ≡ some b
    → (x y : Bool) × (o ≡ some x) × (p ≡ some y) × (f x y ≡ b)
both_tests-eq-some (some x) (some y) f b h = (x, y, refl, refl, some-injective (f x y) b h)
both_tests-eq-some none p f b h = cc
both_tests-eq-some (some x) none f b h = cc

render_input_lem :
    (c name : Str) (r : CtxRead)
    → (if str_eq c handler_param_name then Option.map input_read (input_of name) else none) ≡ some r
    → render_input c name ≡ some (getter r)
unfolding render_input input_of getter
render_input_lem c name r h = ground (
  arith,
  str_eq_iff name (codes "method"),
  str_eq_iff name (codes "path"),
  str_eq_iff name (codes "url"),
  str_eq_iff name (codes "ip"),
)

module _ (to_lower_case : Str → Str) where
  render_collection_lem :
      (c collection key : Str) (r : CtxRead)
      → (if str_eq c handler_param_name then collection_read to_lower_case collection key else none)
        ≡ some r
      → render_collection to_lower_case c collection key ≡ some (getter r)
  unfolding render_collection collection_read getter
  render_collection_lem c collection key r h = ground arith

  render_read :
      (n : Node) (r : CtxRead)
      → match_ctx_read to_lower_case n ≡ some r
      → render_value_as_rust to_lower_case n ≡ some (getter r)
  unfolding match_ctx_read render_value_as_rust
  render_read (property_access (identifier c) name) r h = render_input_lem c name r h
  render_read (property_access (property_access (identifier c) collection) name) r h =
      render_collection_lem c collection name r h
  render_read (element_access (property_access (identifier c) collection) (string_literal key)) r
        h =
      render_collection_lem c collection key r h
  render_read (element_access (property_access (identifier c) collection) (plain_template key)) r
        h =
      render_collection_lem c collection key r h
  render_read _ r h = cc

  module _ (request : CtxRead → Option Str) where
    read_operand :
        (n : Node) (x : Str)
        → js_text to_lower_case request n ≡ some x
        → (v : RustValue) × (render_value_as_rust to_lower_case n ≡ some (print_value v))
          × (value (rust_read request) v ≡ x)
    unfolding print_value
    read_operand n x h =
        let (r, e, shown) = js_text-eq-some to_lower_case request n x h in
        (get_read r, render_read n r e, shown)

    operand_lem :
        (n : Node) (x : Str)
        → operand to_lower_case request n ≡ some x
        → (v : RustValue) × (render_value_as_rust to_lower_case n ≡ some (print_value v))
          × (value (rust_read request) v ≡ x)
    unfolding operand print_value render_value_as_rust
    operand_lem (string_literal s) x h = (text_literal s, refl, some-injective s x h)
    operand_lem (plain_template s) x h = (text_literal s, refl, some-injective s x h)
    operand_lem n x h = read_operand n x h

    compare_texts-eq-some :
        (o p : Option Str) (b : Bool)
        → compare_texts to_lower_case request o p ≡ some b
        → (x y : Str) × (o ≡ some x) × (p ≡ some y) × (str_eq x y ≡ b)
    compare_texts-eq-some (some x) (some y) b h =
        (x, y, refl, refl, some-injective (str_eq x y) b h)
    compare_texts-eq-some none p b h = cc
    compare_texts-eq-some (some x) none b h = cc

    -- A comparison of two operands, written with an operator of Rust.
    comparison_lem :
        (m n : Node) (operator : Str) (b : Bool)
        → compare_texts to_lower_case request
            (operand to_lower_case request m)
            (operand to_lower_case request n)
          ≡ some b
        → (v w : RustValue) × (with_both
              (render_value_as_rust to_lower_case m)
              (render_value_as_rust to_lower_case n)
              (compared operator)
            ≡ some (compared operator (print_value v) (print_value w)))
          × (str_eq (value (rust_read request) v) (value (rust_read request) w) ≡ b)
    comparison_lem m n operator b h =
        let (x, y, ex, ey, same) =
          compare_texts-eq-some (operand to_lower_case request m) (operand to_lower_case request n)
            b h in
        let (v, ev, vx) = operand_lem m x ex in
        let (w, ew, wy) = operand_lem n y ey in (v, w, rw (ev, ew) refl, rw (vx, wy) same)

    abbrev pub Rendered : Node → Bool → Type 0
    Rendered n b =
        (f : Formula) × (render_condition_as_rust to_lower_case n ≡ some (print_formula f))
        × (truth (rust_read request) f ≡ b)

    equal_lem :
        (m n : Node) (b : Bool)
        → compare_texts to_lower_case request
            (operand to_lower_case request m)
            (operand to_lower_case request n)
          ≡ some b
        → Rendered (binary equals_equals_equals m n) b
    unfolding print_formula truth render_condition_as_rust
    equal_lem m n b h =
        let (v, w, e, t) = comparison_lem m n (codes " == ") b h in (equal v w, e, t)

    unequal_lem :
        (m n : Node) (b : Bool)
        → Option.map not (
            compare_texts to_lower_case request
              (operand to_lower_case request m)
              (operand to_lower_case request n))
          ≡ some b
        → Rendered (binary exclamation_equals_equals m n) b
    unfolding print_formula truth render_condition_as_rust
    unequal_lem m n b h =
        let (a, ea, eb) =
          map-eq-some not
            (compare_texts to_lower_case request (operand to_lower_case request m)
              (operand to_lower_case request n))
            b h in
        let (v, w, e, t) = comparison_lem m n (codes " != ") a ea in (unequal v w, e, ap not t ∙ eb)

    combined_lem :
        (m n : Node) (x y : Bool) (operator : Str) (connect : Formula → Formula → Formula)
        → ((f g : Formula)
            → print_formula (connect f g) ≡ conjoined operator (print_formula f) (print_formula g))
        → Rendered m x
        → Rendered n y
        → (f g : Formula) × (with_both
              (render_condition_as_rust to_lower_case m)
              (render_condition_as_rust to_lower_case n)
              (conjoined operator)
            ≡ some (print_formula (connect f g)))
          × (truth (rust_read request) f ≡ x)
          × (truth (rust_read request) g ≡ y)
    combined_lem m n x y operator connect printed (f, e, t) (g, e', t') =
        (f, g, rw (e, e', printed f g) refl, t, t')

    -- A condition that combines comparisons of texts is rendered, as a formula of its value.
    pub render_condition_lem :
        (n : Node) (b : Bool) → condition to_lower_case request n ≡ some b → Rendered n b
    unfolding condition render_condition_as_rust print_formula truth
    render_condition_lem (binary equals_equals_equals m n) b h = equal_lem m n b h
    render_condition_lem (binary equals_equals m n) b h = equal_lem m n b h
    render_condition_lem (binary exclamation_equals_equals m n) b h = unequal_lem m n b h
    render_condition_lem (binary exclamation_equals m n) b h = unequal_lem m n b h
    render_condition_lem (binary ampersand_ampersand m n) b h =
        let (x, y, ex, ey, e) =
          both_tests-eq-some (condition to_lower_case request m) (condition to_lower_case request n)
            (λ a b. a && b) b h in
        let (f, g, r, t, t') =
          combined_lem m n x y (codes "&&") both (λ f g. refl) (render_condition_lem m x ex)
            (render_condition_lem n y ey) in
        (both f g, r, rw (t, t') e)
    render_condition_lem (binary bar_bar m n) b h =
        let (x, y, ex, ey, e) =
          both_tests-eq-some (condition to_lower_case request m) (condition to_lower_case request n)
            (λ a b. a || b) b h in
        let (f, g, r, t, t') =
          combined_lem m n x y (codes "||") either (λ f g. refl) (render_condition_lem m x ex)
            (render_condition_lem n y ey) in
        (either f g, r, rw (t, t') e)
    render_condition_lem _ b h = cc

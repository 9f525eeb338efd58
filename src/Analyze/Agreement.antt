-- ===== src/Analyze/Agreement.antt =====
-- The analyser against the transpiler: what the transpiler takes, the analyser allows.
use fearless.Base.{
  Option, none, some, Bool, true, ◌&&◌, ◌||◌, Str, codes, str_eq, List, [], ◌∷◌, if◌then◌else◌, ◌≡◌,
  refl, arith,
}
use mathlib.Core.Option
use mathlib.Core.Option.{some-injective}
use fearless.Syntax.{
  Node, identifier, string_literal, plain_template, property_access, element_access, call_of, Nodes,
  handler_param_name,
}
use fearless.Transpile.Shapes.{CtxRead, input_read, ResponseShape}
use fearless.Transpile.Reads.{match_ctx_read, input_of, collection_read}
use fearless.Transpile.Json.{unless_null}
use fearless.Transpile.LiteralLaws.{unless_null-eq-some}
use fearless.Transpile.Chain.{
  Overrides, no_overrides, link_step, unwrap_links, unwrapped, unwrap_ctx_chain,
}
use fearless.Transpile.Extract.{shape_of_chain, extract_response_shape}
use fearless.Analyze.Handler.{has}
use fearless.Analyze.Rules.{
  allowed_ctx_builders, allowed_ctx_chains, is_ctx_chain, is_ctx_builder_call, is_valid_return,
}
use fearless.Analyze.Analysis.{is_ctx_read, is_allowed_substitution}

or_true : (a b : Bool) → b ≡ true → a || b ≡ true
or_true a b h = ground arith

module _ (to_lower_case : Str → Str) where
  input_lem :
      (c name : Str) (r : CtxRead)
      → (if str_eq c handler_param_name then Option.map input_read (input_of name) else none)
        ≡ some r
      → is_ctx_read (property_access (identifier c) name) ≡ true
  unfolding is_ctx_read input_of
  input_lem c name r h = ground arith

  collection_lem :
      (c collection key : Str) (r : CtxRead)
      → (if str_eq c handler_param_name then collection_read to_lower_case collection key else none)
        ≡ some r
      → str_eq c handler_param_name
          && has collection (codes "params" ∷ codes "query" ∷ codes "headers" ∷ [])
        ≡ true
  unfolding collection_read
  collection_lem c collection key r h = ground arith

  -- Every substitution of a template that the transpiler can read, the analyser allows.
  match_ctx_read-is_ctx_read :
      (n : Node) (r : CtxRead) → match_ctx_read to_lower_case n ≡ some r → is_ctx_read n ≡ true
  unfolding match_ctx_read is_ctx_read
  match_ctx_read-is_ctx_read (property_access (identifier c) name) r h = input_lem c name r h
  match_ctx_read-is_ctx_read (property_access (property_access (identifier c) collection) name) r
        h =
      collection_lem c collection name r h
  match_ctx_read-is_ctx_read
        (element_access (property_access (identifier c) collection) (string_literal key)) r h =
      collection_lem c collection key r h
  match_ctx_read-is_ctx_read
        (element_access (property_access (identifier c) collection) (plain_template key)) r h =
      collection_lem c collection key r h
  match_ctx_read-is_ctx_read _ r h = cc

  link_step-chain :
      (method : Str) (args : Nodes) (o o' : Overrides)
      → link_step to_lower_case method args o ≡ some o'
      → has method allowed_ctx_chains ≡ true
  unfolding link_step
  link_step-chain method args o o' h = ground arith

  unwrap_links-is_ctx_chain :
      (n : Node) (o o' : Overrides)
      → unwrap_links to_lower_case n o ≡ some o'
      → is_ctx_chain n ≡ true
  unfolding unwrap_links is_ctx_chain
  unwrap_links-is_ctx_chain (call_of (property_access cursor method) args) o o' h =
      let (p, e, rest) =
        unless_null-eq-some (link_step to_lower_case method args o)
          (λ p. unwrap_links to_lower_case cursor p) o' h in
      rw (link_step-chain method args o p e) (unwrap_links-is_ctx_chain cursor p o' rest)
  unwrap_links-is_ctx_chain (identifier name) o o' h = ground arith
  unwrap_links-is_ctx_chain _ o o' h = cc

  shape_of_chain-builder :
      (method : Str) (args : Nodes) (o : Overrides) (shape : ResponseShape)
      → shape_of_chain to_lower_case
          (record { terminal_method = method; terminal_args = args; overrides = o })
        ≡ some shape
      → has method allowed_ctx_builders ≡ true
  unfolding shape_of_chain
  shape_of_chain-builder method args o shape h = ground arith

  unwrapped_shape :
      (method : Str) (args : Nodes) (o : Option Overrides) (shape : ResponseShape)
      → unless_null
          (unwrapped to_lower_case method args o)
          (λ chain. shape_of_chain to_lower_case chain)
        ≡ some shape
      → (p : Overrides) × (o ≡ some p)
        × (shape_of_chain to_lower_case
              (record { terminal_method = method; terminal_args = args; overrides = p })
            ≡ some shape)
  unwrapped_shape method args none shape h = cc
  unwrapped_shape method args (some p) shape h = (p, refl, h)

  builder_call_lem :
      (e : Node) (shape : ResponseShape)
      → extract_response_shape to_lower_case e ≡ some shape
      → is_ctx_builder_call e ≡ true
  unfolding extract_response_shape unwrap_ctx_chain is_ctx_builder_call
  builder_call_lem (call_of (property_access cursor method) args) shape h =
      let (p, e, made) =
        unwrapped_shape method args (unwrap_links to_lower_case cursor no_overrides) shape h in
      rw (unwrap_links-is_ctx_chain cursor no_overrides p e)
        (shape_of_chain-builder method args p shape made)
  builder_call_lem _ shape h = cc

  -- What the transpiler takes, the analyser allows: a read of the request in a template is an allowed
  -- substitution, and an expression of which `extractResponseShape` makes a response is a valid return
  -- value.
  pub analysis_covers_transpiler :
      (n e : Node) (r : CtxRead) (shape : ResponseShape) (handles : List Str)
      → match_ctx_read to_lower_case n ≡ some r
      → extract_response_shape to_lower_case e ≡ some shape
      → (is_allowed_substitution n ≡ true) × (is_valid_return handles e ≡ true)
  unfolding is_allowed_substitution is_valid_return
  analysis_covers_transpiler n e r shape handles h k =
      (or_true _ _ (match_ctx_read-is_ctx_read n r h), rw (builder_call_lem e shape k) refl)

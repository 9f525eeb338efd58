-- ===== src/Transpile/ReadLaws.antt =====
-- What a read of the request is in JavaScript, and that Rust reads it too. The names of headers are in
-- lower case in `ctx.headers`.
use fearless.Base.{
  Option, none, some, Str, codes, str_eq, str_eq_iff, if◌then◌else◌, ◌≡◌, refl, Bool-cases, inl,
  inr, arith,
}
use mathlib.Core.Option.{map}
use fearless.Syntax.{
  Node, identifier, string_literal, plain_template, property_access, element_access,
  handler_param_name,
}
use fearless.Transpile.Shapes.{InputName, CtxRead, param_read, query_read, header_read, input_read}
use fearless.Transpile.Reads.{match_ctx_read, input_of, collection_read, read_if_ctx, rust_read}

module _ (to_lower_case : Str → Str) (request : CtxRead → Option Str) where
  abbrev own_text : Option CtxRead → Option Str
  own_text none = none
  own_text (some (header_read name)) =
      if str_eq (to_lower_case name) name then request (header_read name) else none
  own_text (some (param_read name)) = request (param_read name)
  own_text (some (query_read name)) = request (query_read name)
  own_text (some (input_read name)) = request (input_read name)

  -- The text of an expression that reads the request: none where it is `undefined`, as for a header
  -- whose name is not written in lower case, or not a text.
  unfoldable pub js_text : Node → Option Str
  unfolding match_ctx_read str_eq
  js_text n = own_text (match_ctx_read (λ s. s) n)

  abbrev IsRead : Option CtxRead → Str → Type 0
  IsRead o s = (r : CtxRead) × (o ≡ some r) × (rust_read request r ≡ s)

  header_lem :
      (name s : Str)
      → own_text (some (header_read name)) ≡ some s
      → IsRead (some (header_read (to_lower_case name))) s
  header_lem name s h = elim (Bool-cases (str_eq (to_lower_case name) name)) [
    | inl y ↦
        let same : to_lower_case name ≡ name = (str_eq_iff (to_lower_case name) name).0 y in
        (header_read (to_lower_case name), refl, rw same (ground arith))
    | inr n ↦ cc
  ]

  collection_lem :
      (collection name s : Str)
      → own_text (collection_read (λ t. t) collection name) ≡ some s
      → IsRead (collection_read to_lower_case collection name) s
  unfolding collection_read
  collection_lem collection name s h = elim (Bool-cases (str_eq collection (codes "params"))) [
    | inl p ↦ rw p (param_read name, refl, ground arith)
    | inr np ↦ elim (Bool-cases (str_eq collection (codes "query"))) [
      | inl q ↦ rw (np, q) (query_read name, refl, ground arith)
      | inr nq ↦ elim (Bool-cases (str_eq collection (codes "headers"))) [
        | inl y ↦ rw (np, nq, y) (header_lem name s (rw (np, nq, y) at h))
        | inr n ↦ absurd (ground arith)
      ]
    ]
  ]

  input_lem :
      (name s : Str)
      → own_text (map input_read (input_of name)) ≡ some s
      → IsRead (map input_read (input_of name)) s
  input_lem name s h = shown (input_of name) h
    where
      shown :
          (o : Option InputName)
          → own_text (map input_read o) ≡ some s
          → IsRead (map input_read o) s
      shown none e = cc
      shown (some i) e = (input_read i, refl, rw e refl)

  guarded_lem :
      (c s : Str) (o o' : Option CtxRead)
      → own_text (read_if_ctx (λ t. t) c o) ≡ some s
      → (own_text o ≡ some s → IsRead o' s)
      → IsRead (read_if_ctx to_lower_case c o') s
  guarded_lem c s o o' h k = elim (Bool-cases (str_eq c handler_param_name)) [
    | inl y ↦ rw y (k (rw y at h))
    | inr n ↦ absurd (ground arith)
  ]

  -- Where an expression reads a text of the request in JavaScript, the transpiler takes it for a read,
  -- and Rust reads this text.
  pub js_text-eq-some :
      (n : Node) (s : Str)
      → js_text n ≡ some s
      → (r : CtxRead) × (match_ctx_read to_lower_case n ≡ some r) × (rust_read request r ≡ s)
  unfolding js_text match_ctx_read
  js_text-eq-some (property_access (identifier c) name) s h =
      guarded_lem c s _ _ h (input_lem name s)
  js_text-eq-some (property_access (property_access (identifier c) collection) name) s h =
      guarded_lem c s _ _ h (collection_lem collection name s)
  js_text-eq-some (element_access (property_access (identifier c) collection) (string_literal key))
        s h =
      guarded_lem c s _ _ h (collection_lem collection key s)
  js_text-eq-some (element_access (property_access (identifier c) collection) (plain_template key))
        s h =
      guarded_lem c s _ _ h (collection_lem collection key s)
  js_text-eq-some _ s h = cc

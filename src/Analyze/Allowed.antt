-- ===== src/Analyze/Allowed.antt =====
-- What a compilable handler does not hold, in terms of the syntax alone. The rules use none of it.
use fearless.Base.{
  true, false, ◌||◌, Str, codes, str_eq, str_eq_iff, List, [], ◌∷◌, ◌++◌, ◌≡◌, arith, ◌⊎◌, inl, inr,
  Bool-cases,
}
use fearless.Syntax.{
  Node, identifier, string_literal, plain_template, numeric_literal, property_access,
  element_access, call_of, await_of, throw_of, loop_of, Nodes, handler_param_name,
}
use fearless.Analyze.Handler.{has, is_handle_call, offends}
use fearless.Analyze.Rules.{
  is_throw, is_loop, is_promise, is_dynamic_access, allowed_method, allowed_ctx_builders,
  allowed_ctx_chains, chain_ends_at_ctx, is_handle, is_math_call, is_disallowed_callee,
  is_disallowed_call,
}

-- A text is one of a list.
abbrev pub OneOf : List Str → Str → Type 0
OneOf [] s = ⊥
OneOf (t ∷ ts) s = (t ≡ s) ⊎ OneOf ts s

-- A literal key of an access by brackets.
pub data LiteralKey : Node → Type 0 where
  text_key : (s : Str) → LiteralKey (string_literal s)
  number_key : (s : Str) → LiteralKey (numeric_literal s)
  template_key : (s : Str) → LiteralKey (plain_template s)

abbrev promise_methods : List Str
promise_methods = codes "then" ∷ codes "catch" ∷ codes "finally" ∷ []

abbrev math_methods : List Str
math_methods = codes "floor" ∷ codes "random" ∷ []

-- A `throw`, a loop, the name `Promise`, a property `then`, `catch` or `finally`, and an access by a
-- key that is computed.
pub data Forbidden : Node → Type 0 where
  throws : (n : Node) → Forbidden (throw_of n)
  loops : (ns : Nodes) → Forbidden (loop_of ns)
  names_promise : (name : Str) → name ≡ codes "Promise" → Forbidden (identifier name)
  calls_promise :
      (n : Node) (name : Str) → OneOf promise_methods name → Forbidden (property_access n name)
  computes_key : (n key : Node) → ¬ LiteralKey key → Forbidden (element_access n key)

-- A call `h.method(…)` on a variable of the list.
pub data HandleCall (handles : List Str) : Node → Type 0 where
  on_handle :
      (h method : Str) (args : Nodes)
      → OneOf handles h
      → HandleCall handles (call_of (property_access (identifier h) method) args)

-- An `await` of anything else.
pub data ForeignAwait (handles : List Str) : Node → Type 0 where
  foreign : (n : Node) → ¬ HandleCall handles n → ForeignAwait handles (await_of n)

-- The methods of `ctx` that make a response, or a part of one.
abbrev pub ctx_methods : List Str
ctx_methods =
    codes "json"
    ∷ codes "text"
    ∷ codes "html"
    ∷ codes "raw"
    ∷ codes "redirect"
    ∷ codes "notFound"
    ∷ codes "noContent"
    ∷ codes "status"
    ∷ codes "header"
    ∷ codes "setHeaders"
    ∷ []

-- `ctx`, or a chain of calls of these methods on it.
pub data CtxChain : Node → Type 0 where
  root : (name : Str) → name ≡ codes "ctx" → CtxChain (identifier name)
  link :
      (n : Node) (method : Str) (args : Nodes)
      → OneOf ctx_methods method
      → CtxChain n
      → CtxChain (call_of (property_access n method) args)

-- What may be called: a method of `ctx` on such a chain, any method of a handle, `Math.floor` and
-- `Math.random`.
pub data Callable (handles : List Str) : Node → Type 0 where
  of_ctx :
      (n : Node) (method : Str)
      → OneOf ctx_methods method
      → CtxChain n
      → Callable handles (property_access n method)
  of_handle :
      (h method : Str) → OneOf handles h → Callable handles (property_access (identifier h) method)
  of_math :
      (name method : Str)
      → name ≡ codes "Math"
      → OneOf math_methods method
      → Callable handles (property_access (identifier name) method)

pub data ForeignCall (handles : List Str) : Node → Type 0 where
  foreign_call :
      (callee : Node) (args : Nodes)
      → ¬ Callable handles callee
      → ForeignCall handles (call_of callee args)

has-OneOf : (name : Str) (names : List Str) → has name names ≡ true → OneOf names name
has-OneOf name [] h = cc
has-OneOf name (t ∷ ts) h = elim (Bool-cases (str_eq name t)) [
  | inl y ↦ inl (ground (arith, str_eq_iff name t))
  | inr n ↦ inr (has-OneOf name ts (rw n at h))
]

OneOf-has : (name : Str) (names : List Str) → OneOf names name → has name names ≡ true
OneOf-has name [] h = absurd h
OneOf-has name (t ∷ ts) (inl e) = ground (arith, str_eq_iff name t)
OneOf-has name (t ∷ ts) (inr h) = ground (arith, OneOf-has name ts h)

OneOf-append :
    (name : Str) (xs ys : List Str) → OneOf xs name ⊎ OneOf ys name → OneOf (xs ++ ys) name
OneOf-append name [] ys (inr h) = h
OneOf-append name [] ys (inl h) = absurd h
OneOf-append name (x ∷ xs) ys (inl (inl e)) = inl e
OneOf-append name (x ∷ xs) ys (inl (inr h)) = inr (OneOf-append name xs ys (inl h))
OneOf-append name (x ∷ xs) ys (inr h) = inr (OneOf-append name xs ys (inr h))

allowed_method-OneOf : (name : Str) → allowed_method name ≡ true → OneOf ctx_methods name
allowed_method-OneOf name h =
    OneOf-append name allowed_ctx_builders allowed_ctx_chains
      (elim (Bool-cases (has name allowed_ctx_builders)) [
        | inl y ↦ inl (has-OneOf name allowed_ctx_builders y)
        | inr n ↦ inr (has-OneOf name allowed_ctx_chains (rw n at h))
      ])

LiteralKey-of : (n key : Node) → is_dynamic_access (element_access n key) ≡ false → LiteralKey key
LiteralKey-of n (string_literal s) h = text_key s
LiteralKey-of n (numeric_literal s) h = number_key s
LiteralKey-of n (plain_template s) h = template_key s
LiteralKey-of n _ h = cc

-- A node that the four rules on single nodes pass is none of the forbidden ones.
pub not-Forbidden :
    {n : Node}
    → is_throw n ≡ false
    → is_loop n ≡ false
    → is_promise n ≡ false
    → is_dynamic_access n ≡ false
    → ¬ Forbidden n
unfolding is_promise
not-Forbidden a b c d (throws n) = cc
not-Forbidden a b c d (loops ns) = cc
not-Forbidden a b c d (names_promise name e) = ground (arith, str_eq_iff name (codes "Promise"))
not-Forbidden a b c d (calls_promise n name e) = ground (arith, OneOf-has name promise_methods e)
not-Forbidden a b c d (computes_key n key h) = h (LiteralKey-of n key d)

HandleCall-of :
    (handles : List Str) (n : Node) → is_handle_call handles n ≡ true → HandleCall handles n
unfolding is_handle_call
HandleCall-of handles (call_of (property_access (identifier h) method) args) e =
    on_handle h method args (has-OneOf h handles e)
HandleCall-of handles _ e = cc

pub not-ForeignAwait :
    (handles : List Str) {n : Node} → offends handles n ≡ false → ¬ ForeignAwait handles n
unfolding offends
not-ForeignAwait handles h (foreign n other) = other (HandleCall-of handles n (ground arith))

CtxChain-of : (n : Node) → chain_ends_at_ctx n ≡ true → CtxChain n
unfolding chain_ends_at_ctx
CtxChain-of (call_of (property_access n method) args) h =
    elim (Bool-cases (allowed_method method)) [
      | inl y ↦ link n method args (allowed_method-OneOf method y) (CtxChain-of n (rw y at h))
      | inr no_method ↦ absurd (ground arith)
    ]
CtxChain-of (identifier name) h = root name ((str_eq_iff name handler_param_name).0 h)
CtxChain-of _ h = cc

Callable-other :
    (handles : List Str) (n : Node) (method : Str)
    → is_handle handles n || is_math_call n method ≡ true
    → Callable handles (property_access n method)
Callable-other handles (identifier name) method h = elim (Bool-cases (has name handles)) [
  | inl y ↦ of_handle name method (has-OneOf name handles y)
  | inr n ↦
      of_math name method (ground (arith, str_eq_iff name (codes "Math")))
        (has-OneOf method math_methods (ground arith))
]
Callable-other handles _ method h = cc

Callable-of :
    (handles : List Str) (callee : Node)
    → is_disallowed_callee handles callee ≡ false
    → Callable handles callee
unfolding is_disallowed_callee
Callable-of handles (property_access n method) h = elim (Bool-cases (chain_ends_at_ctx n)) [
  | inl y ↦ of_ctx n method (allowed_method-OneOf method (ground arith)) (CtxChain-of n y)
  | inr other ↦ Callable-other handles n method (ground arith)
]
Callable-of handles _ h = cc

pub not-ForeignCall :
    (handles : List Str) {n : Node} → is_disallowed_call handles n ≡ false → ¬ ForeignCall handles n
unfolding is_disallowed_call
not-ForeignCall handles h (foreign_call callee args other) = other (Callable-of handles callee h)

-- ===== src/Middleware/Laws.antt =====
-- The contract of the hook chain: order, short circuits, recovery, and that it returns.
use fearless.Base.{
  ◌≡◌, refl, Option, none, some, true, false, Str, List, [], ◌∷◌, All, arith, get_or,
}
use fearless.Web.Values.{
  Json, HttpError, Thrown, http_error, range_error, type_error, other_value, Result, ok, throw,
  Call, continue, handle_throw, ◌>>=◌,
}
use fearless.Web.Response.{WebResponse, new_response}
use fearless.Errors.{to_response}
use fearless.Errors.Laws.{is_showable, to_response-status, to_response_returns_iff}
use fearless.Middleware.{
  Handler, RequestHook, ResponseHook, ErrorHook, HookChain, stop_at, respond, run_request_hooks,
  run_response_hooks, run_error_hooks, default_error_response, recover, execute,
}

-- A thrown value that the default error response can show: any but an `HttpError` whose status takes
-- no body or is out of range, or whose exposed details cannot be serialised.
abbrev IsShowable : Thrown → Type 0
IsShowable (http_error e) = is_showable e ≡ true
IsShowable _ = Unit

abbrev ThrowsShowable : {A : Type 0} → Result A → Type 0
ThrowsShowable (ok a) = Unit
ThrowsShowable (throw e) = IsShowable e

-- In no state does the call throw what cannot be shown.
abbrev IsSafe : {S A : Type 0} → Call S A → Type 0
IsSafe {S} m = (s : S) → ThrowsShowable (m s).0

module _ {S A B : Type 0} where
  continue-IsSafe :
      (r : Result A) (f : A → Call S B) (s : S)
      → ThrowsShowable r
      → ((a : A) → IsSafe (f a))
      → ThrowsShowable (continue r f s).0
  continue-IsSafe (ok a) f s h k = k a s
  continue-IsSafe (throw e) f s h k = h

  bind-IsSafe :
      (m : Call S A) (f : A → Call S B) → IsSafe m → ((a : A) → IsSafe (f a)) → IsSafe (m >>= f)
  bind-IsSafe m f h k s = continue-IsSafe (m s).0 f (m s).1 (h s) k

module _ {S : Type 0} where
  stop_at-IsSafe :
      (o : Option WebResponse) (rest : Call S (Option WebResponse))
      → IsSafe rest
      → IsSafe (stop_at o rest)
  stop_at-IsSafe none rest h s = h s
  stop_at-IsSafe (some response) rest h s = tt

  run_request_hooks-IsSafe :
      (hooks : List (RequestHook S)) → All IsSafe hooks → IsSafe (run_request_hooks hooks)
  unfolding run_request_hooks
  run_request_hooks-IsSafe [] h s = tt
  run_request_hooks-IsSafe (hook ∷ hooks) (h, hs) s =
      bind-IsSafe hook _ h (λ o. stop_at-IsSafe o _ (run_request_hooks-IsSafe hooks hs)) s

  run_response_hooks-IsSafe :
      (hooks : List (ResponseHook S)) (current : WebResponse)
      → All (λ hook. (r : WebResponse) → IsSafe (hook r)) hooks
      → IsSafe (run_response_hooks hooks current)
  unfolding run_response_hooks
  run_response_hooks-IsSafe [] current h s = tt
  run_response_hooks-IsSafe (hook ∷ hooks) current (h, hs) s =
      bind-IsSafe (hook current) _ (h current)
        (λ o. run_response_hooks-IsSafe hooks (get_or o current) hs) s

  respond-IsSafe :
      (o : Option WebResponse) (handler : Handler S) → IsSafe handler → IsSafe (respond o handler)
  respond-IsSafe none handler h s = h s
  respond-IsSafe (some response) handler h s = tt

-- Every hook and the handler throw only what can be shown.
pub record IsSafeChain {S : Type 0} (c : HookChain S) (handler : Handler S) : Type 0 where
  pub requests : All IsSafe c.request_hooks
  pub handles : IsSafe handler
  pub responses : All (λ hook. (r : WebResponse) → IsSafe (hook r)) c.response_hooks
  pub errors : All (λ hook. (e : Thrown) → IsSafe (hook e)) c.error_hooks

abbrev pub Returns : {A : Type 0} → Result A → Type 0
Returns {A} r = (a : A) × (r ≡ ok a)

module _ (stringify : Json → Str) where
  default_error_response-Returns :
      (e : Thrown) → IsShowable e → Returns (default_error_response stringify e)
  unfolding default_error_response new_response
  default_error_response-Returns (http_error e) h =
      let (r, eq, _) = (to_response_returns_iff stringify e).1 h in (r, eq)
  default_error_response-Returns range_error h = (_, refl)
  default_error_response-Returns type_error h = (_, refl)
  default_error_response-Returns (other_value v) h = (_, refl)

module _ (stringify : Json → Str) {S : Type 0} where
  recover-Returns :
      (r : Result (Option WebResponse)) (e : Thrown) (rest : Thrown → Call S WebResponse) (s : S)
      → ThrowsShowable r
      → IsShowable e
      → ((e' : Thrown) (s' : S) → IsShowable e' → Returns (rest e' s').0)
      → Returns (recover stringify r e rest s).0
  recover-Returns (ok none) e rest s h k f = f e s k
  recover-Returns (ok (some response)) e rest s h k f = (response, refl)
  recover-Returns (throw e') e rest s h k f = f e' s h

  run_error_hooks-Returns :
      (hooks : List (ErrorHook S)) (e : Thrown) (s : S)
      → All (λ hook. (e : Thrown) → IsSafe (hook e)) hooks
      → IsShowable e
      → Returns (run_error_hooks stringify hooks e s).0
  unfolding run_error_hooks
  run_error_hooks-Returns [] e s h k = default_error_response-Returns stringify e k
  run_error_hooks-Returns (hook ∷ hooks) e s (h, hs) k =
      recover-Returns (hook e s).0 e _ (hook e s).1 (h e s) k
        (λ e' s' k'. run_error_hooks-Returns hooks e' s' hs k')

  handle_throw-Returns :
      (r : Result WebResponse) (f : Thrown → Call S WebResponse) (s : S)
      → ThrowsShowable r
      → ((e : Thrown) (s' : S) → IsShowable e → Returns (f e s').0)
      → Returns (handle_throw r f s).0
  handle_throw-Returns (ok a) f s h k = (a, refl)
  handle_throw-Returns (throw e) f s h k = k e s h

  -- `execute` returns a response in every state, if the hooks and the handler throw no `HttpError`
  -- whose status, modulo 2 ^ 16, is out of range or takes no body, and none that exposes details on
  -- which `JSON.stringify` throws.
  pub execute_returns :
      (c : HookChain S) (handler : Handler S) (s : S)
      → IsSafeChain c handler
      → (r : WebResponse) × ((execute stringify c handler s).0 ≡ ok r)
  unfolding execute
  execute_returns c handler s h =
      handle_throw-Returns _ (run_error_hooks stringify c.error_hooks) _
        (bind-IsSafe (run_request_hooks c.request_hooks) _
          (run_request_hooks-IsSafe c.request_hooks h.requests)
          (λ o.
            bind-IsSafe (respond o handler) _ (respond-IsSafe o handler h.handles)
              (λ r. run_response_hooks-IsSafe c.response_hooks r h.responses))
          s)
        (λ e s' k. run_error_hooks-Returns c.error_hooks e s' h.errors k)

  -- Without request and error hooks, a handler that throws an `HttpError` whose status, modulo 2 ^ 16,
  -- is out of range or takes no body, or that exposes details on which `JSON.stringify` throws, makes
  -- `execute` itself throw.
  pub execute_throws :
      (c : HookChain S) (handler : Handler S) (s : S) (e : HttpError)
      → c.request_hooks ≡ []
      → c.error_hooks ≡ []
      → (handler s).0 ≡ throw (http_error e)
      → is_showable e ≡ false
      → ¬ Returns (execute stringify c handler s).0
  unfolding execute run_error_hooks
  execute_throws c handler s e no_requests no_errors thrown bad (r, returned) =
      let shown : to_response stringify e ≡ ok r = ground arith in
      ground (
        arith,
        to_response-status stringify e r shown,
        (to_response_returns_iff stringify e).0 (r, shown, to_response-status stringify e r shown),
      )

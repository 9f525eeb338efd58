-- ===== src/Middleware.antt =====
-- src/middleware.ts: `HookChain`. Hooks and handlers are user code: calls that may throw and may
-- change a state `S`.
pub mod Laws
pub mod Order
use fearless.Base.{
  ℕ, Option, none, some, Bool, true, false, Str, codes, Dict, List, [], ◌∷◌, ◌++◌, ◌||◌, get_or,
}
use fearless.Web.Values.{
  Json, str, obj, no_fields, field, Thrown, http_error, Result, ok, throw, Call, ◌>>=◌, ◌>>◌, pure,
  lift, try_catch, handle_throw, continue,
}
use fearless.Web.Response.{WebResponse, new_response}
use fearless.Errors.{json_headers, to_response}

-- `void | Response` is an `Option`.
abbrev pub Handler : Type 0 → Type 0
Handler S = Call S WebResponse

abbrev pub RequestHook : Type 0 → Type 0
RequestHook S = Call S (Option WebResponse)

abbrev pub ResponseHook : Type 0 → Type 0
ResponseHook S = WebResponse → Call S (Option WebResponse)

abbrev pub ErrorHook : Type 0 → Type 0
ErrorHook S = Thrown → Call S (Option WebResponse)

pub record HookChain (S : Type 0) : Type 0 where
  pub request_hooks : List (RequestHook S)
  pub response_hooks : List (ResponseHook S)
  pub error_hooks : List (ErrorHook S)

abbrev is_cons {ℓ} : {A : Type ℓ} → List A → Bool
is_cons [] = false
is_cons (x ∷ xs) = true

module _ {S : Type 0} where
  abbrev pub no_hooks : HookChain S
  no_hooks = record { request_hooks = []; response_hooks = []; error_hooks = [] }

  unfoldable pub on_request : RequestHook S → HookChain S → HookChain S
  on_request hook c = record c { request_hooks = c.request_hooks ++ hook ∷ [] }

  unfoldable pub on_response : ResponseHook S → HookChain S → HookChain S
  on_response hook c = record c { response_hooks = c.response_hooks ++ hook ∷ [] }

  unfoldable pub on_error : ErrorHook S → HookChain S → HookChain S
  on_error hook c = record c { error_hooks = c.error_hooks ++ hook ∷ [] }

  unfoldable has_hooks : HookChain S → Bool
  has_hooks c = is_cons c.request_hooks || (is_cons c.response_hooks || is_cons c.error_hooks)

  -- A hook that returns a response ends the loop.
  abbrev pub stop_at :
      Option WebResponse → Call S (Option WebResponse) → Call S (Option WebResponse)
  stop_at none rest = rest
  stop_at (some response) rest = pure (some response)

  unfoldable pub run_request_hooks : List (RequestHook S) → Call S (Option WebResponse)
  run_request_hooks [] = pure none
  run_request_hooks (hook ∷ hooks) = do result ← hook; stop_at result (run_request_hooks hooks)

  unfoldable pub run_response_hooks : List (ResponseHook S) → WebResponse → Call S WebResponse
  run_response_hooks [] current = pure current
  run_response_hooks (hook ∷ hooks) current = do
    result ← hook current
    run_response_hooks hooks (get_or result current)

  abbrev pub respond : Option WebResponse → Handler S → Handler S
  respond none handler = handler
  respond (some response) handler = pure response

module _ (stringify : Json → Str) where
  -- `FALLBACK_BODY`
  abbrev fallback_body : Str
  fallback_body =
      stringify (obj (field (codes "error") (str (codes "Internal Server Error")) no_fields))

  unfoldable pub default_error_response : Thrown → Result WebResponse
  default_error_response (http_error e) = to_response stringify e
  default_error_response _ = new_response (some fallback_body) 500 json_headers

  module _ {S : Type 0} where
    -- A hook that throws replaces the error; one that returns a response ends the loop.
    abbrev pub recover :
        Result (Option WebResponse) → Thrown → (Thrown → Call S WebResponse) → Call S WebResponse
    recover (ok (some response)) error rest = pure response
    recover (ok none) error rest = rest error
    recover (throw rethrow) error rest = rest rethrow

    unfoldable pub run_error_hooks : List (ErrorHook S) → Thrown → Call S WebResponse
    unfolding default_error_response
    run_error_hooks [] error s = (default_error_response error, s)
    run_error_hooks (hook ∷ hooks) error s =
        let (r, s') = hook error s in recover r error (run_error_hooks hooks) s'

    unfoldable pub execute : HookChain S → Handler S → Call S WebResponse
    unfolding run_request_hooks run_response_hooks run_error_hooks
    execute c handler =
        try_catch
          (do
            short_circuit ← run_request_hooks c.request_hooks
            response ← respond short_circuit handler
            run_response_hooks c.response_hooks response)
          (run_error_hooks c.error_hooks)

-- ===== src/Middleware/Order.antt =====
-- The order in which hooks run, and which of them decides.
use fearless.Base.{◌≡◌, refl, Option, none, some, Str, List, [], ◌∷◌, ◌++◌, All, get_or}
use fearless.Web.Values.{Json, Thrown, Result, ok, throw, continue, handle_throw, ◌>>=◌}
use fearless.Web.Response.{WebResponse}
use fearless.Middleware.{
  Handler, RequestHook, ResponseHook, ErrorHook, HookChain, run_request_hooks, run_response_hooks,
  run_error_hooks, recover, execute,
}

-- The hook returns nothing, in every state.
abbrev Passes : {S : Type 0} → RequestHook S → Type 0
Passes {S} hook = (s : S) → (hook s).0 ≡ ok none

-- The states through which hooks that pass lead.
abbrev after_all : {S : Type 0} → List (RequestHook S) → S → S
after_all [] s = s
after_all (hook ∷ hooks) s = after_all hooks (hook s).1

module _ {S : Type 0} where
  run_request_hooks-Passes :
      (pre rest : List (RequestHook S)) (s : S)
      → All Passes pre
      → run_request_hooks (pre ++ rest) s ≡ run_request_hooks rest (after_all pre s)
  unfolding run_request_hooks
  run_request_hooks-Passes [] rest s h = refl
  run_request_hooks-Passes (hook ∷ pre) rest s (h, hs) =
      rw (h s) (run_request_hooks-Passes pre rest (hook s).1 hs)

  stops :
      (hook : RequestHook S) (post : List (RequestHook S)) (s : S) (response : WebResponse)
      → (hook s).0 ≡ ok (some response)
      → run_request_hooks (hook ∷ post) s ≡ (ok (some response), (hook s).1)
  unfolding run_request_hooks
  stops hook post s response e = rw e

  -- The hooks before it pass, and this one answers.
  short_circuit_lem :
      (pre post : List (RequestHook S)) (hook : RequestHook S) (s : S) (response : WebResponse)
      → All Passes pre
      → (hook (after_all pre s)).0 ≡ ok (some response)
      → run_request_hooks (pre ++ hook ∷ post) s ≡ (ok (some response), (hook (after_all pre s)).1)
  short_circuit_lem pre post hook s response h e =
      rw (run_request_hooks-Passes pre (hook ∷ post) s h) (stops hook post _ response e)

  -- Response hooks run in order: those registered later see the response of the earlier ones.
  run_response_hooks-append :
      (hs ks : List (ResponseHook S)) (r : WebResponse) (s : S)
      → run_response_hooks (hs ++ ks) r s ≡ (run_response_hooks hs r >>= run_response_hooks ks) s
  unfolding run_response_hooks
  run_response_hooks-append [] ks r s = refl
  run_response_hooks-append (hook ∷ hs) ks r s =
      go (hook r s).0 (hook r s).1 (run_response_hooks-append hs ks)
    where
      go :
          (o : Result (Option WebResponse)) (t : S)
          → ((r : WebResponse) (s : S)
              → run_response_hooks (hs ++ ks) r s
                ≡ (run_response_hooks hs r >>= run_response_hooks ks) s)
          → continue o (λ result. run_response_hooks (hs ++ ks) (get_or result r)) t
            ≡ continue
                (continue o (λ result. run_response_hooks hs (get_or result r)) t).0
                (run_response_hooks ks)
                (continue o (λ result. run_response_hooks hs (get_or result r)) t).1
      go (ok x) t ih = ih (get_or x r) t
      go (throw e) t ih = refl

module _ (stringify : Json → Str) {S : Type 0} where
  -- A request hook that answers, behind hooks that pass, decides: the later request hooks and the
  -- handler have no effect on the result or on the state. The response hooks still run.
  pub execute_short_circuit :
      (c : HookChain S) (pre post : List (RequestHook S)) (hook : RequestHook S)
      (handler : Handler S) (s : S) (response : WebResponse)
      → All Passes pre
      → (hook (after_all pre s)).0 ≡ ok (some response)
      → execute stringify (record c { request_hooks = pre ++ hook ∷ post }) handler s ≡ (
          let t = (hook (after_all pre s)).1 in
          let m = run_response_hooks c.response_hooks response t in
          handle_throw m.0 (run_error_hooks stringify c.error_hooks) m.1)
  unfolding execute
  execute_short_circuit c pre post hook handler s response h e =
      rw (short_circuit_lem pre post hook s response h e)

  -- The error hook passes on the error that it is given.
  abbrev PassesError : ErrorHook S → Type 0
  PassesError hook = (e : Thrown) (s : S) → (hook e s).0 ≡ ok none

  abbrev after_errors : List (ErrorHook S) → Thrown → S → S
  after_errors [] e s = s
  after_errors (hook ∷ hooks) e s = after_errors hooks e (hook e s).1

  -- Behind error hooks that pass, the next hook sees the error; if it answers, its response is the
  -- result and the later hooks do not run, if it throws, they see its error in place of the first.
  pub run_error_hooks_first :
      (pre post : List (ErrorHook S)) (hook : ErrorHook S) (error : Thrown) (s : S)
      → All PassesError pre
      → run_error_hooks stringify (pre ++ hook ∷ post) error s ≡ (
          let m = hook error (after_errors pre error s) in
          recover stringify m.0 error (run_error_hooks stringify post) m.1)
  unfolding run_error_hooks
  run_error_hooks_first [] post hook error s h = refl
  run_error_hooks_first (k ∷ pre) post hook error s (h, hs) =
      rw (h error s) (run_error_hooks_first pre post hook error (k error s).1 hs)

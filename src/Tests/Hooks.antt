-- ===== src/Tests/Hooks.antt =====
-- Examples for hooks. The state is a number that the hooks count up.
use fearless.Base.{ℕ, ◌+◌, none, some, true, [], ◌∷◌, ◌++◌, ◌≡◌, refl}
use fearless.Web.Values.{ok, throw, http_error, HttpError}
use fearless.Web.Response.{WebResponse}
use fearless.Middleware.{
  Handler, RequestHook, ErrorHook, HookChain, no_hooks, run_response_hooks, execute,
}
use fearless.Middleware.Laws.{Returns, execute_returns, execute_throws}
use fearless.Middleware.Order.{execute_short_circuit}
use fearless.Tests.Data.{show_json, teapot}

abbrev count : RequestHook ℕ
count n = (ok none, n + 1)

abbrev answer : RequestHook ℕ
answer n = (ok (some teapot), n + 10)

abbrev serve : Handler ℕ
serve n = (ok teapot, n + 100)

abbrev note_error : ErrorHook ℕ
note_error e n = (ok none, n + 1)

abbrev answer_error : ErrorHook ℕ
answer_error e n = (ok (some teapot), n)

abbrev odd_error : HttpError
odd_error = record { status = 99; message = []; expose = true; details = none }

abbrev counting : HookChain ℕ
counting = record { request_hooks = count ∷ []; response_hooks = []; error_hooks = note_error ∷ [] }

execute_returns_example : (r : WebResponse) × ((execute show_json counting serve 0).0 ≡ ok r)
execute_returns_example = execute_returns show_json counting serve 0 (record {
  requests = ((λ s. tt), tt);
  responses = tt;
  errors = ((λ e s. tt), tt);
  handles = λ s. tt;
})

execute_throws_example :
    ¬ Returns (execute show_json (no_hooks {S = ℕ}) (λ n. (throw (http_error odd_error), n)) 0).0
execute_throws_example =
    execute_throws show_json no_hooks (λ n. (throw (http_error odd_error), n)) 0 odd_error refl refl
      refl refl

execute_short_circuit_example :
    execute show_json
      (record counting { request_hooks = (count ∷ []) ++ answer ∷ count ∷ [] })
      serve
      0
    ≡ (ok teapot, 11)
unfolding run_response_hooks
execute_short_circuit_example =
    execute_short_circuit show_json counting (count ∷ []) (count ∷ []) answer serve 0 teapot
      ((λ s. refl), tt) refl

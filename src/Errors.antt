-- ===== src/Errors.antt =====
-- src/errors.ts: `HttpError`, its factories, `toResponse`, and `ValidationError`.
pub mod Laws
use fearless.Base.{
  ℕ, Option, none, some, Bool, true, false, Str, codes, Dict, List, [], ◌∷◌, get_or, ltb,
  if◌then◌else◌,
}
use fearless.Web.Values.{
  Json, str, obj, Fields, no_fields, field, Details, json_details, left_out, not_json, throwing,
  HttpError, type_error, other_value, Result, ok, throw,
}
use fearless.Web.Response.{WebResponse, new_response}

-- The constructor; `expose` and `details` of its options may be missing.
unfoldable pub new_http_error : ℕ → Str → Option Bool → Option Details → HttpError
new_http_error status message expose details = record {
  status = status;
  message = message;
  expose = get_or expose (ltb status 500);
  details = details;
}

unfoldable bad_request : Str → Option Details → HttpError
unfolding new_http_error
bad_request message details = new_http_error 400 message none details

unfoldable unauthorized : Str → HttpError
unfolding new_http_error
unauthorized message = new_http_error 401 message none none

unfoldable forbidden : Str → HttpError
unfolding new_http_error
forbidden message = new_http_error 403 message none none

unfoldable pub not_found : Str → HttpError
unfolding new_http_error
not_found message = new_http_error 404 message none none

unfoldable conflict : Str → Option Details → HttpError
unfolding new_http_error
conflict message details = new_http_error 409 message none details

unfoldable internal : Str → HttpError
unfolding new_http_error
internal message = new_http_error 500 message (some false) none

unfoldable pub validation_error : Str → Option Details → HttpError
unfolding new_http_error
validation_error message details = new_http_error 422 message (some true) details

abbrev pub json_headers : Dict Str
json_headers = (codes "Content-Type", codes "application/json") ∷ []

abbrev pub with_ok : {A B : Type 0} → Result A → (A → Result B) → Result B
with_ok (ok a) f = f a
with_ok (throw e) f = throw e

-- The part of `details`, where they are given, and what `JSON.stringify` throws on them.
abbrev pub details_field : Option Details → Result Fields
details_field none = ok no_fields
details_field (some (json_details v)) = ok (field (codes "details") v no_fields)
details_field (some left_out) = ok no_fields
details_field (some not_json) = throw type_error
details_field (some (throwing value)) = throw (other_value value)

-- What is serialised: `error`, and `details` where they are given.
unfoldable pub error_body : HttpError → Result Json
error_body e =
    if e.expose
    then with_ok (details_field e.details)
        (λ fields. ok (obj (field (codes "error") (str e.message) fields)))
    else ok (obj (field (codes "error") (str (codes "Internal Server Error")) no_fields))

module _ (stringify : Json → Str) where
  unfoldable pub to_response : HttpError → Result WebResponse
  unfolding error_body
  to_response e =
      with_ok (error_body e) (λ body. new_response (some (stringify body)) e.status json_headers)

-- ===== src/Tests/Responses.antt =====
-- Examples for errors and responses.
use fearless.Base.{none, some, true, false, Str, codes, [], ◌∷◌, ◌≡◌, refl, arith, get, str_eq}
use fearless.Web.Values.{Json, str, json_details, HttpError}
use fearless.Web.Response.{WebResponse, to_lower, new_headers}
use fearless.Errors.{new_http_error, to_response}
use fearless.Errors.Laws.{to_response_conceals}
use fearless.Ctx.Builders.{PendingResponseShape, json}
use fearless.Ctx.BuilderLaws.{json_joins_content_type}
use fearless.Outgoing.{OutgoingResponse, new_server_response}
use fearless.Tests.Data.{show_json, differ}

to_response_conceals_example :
    to_response show_json
      (new_http_error 503 (codes "disk full") none (some (json_details (str (codes "sda1")))))
    ≡ to_response show_json (new_http_error 503 [] none none)
to_response_conceals_example =
    to_response_conceals show_json 503 (codes "disk full") []
      (some (json_details (str (codes "sda1")))) none (omega arith)

abbrev gone : HttpError
gone = record { status = 410; message = codes "Gone"; expose = true; details = none }

abbrev lower_name : Str
lower_name = codes "content-type"

abbrev pending_type : PendingResponseShape
pending_type = record { status = none; headers = (lower_name, codes "text/csv") ∷ [] }

abbrev twice_typed : WebResponse
twice_typed = record {
  status = 200;
  headers = (lower_name, codes "text/csv, application/json") ∷ [];
  body = some (codes "a");
}

json_joins_content_type_example :
    get (codes "content-type") twice_typed.headers ≡ some (codes "text/csv, application/json")
unfolding json to_lower new_headers str_eq
json_joins_content_type_example =
    json_joins_content_type show_json (str (codes "a")) lower_name (codes "text/csv") twice_typed
      refl (differ lower_name (codes "Content-Type") refl) refl

abbrev head_response : OutgoingResponse
head_response = record {
  status_value = 201;
  header_values = (codes "A", codes "b") ∷ [];
  is_ended = false;
  suppress_body = true;
  res = new_server_response;
}

abbrev no_json : Str → Json
no_json s = str s

abbrev ended_response : OutgoingResponse
ended_response = record head_response { is_ended = true }

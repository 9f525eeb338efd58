-- ===== src/Outgoing.antt =====
-- src/response.ts: `Response`, the writer of template routes over Node's `ServerResponse`.
pub mod Laws
use fearless.Base.{
  ℕ, Option, none, some, Bool, true, false, Str, codes, List, [], ◌∷◌, Dict, put, assign, ◌||◌,
  if◌then◌else◌, is_some,
}
use fearless.Web.Values.{Json}
use fearless.Web.Response.{to_lower}

-- Node's response: the status, the headers under names in lower case, and what it was ended with.
pub record ServerResponse : Type 0 where
  pub status_code : ℕ
  pub headers : Dict Str
  pub ended : Option (Option Str)

abbrev pub new_server_response : ServerResponse
new_server_response = record { status_code = 200; headers = []; ended = none }

-- `res.setHeader`: a later value of a name, whatever its case, replaces the earlier one.
unfoldable pub server_set_header : Str → Str → ServerResponse → ServerResponse
unfolding to_lower put
server_set_header key v res = record res { headers = put (to_lower key) v res.headers }

unfoldable pub server_set_headers : Dict Str → ServerResponse → ServerResponse
unfolding server_set_header
server_set_headers [] res = res
server_set_headers ((key, v) ∷ headers) res =
    server_set_headers headers (server_set_header key v res)

unfoldable pub server_end : Option Str → ServerResponse → ServerResponse
server_end content res = record res { ended = some content }

-- The argument of `end` and `send`: nothing, a string, the text of a buffer, or any other value.
pub data Payload : Type 0 where
  nothing : Payload
  text_payload buffer_payload : Str → Payload
  json_payload : Json → Payload

pub record OutgoingResponse : Type 0 where
  pub status_value : ℕ
  pub header_values : Dict Str
  pub is_ended : Bool
  pub suppress_body : Bool
  pub res : ServerResponse

abbrev pub new_outgoing : ServerResponse → Bool → OutgoingResponse
new_outgoing res suppress = record {
  status_value = 200;
  header_values = [];
  is_ended = false;
  suppress_body = suppress;
  res = res;
}

unfoldable pub status : ℕ → OutgoingResponse → OutgoingResponse
status code r = record r { status_value = code }

unfoldable pub set_header : Str → Str → OutgoingResponse → OutgoingResponse
unfolding put
set_header key v r =
    if r.is_ended then r else record r { header_values = put key v r.header_values }

unfoldable pub set_headers : Dict Str → OutgoingResponse → OutgoingResponse
unfolding assign
set_headers headers r =
    if r.is_ended then r else record r { header_values = assign r.header_values headers }

module _ (stringify : Json → Str) (buffer_json : Str → Json) where
  abbrev payload_text : Payload → Option Str
  payload_text nothing = none
  payload_text (text_payload s) = some s
  payload_text (buffer_payload s) = some s
  payload_text (json_payload v) = some (stringify v)

  unfoldable pub end_response : Payload → OutgoingResponse → OutgoingResponse
  unfolding server_set_headers server_end
  end_response payload r =
      if r.is_ended
      then r
      else let head =
          server_set_headers r.header_values (record r.res { status_code = r.status_value }) in
        record r {
          is_ended = true;
          res = server_end (if r.suppress_body then none else payload_text payload) head;
        }

  unfoldable pub json : Json → OutgoingResponse → OutgoingResponse
  unfolding set_header end_response
  json v r =
      end_response (text_payload (stringify v))
        (set_header (codes "Content-Type") (codes "application/json") r)

  unfoldable pub text : Str → OutgoingResponse → OutgoingResponse
  unfolding set_header end_response
  text s r =
      end_response (text_payload s) (set_header (codes "Content-Type") (codes "text/plain") r)

  unfoldable pub html : Str → OutgoingResponse → OutgoingResponse
  unfolding set_header end_response
  html s r = end_response (text_payload s) (set_header (codes "Content-Type") (codes "text/html") r)

  abbrev send_payload : Payload → OutgoingResponse → OutgoingResponse
  send_payload (text_payload s) r = text s r
  send_payload nothing r = end_response nothing r
  send_payload (json_payload v) r = json v r
  send_payload (buffer_payload s) r = json (buffer_json s) r

  unfoldable pub send : ℕ → Payload → OutgoingResponse → OutgoingResponse
  unfolding status text json
  send code payload r = send_payload payload (status code r)

-- `isEnded`; the second test is Node's `writableEnded`.
unfoldable ended_or_writable_ended : OutgoingResponse → Bool
ended_or_writable_ended r = r.is_ended || is_some r.res.ended

-- ===== src/Outgoing/Laws.antt =====
-- An ended response stays as it is, and what `end` writes.
use fearless.Base.{
  ℕ, ◌≡◌, refl, Option, none, some, true, false, Str, str_eq, [], ◌∷◌, Dict, get, get-put, or_else,
  arith, if◌then◌else◌,
}
use fearless.Web.Values.{Json}
use fearless.Web.Response.{to_lower}
use fearless.Outgoing.{
  ServerResponse, OutgoingResponse, Payload, server_set_header, server_set_headers, server_end,
  status, set_header, set_headers, end_response, json, text, html, send,
}

-- The last value of a name among headers, where names are compared in lower case.
unfoldable pub last_named : Str → Dict Str → Option Str
last_named name [] = none
last_named name ((key, v) ∷ headers) =
    or_else (last_named name headers) (if str_eq (to_lower key) name then some v else none)

pub get-server_set_headers :
    (name : Str) (headers : Dict Str) (res : ServerResponse)
    → get name (server_set_headers headers res).headers
      ≡ or_else (last_named name headers) (get name res.headers)
unfolding server_set_headers last_named
get-server_set_headers name [] res = refl
get-server_set_headers name ((key, v) ∷ headers) res = ground (
  arith,
  get-server_set_headers name headers (server_set_header key v res),
  get-put name (to_lower key) v res.headers,
)

pub ended-server_set_headers :
    (headers : Dict Str) (res : ServerResponse)
    → ((server_set_headers headers res).ended ≡ res.ended)
      × ((server_set_headers headers res).status_code ≡ res.status_code)
unfolding server_set_headers server_set_header
ended-server_set_headers [] res = (refl, refl)
ended-server_set_headers ((key, v) ∷ headers) res = ended-server_set_headers headers _

module _ (stringify : Json → Str) (buffer_json : Str → Json) where
  -- On a `Response` that has been ended, no operation changes the server's response.
  pub res_of_ended :
      (r : OutgoingResponse) (code : ℕ) (key v : Str) (headers : Dict Str) (payload : Payload)
      (value : Json)
      → r.is_ended ≡ true
      → ((status code r).res ≡ r.res)
        × ((set_header key v r).res ≡ r.res)
        × ((set_headers headers r).res ≡ r.res)
        × ((end_response stringify buffer_json payload r).res ≡ r.res)
        × ((json stringify buffer_json value r).res ≡ r.res)
        × ((text stringify buffer_json v r).res ≡ r.res)
        × ((html stringify buffer_json v r).res ≡ r.res)
        × ((send stringify buffer_json code payload r).res ≡ r.res)
  unfolding status set_header set_headers end_response json text html send
  res_of_ended r code key v headers payload value h = (
    refl,
    ground arith,
    ground arith,
    ground arith,
    ground arith,
    ground arith,
    ground arith,
    ground arith,
  )

  -- A response that suppresses its body, as that of a HEAD request does, is ended with no body,
  -- whatever is sent; status and headers are those of the same response with its body.
  pub end_response_suppressed :
      (payload : Payload) (r : OutgoingResponse) (name : Str)
      → r.is_ended ≡ false
      → r.suppress_body ≡ true
      → ((end_response stringify buffer_json payload r).res.ended ≡ some none)
        × ((end_response stringify buffer_json payload r).res.status_code ≡ r.status_value)
        × (get name (end_response stringify buffer_json payload r).res.headers
            ≡ or_else (last_named name r.header_values) (get name r.res.headers))
  unfolding end_response server_end
  end_response_suppressed payload r name h k =
      let head = record r.res { status_code = r.status_value } in
      ground (
        arith,
        get-server_set_headers name r.header_values head,
        ended-server_set_headers r.header_values head,
      )

-- ===== src/Web/Response.antt =====
-- `Headers` and `Response` of the Fetch standard, as far as the code relies on them. Header names are
-- in lower case; values that are appended to a name are joined by ", " (the standard keeps several
-- `Set-Cookie` apart, the model does not).
use fearless.Base.{
  ℕ, ◌+◌, ◌%◌, Option, none, some, Bool, not, ◌&&◌, ◌||◌, Str, codes, [], ◌∷◌, ◌++◌, Dict, get, put,
  leb, ltb, ◌==◌, if◌then◌else◌, is_some,
}
use fearless.Web.Values.{range_error, type_error, Result, ok, throw}

-- The ASCII letters of a header name in lower case.
unfoldable pub to_lower : Str → Str
to_lower [] = []
to_lower (c ∷ s) = (if leb b'A' c && leb c b'Z' then c + 32 else c) ∷ to_lower s

abbrev pub joined : Option Str → Str → Str
joined none value = value
joined (some old) value = old ++ codes ", " ++ value

-- `headers.append(name, value)`
unfoldable pub append_header : Str → Str → Dict Str → Dict Str
unfolding to_lower get put
append_header name value h = let key = to_lower name in put key (joined (get key h) value) h

unfoldable pub append_all : Dict Str → Dict Str → Dict Str
append_all h [] = h
append_all h ((name, value) ∷ init) = append_all (append_header name value h) init

-- `new Headers(record)`
unfoldable pub new_headers : Dict Str → Dict Str
unfolding append_all append_header
new_headers init = append_all [] init

pub record WebResponse : Type 0 where
  pub status : ℕ
  pub headers : Dict Str
  pub body : Option Str

-- The statuses with which a response can have no body.
unfoldable pub is_null_body_status : ℕ → Bool
is_null_body_status n = n == 101 || (n == 103 || (n == 204 || (n == 205 || n == 304)))

-- `status` of `ResponseInit` is an `unsigned short`: a number is taken modulo 2 ^ 16.
abbrev pub wrapped_status : ℕ → ℕ
wrapped_status status = status % 65536

-- `new Response(body, { status, headers })`: a `RangeError` for a status outside 200 to 599, a
-- `TypeError` for a body beside a status that allows none. (Header names and values are taken to be
-- well formed.)
unfoldable pub new_response : Option Str → ℕ → Dict Str → Result WebResponse
unfolding is_null_body_status
new_response body status headers =
    let code = wrapped_status status in
    if ltb code 200 || ltb 599 code
    then throw range_error
    else if is_some body && is_null_body_status code
    then throw type_error
    else ok (record { status = code; headers = new_headers headers; body = body })

-- The statuses that `new Response` takes together with a body.
abbrev pub takes_body : ℕ → Bool
takes_body status = leb 200 status && leb status 599 && not (is_null_body_status status)

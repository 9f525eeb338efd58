-- ===== src/Ctx/Body.antt =====
-- src/ctx.ts: `readNodeBody`, `text`, `body`, `formData` and `validate`. Calls are awaited one after
-- another. What the read of the stream settles with is an argument; a read that never settles gives
-- no result here.
use fearless.Base.{ℕ, ◌+◌, Option, none, some, Str, codes, List, [], ◌∷◌, ◌++◌, Dict, get, get_or}
use fearless.Web.Values.{Json, null, Thrown, http_error, Result, ok, throw, Call, ◌>>=◌, pure, lift}
use fearless.Web.Platform.{Platform}
use fearless.Errors.{new_http_error, validation_error}

-- The events of the request stream; a chunk is its bytes.
pub data BodyEvent : Type 0 where
  chunk : List ℕ → BodyEvent
  end_event aborted_event error_event : BodyEvent

abbrev bad_request_error : Str → Thrown
bad_request_error message = http_error (new_http_error 400 message none none)

module _ (decode_utf8 : List ℕ → Str) where
  -- The promise is settled by the first event that ends the body; none: it is not settled.
  unfoldable read_node_body : List BodyEvent → List ℕ → Option (Result Str)
  unfolding new_http_error
  read_node_body [] chunks = none
  read_node_body (chunk bytes ∷ events) chunks = read_node_body events (chunks ++ bytes)
  read_node_body (end_event ∷ events) chunks = some (ok (decode_utf8 chunks))
  read_node_body (aborted_event ∷ events) chunks =
      some (throw (bad_request_error (codes "Request aborted")))
  read_node_body (error_event ∷ events) chunks =
      some (throw (bad_request_error (codes "Request error")))

-- Where the body comes from, with what reading it settles with. A web request may reject its read.
pub data BodySource : Type 0 where
  web_source : Option Str → BodySource
  node_source : Result Str → BodySource
  absent : BodySource

-- `_bodyText` and `_bodyTextPromise`; `reads` counts how often the stream has been read.
pub record BodyState : Type 0 where
  pub body_text : Option Str
  pub promise : Option (Result Str)
  pub reads : ℕ

abbrev pub unread : BodyState
unread = record { body_text = none; promise = none; reads = 0 }

abbrev keep_text : Result Str → Option Str → Option Str
keep_text (ok t) old = some t
keep_text (throw e) old = old

unfoldable read_source : BodySource → Result Str
unfolding new_http_error
read_source (web_source (some t)) = ok t
read_source (web_source none) = throw (bad_request_error (codes "Request body read failed"))
read_source (node_source r) = r
read_source absent = ok []

abbrev text_of : Option Str → Option (Result Str) → BodySource → Call BodyState Str
text_of (some t) promise source s = (ok t, s)
text_of none (some r) source s = (r, s)
text_of none none source s =
    let r = read_source source in
    (r, record { body_text = keep_text r s.body_text; promise = some r; reads = s.reads + 1 })

unfoldable pub text : BodySource → Call BodyState Str
unfolding read_source
text source s = text_of s.body_text s.promise source s

abbrev pub parsed_or_throw : Option Json → Call BodyState Json
parsed_or_throw none = lift (throw (bad_request_error (codes "Invalid JSON body")))
parsed_or_throw (some v) = pure v

abbrev pub valid_or_throw {ℓ} : {A : Type ℓ} → Option A → Result A
valid_or_throw none = throw (http_error (validation_error (codes "Validation failed") none))
valid_or_throw (some a) = ok a

abbrev form_or_throw : {F : Type 0} → Option F → Call BodyState F
form_or_throw none = lift (throw (bad_request_error (codes "Invalid form data")))
form_or_throw (some f) = pure f

module _ (p : Platform) where
  abbrev pub parse_raw : Str → Call BodyState Json
  parse_raw [] = pure null
  parse_raw (c ∷ s) = parsed_or_throw (p.parse_json (c ∷ s))

  unfoldable pub body : BodySource → Call BodyState Json
  unfolding text new_http_error
  body source = do raw ← text source; parse_raw raw

  unfoldable pub validate : {A : Type 0} → BodySource → (Json → Option A) → Call BodyState A
  unfolding body validation_error
  validate source validator = do
    data_value ← body source
    lift (valid_or_throw (validator data_value))

-- `formData`: a web request parses its own stream; the body of a Node request is read as text and
-- handed, with its content type, to a web request.
module _ {F : Type 0} (parse_form : Str → Str → Option F) where
  abbrev form_of : BodySource → Option F → Dict Str → Call BodyState F
  form_of (web_source t) web_form headers = form_or_throw web_form
  form_of source web_form headers = do
    raw ← text source
    form_or_throw (parse_form (get_or (get (codes "content-type") headers) []) raw)

  unfoldable form_data : BodySource → Option F → Dict Str → Call BodyState F
  unfolding text new_http_error get
  form_data source web_form headers = form_of source web_form headers

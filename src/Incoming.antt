-- ===== src/Incoming.antt =====
-- src/request.ts: `Request`, the reader of template routes: `readBody`, `setBody`, `parseJsonBody` and
-- `parseBodyRaw` (`parseBody` and `json` call it). Calls are awaited one after another. The inputs and
-- the query are those of `Ctx.Inputs`.
pub mod Laws
use fearless.Base.{ℕ, ◌+◌, Option, none, some, Bool, true, false, Str, List, [], ◌∷◌, ◌++◌}
use fearless.Web.Values.{Json, null}
use fearless.Ctx.Body.{BodyEvent, chunk, end_event, aborted_event, error_event}

-- The promise of `readBody` with its flag `finished`: the first event that settles it counts, and an
-- abort and an error settle it with null. None: it is not settled.
module _ (decode_utf8 : List ℕ → Str) where
  unfoldable read_body_events : List BodyEvent → List ℕ → Option (Option Str)
  read_body_events [] chunks = none
  read_body_events (chunk bytes ∷ events) chunks = read_body_events events (chunks ++ bytes)
  read_body_events (end_event ∷ events) chunks = some (some (decode_utf8 chunks))
  read_body_events (aborted_event ∷ events) chunks = some none
  read_body_events (error_event ∷ events) chunks = some none

-- `_body`, `_bodyParsed` and `_bodyPromise`. The body is of the type that the validators give, where
-- null is none; `reads` counts how often the stream has been read.
pub record RequestBody (A : Type 0) : Type 0 where
  pub body : Option A
  pub body_parsed : Bool
  pub promise : Option (Option Str)
  pub reads : ℕ

module _ {A : Type 0} where
  abbrev pub new_request_body : RequestBody A
  new_request_body = record { body = none; body_parsed = false; promise = none; reads = 0 }

  unfoldable set_body : Option A → RequestBody A → RequestBody A
  set_body value s = record s { body = value; body_parsed = true }

  abbrev read_once : Option (Option Str) → Option Str → RequestBody A → Option Str × RequestBody A
  read_once (some raw) stream s = (raw, s)
  read_once none stream s = (stream, record s { promise = some stream; reads = s.reads + 1 })

  -- `readBody`, with what the stream settles it with.
  unfoldable read_body : Option Str → RequestBody A → Option Str × RequestBody A
  read_body stream s = read_once s.promise stream s

module _ (parse_json : Str → Option Json) where
  -- none stands for `{ ok: false }`
  unfoldable pub parse_json_body : Str → Option Json
  parse_json_body [] = some null
  parse_json_body (c ∷ s) = parse_json (c ∷ s)

module _ (parse_json : Str → Option Json) {A : Type 0} where
  abbrev validated : (Json → Option A) → Option Json → Option A
  validated schema none = none
  validated schema (some v) = schema v

  abbrev parsed_body : (Json → Option A) → Option Str → Option A
  parsed_body schema none = none
  parsed_body schema (some raw) = validated schema (parse_json_body parse_json raw)

  abbrev parse_unless :
      Bool → Option Str → (Json → Option A) → RequestBody A → Option A × RequestBody A
  parse_unless true stream schema s = (s.body, s)
  parse_unless false stream schema s =
      let (raw, s') = read_body stream s in
      let result = parsed_body schema raw in (result, set_body result s')

  unfoldable pub parse_body_raw :
      Option Str → (Json → Option A) → RequestBody A → Option A × RequestBody A
  unfolding read_body set_body parse_json_body
  parse_body_raw stream schema s = parse_unless s.body_parsed stream schema s

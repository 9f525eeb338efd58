-- ===== src/Ctx/Builders.antt =====
-- src/ctx.ts: the chainable shapers and the response builders. `pending` is the state; a builder
-- returns or throws, and leaves a new `pending`.
use fearless.Base.{
  ℕ, Option, none, some, Str, codes, List, [], ◌∷◌, ◌||◌, ◌==◌, Dict, put, assign, get_or, or_else,
  if◌then◌else◌,
}
use fearless.Web.Values.{Json, Call}
use fearless.Web.Response.{WebResponse, new_response}

pub record PendingResponseShape : Type 0 where
  pub status : Option ℕ
  pub headers : Dict Str

abbrev pub empty_pending_shape : PendingResponseShape
empty_pending_shape = record { status = none; headers = [] }

unfoldable pub set_status : ℕ → PendingResponseShape → PendingResponseShape
set_status code pending = record pending { status = some code }

unfoldable pub set_header : Str → Str → PendingResponseShape → PendingResponseShape
unfolding put
set_header key v pending = record pending { headers = put key v pending.headers }

unfoldable pub set_headers : Dict Str → PendingResponseShape → PendingResponseShape
unfolding assign
set_headers headers pending = record pending { headers = assign pending.headers headers }

unfoldable pub merge_headers : Dict Str → PendingResponseShape → Dict Str
unfolding assign
merge_headers extra pending = assign (assign [] pending.headers) extra

-- `pending` is reset before the constructor runs, which may throw.
unfoldable pub finalize : Option Str → ℕ → Dict Str → Call PendingResponseShape WebResponse
unfolding new_response
finalize content status headers pending =
    let is_bodyless = status == 204 || status == 304 in
    (new_response (if is_bodyless then none else content) status headers, empty_pending_shape)

-- `status ?? this.pending.status ?? fallback`
abbrev status_or : Option ℕ → PendingResponseShape → ℕ → ℕ
status_or status pending fallback = get_or (or_else status pending.status) fallback

abbrev pub content_type : Str → Dict Str
content_type v = (codes "Content-Type", v) ∷ []

-- `HeadersInit`: a record, a list of pairs, or a `Headers`, as its entries.
pub data HeadersInit : Type 0 where
  record_init : Dict Str → HeadersInit
  pairs_init headers_init : List (Str × Str) → HeadersInit

unfoldable headers_init_to_record : Option HeadersInit → Dict Str
unfolding assign
headers_init_to_record none = []
headers_init_to_record (some (record_init h)) = assign [] h
headers_init_to_record (some (pairs_init h)) = assign [] h
headers_init_to_record (some (headers_init h)) = assign [] h

unfoldable pub json : (Json → Str) → Json → Option ℕ → Call PendingResponseShape WebResponse
unfolding finalize merge_headers
json stringify value status pending =
    finalize (some (stringify value)) (status_or status pending 200)
      (merge_headers (content_type (codes "application/json")) pending) pending

unfoldable pub html : Str → Option ℕ → Call PendingResponseShape WebResponse
unfolding finalize merge_headers
html content status pending =
    finalize (some content) (status_or status pending 200)
      (merge_headers (content_type (codes "text/html; charset=utf-8")) pending) pending

unfoldable pub raw :
    Option Str → Option ℕ → Option HeadersInit → Call PendingResponseShape WebResponse
unfolding finalize merge_headers headers_init_to_record
raw content status headers pending =
    finalize content (status_or status pending 200)
      (merge_headers (headers_init_to_record headers) pending) pending

-- 301, 302, 303, 307 or 308; 302 where it is left out
unfoldable pub redirect : Str → Option ℕ → Call PendingResponseShape WebResponse
unfolding finalize merge_headers
redirect url status pending =
    finalize none (get_or status 302) (merge_headers ((codes "Location", url) ∷ []) pending) pending

unfoldable pub not_found : Option Str → Call PendingResponseShape WebResponse
unfolding finalize merge_headers
not_found message pending =
    finalize (some (get_or message (codes "Not Found"))) (status_or none pending 404)
      (merge_headers (content_type (codes "text/plain; charset=utf-8")) pending) pending

unfoldable pub no_content : Call PendingResponseShape WebResponse
unfolding finalize
no_content pending = finalize none (status_or none pending 204) pending.headers pending

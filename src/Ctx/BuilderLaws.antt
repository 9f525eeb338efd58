-- ===== src/Ctx/BuilderLaws.antt =====
-- What the response builders make of `pending`.
use fearless.Base.{
  ℕ, ◌≡◌, ◌≢◌, refl, Option, none, some, true, Str, codes, str_eq, str_eq_iff, [], ◌∷◌, ◌++◌, Dict,
  get, put, assign, arith,
}
use fearless.Web.Values.{Json, ok}
use fearless.Web.Response.{WebResponse, new_response, new_headers, to_lower}
use fearless.Web.HeaderLaws.{get-new_headers, joined_values}
use fearless.Ctx.Builders.{
  PendingResponseShape, empty_pending_shape, HeadersInit, finalize, json, html, raw, redirect,
  not_found, no_content,
}

abbrev pub Consumed : {A : Type 0} → A × PendingResponseShape → Type 0
Consumed m = m.1 ≡ empty_pending_shape

-- The response builders of `Ctx` reset `pending`, whether they return or throw.
pub builders_consume :
    (stringify : Json → Str) (v : Json) (content : Str) (status : Option ℕ)
    (headers : Option HeadersInit) (pending : PendingResponseShape)
    → Consumed (json stringify v status pending)
      × Consumed (html content status pending)
      × Consumed (raw (some content) status headers pending)
      × Consumed (redirect content status pending)
      × Consumed (not_found (some content) pending)
      × Consumed (no_content pending)
unfolding json html raw redirect not_found no_content
builders_consume stringify v content status headers pending = (refl, refl, refl, refl, refl, refl)

-- A response that `json` makes with no status has the merged headers, in which its own content type is
-- written over the pending one.
headers-json :
    (stringify : Json → Str) (v : Json) (headers : Dict Str) (r : WebResponse)
    → (json stringify v none (record { status = none; headers = headers })).0 ≡ ok r
    → r.headers
      ≡ new_headers (put (codes "Content-Type") (codes "application/json") (assign [] headers))
unfolding json finalize new_response assign
headers-json stringify v headers r h = ground arith

put_beside :
    (name content v : Str)
    → name ≢ codes "Content-Type"
    → put (codes "Content-Type") v (assign [] ((name, content) ∷ []))
      ≡ (name, content) ∷ (codes "Content-Type", v) ∷ []
unfolding put assign
put_beside name content v h = ground (arith, str_eq_iff name (codes "Content-Type"))

content_type_lower : str_eq (to_lower (codes "Content-Type")) (codes "content-type") ≡ true
unfolding str_eq to_lower
content_type_lower = refl

joined_content_type :
    (name content v : Str)
    → to_lower name ≡ codes "content-type"
    → joined_values (codes "content-type") none ((name, content) ∷ (codes "Content-Type", v) ∷ [])
      ≡ some (content ++ codes ", " ++ v)
unfolding joined_values
joined_content_type name content v h =
    rw (content_type_lower, (str_eq_iff (to_lower name) (codes "content-type")).1 h) refl

-- A pending header that spells the name `Content-Type` in other letters is not replaced by the content
-- type of `json`: a response of `json` has both values, joined.
pub json_joins_content_type :
    (stringify : Json → Str) (v : Json) (name content : Str) (r : WebResponse)
    → to_lower name ≡ codes "content-type"
    → name ≢ codes "Content-Type"
    → (json stringify v none (record { status = none; headers = (name, content) ∷ [] })).0 ≡ ok r
    → get (codes "content-type") r.headers
      ≡ some (content ++ codes ", " ++ codes "application/json")
json_joins_content_type stringify v name content r lower other e =
    let made = headers-json stringify v ((name, content) ∷ []) r e in
    rw (made, put_beside name content (codes "application/json") other, get-new_headers)
      (joined_content_type name content (codes "application/json") lower)

-- ===== src/Web/HeaderLaws.antt =====
-- What `new Headers(record)` holds under a name.
use fearless.Base.{
  ◌≡◌, refl, Option, none, some, Str, str_eq, str_eq_iff, [], ◌∷◌, Dict, get, get-put, arith,
  if◌then◌else◌,
}
use fearless.Web.Response.{to_lower, append_header, append_all, new_headers, joined}

-- What the headers named `name`, whatever their case, add to the value that is there.
unfoldable pub joined_values : Str → Option Str → Dict Str → Option Str
joined_values name o [] = o
joined_values name o ((key, v) ∷ init) =
    joined_values name (if str_eq (to_lower key) name then some (joined o v) else o) init

get-append_header :
    (name key v : Str) (h : Dict Str)
    → get name (append_header key v h)
      ≡ (if str_eq (to_lower key) name then some (joined (get name h) v) else get name h)
unfolding append_header
get-append_header name key v h = ground (
  arith,
  get-put name (to_lower key) (joined (get (to_lower key) h) v) h,
  str_eq_iff (to_lower key) name,
)

get-append_all :
    (name : Str) (init h : Dict Str)
    → get name (append_all h init) ≡ joined_values name (get name h) init
unfolding append_all joined_values
get-append_all name [] h = refl
get-append_all name ((key, v) ∷ init) h =
    rw (get-append_all name init (append_header key v h), get-append_header name key v h)

pub get-new_headers :
    (name : Str) (init : Dict Str) → get name (new_headers init) ≡ joined_values name none init
unfolding new_headers
get-new_headers name init = rw (get-append_all name init []) refl

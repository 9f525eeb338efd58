-- ===== src/Tests/Requests.antt =====
-- Examples for queries, bodies and templates.
use fearless.Base.{
  Option, some, Str, codes, List, [], ◌∷◌, ◌≡◌, refl, arith, get, ◌↔◌, str_eq, includes, str_eq,
}
use fearless.Web.Values.{Json, str, ok}
use fearless.Query.{value, inherited, several, add_entries, is_inherited}
use fearless.Query.Laws.{values_of, get-add_entries-collected, get-add_entries_inherited}
use fearless.Template.Render.{render_template_string, resolve_template_token, shown}
use fearless.Template.Scan.{replace_tokens, trim}
use fearless.Template.Identity.{render_template_string-eq-replace}
use fearless.Ctx.Body.{BodySource, node_source, unread, text, body, validate}
use fearless.Ctx.BodyLaws.{ReadsOnce, body_calls-ReadsOnce}
use fearless.Incoming.{RequestBody, new_request_body, parse_body_raw}
use fearless.Incoming.Laws.{StandsFor, parse_body_raw-eq-some_iff}
use fearless.App.Bun.{empty_template_context}
use fearless.Tests.Data.{js, read_json}

abbrev entries : List (Str × Str)
entries =
    (codes "tag", codes "a") ∷ (codes "constructor", codes "x") ∷ (codes "tag", codes "b") ∷ []

get-add_entries-collected_example :
    get (codes "tag") (add_entries entries [])
    ≡ some (several (value (codes "a") ∷ value (codes "b") ∷ []))
unfolding is_inherited includes str_eq values_of
get-add_entries-collected_example = get-add_entries-collected (codes "tag") entries refl refl

get-add_entries_inherited_example :
    get (codes "constructor") (add_entries entries [])
    ≡ some (several (inherited (codes "constructor") ∷ value (codes "x") ∷ []))
unfolding is_inherited includes str_eq values_of
get-add_entries_inherited_example =
    get-add_entries_inherited (codes "constructor") (codes "x") entries [] refl refl refl

abbrev greeting : Str
greeting = codes "{{ path }} by {{method}}"

render_template_string-eq-replace_example :
    render_template_string js greeting empty_template_context
    ≡ replace_tokens
        (λ raw. shown js (resolve_template_token js (trim raw) empty_template_context))
        0
        greeting
render_template_string-eq-replace_example =
    render_template_string-eq-replace js greeting empty_template_context

abbrev post : BodySource
post = node_source (ok (codes "hello"))

abbrev any_value : Json → Option Json
any_value v = some v

body_calls-ReadsOnce_example :
    ReadsOnce (text post unread).1
    × ReadsOnce (body js post unread).1
    × ReadsOnce (validate js post any_value unread).1
body_calls-ReadsOnce_example =
    body_calls-ReadsOnce js post any_value unread
      (record { at_most_once = omega arith; no_promise = λ e. refl })

abbrev first_call : Option Json × RequestBody Json
first_call = parse_body_raw read_json (some (codes "hello")) any_value new_request_body

parse_body_raw-eq-some_iff_example : (first_call.0 ≡ some (str (codes "hello"))) ↔ (
    (raw : Str) × (v : Json) × (some (codes "hello") ≡ some raw)
    × StandsFor read_json raw v
    × (any_value v ≡ some (str (codes "hello"))))
parse_body_raw-eq-some_iff_example =
    parse_body_raw-eq-some_iff read_json (some (codes "hello")) any_value (str (codes "hello"))

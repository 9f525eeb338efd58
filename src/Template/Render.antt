-- ===== src/Template/Render.antt =====
-- src/app.ts: `resolveTemplateToken`, `renderTemplateString`, `renderTemplateValue`,
-- `renderRouteBody`, `templateValueContainsToken`, `headersContainTemplate` and
-- `routeCanUseStaticBunResponse`.
use fearless.Base.{
  ℕ, Option, none, some, Bool, false, Str, codes, str_eq, List, [], ◌∷◌, ◌||◌, Dict, get, drop,
  includes, starts_with, join, some_of, if◌then◌else◌, map,
}
use fearless.Web.Values.{
  Json, null, bool, num, str, arr, obj, Items, no_items, item, Fields, no_fields, field,
}
use fearless.Web.Platform.{Platform}
use fearless.Query.{
  QueryParams, QueryValue, single, several, Element, value, inherited, is_inherited,
}
use fearless.Template.Scan.{open_token, replace_tokens, trim}

pub data ResponseKind : Type 0 where
  text_kind html_kind json_kind : ResponseKind

pub record RouteResponseSpec : Type 0 where
  pub kind : ResponseKind
  pub body : Json
  pub status : Option ℕ
  pub headers : Option (Dict Str)

pub record TemplateContext : Type 0 where
  pub method : Str
  pub path : Str
  pub params : Dict Str
  pub query : QueryParams
  pub headers : Dict Str
  pub ip : Str

unfoldable mutual
  pub template_value_contains_token : Json → Bool
  template_value_contains_token null = false
  template_value_contains_token (str s) = includes open_token s
  template_value_contains_token (num n) = false
  template_value_contains_token (bool b) = false
  template_value_contains_token (arr vs) = items_contain_token vs
  template_value_contains_token (obj fs) = fields_contain_token fs

  pub items_contain_token : Items → Bool
  items_contain_token no_items = false
  items_contain_token (item v vs) = template_value_contains_token v || items_contain_token vs

  pub fields_contain_token : Fields → Bool
  fields_contain_token no_fields = false
  fields_contain_token (field k v fs) = template_value_contains_token v || fields_contain_token fs

unfoldable pub headers_contain_template : Option (Dict Str) → Bool
unfolding includes
headers_contain_template none = false
headers_contain_template (some headers) = some_of (λ h. includes open_token h.1) headers

-- What a token stands for: a text, a value that JSON shows, or an inherited property.
pub data Resolved : Type 0 where
  resolved_text : Str → Resolved
  resolved_json : Json → Resolved
  resolved_inherited : Str → Resolved

abbrev text_fields : Dict Str → Fields
text_fields [] = no_fields
text_fields ((k, v) ∷ m) = field k (str v) (text_fields m)

-- In a list JSON shows a function as null, and `Object.prototype` as `{}`.
abbrev json_of_inherited : Str → Json
json_of_inherited key = if str_eq key (codes "__proto__") then obj no_fields else null

abbrev elements_json : List Element → Items
elements_json [] = no_items
elements_json (value v ∷ es) = item (str v) (elements_json es)
elements_json (inherited k ∷ es) = item (json_of_inherited k) (elements_json es)

abbrev query_fields : QueryParams → Fields
query_fields [] = no_fields
query_fields ((k, single v) ∷ m) = field k (str v) (query_fields m)
query_fields ((k, several es) ∷ m) = field k (arr (elements_json es)) (query_fields m)

-- `record[key] ?? ""`
abbrev text_or_inherited : Str → Option Str → Resolved
text_or_inherited key (some v) = resolved_text v
text_or_inherited key none = if is_inherited key then resolved_inherited key else resolved_text []

module _ (p : Platform) where
  abbrev element_text : Element → Str
  element_text (value v) = v
  element_text (inherited k) = p.inherited_text k

  abbrev query_text : Str → Option QueryValue → Resolved
  query_text key (some (single v)) = resolved_text v
  query_text key (some (several es)) = resolved_text (join (codes ", ") (map element_text es))
  query_text key none = if is_inherited key then resolved_inherited key else resolved_text []

  unfoldable pub resolve_template_token : Str → TemplateContext → Resolved
  unfolding str_eq starts_with get is_inherited join
  resolve_template_token token context =
      if str_eq token (codes "method")
      then resolved_text context.method
      else if str_eq token (codes "path")
      then resolved_text context.path
      else if str_eq token (codes "ip")
      then resolved_text context.ip
      else if str_eq token (codes "params")
      then resolved_json (obj (text_fields context.params))
      else if str_eq token (codes "query")
      then resolved_json (obj (query_fields context.query))
      else if str_eq token (codes "headers")
      then resolved_json (obj (text_fields context.headers))
      else if starts_with (codes "params.") token
      then (let key = drop 7 token in text_or_inherited key (get key context.params))
      else if starts_with (codes "query.") token
      then (let key = drop 6 token in query_text key (get key context.query))
      else if starts_with (codes "headers.") token
      then (let key = p.to_lower_case (drop 8 token) in
          text_or_inherited key (get key context.headers))
      else resolved_text []

  -- `replace` turns the `undefined` that `JSON.stringify` gives for a function into a text.
  unfoldable pub shown : Resolved → Str
  unfolding str_eq
  shown (resolved_text s) = s
  shown (resolved_json v) = p.stringify v
  shown (resolved_inherited key) =
      if str_eq key (codes "__proto__") then p.stringify (obj no_fields) else codes "undefined"

  unfoldable pub render_template_string : Str → TemplateContext → Str
  unfolding includes replace_tokens trim resolve_template_token shown
  render_template_string input context =
      if includes open_token input
      then replace_tokens (λ raw. shown (resolve_template_token (trim raw) context)) 0 input
      else input

  unfoldable mutual
    pub render_template_value : Json → TemplateContext → Json
    render_template_value null context = null
    render_template_value (str s) context = str (render_template_string s context)
    render_template_value (num n) context = num n
    render_template_value (bool b) context = bool b
    render_template_value (arr vs) context = arr (render_items vs context)
    render_template_value (obj fs) context = obj (render_fields fs context)

    pub render_items : Items → TemplateContext → Items
    render_items no_items context = no_items
    render_items (item v vs) context =
        item (render_template_value v context) (render_items vs context)

    pub render_fields : Fields → TemplateContext → Fields
    render_fields no_fields context = no_fields
    render_fields (field k v fs) context =
        field k (render_template_value v context) (render_fields fs context)

  abbrev body_text : ResponseKind → Json → Str
  body_text json_kind rendered = p.stringify rendered
  body_text _ (str s) = s
  body_text _ rendered = p.stringify rendered

  unfoldable pub render_route_body : RouteResponseSpec → TemplateContext → Str
  unfolding render_template_value
  render_route_body response context =
      body_text response.kind (render_template_value response.body context)

abbrev pub content_type_for_kind : ResponseKind → Str
content_type_for_kind json_kind = codes "application/json"
content_type_for_kind html_kind = codes "text/html"
content_type_for_kind text_kind = codes "text/plain"

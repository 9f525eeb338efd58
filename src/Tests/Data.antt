-- ===== src/Tests/Data.antt =====
-- The engine functions, routes and requests of the examples.
use fearless.Base.{
  ℕ, Option, none, some, false, Str, codes, str_eq, includes, List, [], ◌∷◌, All, if◌then◌else◌,
  refl, ◌≡◌, ◌≢◌, arith, str_eq_iff,
}
use fearless.Web.Values.{Json, str, ok}
use fearless.Web.Platform.{Platform}
use fearless.Web.Response.{WebResponse}
use fearless.Template.Render.{RouteResponseSpec, text_kind}
use fearless.Routing.Pattern.{RouteDefinition, get_method}
use fearless.Routing.Search.{compile_route, no_routes}
use fearless.Routing.Found.{IsCompiled}
use fearless.Routing.Registered.{add_routes}
use fearless.Builtins.Features.{BuiltinCorsConfig}
use fearless.Builtins.Headers.{no_builtins}
use fearless.Middleware.{no_hooks}
use fearless.App.State.{App, Action, template, handler}
use fearless.Ctx.Inputs.{NodeRequest}

pub differ : (s t : Str) → str_eq s t ≡ false → s ≢ t
differ s t h = ground (arith, str_eq_iff s t)

abbrev pub show_json : Json → Str
show_json (str s) = s
show_json _ = codes "{}"

abbrev pub read_json : Str → Option Json
read_json s = if includes (codes "!") s then none else some (str s)

abbrev pub decode_uri : Str → Option Str
decode_uri s = if includes (codes "%") s then none else some s

abbrev pub js : Platform
js = record {
  stringify = show_json;
  parse_json = read_json;
  decode_uri_component = decode_uri;
  search_params = λ s. (s, codes "1") ∷ [];
  number_to_string = λ n. codes "600";
  to_lower_case = λ s. s;
  to_upper_case = λ s. s;
  inherited_text = λ s. codes "function";
}

abbrev pub hello : RouteResponseSpec
hello = record {
  kind = text_kind;
  body = str (codes "hello");
  status = none;
  headers = some ((codes "X-Route", codes "hello") ∷ []);
}

abbrev hello_action : Action ℕ
hello_action = template hello

abbrev pub user_route : RouteDefinition (Action ℕ)
user_route = compile_route get_method (codes "/users/:id") hello_action

abbrev pub me_route : RouteDefinition (Action ℕ)
me_route = compile_route get_method (codes "/users/me") hello_action

abbrev pub two_routes : List (RouteDefinition (Action ℕ))
two_routes = user_route ∷ me_route ∷ []

pub two_routes-IsCompiled : All IsCompiled two_routes
unfolding compile_route
two_routes-IsCompiled = ((codes "/users/:id", refl), ((codes "/users/me", refl), tt))

abbrev app_of : List (RouteDefinition (Action ℕ)) → App ℕ
app_of rs = record {
  routes = add_routes rs no_routes;
  builtins = no_builtins;
  bun_not_found_response = none;
  bun_options_response = none;
  hooks = no_hooks;
}

abbrev pub two_routes_app : App ℕ
two_routes_app = app_of two_routes

abbrev pub teapot : WebResponse
teapot = record { status = 418; headers = []; body = some (codes "teapot") }

abbrev handler_app : App ℕ
handler_app = app_of (compile_route get_method (codes "/tea") (handler (λ n. (ok teapot, n))) ∷ [])

abbrev pub get_request : Str → NodeRequest
get_request path = record {
  method = some (codes "GET");
  url = some path;
  headers = [];
  remote_address = none;
}

abbrev pub wildcard : BuiltinCorsConfig
wildcard = record {
  origin = some (codes "*");
  methods = codes "GET";
  allowed_headers = none;
  exposed_headers = none;
  credentials = false;
  max_age = some 600;
  options_success_status = 204;
}

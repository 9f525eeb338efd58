-- ===== src/App/Bun.antt =====
-- src/app.ts: the Bun runtime: `createStaticBunResponse`, `createBunResponse`, `buildBunRoutes`,
-- `createBunNotFoundResponse`, `createBunOptionsResponse`, `applyBuiltinsToWebResponse` and
-- `handleBunFallback`. The `Response` constructor is the runtime's own, and a parameter.
use fearless.Base.{
  ℕ, Option, none, some, Bool, not, Str, codes, str_eq, List, [], ◌∷◌, ◌++◌, ◌&&◌, ◌||◌, ◌==◌, Dict,
  get, put, get_or, is_some, if◌then◌else◌, ltb, length, drop,
}
use fearless.Web.Values.{Result, ok, throw}
use fearless.Web.Platform.{Platform}
use fearless.Web.Response.{WebResponse, to_lower}
use fearless.Path.{normalize_path}
use fearless.Query.{join_query_params}
use fearless.Template.Render.{
  RouteResponseSpec, TemplateContext, render_route_body, content_type_for_kind,
  template_value_contains_token, headers_contain_template,
}
use fearless.Routing.Pattern.{method_name, RouteDefinition}
use fearless.Routing.Search.{RouteMatch, find_route}
use fearless.Builtins.Features.{BuiltinCorsConfig}
use fearless.Builtins.Headers.{build_builtin_headers, build_route_headers}
use fearless.Ctx.Inputs.{
  WebRequest, CtxInputs, from_web, or_default, web_headers_to_record, normalize_ip,
}
use fearless.Middleware.{execute}
use fearless.App.State.{App, Action, template, handler}
use fearless.App.Node.{options_name}

abbrev pub empty_template_context : TemplateContext
empty_template_context = record {
  method = codes "GET";
  path = codes "/";
  params = [];
  query = [];
  headers = [];
  ip = [];
}

-- `routeCanUseStaticBunResponse` of a template route
unfoldable pub route_can_use_static_bun_response : Bool → RouteResponseSpec → Bool
unfolding template_value_contains_token headers_contain_template
route_can_use_static_bun_response has_params response =
    not has_params
    && (not (template_value_contains_token response.body)
        && not (headers_contain_template response.headers))

-- A value of Bun's route map: a response made in advance, or the route to be rendered.
pub data BunRouteMethodHandler : Type 0 where
  static_response : WebResponse → BunRouteMethodHandler
  dynamic_response : RouteResponseSpec → BunRouteMethodHandler

abbrev BunRouteMap : Type 0
BunRouteMap = Dict (Dict BunRouteMethodHandler)

abbrev options_status : Option BuiltinCorsConfig → ℕ
options_status none = 204
options_status (some cors) = cors.options_success_status

-- The names of a web `Headers` are in lower case; one that is there is kept.
unfoldable merge_missing : Dict Str → Dict Str → Dict Str
unfolding to_lower get put
merge_missing [] merged = merged
merge_missing ((key, v) ∷ builtin) merged =
    merge_missing builtin
      (if is_some (get (to_lower key) merged) then merged else put (to_lower key) v merged)

abbrev with_builtins : Dict Str → WebResponse → WebResponse
with_builtins [] response = response
with_builtins (h ∷ builtin) response = record response {
  headers = merge_missing (h ∷ builtin) response.headers;
}

module _ (p : Platform) where
  -- The context of a template in `handleBunFallback` and in the handlers of the route map.
  unfoldable bun_template_context : WebRequest → Str → Dict Str → Option Str → TemplateContext
  unfolding normalize_path join_query_params web_headers_to_record normalize_ip
  bun_template_context request method params address = record {
    method = method;
    path = normalize_path request.pathname;
    params = params;
    query =
        join_query_params p.search_params
          (if ltb 1 (length request.search) then drop 1 request.search else []);
    headers = web_headers_to_record p request.headers [];
    ip = normalize_ip address;
  }

module _ {S : Type 0} (p : Platform)
    (construct : Option Str → ℕ → Dict Str → Result WebResponse) where
  unfoldable pub create_bun_response :
      RouteResponseSpec → TemplateContext → App S → Result WebResponse × App S
  unfolding build_route_headers render_route_body
  create_bun_response response context app =
      let body = render_route_body p response context in
      let status = get_or response.status 200 in
      let (headers, b) =
        build_route_headers p.number_to_string response.headers
          (content_type_for_kind response.kind) app.builtins in
      (
        construct (if status == 204 || status == 304 then none else some body) status headers,
        record app { builtins = b },
      )

  unfoldable pub create_static_bun_response : RouteResponseSpec → App S → Result WebResponse × App S
  unfolding build_route_headers render_route_body
  create_static_bun_response response app =
      let (headers, b) =
        build_route_headers p.number_to_string response.headers
          (content_type_for_kind response.kind) app.builtins in
      let status = get_or response.status 200 in
      let body = render_route_body p response empty_template_context in
      (
        construct (if status == 204 || status == 304 then none else some body) status headers,
        record app { builtins = b },
      )

  abbrev as_static : Result WebResponse × App S → Result BunRouteMethodHandler × App S
  as_static (ok r, app) = (ok (static_response r), app)
  as_static (throw e, app) = (throw e, app)

  unfoldable create_bun_route_handler :
      Bool → RouteResponseSpec → App S → Result BunRouteMethodHandler × App S
  unfolding route_can_use_static_bun_response create_static_bun_response
  create_bun_route_handler has_params response app =
      if route_can_use_static_bun_response has_params response
      then as_static (create_static_bun_response response app)
      else (ok (dynamic_response response), app)

  abbrev add_bun_route :
      RouteDefinition (Action S)
      → BunRouteMap
      → Result BunRouteMethodHandler × App S
      → (BunRouteMap → App S → Result BunRouteMap × App S)
      → Result BunRouteMap × App S
  add_bun_route route routes (throw e, app) rest = (throw e, app)
  add_bun_route route routes (ok h, app) rest =
      let path = route.compiled_path.normalized in
      rest (put path (put (method_name route.method) h (get_or (get path routes) [])) routes) app

  abbrev add_bun_action :
      Action S
      → RouteDefinition (Action S)
      → Bool
      → BunRouteMap
      → App S
      → (BunRouteMap → App S → Result BunRouteMap × App S)
      → Result BunRouteMap × App S
  add_bun_action (handler h) route skipped routes app rest = rest routes app
  add_bun_action (template response) route skipped routes app rest =
      if skipped
      then rest routes app
      else add_bun_route route routes
          (create_bun_route_handler route.compiled_path.has_params response app) rest

  -- `buildBunRoutes`: handlers are left to the fallback, and so is OPTIONS under CORS.
  unfoldable build_bun_routes :
      List (RouteDefinition (Action S)) → BunRouteMap → App S → Result BunRouteMap × App S
  unfolding create_bun_route_handler str_eq put get
  build_bun_routes [] routes app = (ok routes, app)
  build_bun_routes (route ∷ rest) routes app =
      add_bun_action route.action route
        (is_some app.builtins.builtin.cors && str_eq (method_name route.method) options_name) routes
        app (build_bun_routes rest)

  abbrev pub keep_not_found : Result WebResponse → App S → Result WebResponse × App S
  keep_not_found (ok r) app = (ok r, record app { bun_not_found_response = some r })
  keep_not_found (throw e) app = (throw e, app)

  abbrev keep_options : Result WebResponse → App S → Result WebResponse × App S
  keep_options (ok r) app = (ok r, record app { bun_options_response = some r })
  keep_options (throw e) app = (throw e, app)

  abbrev not_found_of : Option WebResponse → App S → Result WebResponse × App S
  not_found_of (some r) app = (ok r, app)
  not_found_of none app =
      let (headers, b) = build_builtin_headers p.number_to_string app.builtins in
      keep_not_found (construct (some (codes "Not Found")) 404 headers)
        (record app { builtins = b })

  -- The responses for no route and for OPTIONS are made once, with the headers of that moment.
  unfoldable pub create_bun_not_found_response : App S → Result WebResponse × App S
  unfolding build_builtin_headers
  create_bun_not_found_response app = not_found_of app.bun_not_found_response app

  abbrev options_of : Option WebResponse → App S → Result WebResponse × App S
  options_of (some r) app = (ok r, app)
  options_of none app =
      let (headers, b) = build_builtin_headers p.number_to_string app.builtins in
      keep_options (construct (some []) (options_status app.builtins.builtin.cors) headers)
        (record app { builtins = b })

  unfoldable create_bun_options_response : App S → Result WebResponse × App S
  unfolding build_builtin_headers
  create_bun_options_response app = options_of app.bun_options_response app

  -- `applyBuiltinsToWebResponse`. (The second `Response` has the status and the body of a response
  -- that exists, which the constructor takes.)
  unfoldable apply_builtins_to_web_response : WebResponse → App S → WebResponse × App S
  unfolding build_builtin_headers merge_missing
  apply_builtins_to_web_response response app =
      let (builtin, b) = build_builtin_headers p.number_to_string app.builtins in
      (with_builtins builtin response, record app { builtins = b })

  module _ (new_ctx : CtxInputs → S) where
    abbrev web_result : Result WebResponse × S → App S → Result WebResponse × App S
    web_result (throw e, s) app = (throw e, app)
    web_result (ok response, s) app =
        let (r, app') = apply_builtins_to_web_response response app in (ok r, app')

    abbrev bun_matched :
        Action S → WebRequest → Str → Dict Str → Option Str → App S → Result WebResponse × App S
    bun_matched (handler h) request method params address app =
        web_result
          (execute p.stringify app.hooks h
            (new_ctx (from_web p request params (normalize_ip address))))
          app
    bun_matched (template response) request method params address app =
        create_bun_response response (bun_template_context p request method params address) app

    abbrev bun_respond_to :
        Option (RouteMatch (Action S))
        → WebRequest
        → Str
        → Option Str
        → App S
        → Result WebResponse × App S
    bun_respond_to none request method address app = create_bun_not_found_response app
    bun_respond_to (some m) request method address app =
        bun_matched m.route.action request method m.params address app

    unfoldable handle_bun_fallback : WebRequest → Option Str → App S → Result WebResponse × App S
    unfolding create_bun_options_response create_bun_not_found_response create_bun_response
        apply_builtins_to_web_response bun_template_context from_web str_eq
    handle_bun_fallback request address app =
        let method = p.to_upper_case (or_default (some request.method) (codes "GET")) in
        if is_some app.builtins.builtin.cors && str_eq method options_name
        then create_bun_options_response app
        else bun_respond_to
            (find_route p.decode_uri_component app.routes method
              (request.pathname ++ request.search))
            request method address app

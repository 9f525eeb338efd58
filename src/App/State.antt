-- ===== src/App/State.antt =====
-- src/app.ts: the state of `App`, the registration of routes, hooks and features. The state `S` of user
-- code holds the `Ctx`, its bag and whatever hooks and handlers reach.
use fearless.Base.{
  ℕ, Option, none, some, Bool, true, false, Str, [], Dict, assign, get_or, or_else, some_of,
}
use fearless.Web.Values.{Json}
use fearless.Web.Response.{WebResponse}
use fearless.Template.Render.{ResponseKind, RouteResponseSpec}
use fearless.Routing.Pattern.{HttpMethod, get_method, RouteDefinition}
use fearless.Routing.Search.{Routes, no_routes, add_route, compile_route}
use fearless.Builtins.Features.{BuiltinFeature}
use fearless.Builtins.Headers.{Builtins, no_builtins, use_feature}
use fearless.Middleware.{
  Handler, RequestHook, ResponseHook, ErrorHook, HookChain, no_hooks, on_request, on_response,
  on_error,
}

-- `kind: "template"` and `kind: "handler"` of `RouteDefinition`.
pub data Action (S : Type 0) : Type 0 where
  template : RouteResponseSpec → Action S
  handler : Handler S → Action S

pub record RouteOptions : Type 0 where
  pub status : Option ℕ
  pub headers : Option (Dict Str)

abbrev no_options : RouteOptions
no_options = record { status = none; headers = none }

pub record App (S : Type 0) : Type 0 where
  pub routes : Routes (Action S)
  pub builtins : Builtins
  pub bun_not_found_response : Option WebResponse
  pub bun_options_response : Option WebResponse
  pub hooks : HookChain S

-- The response of the route: its own status first, its own headers over those of the options.
unfoldable route_response : RouteResponseSpec → RouteOptions → RouteResponseSpec
unfolding assign
route_response response options = record {
  kind = response.kind;
  body = response.body;
  status = or_else response.status options.status;
  headers = some (assign (assign [] (get_or options.headers [])) (get_or response.headers []));
}

unfoldable build_route_response : ResponseKind → Json → RouteOptions → RouteResponseSpec
build_route_response kind body options = record {
  kind = kind;
  body = body;
  status = options.status;
  headers = options.headers;
}

module _ {S : Type 0} where
  abbrev new_app : App S
  new_app = record {
    routes = no_routes;
    builtins = no_builtins;
    bun_not_found_response = none;
    bun_options_response = none;
    hooks = no_hooks;
  }

  unfoldable register_route : HttpMethod → Str → RouteResponseSpec → RouteOptions → App S → App S
  unfolding route_response add_route compile_route
  register_route method path response options app = record app {
    routes =
        add_route (compile_route method path (template (route_response response options)))
          app.routes;
  }

  unfoldable register_handler_route : HttpMethod → Str → Handler S → App S → App S
  unfolding add_route compile_route
  register_handler_route method path h app = record app {
    routes = add_route (compile_route method path (handler h)) app.routes;
  }

  -- `get`, `post`, `put`, `delete`, `patch`, `options` and `head`, each with its method: a function
  -- registers a handler, anything else a template.
  unfoldable register : HttpMethod → Str → Action S → RouteOptions → App S → App S
  unfolding register_route register_handler_route
  register method path (handler h) options app = register_handler_route method path h app
  register method path (template response) options app =
      register_route method path response options app

  -- `text`, `json` and `html`
  unfoldable register_kind : ResponseKind → Str → Json → RouteOptions → App S → App S
  unfolding register_route build_route_response
  register_kind kind path body options app =
      register_route get_method path (build_route_response kind body options) options app

  unfoldable app_on_request : RequestHook S → App S → App S
  unfolding on_request
  app_on_request hook app = record app { hooks = on_request hook app.hooks }

  unfoldable app_on_response : ResponseHook S → App S → App S
  unfolding on_response
  app_on_response hook app = record app { hooks = on_response hook app.hooks }

  unfoldable app_on_error : ErrorHook S → App S → App S
  unfolding on_error
  app_on_error hook app = record app { hooks = on_error hook app.hooks }

  -- `use` drops the three caches.
  unfoldable use_builtin : BuiltinFeature → App S → App S
  unfolding use_feature
  use_builtin feature app = record app {
    builtins = use_feature feature app.builtins;
    bun_not_found_response = none;
    bun_options_response = none;
  }

  abbrev pub is_handler : RouteDefinition (Action S) → Bool
  is_handler r = elim r.action [ handler h ↦ true | template t ↦ false ]

  unfoldable pub has_handler_routes : App S → Bool
  has_handler_routes app = some_of is_handler app.routes.routes

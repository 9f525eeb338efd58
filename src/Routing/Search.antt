-- ===== src/Routing/Search.antt =====
-- src/app.ts: the route state of `App`, `routeKey`, `insertParamRoute`, `addRoute`, `findRoute` and
-- `findParamRoute`. The method of a request is any string, as the code casts it.
use fearless.Base.{
  Option, none, some, Bool, true, Str, codes, str_eq, get, put, Dict, List, [], ◌∷◌, ◌++◌, get_or,
  or_else, if◌then◌else◌,
}
use fearless.Path.{normalize_path}
use fearless.Routing.Pattern.{
  HttpMethod, method_name, RouteDefinition, compile_path, split_normalized_path,
}
use fearless.Routing.Table.{
  RouteTable, create_route_table, insert_segments, match_route_table, Params, Found,
}

-- The fields `routes`, `exactRoutes` and `paramRoutesByMethod` of `App`.
pub record Routes (A : Type 0) : Type 0 where
  pub routes : List (RouteDefinition A)
  pub exact_routes : Dict (RouteDefinition A)
  pub param_routes : Dict (RouteTable A)

pub record RouteMatch (A : Type 0) : Type 0 where
  pub route : RouteDefinition A
  pub params : Params
  pub suppress_body : Bool

abbrev pub route_key : Str → Str → Str
route_key method path = method ++ 0 ∷ path

abbrev pub head_method_name : Str
head_method_name = codes "HEAD"

abbrev pub get_method_name : Str
get_method_name = codes "GET"

module _ {A : Type 0} where
  abbrev pub no_routes : Routes A
  no_routes = record { routes = []; exact_routes = []; param_routes = [] }

  -- `paramRoutesByMethod[method]`, a new table where it is missing
  unfoldable pub table_of : Str → Dict (RouteTable A) → RouteTable A
  unfolding get
  table_of method tables = get_or (get method tables) create_route_table

  unfoldable pub insert_param_route : RouteDefinition A → Dict (RouteTable A) → Dict (RouteTable A)
  unfolding table_of put insert_segments
  insert_param_route route tables =
      let method = method_name route.method in
      put method (insert_segments route.compiled_path.segments route (table_of method tables))
        tables

  unfoldable pub add_route : RouteDefinition A → Routes A → Routes A
  unfolding insert_param_route put
  add_route route s =
      if route.compiled_path.has_params
      then record s {
        routes = s.routes ++ route ∷ [];
        param_routes = insert_param_route route s.param_routes;
      }
      else record s {
        routes = s.routes ++ route ∷ [];
        exact_routes =
            put (route_key (method_name route.method) route.compiled_path.normalized) route
              s.exact_routes;
      }

  abbrev exact_match : Bool → Option (RouteDefinition A) → Option (RouteMatch A)
  exact_match suppress none = none
  exact_match suppress (some route) =
      some (record { route = route; params = []; suppress_body = suppress })

  abbrev param_match : Bool → Found A → Option (RouteMatch A)
  param_match suppress (none, params) = none
  param_match suppress (some route, params) =
      some (record { route = route; params = params; suppress_body = suppress })

  module _ (decode_uri_component : Str → Option Str) (s : Routes A) where
    abbrev search_table : Option (RouteTable A) → Str → Bool → Option (RouteMatch A)
    search_table none path suppress = none
    search_table (some t) path suppress =
        param_match suppress
          (match_route_table decode_uri_component (split_normalized_path path) t [])

    unfoldable pub find_param_route : Str → Str → Bool → Option (RouteMatch A)
    unfolding match_route_table split_normalized_path get
    find_param_route method path suppress = search_table (get method s.param_routes) path suppress

    unfoldable pub find_exact : Str → Str → Bool → Option (RouteMatch A)
    unfolding get
    find_exact method path suppress =
        exact_match suppress (get (route_key method path) s.exact_routes)

    -- Each step of `findRoute` returns at once where it has found a route.
    unfoldable pub find_route : Str → Str → Option (RouteMatch A)
    find_route method path =
        let normalized = normalize_path path in
        let is_head = str_eq method head_method_name in
        or_else (find_exact method normalized is_head) (
          or_else (if is_head then find_exact get_method_name normalized true else none) (
            or_else (find_param_route method normalized is_head)
              (if is_head then find_param_route get_method_name normalized true else none)))

  unfoldable pub compile_route : HttpMethod → Str → A → RouteDefinition A
  unfolding compile_path
  compile_route method path action = record {
    method = method;
    compiled_path = compile_path path;
    action = action;
  }

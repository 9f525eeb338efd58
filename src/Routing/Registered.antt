-- ===== src/Routing/Registered.antt =====
-- What the maps of `App` hold after a sequence of calls of `addRoute`: of two routes without
-- parameters under one key the later, of two parameter routes of one shape the earlier.
use fearless.Base.{
  Option, none, some, Bool, true, false, not, Str, str_eq, str_eq_iff, get, get-put, List, [], ◌∷◌,
  ◌&&◌, ◌≡◌, refl, or_else, if◌then◌else◌, arith,
}
use fearless.Routing.Pattern.{method_name, RouteSegment, RouteDefinition}
use fearless.Routing.Table.{RouteTable, insert_segments}
use fearless.Routing.Search.{Routes, no_routes, add_route, route_key, table_of, insert_param_route}
use fearless.Routing.Fits.{same_shape, route_at, route_at-create, IsKeyed}
use fearless.Routing.Insertion.{route_at-insert_segments, insert_segments-IsKeyed, IsKeyed-create}

module _ {A : Type 0} where
  -- `addRoute` for each route in turn.
  unfoldable pub add_routes : List (RouteDefinition A) → Routes A → Routes A
  unfolding add_route
  add_routes [] s = s
  add_routes (r ∷ rs) s = add_routes rs (add_route r s)

  abbrev pub key_of : RouteDefinition A → Str
  key_of r = route_key (method_name r.method) r.compiled_path.normalized

  abbrev pub is_exact_at : Str → RouteDefinition A → Bool
  is_exact_at key r = not r.compiled_path.has_params && str_eq (key_of r) key

  abbrev pub is_param_at : Str → List RouteSegment → RouteDefinition A → Bool
  is_param_at method p r =
      r.compiled_path.has_params
      && (str_eq (method_name r.method) method && same_shape r.compiled_path.segments p)

  -- The last route without parameters that has the key.
  unfoldable pub last_exact : Str → List (RouteDefinition A) → Option (RouteDefinition A)
  last_exact key [] = none
  last_exact key (r ∷ rs) = or_else (last_exact key rs) (if is_exact_at key r then some r else none)

  -- The first route with parameters that has the method and the shape.
  unfoldable pub first_param :
      Str → List RouteSegment → List (RouteDefinition A) → Option (RouteDefinition A)
  first_param method p [] = none
  first_param method p (r ∷ rs) = if is_param_at method p r then some r else first_param method p rs

  get-add_routes :
      (key : Str) (rs : List (RouteDefinition A)) (s : Routes A)
      → get key (add_routes rs s).exact_routes
        ≡ or_else (last_exact key rs) (get key s.exact_routes)
  unfolding add_routes last_exact
  get-add_routes key [] s = refl
  get-add_routes key (r ∷ rs) s = ground (
    arith,
    get-add_routes key rs (add_route r s),
    get-put key (key_of r) r s.exact_routes,
    str_eq_iff (key_of r) key,
  )

  table_of-insert_param_route :
      (method : Str) (r : RouteDefinition A) (s : Routes A)
      → table_of method (insert_param_route r s.param_routes) ≡ (
          if str_eq (method_name r.method) method
          then insert_segments r.compiled_path.segments r
              (table_of (method_name r.method) s.param_routes)
          else table_of method s.param_routes)
  unfolding table_of insert_param_route
  table_of-insert_param_route method r s = rw get-put (ground arith)

  route_at-add_route :
      (method : Str) (p : List RouteSegment) (r : RouteDefinition A) (s : Routes A)
      → route_at p (table_of method (add_route r s).param_routes)
        ≡ or_else
            (route_at p (table_of method s.param_routes))
            (if is_param_at method p r then some r else none)
  unfolding add_route
  route_at-add_route method p r s = ground (
    arith,
    table_of-insert_param_route method r s,
    route_at-insert_segments p r.compiled_path.segments r
        (table_of (method_name r.method) s.param_routes),
    str_eq_iff (method_name r.method) method,
  )

  route_at-add_routes :
      (method : Str) (p : List RouteSegment) (rs : List (RouteDefinition A)) (s : Routes A)
      → route_at p (table_of method (add_routes rs s).param_routes)
        ≡ or_else (route_at p (table_of method s.param_routes)) (first_param method p rs)
  unfolding add_routes first_param
  route_at-add_routes method p [] s = ground arith
  route_at-add_routes method p (r ∷ rs) s =
      ground
        (arith, route_at-add_routes method p rs (add_route r s), route_at-add_route method p r s)

  -- The map of exact routes after the registrations.
  pub exact_after :
      (key : Str) (rs : List (RouteDefinition A))
      → get key (add_routes rs no_routes).exact_routes ≡ last_exact key rs
  unfolding get
  exact_after key rs = rw (get-add_routes key rs no_routes) (go (last_exact key rs))
    where
      go : (o : Option (RouteDefinition A)) → or_else o none ≡ o
      go none = refl
      go (some r) = refl

  -- The tables of parameter routes after the registrations.
  pub param_after :
      (method : Str) (p : List RouteSegment) (rs : List (RouteDefinition A))
      → route_at p (table_of method (add_routes rs no_routes).param_routes)
        ≡ first_param method p rs
  unfolding table_of
  param_after method p rs =
      rw (route_at-add_routes method p rs no_routes, route_at-create {A = A} p)

  AllKeyed : Routes A → Type 0
  AllKeyed s = (method : Str) → IsKeyed (table_of method s.param_routes)

  table_of-add_route :
      (method : Str) (r : RouteDefinition A) (s : Routes A)
      → table_of method (add_route r s).param_routes ≡ (
          if r.compiled_path.has_params && str_eq (method_name r.method) method
          then insert_segments r.compiled_path.segments r
              (table_of (method_name r.method) s.param_routes)
          else table_of method s.param_routes)
  unfolding add_route
  table_of-add_route method r s = ground (arith, table_of-insert_param_route method r s)

  if-IsKeyed :
      (b : Bool) (t u : RouteTable A) → IsKeyed t → IsKeyed u → IsKeyed (if b then t else u)
  if-IsKeyed true t u h k = h
  if-IsKeyed false t u h k = k

  add_route-AllKeyed :
      (r : RouteDefinition A) (s : Routes A) → AllKeyed s → AllKeyed (add_route r s)
  unfolding AllKeyed
  add_route-AllKeyed r s h method = rw (table_of-add_route method r s) (
      if-IsKeyed (r.compiled_path.has_params && str_eq (method_name r.method) method) _ _
        (insert_segments-IsKeyed r.compiled_path.segments r _ (h (method_name r.method)))
        (h method))

  add_routes-AllKeyed :
      (rs : List (RouteDefinition A)) (s : Routes A) → AllKeyed s → AllKeyed (add_routes rs s)
  unfolding add_routes
  add_routes-AllKeyed [] s h = h
  add_routes-AllKeyed (r ∷ rs) s h =
      add_routes-AllKeyed rs (add_route r s) (add_route-AllKeyed r s h)

  pub IsKeyed-after :
      (method : Str) (rs : List (RouteDefinition A))
      → IsKeyed (table_of method (add_routes rs no_routes).param_routes)
  unfolding AllKeyed table_of
  IsKeyed-after method rs = add_routes-AllKeyed rs no_routes (λ m. IsKeyed-create A) method

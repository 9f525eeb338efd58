-- ===== src/Tests/Paths.antt =====
-- Examples for paths and routes.
use fearless.Base.{
  ℕ, none, some, true, false, Str, codes, [], ◌∷◌, ◌≡◌, refl, arith, get, All, Any, ◌↔◌, str_eq,
  includes,
}
use fearless.Path.{normalize_path}
use fearless.Path.Laws.{IsNormal, normalize_path-IsNormal}
use fearless.Routing.Pattern.{fixed, param, get_method}
use fearless.Routing.Table.{
  create_route_table, insert_segments, match_route_table, decoded, get_child,
}
use fearless.Routing.Fits.{same_shape, route_at}
use fearless.Routing.Insertion.{route_at-insert_segments}
use fearless.Routing.Search.{
  RouteMatch, find_route, find_exact, find_param_route, no_routes, compile_route,
}
use fearless.Routing.Registered.{add_routes}
use fearless.Routing.Found.{serves, method_name-NoNul}
use fearless.Routing.FindLaws.{find_route_sound, find_route-eq-none_iff}
use fearless.Routing.Params.{
  Outcome, IsDistinct, nothing_used, match_route_table_params, shared_param_name,
}
use fearless.App.State.{Action}
use fearless.Tests.Data.{decode_uri, user_route, me_route, two_routes, two_routes-IsCompiled}

abbrev messy : Str
messy = codes "//a/b//?x=/y"

normalize_path-IsNormal_example : IsNormal (normalize_path messy)
normalize_path-IsNormal_example = normalize_path-IsNormal messy

route_at-insert_segments_example :
    route_at (fixed (codes "users") ∷ param (codes "x") ∷ []) (
      insert_segments
        (fixed (codes "users") ∷ param (codes "id") ∷ [])
        user_route
        create_route_table)
    ≡ some user_route
unfolding same_shape route_at str_eq get_child
route_at-insert_segments_example =
    route_at-insert_segments (fixed (codes "users") ∷ param (codes "x") ∷ [])
      (fixed (codes "users") ∷ param (codes "id") ∷ []) user_route create_route_table

abbrev seven : Str
seven = codes "/users/7/?full=1"

abbrev seven_match : RouteMatch (Action ℕ)
seven_match = record {
  route = user_route;
  params = (codes "id", codes "7") ∷ [];
  suppress_body = false;
}

seven_found :
    find_route decode_uri (add_routes two_routes no_routes) (codes "GET") seven ≡ some seven_match
unfolding find_route compile_route add_routes find_exact find_param_route includes
seven_found = refl

find_route_sound_example :
    Any (λ q. (q ≡ user_route) × (serves (codes "GET") seven q ≡ true)) two_routes
find_route_sound_example =
    find_route_sound decode_uri two_routes two_routes-IsCompiled (codes "GET") seven
      (method_name-NoNul get_method) seven_match seven_found

find_route-eq-none_iff_example :
    (find_route decode_uri (add_routes two_routes no_routes) (codes "PUT") seven ≡ none)
    ↔ All (λ q. serves (codes "PUT") seven q ≡ false) two_routes
find_route-eq-none_iff_example =
    find_route-eq-none_iff decode_uri two_routes two_routes-IsCompiled (codes "PUT") seven
      (omega arith)

match_route_table_params_example :
    Outcome decode_uri
      (codes "users" ∷ codes "%zz" ∷ [])
      (insert_segments
        (fixed (codes "users") ∷ param (codes "id") ∷ [])
        user_route
        create_route_table)
      []
      (match_route_table decode_uri
        (codes "users" ∷ codes "%zz" ∷ [])
        (insert_segments
          (fixed (codes "users") ∷ param (codes "id") ∷ [])
          user_route
          create_route_table)
        [])
unfolding insert_segments IsDistinct get
match_route_table_params_example =
    match_route_table_params decode_uri (codes "users" ∷ codes "%zz" ∷ [])
      (insert_segments (fixed (codes "users") ∷ param (codes "id") ∷ []) user_route
        create_route_table)
      nothing_used [] (((tt, (refl, (tt, tt))), tt), tt) (λ j e. refl)

shared_param_name_example :
    (let m =
        match_route_table decode_uri
          (codes "7" ∷ codes "posts" ∷ [])
          (insert_segments
            (param (codes "user") ∷ fixed (codes "posts") ∷ [])
            me_route
            (insert_segments (param (codes "id") ∷ []) user_route create_route_table))
          [] in
      (m.0 ≡ some me_route)
      × (get (codes "id") m.1 ≡ some (decoded decode_uri (codes "7")))
      × (get (codes "user") m.1 ≡ none))
shared_param_name_example =
    shared_param_name decode_uri (codes "id") (codes "user") (codes "posts") (codes "7") user_route
      me_route (cc)

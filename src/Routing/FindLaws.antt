-- ===== src/Routing/FindLaws.antt =====
-- The contract of `findRoute`: it finds a route exactly if a registered route serves the request.
use fearless.Base.{
  Option, none, some, Bool, true, false, Str, str_eq, List, [], ◌∷◌, ◌≡◌, ◌≢◌, ◌↔◌, ◌⊎◌, inl, inr,
  refl, or_else, if◌then◌else◌, arith, Bool-cases, Option-cases, All, Any, Any-map, Any-All,
  Any-witness, Any-or_All, not_Any_and_All,
}
use fearless.Path.{normalize_path}
use fearless.Routing.Pattern.{RouteSegment, RouteDefinition, split_normalized_path}
use fearless.Routing.Table.{create_route_table, match_route_table}
use fearless.Routing.Search.{
  Routes, no_routes, RouteMatch, route_key, table_of, find_exact, find_param_route, find_route,
  get_method_name, head_method_name,
}
use fearless.Routing.Fits.{fits, same_shape_refl, fits-same_shape}
use fearless.Routing.Matching.{match_route_table_sound, match_route_table_complete}
use fearless.Routing.Registered.{
  add_routes, is_exact_at, is_param_at, last_exact, exact_after, param_after, IsKeyed-after,
}
use fearless.Routing.Found.{
  NoNul, serves_as, serves, IsCompiled, exact_serves, serves_exact, find_exact-eq-some,
  last_exact-Any, last_exact-ne-none, first_param-Any, first_param-ne-none,
}

module _ {A : Type 0} (decode_uri_component : Str → Option Str) where
  match_create :
      (ss : List Str)
      → (match_route_table decode_uri_component ss (create_route_table {A = A}) []).0 ≡ none
  unfolding match_route_table
  match_create [] = refl
  match_create (s ∷ ss) = refl

  find_param_route-eq-some :
      (s : Routes A) (method path : Str) (b : Bool) (m : RouteMatch A)
      → find_param_route decode_uri_component s method path b ≡ some m
      → (match_route_table decode_uri_component
          (split_normalized_path path)
          (table_of method s.param_routes)
          []).0
        ≡ some m.route
  unfolding find_param_route table_of
  find_param_route-eq-some s method path b m e = ground arith

  find_param_route-ne-none :
      (s : Routes A) (method path : Str) (b : Bool)
      → (match_route_table decode_uri_component
          (split_normalized_path path)
          (table_of method s.param_routes)
          []).0
        ≢ none
      → find_param_route decode_uri_component s method path b ≢ none
  unfolding find_param_route table_of
  find_param_route-ne-none s method path b h =
      ground (arith, match_create (split_normalized_path path))

  find_exact-ne-none :
      (rs : List (RouteDefinition A)) (method path : Str) (b : Bool)
      → last_exact (route_key method path) rs ≢ none
      → find_exact decode_uri_component (add_routes rs no_routes) method path b ≢ none
  unfolding find_exact
  find_exact-ne-none rs method path b h = ground (arith, exact_after (route_key method path) rs)

  module _ (rs : List (RouteDefinition A)) (compiled : All IsCompiled rs) where
    abbrev registered : Routes A
    registered = add_routes rs no_routes

    -- The route of the match is registered, and has the property.
    abbrev IsOne : (RouteDefinition A → Bool) → RouteDefinition A → Type 0
    IsOne test r = Any (λ q. (q ≡ r) × (test q ≡ true)) rs

    exact_sound :
        (method path : Str) (b : Bool) (m : RouteMatch A)
        → NoNul method
        → find_exact decode_uri_component registered method (normalize_path path) b ≡ some m
        → IsOne (serves_as method path) m.route
    exact_sound method path b m h e =
        Any-map rs (λ q x. (x.0.0, exact_serves method path q x.1 h x.0.1))
          (Any-All
            (λ q. (q ≡ m.route) × (is_exact_at (route_key method (normalize_path path)) q ≡ true))
            IsCompiled rs
            (last_exact-Any (route_key method (normalize_path path)) rs m.route (
              rw exact_after at
                (find_exact-eq-some decode_uri_component registered method _ b m e)))
            compiled)

    param_sound :
        (method path : Str) (b : Bool) (m : RouteMatch A)
        → find_param_route decode_uri_component registered method (normalize_path path) b ≡ some m
        → IsOne (serves_as method path) m.route
    param_sound method path b m e =
        let (p, fit, at) =
          match_route_table_sound decode_uri_component _ _ [] m.route
            (find_param_route-eq-some registered method (normalize_path path) b m e) in
        Any-map rs (λ q x. (x.0, by_shape q p fit x.1))
          (first_param-Any method p rs m.route (rw param_after at at))
      where
        by_shape :
            (q : RouteDefinition A) (p : List RouteSegment)
            → fits p (split_normalized_path (normalize_path path)) ≡ true
            → is_param_at method p q ≡ true
            → serves_as method path q ≡ true
        by_shape q p fit k = ground (
          arith,
          fits-same_shape q.compiled_path.segments p (split_normalized_path (normalize_path path)),
        )

    -- A registered route that serves the request as `method` makes one of the two searches succeed.
    complete_as :
        (method path : Str) (b c : Bool)
        → NoNul method
        → Any (λ q. serves_as method path q ≡ true) rs
        → (find_exact decode_uri_component registered method (normalize_path path) b ≢ none)
          ⊎ (find_param_route decode_uri_component registered method (normalize_path path) c ≢ none)
    complete_as method path b c h any =
        let (q, (e, own), member) =
          Any-witness (λ q. (serves_as method path q ≡ true) × IsCompiled q) rs
            (Any-All (λ q. serves_as method path q ≡ true) IsCompiled rs any compiled) in
        elim (Bool-cases q.compiled_path.has_params) [
          | inl y ↦ inr (
              find_param_route-ne-none registered method (normalize_path path) c (
                match_route_table_complete decode_uri_component q.compiled_path.segments _ _ []
                  (IsKeyed-after method rs) (ground arith)
                  (rw param_after (
                    first_param-ne-none method q.compiled_path.segments rs
                      (Any-map rs (λ x eq. by_self q x y e eq) member)))))
          | inr n ↦ inl (
              find_exact-ne-none rs method (normalize_path path) b (
                last_exact-ne-none (route_key method (normalize_path path)) rs
                  (Any-map rs (λ x eq. rw eq (serves_exact method path q own n e)) member)))
        ]
      where
        by_self :
            (q x : RouteDefinition A)
            → q.compiled_path.has_params ≡ true
            → serves_as method path q ≡ true
            → x ≡ q
            → is_param_at method q.compiled_path.segments x ≡ true
        by_self q x y e eq = rw eq (ground (arith, same_shape_refl q.compiled_path.segments))

get_method_name-NoNul : NoNul get_method_name
get_method_name-NoNul = omega arith

-- The four searches of `findRoute`, two of them only for HEAD.
abbrev in_turn : {B : Type 0} → Bool → Option B → Option B → Option B → Option B → Option B
in_turn head a b c d =
    or_else a (or_else (if head then b else none) (or_else c (if head then d else none)))

in_turn-eq-some :
    {B : Type 0} (head : Bool) (a b c d : Option B) {m : B}
    → in_turn head a b c d ≡ some m
    → (a ≡ some m) ⊎ ((c ≡ some m) ⊎ ((head ≡ true) × ((b ≡ some m) ⊎ (d ≡ some m))))
in_turn-eq-some head (some x) b c d e = inl e
in_turn-eq-some true none (some x) c d e = inr (inr (refl, inl e))
in_turn-eq-some true none none (some x) d e = inr (inl e)
in_turn-eq-some true none none none d e = inr (inr (refl, inr e))
in_turn-eq-some false none b (some x) d e = inr (inl e)
in_turn-eq-some false none b none d e = cc

in_turn-ne-none :
    {B : Type 0} (head : Bool) (a b c d : Option B)
    → ((a ≢ none) ⊎ (c ≢ none)) ⊎ ((head ≡ true) × ((b ≢ none) ⊎ (d ≢ none)))
    → in_turn head a b c d ≢ none
in_turn-ne-none head a b c d h = ground arith

module _ {A : Type 0} (decode_uri_component : Str → Option Str) (rs : List (RouteDefinition A))
    (compiled : All IsCompiled rs) (method path : Str) (nul_free : NoNul method) where
  weaken :
      (r : RouteDefinition A)
      → Any (λ q. (q ≡ r) × (serves_as method path q ≡ true)) rs
      → Any (λ q. (q ≡ r) × (serves method path q ≡ true)) rs
  weaken r = Any-map rs (λ q x. (x.0, ground arith))

  weaken_head :
      (r : RouteDefinition A)
      → str_eq method head_method_name ≡ true
      → Any (λ q. (q ≡ r) × (serves_as get_method_name path q ≡ true)) rs
      → Any (λ q. (q ≡ r) × (serves method path q ≡ true)) rs
  weaken_head r h = Any-map rs (λ q x. (x.0, ground arith))

  abbrev s : Routes A
  s = add_routes rs no_routes

  abbrev is_head : Bool
  is_head = str_eq method head_method_name

  -- The results of the four searches.
  abbrev exact_own : Option (RouteMatch A)
  exact_own = find_exact decode_uri_component s method (normalize_path path) is_head

  abbrev exact_get : Option (RouteMatch A)
  exact_get = find_exact decode_uri_component s get_method_name (normalize_path path) true

  abbrev param_own : Option (RouteMatch A)
  param_own = find_param_route decode_uri_component s method (normalize_path path) is_head

  abbrev param_get : Option (RouteMatch A)
  param_get = find_param_route decode_uri_component s get_method_name (normalize_path path) true

  -- Of an app's compiled routes, the route that `findRoute` finds is a registered one, and serves the request: its method is the
  -- request's, or GET for a request by HEAD, and its pattern fits the normalised path. (The method of
  -- the request holds no NUL.)
  pub find_route_sound :
      (m : RouteMatch A)
      → find_route decode_uri_component (add_routes rs no_routes) method path ≡ some m
      → Any (λ q. (q ≡ m.route) × (serves method path q ≡ true)) rs
  unfolding find_route
  find_route_sound m e = elim (in_turn-eq-some is_head exact_own exact_get param_own param_get e) [
    | inl f ↦
        weaken m.route
          (exact_sound decode_uri_component rs compiled method path is_head m nul_free f)
    | inr (inl f) ↦
        weaken m.route (param_sound decode_uri_component rs compiled method path is_head m f)
    | inr (inr (head, inl f)) ↦ weaken_head m.route head (
        exact_sound decode_uri_component rs compiled get_method_name path true m
          get_method_name-NoNul f)
    | inr (inr (head, inr f)) ↦
        weaken_head m.route head
          (param_sound decode_uri_component rs compiled get_method_name path true m f)
  ]

  -- A request that a registered, compiled route serves finds a route. (The method of the request holds
  -- no NUL.)
  pub find_route_complete :
      Any (λ q. serves method path q ≡ true) rs
      → find_route decode_uri_component (add_routes rs no_routes) method path ≢ none
  unfolding find_route
  find_route_complete any =
      let (q, e, member) = Any-witness (λ q. serves method path q ≡ true) rs any in
      in_turn-ne-none is_head exact_own exact_get param_own param_get
        (elim (Bool-cases (serves_as method path q)) [
          | inl own ↦ inl (
              complete_as decode_uri_component rs compiled method path is_head is_head nul_free
                (Any-map rs (λ x eq. rw eq own) member))
          | inr other ↦ inr (
            ground arith,
            complete_as decode_uri_component rs compiled get_method_name path true true
                get_method_name-NoNul (Any-map rs (λ x eq. rw eq (ground arith)) member),
          )
        ])

  -- `findRoute` finds no route exactly if none of the registered, compiled routes serves the request,
  -- whose method holds no NUL.
  pub find_route-eq-none_iff :
      (find_route decode_uri_component (add_routes rs no_routes) method path ≡ none)
      ↔ All (λ q. serves method path q ≡ false) rs
  find_route-eq-none_iff = (to, from)
    where
      to :
          find_route decode_uri_component (add_routes rs no_routes) method path ≡ none
          → All (λ q. serves method path q ≡ false) rs
      to e = elim (Any-or_All (serves method path) rs) [
        | inl any ↦ absurd (find_route_complete any e)
        | inr none_serves ↦ none_serves
      ]

      from :
          All (λ q. serves method path q ≡ false) rs
          → find_route decode_uri_component (add_routes rs no_routes) method path ≡ none
      from h =
          elim (Option-cases
            (find_route decode_uri_component (add_routes rs no_routes) method path)) [
              | inl e ↦ e
              | inr (m, e) ↦ absurd (
                  not_Any_and_All (serves method path) rs h
                    (Any-map rs (λ q x. x.1) (find_route_sound m e)))
            ]

-- ===== src/Routing/Found.antt =====
-- `findRoute` against the list of registered routes.
use fearless.Base.{
  Option, none, some, Bool, true, false, Str, str_eq, str_eq_iff, str_eq_refl, get, List, [], ◌∷◌,
  ◌&&◌, ◌||◌, ◌≡◌, ◌≢◌, inl, inr, refl, ap, arith, Bool-cases, Option-cases, All, Any,
}
use fearless.Path.{normalize_path}
use fearless.Path.Laws.{normalize_path-IsNormal}
use fearless.Routing.Pattern.{
  HttpMethod, get_method, method_name, RouteSegment, RouteDefinition, compile_path,
  compile_segments, split_normalized_path, CompiledPath,
}
use fearless.Routing.Search.{
  Routes, RouteMatch, route_key, find_exact, get_method_name, head_method_name,
}
use fearless.Routing.Fits.{fits}
use fearless.Routing.Splitting.{fits-compile_segments, fits_exact, split_normalized_path-injective}
use fearless.Routing.Registered.{key_of, is_exact_at, is_param_at, last_exact, first_param}

abbrev pub NoNul : Str → Type 0
NoNul = All (λ c. c ≢ 0)

pub method_name-NoNul : (m : HttpMethod) → NoNul (method_name m)
method_name-NoNul get_method = omega arith
method_name-NoNul _ = omega arith

route_key-injective :
    (a b p q : Str) → NoNul a → NoNul b → route_key a p ≡ route_key b q → (a ≡ b) × (p ≡ q)
route_key-injective [] [] p q ha hb e = (refl, cc)
route_key-injective [] (d ∷ b) p q ha hb e = absurd (hb.0 (cc))
route_key-injective (c ∷ a) [] p q ha hb e = absurd (ha.0 (cc))
route_key-injective (c ∷ a) (d ∷ b) p q ha hb e =
    let (same, rest) = route_key-injective a b p q ha.1 hb.1 (cc) in (cc, rest)

module _ {A : Type 0} where
  -- The route has the method, and its pattern fits the normalised path.
  abbrev pub serves_as : Str → Str → RouteDefinition A → Bool
  serves_as method path r =
      str_eq (method_name r.method) method
      && fits r.compiled_path.segments (split_normalized_path (normalize_path path))

  -- A request by HEAD is served by a GET route too.
  abbrev pub serves : Str → Str → RouteDefinition A → Bool
  serves method path r =
      serves_as method path r
      || (str_eq method head_method_name && serves_as get_method_name path r)

  -- The pattern is `compilePath` of some path, as both registrations make it.
  abbrev pub IsCompiled : RouteDefinition A → Type 0
  IsCompiled r = (path : Str) × (r.compiled_path ≡ compile_path path)

  pub last_exact-Any :
      (key : Str) (rs : List (RouteDefinition A)) (r : RouteDefinition A)
      → last_exact key rs ≡ some r
      → Any (λ q. (q ≡ r) × (is_exact_at key q ≡ true)) rs
  unfolding last_exact
  last_exact-Any key [] r e = cc
  last_exact-Any key (q ∷ rs) r e = elim (Option-cases (last_exact key rs)) [
    | inl n ↦ inl (ground arith)
    | inr (q', s) ↦ inr (last_exact-Any key rs r (ground arith))
  ]

  pub last_exact-ne-none :
      (key : Str) (rs : List (RouteDefinition A))
      → Any (λ q. is_exact_at key q ≡ true) rs
      → last_exact key rs ≢ none
  unfolding last_exact
  last_exact-ne-none key [] h = elim h [ ]
  last_exact-ne-none key (q ∷ rs) (inl e) = ground arith
  last_exact-ne-none key (q ∷ rs) (inr h) = ground (arith, last_exact-ne-none key rs h)

  pub first_param-Any :
      (method : Str) (p : List RouteSegment) (rs : List (RouteDefinition A)) (r : RouteDefinition A)
      → first_param method p rs ≡ some r
      → Any (λ q. (q ≡ r) × (is_param_at method p q ≡ true)) rs
  unfolding first_param
  first_param-Any method p [] r e = cc
  first_param-Any method p (q ∷ rs) r e = elim (Bool-cases (is_param_at method p q)) [
    | inl y ↦ inl (ground arith)
    | inr n ↦ inr (first_param-Any method p rs r (ground arith))
  ]

  pub first_param-ne-none :
      (method : Str) (p : List RouteSegment) (rs : List (RouteDefinition A))
      → Any (λ q. is_param_at method p q ≡ true) rs
      → first_param method p rs ≢ none
  unfolding first_param
  first_param-ne-none method p [] h = elim h [ ]
  first_param-ne-none method p (q ∷ rs) (inl e) = ground arith
  first_param-ne-none method p (q ∷ rs) (inr h) = ground (arith, first_param-ne-none method p rs h)

  -- What a compiled route without parameters serves is its own path.
  pub exact_serves :
      (method path : Str) (r : RouteDefinition A)
      → IsCompiled r
      → NoNul method
      → is_exact_at (route_key method (normalize_path path)) r ≡ true
      → serves_as method path r ≡ true
  unfolding compile_path
  exact_serves method path r (own, e) h k =
      let same : key_of r ≡ route_key method (normalize_path path) =
        ground (arith, str_eq_iff (key_of r) (route_key method (normalize_path path))) in
      let (m, n) =
        route_key-injective (method_name r.method) method _ _ (method_name-NoNul r.method) h same in
      ground (
        arith,
        m,
        n,
        str_eq_refl method,
        fits-compile_segments (split_normalized_path (normalize_path own)),
        ap (λ (c : CompiledPath). c.segments) e,
        ap (λ (c : CompiledPath). c.normalized) e,
      )

  pub serves_exact :
      (method path : Str) (r : RouteDefinition A)
      → IsCompiled r
      → r.compiled_path.has_params ≡ false
      → serves_as method path r ≡ true
      → is_exact_at (route_key method (normalize_path path)) r ≡ true
  unfolding compile_path
  serves_exact method path r (own, e) h k =
      let np = normalize_path path in
      let no = normalize_path own in
      let fit : fits (compile_segments (split_normalized_path no)).0 (split_normalized_path np)
          ≡ true =
        ground (arith, ap (λ (c : CompiledPath). c.segments) e) in
      let plain : (compile_segments (split_normalized_path no)).1 ≡ false =
        ground (arith, ap (λ (c : CompiledPath). c.has_params) e) in
      let same : no ≡ np =
        split_normalized_path-injective no np (normalize_path-IsNormal own)
          (normalize_path-IsNormal path) (fits_exact _ _ plain fit) in
      ground (
        arith,
        same,
        ap (λ (c : CompiledPath). c.normalized) e,
        str_eq_iff (method_name r.method) method,
        str_eq_refl (route_key method np),
      )

  pub find_exact-eq-some :
      (decode : Str → Option Str) (s : Routes A) (method path : Str) (b : Bool) (m : RouteMatch A)
      → find_exact decode s method path b ≡ some m
      → get (route_key method path) s.exact_routes ≡ some m.route
  unfolding find_exact
  find_exact-eq-some decode s method path b m e = ground arith

-- ===== src/Builtins/Cache.antt =====
-- The cache of the built-in headers: what CORS adds, when the cache holds what the features give, and
-- what template routes of the Bun runtime write into it.
use fearless.Base.{
  ℕ, ◌≡◌, ◌≢◌, ◌⊎◌, inl, inr, refl, Option, none, some, Str, codes, str_eq, str_eq_iff, [], Dict,
  get, get-put, get-assign, last, or_else, if◌then◌else◌, arith, get_or,
}
use fearless.Builtins.Features.{BuiltinCorsConfig, BuiltinFeature, cors_feature, security_feature}
use fearless.Builtins.Headers.{
  Builtins, use_feature, put_max_age, put_cors, fresh_headers, build_builtin_headers,
  build_route_headers, cached_or_fresh,
}
use fearless.Builtins.Configs.{truthy, when, get-put_truthy, get-put_if}

abbrev max_age_text : (ℕ → Str) → Option ℕ → Option Str
max_age_text number_to_string none = none
max_age_text number_to_string (some n) = some (number_to_string n)

module _ (number_to_string : ℕ → Str) where
  get-put_max_age :
      (j : Str) (o : Option ℕ) (h : Dict Str)
      → get j (put_max_age number_to_string o h) ≡ (
          if str_eq (codes "Access-Control-Max-Age") j
          then or_else (max_age_text number_to_string o) (get j h)
          else get j h)
  unfolding put_max_age
  get-put_max_age j none h = ground arith
  get-put_max_age j (some n) h = get-put j (codes "Access-Control-Max-Age") (number_to_string n) h

  -- With CORS the allowed methods are always there, and each of the other headers exactly with the
  -- value that is configured, beside what `headers` holds; the security headers are left alone.
  put_cors_lem :
      (config : BuiltinCorsConfig) (headers : Dict Str)
      → (let h = put_cors number_to_string (some config) headers in
          (get (codes "Access-Control-Allow-Origin") h
            ≡ or_else (truthy config.origin) (get (codes "Access-Control-Allow-Origin") headers))
          × (get (codes "Access-Control-Allow-Methods") h ≡ some config.methods)
          × (get (codes "Access-Control-Allow-Headers") h
              ≡ or_else
                  (truthy config.allowed_headers)
                  (get (codes "Access-Control-Allow-Headers") headers))
          × (get (codes "Access-Control-Expose-Headers") h
              ≡ or_else
                  (truthy config.exposed_headers)
                  (get (codes "Access-Control-Expose-Headers") headers))
          × (get (codes "Access-Control-Allow-Credentials") h
              ≡ or_else
                  (when config.credentials (codes "true"))
                  (get (codes "Access-Control-Allow-Credentials") headers))
          × (get (codes "Access-Control-Max-Age") h
              ≡ or_else
                  (max_age_text number_to_string config.max_age)
                  (get (codes "Access-Control-Max-Age") headers))
          × (get (codes "X-Frame-Options") h ≡ get (codes "X-Frame-Options") headers))
  unfolding put_cors str_eq
  put_cors_lem config headers = (
    simp (get-put_truthy, get-put_if, get-put_max_age, get-put),
    simp (get-put_truthy, get-put_if, get-put_max_age, get-put),
    simp (get-put_truthy, get-put_if, get-put_max_age, get-put),
    simp (get-put_truthy, get-put_if, get-put_max_age, get-put),
    simp (get-put_truthy, get-put_if, get-put_max_age, get-put),
    simp (get-put_truthy, get-put_if, get-put_max_age, get-put),
    simp (get-put_truthy, get-put_if, get-put_max_age, get-put),
  )

  -- The cache is empty, or holds what the features give.
  abbrev pub IsFresh : Builtins → Type 0
  IsFresh s = (s.cache ≡ none) ⊎ (s.cache ≡ some (fresh_headers number_to_string s.builtin))

  use_feature-IsFresh : (feature : BuiltinFeature) (s : Builtins) → IsFresh (use_feature feature s)
  unfolding use_feature
  use_feature-IsFresh (cors_feature config) s = inl refl
  use_feature-IsFresh (security_feature config) s = inl refl

  -- From a fresh cache `buildBuiltinHeaders` gives the headers of the features, and leaves the
  -- features and a fresh cache.
  pub build_builtin_headers-IsFresh :
      (s : Builtins)
      → IsFresh s
      → ((build_builtin_headers number_to_string s).0 ≡ fresh_headers number_to_string s.builtin)
        × ((build_builtin_headers number_to_string s).1.builtin ≡ s.builtin)
        × IsFresh (build_builtin_headers number_to_string s).1
  unfolding build_builtin_headers
  build_builtin_headers-IsFresh s (inl e) = (rw e, refl, inr (rw e))
  build_builtin_headers-IsFresh s (inr e) = (rw e, refl, inr (rw e))

  -- What the headers of a template route hold.
  get-build_route_headers :
      (name : Str) (own : Option (Dict Str)) (kind : Str) (s : Builtins)
      → get name (build_route_headers number_to_string own kind s).0 ≡ (
          if str_eq (codes "Content-Type") name
          then some kind
          else or_else
              (last name (get_or own []))
              (get name (cached_or_fresh number_to_string s s.cache)))
  unfolding build_route_headers
  get-build_route_headers name own kind s = simp (get-put, get-assign)

  -- The headers of a template route stay in the cache: after `buildRouteHeaders`, the headers that
  -- `buildBuiltinHeaders` gives next hold that route's content type and, but for that name, its own
  -- headers.
  pub route_headers_leak :
      (name v : Str) (own : Dict Str) (kind : Str) (s : Builtins)
      → name ≢ codes "Content-Type"
      → last name own ≡ some v
      → (let later =
            build_builtin_headers number_to_string
              (build_route_headers number_to_string (some own) kind s).1 in
          (get name later.0 ≡ some v) × (get (codes "Content-Type") later.0 ≡ some kind))
  unfolding build_builtin_headers build_route_headers
  route_headers_leak name v own kind s other e = (
    simp (get-put, get-assign) (ground (arith, str_eq_iff (codes "Content-Type") name)),
    simp get-put (unfold str_eq in refl),
  )

-- ===== src/Builtins/Headers.antt =====
-- src/app.ts: `use`, `buildBuiltinHeaders`, `buildRouteHeaders`. The cache holds the header object
-- that `buildBuiltinHeaders` returns, so a write to the result is a write to the cache.
use fearless.Base.{
  ℕ, Option, none, some, Bool, Str, codes, [], ◌∷◌, Dict, put, assign, if◌then◌else◌, get_or,
}
use fearless.Builtins.Features.{
  BuiltinCorsConfig, BuiltinSecurityHeadersConfig, BuiltinFeature, cors_feature, security_feature,
}

pub record BuiltinState : Type 0 where
  pub headers : Dict Str
  pub cors : Option BuiltinCorsConfig

-- The fields `builtin` and `builtinHeadersCache` of `App`.
pub record Builtins : Type 0 where
  pub builtin : BuiltinState
  pub cache : Option (Dict Str)

abbrev pub no_builtins : Builtins
no_builtins = record { builtin = record { headers = []; cors = none }; cache = none }

-- `if (value) headers[name] = value`: null and the empty string are falsy.
unfoldable pub put_truthy : Str → Option Str → Dict Str → Dict Str
unfolding put
put_truthy name none headers = headers
put_truthy name (some []) headers = headers
put_truthy name (some (c ∷ s)) headers = put name (c ∷ s) headers

unfoldable pub put_if : Bool → Str → Str → Dict Str → Dict Str
unfolding put
put_if test name value headers = if test then put name value headers else headers

-- The writes of `case "securityHeaders"`.
unfoldable put_security : BuiltinSecurityHeadersConfig → Dict Str → Dict Str
unfolding put_truthy put_if
put_security config headers =
    put_truthy (codes "Content-Security-Policy") config.content_security_policy (
      put_truthy (codes "Cross-Origin-Resource-Policy") config.cross_origin_resource_policy (
        put_truthy (codes "Cross-Origin-Opener-Policy") config.cross_origin_opener_policy (
          put_truthy (codes "Referrer-Policy") config.referrer_policy (
            put_truthy (codes "X-Frame-Options") config.frame_options (
              put_if config.no_sniff (codes "X-Content-Type-Options") (codes "nosniff") headers)))))

-- `use`, which drops the cache first.
unfoldable pub use_feature : BuiltinFeature → Builtins → Builtins
unfolding put_security
use_feature (cors_feature config) s = record {
  builtin = record s.builtin { cors = some config };
  cache = none;
}
use_feature (security_feature config) s = record {
  builtin = record s.builtin { headers = put_security config s.builtin.headers };
  cache = none;
}

module _ (number_to_string : ℕ → Str) where
  unfoldable pub put_max_age : Option ℕ → Dict Str → Dict Str
  unfolding put
  put_max_age none headers = headers
  put_max_age (some n) headers = put (codes "Access-Control-Max-Age") (number_to_string n) headers

  -- The writes under `if (cors)`.
  unfoldable pub put_cors : Option BuiltinCorsConfig → Dict Str → Dict Str
  unfolding put_truthy put_if put_max_age put
  put_cors none headers = headers
  put_cors (some cors) headers = put_max_age cors.max_age (
      put_if cors.credentials (codes "Access-Control-Allow-Credentials") (codes "true") (
        put_truthy (codes "Access-Control-Expose-Headers") cors.exposed_headers (
          put_truthy (codes "Access-Control-Allow-Headers") cors.allowed_headers (
            put (codes "Access-Control-Allow-Methods") cors.methods
              (put_truthy (codes "Access-Control-Allow-Origin") cors.origin headers)))))

  -- The headers of the features, where nothing is cached. Without any feature the result is the
  -- empty object, as the early return gives it.
  unfoldable pub fresh_headers : BuiltinState → Dict Str
  unfolding put_cors assign
  fresh_headers builtin = put_cors builtin.cors (assign [] builtin.headers)

  abbrev pub cached_or_fresh : Builtins → Option (Dict Str) → Dict Str
  cached_or_fresh s none = fresh_headers s.builtin
  cached_or_fresh s (some headers) = headers

  unfoldable pub build_builtin_headers : Builtins → Dict Str × Builtins
  unfolding fresh_headers
  build_builtin_headers s =
      let headers = cached_or_fresh s s.cache in (headers, record s { cache = some headers })

  -- The headers of a template route: those of the features, overwritten by the route's own and by
  -- its content type. The object that is written is the cached one.
  unfoldable pub build_route_headers : Option (Dict Str) → Str → Builtins → Dict Str × Builtins
  unfolding build_builtin_headers assign put
  build_route_headers route_headers content_type s =
      let (base, s') = build_builtin_headers s in
      let headers =
        put (codes "Content-Type") content_type (assign base (get_or route_headers [])) in
      (headers, record s' { cache = some headers })

-- ===== src/Builtins/Features.antt =====
-- src/types.ts: the configurations; src/dependencies/cors.ts and src/dependencies/security.ts.
use fearless.Base.{ℕ, Option, none, some, Bool, true, false, Str, codes, List, get_or, join}

pub record BuiltinCorsConfig : Type 0 where
  pub origin : Option Str
  pub methods : Str
  pub allowed_headers : Option Str
  pub exposed_headers : Option Str
  pub credentials : Bool
  pub max_age : Option ℕ
  pub options_success_status : ℕ

pub record BuiltinSecurityHeadersConfig : Type 0 where
  pub content_security_policy : Option Str
  pub cross_origin_opener_policy : Option Str
  pub cross_origin_resource_policy : Option Str
  pub referrer_policy : Option Str
  pub frame_options : Option Str
  pub no_sniff : Bool

pub data BuiltinFeature : Type 0 where
  cors_feature : BuiltinCorsConfig → BuiltinFeature
  security_feature : BuiltinSecurityHeadersConfig → BuiltinFeature

-- `string | boolean`
pub data Origin : Type 0 where
  origin_text : Str → Origin
  origin_bool : Bool → Origin

-- What the code asks of a number: whether it is finite, whether it is below zero, and its floor.
pub data MaxAge : Type 0 where
  not_finite below_zero : MaxAge
  from_zero : ℕ → MaxAge

pub record CorsOptions : Type 0 where
  pub origin : Option Origin
  pub methods : Option (List Str)
  pub allowed_headers : Option (List Str)
  pub exposed_headers : Option (List Str)
  pub credentials : Option Bool
  pub max_age : Option MaxAge
  pub options_success_status : Option ℕ

-- `string | false`
pub data Policy : Type 0 where
  policy : Str → Policy
  disabled : Policy

pub record SecurityHeadersOptions : Type 0 where
  pub content_security_policy : Option Policy
  pub cross_origin_opener_policy : Option Policy
  pub cross_origin_resource_policy : Option Policy
  pub referrer_policy : Option Policy
  pub frame_options : Option Policy
  pub no_sniff : Option Bool

unfoldable serialize_origin : Option Origin → Option Str
serialize_origin (some (origin_bool false)) = none
serialize_origin none = some (codes "*")
serialize_origin (some (origin_bool true)) = some (codes "*")
serialize_origin (some (origin_text origin)) = some origin

unfoldable join_or : Option (List Str) → Option Str
unfolding join
join_or none = none
join_or (some names) = some (join (codes ", ") names)

unfoldable floor_max_age : Option MaxAge → Option ℕ
floor_max_age (some (from_zero n)) = some n
floor_max_age _ = none

-- `value === true`
abbrev is_true : Option Bool → Bool
is_true (some true) = true
is_true _ = false

-- `value !== false`
abbrev is_not_false : Option Bool → Bool
is_not_false (some false) = false
is_not_false _ = true

abbrev default_methods : Str
default_methods = codes "GET, POST, PUT, PATCH, DELETE, HEAD, OPTIONS"

unfoldable build_cors_config : CorsOptions → BuiltinCorsConfig
unfolding serialize_origin join_or floor_max_age
build_cors_config options = record {
  origin = serialize_origin options.origin;
  methods = get_or (join_or options.methods) default_methods;
  allowed_headers = join_or options.allowed_headers;
  exposed_headers = join_or options.exposed_headers;
  credentials = is_true options.credentials;
  max_age = floor_max_age options.max_age;
  options_success_status = get_or options.options_success_status 204;
}

unfoldable pub cors : CorsOptions → BuiltinFeature
unfolding build_cors_config
cors options = cors_feature (build_cors_config options)

-- `value === false ? null : value ?? fallback`
unfoldable policy_or : Option Policy → Option Str → Option Str
policy_or (some disabled) fallback = none
policy_or (some (policy value)) fallback = some value
policy_or none fallback = fallback

unfoldable build_security_headers_config : SecurityHeadersOptions → BuiltinSecurityHeadersConfig
unfolding policy_or
build_security_headers_config options = record {
  content_security_policy = policy_or options.content_security_policy none;
  cross_origin_opener_policy =
      policy_or options.cross_origin_opener_policy (some (codes "same-origin"));
  cross_origin_resource_policy =
      policy_or options.cross_origin_resource_policy (some (codes "same-origin"));
  referrer_policy = policy_or options.referrer_policy (some (codes "no-referrer"));
  frame_options = policy_or options.frame_options (some (codes "DENY"));
  no_sniff = is_not_false options.no_sniff;
}

unfoldable security_headers : SecurityHeadersOptions → BuiltinFeature
unfolding build_security_headers_config
security_headers options = security_feature (build_security_headers_config options)

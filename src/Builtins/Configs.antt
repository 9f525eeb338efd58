-- ===== src/Builtins/Configs.antt =====
-- Which headers the features give.
use fearless.Base.{
  ◌≡◌, Option, none, some, Bool, true, false, Str, codes, str_eq, [], ◌∷◌, Dict, get, get-put,
  or_else, if◌then◌else◌, arith,
}
use fearless.Builtins.Features.{BuiltinSecurityHeadersConfig, security_feature}
use fearless.Builtins.Headers.{Builtins, put_truthy, put_if, use_feature}

-- A value that is neither null nor the empty string.
abbrev pub truthy : Option Str → Option Str
truthy none = none
truthy (some []) = none
truthy (some (c ∷ s)) = some (c ∷ s)

abbrev pub when : Bool → Str → Option Str
when test v = if test then some v else none

pub get-put_truthy :
    (j k : Str) (o : Option Str) (h : Dict Str)
    → get j (put_truthy k o h) ≡ (if str_eq k j then or_else (truthy o) (get j h) else get j h)
unfolding put_truthy
get-put_truthy j k none h = ground arith
get-put_truthy j k (some []) h = ground arith
get-put_truthy j k (some (c ∷ s)) h = get-put j k (c ∷ s) h

pub get-put_if :
    (j k v : Str) (b : Bool) (h : Dict Str)
    → get j (put_if b k v h) ≡ (if str_eq k j then or_else (when b v) (get j h) else get j h)
unfolding put_if
get-put_if j k v true h = get-put j k v h
get-put_if j k v false h = ground arith

-- After `use(securityHeaders(…))` each of the six headers has the configured value; one that the
-- configuration leaves out keeps the value of an earlier call.
pub use_security_headers :
    (config : BuiltinSecurityHeadersConfig) (s : Builtins)
    → (let h = (use_feature (security_feature config) s).builtin.headers in
        let old = s.builtin.headers in
        (get (codes "X-Content-Type-Options") h
          ≡ or_else
              (when config.no_sniff (codes "nosniff"))
              (get (codes "X-Content-Type-Options") old))
        × (get (codes "X-Frame-Options") h
            ≡ or_else (truthy config.frame_options) (get (codes "X-Frame-Options") old))
        × (get (codes "Referrer-Policy") h
            ≡ or_else (truthy config.referrer_policy) (get (codes "Referrer-Policy") old))
        × (get (codes "Cross-Origin-Opener-Policy") h
            ≡ or_else
                (truthy config.cross_origin_opener_policy)
                (get (codes "Cross-Origin-Opener-Policy") old))
        × (get (codes "Cross-Origin-Resource-Policy") h
            ≡ or_else
                (truthy config.cross_origin_resource_policy)
                (get (codes "Cross-Origin-Resource-Policy") old))
        × (get (codes "Content-Security-Policy") h
            ≡ or_else
                (truthy config.content_security_policy)
                (get (codes "Content-Security-Policy") old)))
unfolding use_feature str_eq
use_security_headers config s = (
  simp (get-put_truthy, get-put_if),
  simp (get-put_truthy, get-put_if),
  simp (get-put_truthy, get-put_if),
  simp (get-put_truthy, get-put_if),
  simp (get-put_truthy, get-put_if),
  simp (get-put_truthy, get-put_if),
)

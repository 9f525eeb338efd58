-- ===== src/App/Benchmark.antt =====
-- src/rust-core.ts: `isBenchmarkManifest` and the arguments with which `startRustCoreServer` starts the
-- Rust core.
use fearless.Base.{
  ℕ, Option, none, some, Bool, true, false, Str, codes, str_eq, List, [], ◌∷◌, ◌&&◌, ◌==◌, length,
  if◌then◌else◌, ◌≡◌, refl, arith, map, Dict,
}
use fearless.Web.Values.{Json, str, obj, Fields, no_fields, field}
use fearless.Template.Render.{ResponseKind, text_kind, json_kind}
use fearless.Builtins.Features.{BuiltinCorsConfig}
use fearless.App.Listen.{RustStaticRoute, RustCoreManifest}

abbrev hello_world : Str
hello_world = codes "Hello, World!"

unfoldable get_field : Str → Fields → Option Json
get_field key no_fields = none
get_field key (field k v fields) = if str_eq k key then some v else get_field key fields

abbrev is_hello : Json → Bool
is_hello (str s) = str_eq s hello_world
is_hello _ = false

abbrev is_some_hello : Option Json → Bool
is_some_hello none = false
is_some_hello (some v) = is_hello v

abbrev has_hello_message : Json → Bool
has_hello_message (obj fields) = is_some_hello (get_field (codes "message") fields)
has_hello_message _ = false

abbrev is_text : ResponseKind → Bool
is_text text_kind = true
is_text _ = false

abbrev is_json : ResponseKind → Bool
is_json json_kind = true
is_json _ = false

-- `manifest.routes.find((r) => r.method === "GET" && r.path === path)`
unfoldable find_get : Str → List RustStaticRoute → Option RustStaticRoute
find_get path [] = none
find_get path (r ∷ rs) =
    let rest = find_get path rs in
    if str_eq r.method (codes "GET") && str_eq r.path path then some r else rest

abbrev both_hello : Option RustStaticRoute → Option RustStaticRoute → Bool
both_hello (some plaintext) (some json) =
    is_text plaintext.response.kind
    && is_hello plaintext.response.body
    && (is_json json.response.kind && has_hello_message json.response.body)
both_hello _ _ = false

abbrev is_empty_dict : Dict Str → Bool
is_empty_dict [] = true
is_empty_dict (h ∷ hs) = false

unfoldable pub is_benchmark_manifest : RustCoreManifest → Bool
unfolding find_get get_field
is_benchmark_manifest m =
    is_empty_dict m.headers
    && (length m.routes == 2
        && both_hello (find_get (codes "/plaintext") m.routes) (find_get (codes "/json") m.routes))

-- The arguments of `spawn`: the benchmark's server is given no manifest.
unfoldable pub rust_core_args : Str → Str → RustCoreManifest → List Str
unfolding is_benchmark_manifest
rust_core_args port manifest_path m =
    if is_benchmark_manifest m
    then codes "--port" ∷ port ∷ []
    else codes "--port" ∷ port ∷ codes "--manifest" ∷ manifest_path ∷ []

-- The route with another status and other headers.
abbrev pub with_status_and_headers :
    (RustStaticRoute → Option ℕ) → (RustStaticRoute → Dict Str) → RustStaticRoute → RustStaticRoute
with_status_and_headers status headers r = record r {
  response = record r.response { status = status r; headers = some (headers r) };
  headers = headers r;
}

module _ (status : RustStaticRoute → Option ℕ) (headers : RustStaticRoute → Dict Str) where
  changed : Option RustStaticRoute → Option RustStaticRoute
  changed none = none
  changed (some r) = some (with_status_and_headers status headers r)

  find_get-map :
      (path : Str) (rs : List RustStaticRoute)
      → find_get path (map (with_status_and_headers status headers) rs) ≡ changed (find_get path rs)
  unfolding find_get changed
  find_get-map path [] = refl
  find_get-map path (r ∷ rs) = ground (arith, find_get-map path rs)

  length-map :
      (rs : List RustStaticRoute)
      → length (map (with_status_and_headers status headers) rs) ≡ length rs
  length-map [] = refl
  length-map (r ∷ rs) = ground (arith, length-map rs)

  both_hello-changed :
      (o o' : Option RustStaticRoute) → both_hello (changed o) (changed o') ≡ both_hello o o'
  unfolding changed
  both_hello-changed none o' = refl
  both_hello-changed (some r) none = refl
  both_hello-changed (some r) (some r') = refl

  -- If a manifest is taken for the benchmark's, so is each that differs from it in the configuration of
  -- CORS and in the statuses and the headers of its routes: the Rust core is started without it.
  pub rust_core_args_lem :
      (port manifest_path : Str) (m : RustCoreManifest) (cors : Option BuiltinCorsConfig)
      → is_benchmark_manifest m ≡ true
      → rust_core_args port manifest_path
          (record m { cors = cors; routes = map (with_status_and_headers status headers) m.routes })
        ≡ codes "--port" ∷ port ∷ []
  unfolding rust_core_args
  rust_core_args_lem port manifest_path m cors h =
      rw
        (
          length-map m.routes,
          find_get-map (codes "/plaintext") m.routes,
          find_get-map (codes "/json") m.routes,
          both_hello-changed (find_get (codes "/plaintext") m.routes)
              (find_get (codes "/json") m.routes),
          h,
        )
        refl

-- ===== src/App/Listen.antt =====
-- src/app.ts: the choice of a runtime in `listen`, `startNodeServer`, `createRustManifest` and `close`;
-- src/rust-core.ts: `isBenchmarkManifest`.
use fearless.Base.{
  Option, Bool, true, false, not, Str, List, [], ◌∷◌, ◌&&◌, ◌||◌, Dict, get_or, if◌then◌else◌,
}
use fearless.Template.Render.{RouteResponseSpec}
use fearless.Routing.Pattern.{method_name, RouteDefinition}
use fearless.Builtins.Features.{BuiltinCorsConfig}
use fearless.App.State.{App, Action, template, handler, has_handler_routes}

pub data RuntimeMode : Type 0 where
  auto_runtime node_runtime rust_runtime : RuntimeMode

pub data HttpVersion : Type 0 where
  auto_version version_1_1 version_2 : HttpVersion

-- The options that `listen` reads, with their defaults put in.
pub record AppOptions : Type 0 where
  pub key_file_name : Str
  pub cert_file_name : Str
  pub runtime : RuntimeMode
  pub http_version : HttpVersion

pub record RustStaticRoute : Type 0 where
  pub method : Str
  pub path : Str
  pub response : RouteResponseSpec
  pub headers : Dict Str

pub record RustCoreManifest : Type 0 where
  pub routes : List RustStaticRoute
  pub headers : Dict Str
  pub cors : Option BuiltinCorsConfig

-- What `listen` starts, or that it throws.
pub data Started : Type 0 where
  http_server https_server http2_server bun_server : Started
  rust_server : RustCoreManifest → Started
  failed : Started

-- `Boolean(text)`
abbrev pub is_set : Str → Bool
is_set [] = false
is_set (c ∷ s) = true

abbrev pub use_https : AppOptions → Bool
use_https c = is_set c.key_file_name || is_set c.cert_file_name

abbrev pub is_auto : RuntimeMode → Bool
is_auto auto_runtime = true
is_auto _ = false

abbrev is_node : RuntimeMode → Bool
is_node node_runtime = true
is_node _ = false

abbrev is_rust : RuntimeMode → Bool
is_rust rust_runtime = true
is_rust _ = false

unfoldable can_use_rust_runtime : AppOptions → Bool → Bool
can_use_rust_runtime c https = not (is_node c.runtime || https)

unfoldable can_use_bun_runtime : AppOptions → Bool → Bool → Bool
can_use_bun_runtime c https bun_available =
    if not (is_auto c.runtime) || https then false else bun_available

abbrev is_http2 : HttpVersion → Bool
is_http2 version_2 = true
is_http2 _ = false

unfoldable should_use_http2 : AppOptions → Bool → Bool
should_use_http2 c https = https && version_allows c.http_version
  where
    version_allows : HttpVersion → Bool
    version_allows version_1_1 = false
    version_allows version_2 = true
    version_allows auto_version = true

-- `startNodeServer`, up to the calls of Node.
unfoldable pub start_node_server : AppOptions → Started
unfolding should_use_http2
start_node_server c =
    if use_https c
    then if is_set c.key_file_name && is_set c.cert_file_name
      then (if should_use_http2 c (use_https c) then http2_server else https_server)
      else failed
    else if is_http2 c.http_version
    then failed
    else http_server

module _ {S : Type 0} where
  abbrev manifest_route : RouteDefinition (Action S) → RouteResponseSpec → RustStaticRoute
  manifest_route r response = record {
    method = method_name r.method;
    path = r.compiled_path.normalized;
    response = response;
    headers = get_or response.headers [];
  }

  -- The loop of `createRustManifest`.
  unfoldable pub manifest_routes : List (RouteDefinition (Action S)) → List RustStaticRoute
  manifest_routes [] = []
  manifest_routes (r ∷ rs) = add r.action (manifest_routes rs)
    where
      add : Action S → List RustStaticRoute → List RustStaticRoute
      add (handler h) rest = rest
      add (template response) rest = manifest_route r response ∷ rest

  unfoldable pub create_rust_manifest : App S → RustCoreManifest
  unfolding manifest_routes
  create_rust_manifest app = record {
    routes = manifest_routes app.routes.routes;
    headers = app.builtins.builtin.headers;
    cors = app.builtins.builtin.cors;
  }

  -- `listen`: the early returns in their order.
  unfoldable pub listen : AppOptions → Bool → App S → Started
  unfolding can_use_bun_runtime can_use_rust_runtime
  listen c bun_available app =
      let https = use_https c in
      let handlers = has_handler_routes app in
      if handlers && is_rust c.runtime
      then failed
      else if is_node c.runtime
      then start_node_server c
      else if can_use_bun_runtime c https bun_available
      then bun_server
      else if handlers
      then start_node_server c
      else if not (can_use_rust_runtime c https)
      then failed
      else rust_server (create_rust_manifest app)

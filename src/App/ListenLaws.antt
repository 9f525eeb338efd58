-- ===== src/App/ListenLaws.antt =====
-- What `listen` starts.
use fearless.Base.{
  some_of, Bool, true, false, Str, List, [], ◌∷◌, ◌&&◌, ◌||◌, ◌≡◌, ◌≢◌, refl, arith, ◌⊎◌, ◌↔◌,
  get_or,
}
use fearless.Template.Render.{RouteResponseSpec}
use fearless.Routing.Pattern.{RouteDefinition, method_name}
use fearless.App.State.{App, Action, template, handler, has_handler_routes, is_handler}
use fearless.App.Listen.{
  RuntimeMode, auto_runtime, node_runtime, rust_runtime, HttpVersion, auto_version, version_1_1,
  version_2, AppOptions, use_https, is_set, bun_server, is_auto, rust_server, failed,
  RustStaticRoute, RustCoreManifest, manifest_routes, create_rust_manifest, listen,
  start_node_server,
}

module _ (k c : Str) (runtime : RuntimeMode) where
  abbrev options : HttpVersion → AppOptions
  options v = record { key_file_name = k; cert_file_name = c; runtime = runtime; http_version = v }

  failed_if :
      (v : HttpVersion)
      → start_node_server (options v) ≡ failed
      → (is_set k ≢ is_set c) ⊎ ((use_https (options v) ≡ false) × (v ≡ version_2))
  unfolding start_node_server
  failed_if auto_version h = ground arith
  failed_if version_1_1 h = ground arith
  failed_if version_2 h = ground arith

  failed_of :
      (v : HttpVersion)
      → (is_set k ≢ is_set c) ⊎ ((use_https (options v) ≡ false) × (v ≡ version_2))
      → start_node_server (options v) ≡ failed
  unfolding start_node_server
  failed_of auto_version h = ground arith
  failed_of version_1_1 h = ground arith
  failed_of version_2 h = ground arith

start_node_server-ne-rust_server :
    (c : AppOptions) (m : RustCoreManifest) → start_node_server c ≢ rust_server m
unfolding start_node_server
start_node_server-ne-rust_server c m = ground arith

-- `startNodeServer` throws one of its own errors exactly if just one of the key and the certificate is
-- configured, or neither is and HTTP/2 is asked for.
pub start_node_server-eq-failed_iff :
    (c : AppOptions)
    → (start_node_server c ≡ failed) ↔ (
        (is_set c.key_file_name ≢ is_set c.cert_file_name)
        ⊎ ((use_https c ≡ false) × (c.http_version ≡ version_2)))
unfolding start_node_server
start_node_server-eq-failed_iff c = (
  failed_if c.key_file_name c.cert_file_name c.runtime c.http_version,
  failed_of c.key_file_name c.cert_file_name c.runtime c.http_version,
)

-- The order in which the runtimes are chosen.

module _ {S : Type 0} where
  -- A template route of the app and the route of the manifest that stands for it.
  abbrev IsMirrored : RouteDefinition (Action S) → RustStaticRoute → Type 0
  IsMirrored r s =
      (response : RouteResponseSpec) × (r.action ≡ template response)
      × (s.method ≡ method_name r.method)
      × (s.path ≡ r.compiled_path.normalized)
      × (s.response ≡ response)
      × (s.headers ≡ get_or response.headers [])

  unfoldable pub AreMirrored : List (RouteDefinition (Action S)) → List RustStaticRoute → Type 0
  AreMirrored [] [] = Unit
  AreMirrored [] (s ∷ ss) = ⊥
  AreMirrored (r ∷ rs) [] = ⊥
  AreMirrored (r ∷ rs) (s ∷ ss) = IsMirrored r s × AreMirrored rs ss

  mirror_cons :
      (a : Action S) (r : RouteDefinition (Action S)) (rs : List (RouteDefinition (Action S)))
      → r.action ≡ a
      → is_handler r || some_of is_handler rs ≡ false
      → AreMirrored rs (manifest_routes rs)
      → AreMirrored (r ∷ rs) (manifest_routes (r ∷ rs))
  unfolding manifest_routes AreMirrored
  mirror_cons (handler f) r rs e h k = cc (rw e at h)
  mirror_cons (template response) r rs e h k = rw e ((response, refl, refl, refl, refl, refl), k)

  manifest_routes-AreMirrored :
      (rs : List (RouteDefinition (Action S)))
      → some_of is_handler rs ≡ false
      → AreMirrored rs (manifest_routes rs)
  unfolding manifest_routes AreMirrored
  manifest_routes-AreMirrored [] h = tt
  manifest_routes-AreMirrored (r ∷ rs) h =
      mirror_cons r.action r rs refl h (manifest_routes-AreMirrored rs (ground arith))

  module _ (k c : Str) (v : HttpVersion) (bun_available : Bool) (app : App S) where
    abbrev configured : RuntimeMode → AppOptions
    configured runtime = record {
      key_file_name = k;
      cert_file_name = c;
      runtime = runtime;
      http_version = v;
    }

    rust_server_if :
        (runtime : RuntimeMode) (m : RustCoreManifest)
        → listen (configured runtime) bun_available app ≡ rust_server m
        → (has_handler_routes app ≡ false)
          × (use_https (configured runtime) ≡ false)
          × (runtime ≢ node_runtime)
          × (is_auto runtime && bun_available ≡ false)
          × (m ≡ create_rust_manifest app)
    unfolding listen
    rust_server_if auto_runtime m h =
        let no = start_node_server-ne-rust_server (configured auto_runtime) m in
        (ground arith, ground arith, cc, ground arith, ground arith)
    rust_server_if node_runtime m h =
        let no = start_node_server-ne-rust_server (configured node_runtime) m in ground arith
    rust_server_if rust_runtime m h =
        let no = start_node_server-ne-rust_server (configured rust_runtime) m in
        (ground arith, ground arith, cc, ground arith, ground arith)

    rust_server_of :
        (runtime : RuntimeMode)
        → has_handler_routes app ≡ false
        → use_https (configured runtime) ≡ false
        → runtime ≢ node_runtime
        → (is_auto runtime && bun_available ≡ false)
        → listen (configured runtime) bun_available app ≡ rust_server (create_rust_manifest app)
    unfolding listen
    rust_server_of auto_runtime handlers https node bun = ground arith
    rust_server_of node_runtime handlers https node bun = absurd (node refl)
    rust_server_of rust_runtime handlers https node bun = ground arith

  -- `listen` starts the Rust core exactly if the app has no handler, no HTTPS, no Node runtime asked
  -- for and no Bun runtime that it may take, and then with the manifest of the app, which has
  -- exactly the routes of the app, in their order.
  pub listen-eq-rust_server_iff :
      (c : AppOptions) (bun_available : Bool) (app : App S) (m : RustCoreManifest)
      → (listen c bun_available app ≡ rust_server m) ↔ (
          (has_handler_routes app ≡ false)
          × (use_https c ≡ false)
          × (c.runtime ≢ node_runtime)
          × (is_auto c.runtime && bun_available ≡ false)
          × (m ≡ create_rust_manifest app)
          × AreMirrored app.routes.routes m.routes)
  unfolding listen has_handler_routes create_rust_manifest manifest_routes
  listen-eq-rust_server_iff c bun_available app m = (
    (λ h.
        let (handlers, https, node, bun, eq) =
          rust_server_if c.key_file_name c.cert_file_name c.http_version bun_available app c.runtime
            m h in
        (
          handlers,
          https,
          node,
          bun,
          eq,
          rw eq (manifest_routes-AreMirrored app.routes.routes handlers),
        )),
    (λ (handlers, https, node, bun, eq, mirrored). rw eq (
        rust_server_of c.key_file_name c.cert_file_name c.http_version bun_available app c.runtime
          handlers https node bun)),
  )

  -- With the default runtime, HTTPS and template routes only, `listen` throws, whatever the
  -- certificate, the version of HTTP and the runtimes that are there.
  pub listen_https_template_only :
      (c : AppOptions) (bun_available : Bool) (app : App S)
      → c.runtime ≡ auto_runtime
      → use_https c ≡ true
      → has_handler_routes app ≡ false
      → listen c bun_available app ≡ failed
  unfolding listen
  listen_https_template_only c bun_available app auto https none_left = ground arith

  -- With a handler among the routes, no Rust core is started: `listen` throws if it is asked for one,
  -- else it starts Bun's server or whatever `startNodeServer` starts.
  listen_with_handlers :
      (c : AppOptions) (bun_available : Bool) (app : App S)
      → has_handler_routes app ≡ true
      → ((c.runtime ≡ rust_runtime) × (listen c bun_available app ≡ failed))
        ⊎ ((c.runtime ≢ rust_runtime)
            × ((listen c bun_available app ≡ bun_server)
                ⊎ (listen c bun_available app ≡ start_node_server c)))
  unfolding listen
  listen_with_handlers c bun_available app some_left = ground arith

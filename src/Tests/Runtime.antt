-- ===== src/Tests/Runtime.antt =====
-- Examples for features, the request handlers of the runtimes, and `listen`.
use fearless.Base.{
  All, arith, map, ℕ, Option, none, some, true, false, Str, codes, [], ◌∷◌, ◌≡◌, ◌≢◌, refl, get,
  ◌↔◌, inl, str_eq, Dict, ◌&&◌, last, assign, or_else,
}
use fearless.Web.Values.{Json, str, obj, field, no_fields, ok, Result}
use fearless.Web.Response.{WebResponse}
use fearless.Routing.Pattern.{get_method}
use fearless.Routing.Search.{compile_route}
use fearless.Routing.Registered.{add_routes}
use fearless.Routing.Fits.{fits}
use fearless.Routing.Found.{method_name-NoNul}
use fearless.Builtins.Features.{BuiltinSecurityHeadersConfig}
use fearless.Builtins.Headers.{Builtins, build_builtin_headers, build_route_headers, fresh_headers}
use fearless.Builtins.Cache.{route_headers_leak}
use fearless.Outgoing.{ServerResponse, new_server_response}
use fearless.Outgoing.Laws.{last_named}
use fearless.App.State.{App, has_handler_routes}
use fearless.App.Node.{handle_node_request}
use fearless.App.NodeLaws.{IsKept, handle_node_request-IsKept, handle_node_request_not_found}
use fearless.App.Bun.{
  create_bun_response, create_static_bun_response, create_bun_not_found_response,
  empty_template_context, route_can_use_static_bun_response,
}
use fearless.App.BunLaws.{create_static_bun_response_lem, not_found_after_template}
use fearless.App.Listen.{
  RustStaticRoute, AppOptions, auto_runtime, rust_runtime, node_runtime, version_2, auto_version,
  use_https, is_auto, failed, rust_server, listen, create_rust_manifest, RustCoreManifest,
}
use fearless.App.ListenLaws.{AreMirrored, listen-eq-rust_server_iff, listen_https_template_only}
use fearless.App.Benchmark.{
  is_benchmark_manifest, rust_core_args, with_status_and_headers, rust_core_args_lem,
}
use fearless.Emit.Escape.{escape_rust_byte_string}
use fearless.Emit.EscapeLaws.{
  plain, read_bytes, read_bytes-escape_rust_byte_string, Printable,
  escape_rust_byte_string-Printable,
}
use fearless.Template.Render.{RouteResponseSpec, text_kind, json_kind}
use fearless.Tests.Data.{
  js, hello, two_routes, two_routes-IsCompiled, two_routes_app, get_request, wildcard, differ,
}

abbrev framed : BuiltinSecurityHeadersConfig
framed = record {
  content_security_policy = none;
  cross_origin_opener_policy = some (codes "same-origin");
  cross_origin_resource_policy = none;
  referrer_policy = none;
  frame_options = some (codes "DENY");
  no_sniff = true;
}

abbrev open_to_all : Builtins
open_to_all = record { builtin = record { headers = []; cors = some wildcard }; cache = none }

abbrev x_route : Str
x_route = codes "X-Route"

route_headers_leak_example :
    (let later =
        build_builtin_headers js.number_to_string
          (build_route_headers js.number_to_string
            (some ((x_route, codes "a") ∷ []))
            (codes "text/html")
            open_to_all).1 in
      (get x_route later.0 ≡ some (codes "a"))
      × (get (codes "Content-Type") later.0 ≡ some (codes "text/html")))
unfolding str_eq last
route_headers_leak_example =
    route_headers_leak js.number_to_string x_route (codes "a") ((x_route, codes "a") ∷ [])
      (codes "text/html") open_to_all (differ x_route (codes "Content-Type") refl) refl

abbrev no_json : Str → Json
no_json s = str s

handle_node_request-IsKept_example :
    IsKept js no_json
      (λ c. 0)
      (λ s. false)
      two_routes_app
      (handle_node_request js no_json
        (λ c. 0)
        (λ s. false)
        (get_request (codes "/users/7"))
        two_routes_app
        new_server_response).1
handle_node_request-IsKept_example =
    handle_node_request-IsKept js no_json (λ c. 0) (λ s. false) (get_request (codes "/users/7"))
      two_routes_app new_server_response (inl refl)

handle_node_request_not_found_example :
    (res' : ServerResponse) × (app' : App ℕ) × (handle_node_request js no_json
        (λ c. 0)
        (λ s. false)
        (get_request (codes "/posts"))
        two_routes_app
        new_server_response
      ≡ (ok res', app'))
    × (res'.status_code ≡ 404)
    × (res'.ended ≡ some (some (codes "Not Found")))
    × ((name : Str)
        → get name res'.headers
          ≡ or_else
              (last_named name
                (assign [] (fresh_headers js.number_to_string two_routes_app.builtins.builtin)))
              (get name new_server_response.headers))
unfolding compile_route fits
handle_node_request_not_found_example =
    handle_node_request_not_found js no_json (λ c. 0) (λ s. false) (get_request (codes "/posts"))
      two_routes_app new_server_response two_routes (inl refl) refl two_routes-IsCompiled
      (method_name-NoNul get_method) (differ (codes "GET") (codes "OPTIONS") refl)
      (refl, (refl, tt))

abbrev construct : Option Str → ℕ → Dict Str → Result WebResponse
construct body status headers = ok (record { status = status; headers = headers; body = body })

create_static_bun_response_lem_example :
    create_static_bun_response js construct hello two_routes_app
    ≡ create_bun_response js construct hello
        (record empty_template_context { path = codes "/x" })
        two_routes_app
unfolding route_can_use_static_bun_response
create_static_bun_response_lem_example =
    create_static_bun_response_lem js construct false hello
      (record empty_template_context { path = codes "/x" }) two_routes_app refl

not_found_after_template_example :
    (headers : Dict Str) × ((create_bun_not_found_response js construct
        (create_bun_response js construct hello empty_template_context two_routes_app).1).0
      ≡ construct (some (codes "Not Found")) 404 headers)
    × (get x_route headers ≡ some (codes "hello"))
    × (get (codes "Content-Type") headers ≡ some (codes "text/plain"))
unfolding str_eq last
not_found_after_template_example =
    not_found_after_template js construct x_route (codes "hello") ((x_route, codes "hello") ∷ [])
      hello empty_template_context two_routes_app refl refl
      (differ x_route (codes "Content-Type") refl) refl

abbrev readme_options : AppOptions
readme_options = record {
  key_file_name = codes "./key.pem";
  cert_file_name = codes "./cert.pem";
  runtime = auto_runtime;
  http_version = version_2;
}

abbrev plain_rust : AppOptions
plain_rust = record {
  key_file_name = [];
  cert_file_name = [];
  runtime = rust_runtime;
  http_version = auto_version;
}

abbrev two_routes_manifest : RustCoreManifest
two_routes_manifest = create_rust_manifest two_routes_app

listen-eq-rust_server_iff_example :
    (listen plain_rust true two_routes_app ≡ rust_server two_routes_manifest) ↔ (
      (has_handler_routes two_routes_app ≡ false)
      × (use_https plain_rust ≡ false)
      × (rust_runtime ≢ node_runtime)
      × (is_auto rust_runtime && true ≡ false)
      × (two_routes_manifest ≡ create_rust_manifest two_routes_app)
      × AreMirrored two_routes_app.routes.routes two_routes_manifest.routes)
listen-eq-rust_server_iff_example =
    listen-eq-rust_server_iff plain_rust true two_routes_app two_routes_manifest

listen_https_template_only_example : listen readme_options false two_routes_app ≡ failed
unfolding has_handler_routes compile_route add_routes
listen_https_template_only_example =
    listen_https_template_only readme_options false two_routes_app refl refl refl

abbrev hello_route : Str → RouteResponseSpec → RustStaticRoute
hello_route path response = record {
  method = codes "GET";
  path = path;
  response = response;
  headers = [];
}

abbrev plain_hello : RouteResponseSpec
plain_hello = record {
  kind = text_kind;
  body = str (codes "Hello, World!");
  status = none;
  headers = none;
}

abbrev json_hello : RouteResponseSpec
json_hello = record {
  kind = json_kind;
  body = obj (field (codes "message") (str (codes "Hello, World!")) no_fields);
  status = none;
  headers = none;
}

abbrev hello_manifest : RustCoreManifest
hello_manifest = record {
  routes =
      hello_route (codes "/plaintext") plain_hello ∷ hello_route (codes "/json") json_hello ∷ [];
  headers = [];
  cors = none;
}

rust_core_args_lem_example :
    rust_core_args (codes "3000") (codes "/tmp/m.json") (record hello_manifest {
      cors = some wildcard;
      routes = map (with_status_and_headers (λ r. some 201) (λ r. [])) hello_manifest.routes;
    })
    ≡ codes "--port" ∷ codes "3000" ∷ []
unfolding is_benchmark_manifest str_eq
rust_core_args_lem_example =
    rust_core_args_lem (λ r. some 201) (λ r. []) (codes "3000") (codes "/tmp/m.json") hello_manifest
      (some wildcard) refl

read_bytes-escape_rust_byte_string_example :
    read_bytes plain (escape_rust_byte_string (0 ∷ 34 ∷ 65 ∷ 92 ∷ 255 ∷ []))
    ≡ some (0 ∷ 34 ∷ 65 ∷ 92 ∷ 255 ∷ [])
read_bytes-escape_rust_byte_string_example =
    read_bytes-escape_rust_byte_string (0 ∷ 34 ∷ 65 ∷ 92 ∷ 255 ∷ []) (omega arith)

escape_rust_byte_string-Printable_example :
    All Printable (escape_rust_byte_string (0 ∷ 34 ∷ 65 ∷ 92 ∷ 255 ∷ []))
escape_rust_byte_string-Printable_example =
    escape_rust_byte_string-Printable (0 ∷ 34 ∷ 65 ∷ 92 ∷ 255 ∷ []) (omega arith)

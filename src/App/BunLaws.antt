-- ===== src/App/BunLaws.antt =====
-- What the Bun runtime answers for template routes, in advance and on a request, and with no route.
use fearless.Base.{
  Option, none, some, Bool, true, false, not, Str, codes, ◌&&◌, ◌≡◌, ◌≢◌, refl, arith, Dict, get,
  last, ℕ,
}
use fearless.Web.Values.{Result, ok, throw}
use fearless.Web.Platform.{Platform}
use fearless.Web.Response.{WebResponse}
use fearless.Template.Render.{RouteResponseSpec, TemplateContext, content_type_for_kind}
use fearless.Template.Identity.{render_route_body_constant}
use fearless.Builtins.Headers.{build_builtin_headers, build_route_headers}
use fearless.Builtins.Cache.{route_headers_leak}
use fearless.App.State.{App}
use fearless.App.Bun.{
  route_can_use_static_bun_response, create_bun_response, create_static_bun_response,
  create_bun_not_found_response, empty_template_context, keep_not_found,
}

not_constant : (a b c : Bool) → (not a && (not b && not c)) ≡ true → b ≡ false
not_constant a b c h = ground arith

module _ {S : Type 0} (p : Platform)
    (construct : Option Str → ℕ → Dict Str → Result WebResponse) where
  -- A route that may be answered in advance gets, for every context, the answer that it would get
  -- on a request, and the same state of the app.
  pub create_static_bun_response_lem :
      (has_params : Bool) (response : RouteResponseSpec) (context : TemplateContext) (app : App S)
      → route_can_use_static_bun_response has_params response ≡ true
      → create_static_bun_response p construct response app
        ≡ create_bun_response p construct response context app
  unfolding create_static_bun_response route_can_use_static_bun_response create_bun_response
  create_static_bun_response_lem has_params response context app h =
      rw
        (render_route_body_constant p response empty_template_context context
          (not_constant has_params _ _ h))
        refl

  keep_not_found-fst :
      (r : Result WebResponse) (app : App S) → (keep_not_found p construct r app).0 ≡ r
  keep_not_found-fst (ok r) app = refl
  keep_not_found-fst (throw e) app = refl

  -- After a template route of the Bun runtime has answered, the response for no route, made for the
  -- first time, is constructed with that route's content type and, but for that name, with its own
  -- headers.
  pub not_found_after_template :
      (name v : Str) (own : Dict Str) (response : RouteResponseSpec) (context : TemplateContext)
      (app : App S)
      → app.bun_not_found_response ≡ none
      → response.headers ≡ some own
      → name ≢ codes "Content-Type"
      → last name own ≡ some v
      → (headers : Dict Str) × ((create_bun_not_found_response p construct
            (create_bun_response p construct response context app).1).0
          ≡ construct (some (codes "Not Found")) 404 headers)
        × (get name headers ≡ some v)
        × (get (codes "Content-Type") headers ≡ some (content_type_for_kind response.kind))
  unfolding create_bun_not_found_response create_bun_response
  not_found_after_template name v own response context app fresh h other e =
      let later =
        build_route_headers p.number_to_string response.headers
          (content_type_for_kind response.kind) app.builtins in
      let leak =
        route_headers_leak p.number_to_string name v own (content_type_for_kind response.kind)
          app.builtins other e in
      (
        (build_builtin_headers p.number_to_string later.1).0,
        rw fresh (keep_not_found-fst _ _),
        rw h leak.0,
        rw h leak.1,
      )

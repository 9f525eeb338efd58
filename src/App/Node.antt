-- ===== src/App/Node.antt =====
-- src/app.ts: `handleNodeRequest`, `applyBuiltins`, `writeRouteResponse` and
-- `writeWebResponseToNode`.
use fearless.Base.{
  Option, none, some, Bool, false, Str, codes, str_eq, [], ◌∷◌, Dict, get_or, if◌then◌else◌,
}
use fearless.Web.Values.{Json, Result, ok, throw}
use fearless.Web.Platform.{Platform}
use fearless.Web.Response.{WebResponse}
use fearless.Path.{normalize_path}
use fearless.Query.{parse_query_string}
use fearless.Template.Render.{
  RouteResponseSpec, TemplateContext, render_route_body, content_type_for_kind,
}
use fearless.Routing.Search.{RouteMatch, find_route}
use fearless.Builtins.Features.{BuiltinCorsConfig}
use fearless.Builtins.Headers.{build_builtin_headers}
use fearless.Ctx.Inputs.{
  NodeRequest, CtxInputs, from_node, or_default, query_text, node_headers_to_record, normalize_ip,
}
use fearless.Middleware.{execute}
use fearless.Outgoing.{
  ServerResponse, OutgoingResponse, new_outgoing, Payload, nothing, text_payload,
  server_set_headers, server_end, status, set_header, set_headers, end_response,
}
use fearless.App.State.{App, Action, template, handler}

abbrev pub options_name : Str
options_name = codes "OPTIONS"

-- `for (const key of Object.keys(headers)) response.setHeader(key, headers[key])`
unfoldable pub set_each : Dict Str → OutgoingResponse → OutgoingResponse
unfolding set_header
set_each [] r = r
set_each ((key, v) ∷ headers) r = set_each headers (set_header key v r)

abbrev body_end : Option Str → ServerResponse → ServerResponse
body_end none res = server_end none res
body_end (some content) res = server_end (some content) res

module _ (p : Platform) (buffer_json : Str → Json) where
  abbrev finish : Payload → OutgoingResponse → ServerResponse
  finish payload r = (end_response p.stringify buffer_json payload r).res

  unfoldable pub write_route_response :
      RouteResponseSpec → TemplateContext → Bool → OutgoingResponse → ServerResponse
  unfolding render_route_body status set_headers set_header end_response
  write_route_response response context suppress r =
      let body = render_route_body p response context in
      let headed =
        set_headers (get_or response.headers []) (status (get_or response.status 200) r) in
      if suppress
      then finish nothing headed
      else finish (text_payload body)
          (set_header (codes "Content-Type") (content_type_for_kind response.kind) headed)

module _ (p : Platform) where
  -- `new Request(nodeReq, params)`, as far as the template reads it.
  unfoldable pub template_context : NodeRequest → Dict Str → TemplateContext
  unfolding normalize_path parse_query_string node_headers_to_record normalize_ip
  template_context req params =
      let url = or_default req.url (codes "/") in
      record {
        method = p.to_upper_case (or_default req.method (codes "GET"));
        path = normalize_path url;
        params = params;
        query = parse_query_string p.search_params (query_text url);
        headers = node_headers_to_record req.headers [];
        ip = normalize_ip req.remote_address;
      }

module _ {S : Type 0} (p : Platform) (buffer_json : Str → Json) where
  -- `applyBuiltins`
  unfoldable pub apply_builtins : App S → OutgoingResponse → OutgoingResponse × App S
  unfolding build_builtin_headers set_each
  apply_builtins app r =
      let (headers, b) = build_builtin_headers p.number_to_string app.builtins in
      (set_each headers r, record app { builtins = b })

  -- Where user code has sent the headers itself, the response is only ended.
  unfoldable pub write_web_response_to_node :
      Bool → WebResponse → App S → ServerResponse → ServerResponse × App S
  unfolding build_builtin_headers server_set_headers server_end
  write_web_response_to_node sent response app res =
      if sent
      then (server_end none res, app)
      else let (headers, b) = build_builtin_headers p.number_to_string app.builtins in
        let headed = server_set_headers response.headers (server_set_headers headers res) in
        (
          body_end response.body (record headed { status_code = response.status }),
          record app { builtins = b },
        )

  -- The response as user code leaves it: whether its headers are sent, and the `Ctx` of a request.
  module _ (new_ctx : CtxInputs → S) (headers_sent : S → Bool) where
    abbrev pub write_result :
        Result WebResponse × S → App S → ServerResponse → Result ServerResponse × App S
    write_result (throw e, s) app res = (throw e, app)
    write_result (ok response, s) app res =
        let (res', app') = write_web_response_to_node (headers_sent s) response app res in
        (ok res', app')

    abbrev pub respond_matched :
        Action S
        → NodeRequest
        → Dict Str
        → Bool
        → App S
        → ServerResponse
        → Result ServerResponse × App S
    respond_matched (handler h) req params suppress app res =
        write_result (execute p.stringify app.hooks h (new_ctx (from_node p req params))) app res
    respond_matched (template response) req params suppress app res =
        let (r, app') = apply_builtins app (new_outgoing res suppress) in
        (
          ok (
              write_route_response p buffer_json response (template_context p req params) suppress
                r),
          app',
        )

    abbrev pub respond_to :
        Option (RouteMatch (Action S))
        → NodeRequest
        → App S
        → ServerResponse
        → Result ServerResponse × App S
    respond_to (some m) req app res =
        respond_matched m.route.action req m.params m.suppress_body app res
    respond_to none req app res =
        let (r, app') = apply_builtins app (new_outgoing res false) in
        (ok (finish p buffer_json (text_payload (codes "Not Found")) (status 404 r)), app')

    abbrev pub preflight :
        Option BuiltinCorsConfig
        → App S
        → ServerResponse
        → Result ServerResponse × App S
        → Result ServerResponse × App S
    preflight none app res otherwise = otherwise
    preflight (some cors) app res otherwise =
        let (r, app') = apply_builtins app (new_outgoing res false) in
        (ok (finish p buffer_json nothing (status cors.options_success_status r)), app')

    -- `handleNodeRequest`: what the promise settles with, and the state that it leaves.
    unfoldable pub handle_node_request :
        NodeRequest → App S → ServerResponse → Result ServerResponse × App S
    handle_node_request req app res =
        let method = p.to_upper_case (or_default req.method (codes "GET")) in
        let found =
          respond_to
            (find_route p.decode_uri_component app.routes method (or_default req.url (codes "/")))
            req app res in
        if str_eq method options_name
        then preflight app.builtins.builtin.cors app res found
        else found

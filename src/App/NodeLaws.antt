-- ===== src/App/NodeLaws.antt =====
-- What the Node runtime answers.
use fearless.Base.{
  ◌≡◌, ◌≢◌, refl, Option, none, some, Bool, true, false, Str, codes, str_eq, str_eq_iff, ℕ, List,
  [], ◌∷◌, Dict, get, put, assign, or_else, arith, if◌then◌else◌, All,
}
use fearless.Web.Values.{Json, Result, ok, throw}
use fearless.Web.Platform.{Platform}
use fearless.Web.Response.{WebResponse}
use fearless.Routing.Pattern.{RouteDefinition}
use fearless.Routing.Search.{RouteMatch, find_route, no_routes}
use fearless.Routing.Registered.{add_routes}
use fearless.Routing.Found.{NoNul, serves, IsCompiled}
use fearless.Routing.FindLaws.{find_route-eq-none_iff}
use fearless.Builtins.Features.{BuiltinCorsConfig}
use fearless.Builtins.Headers.{build_builtin_headers, fresh_headers}
use fearless.Builtins.Cache.{IsFresh, build_builtin_headers-IsFresh}
use fearless.Ctx.Inputs.{NodeRequest, CtxInputs, or_default}
use fearless.Outgoing.{
  ServerResponse, OutgoingResponse, new_outgoing, text_payload, status, set_header, end_response,
  server_end,
}
use fearless.Outgoing.Laws.{last_named, get-server_set_headers, ended-server_set_headers}
use fearless.App.State.{App, Action, template, handler}
use fearless.App.Node.{
  options_name, set_each, apply_builtins, write_web_response_to_node, write_result, respond_matched,
  respond_to, preflight, handle_node_request,
}

module _ {S : Type 0} (p : Platform) (buffer_json : Str → Json) (new_ctx : CtxInputs → S)
    (headers_sent : S → Bool) where
  -- The state after a request: the same routes, hooks and features, and a cache that holds what the
  -- features give.
  pub record IsKept (app app' : App S) : Type 0 where
    pub routes : app'.routes ≡ app.routes
    pub hooks : app'.hooks ≡ app.hooks
    pub builtin : app'.builtins.builtin ≡ app.builtins.builtin
    pub fresh : IsFresh p.number_to_string app'.builtins

  IsKept-refl : (app : App S) → IsFresh p.number_to_string app.builtins → IsKept app app
  IsKept-refl app h = record { routes = refl; hooks = refl; builtin = refl; fresh = h }

  apply_builtins-IsKept :
      (app : App S) (r : OutgoingResponse)
      → IsFresh p.number_to_string app.builtins
      → IsKept app (apply_builtins p buffer_json app r).1
  unfolding apply_builtins
  apply_builtins-IsKept app r h =
      let (e, same, fresh) = build_builtin_headers-IsFresh p.number_to_string app.builtins h in
      record { routes = refl; hooks = refl; builtin = same; fresh = fresh }

  write_web-IsKept :
      (sent : Bool) (response : WebResponse) (app : App S) (res : ServerResponse)
      → IsFresh p.number_to_string app.builtins
      → IsKept app (write_web_response_to_node p buffer_json sent response app res).1
  unfolding write_web_response_to_node
  write_web-IsKept true response app res h = IsKept-refl app h
  write_web-IsKept false response app res h =
      let (e, same, fresh) = build_builtin_headers-IsFresh p.number_to_string app.builtins h in
      record { routes = refl; hooks = refl; builtin = same; fresh = fresh }

  write_result-IsKept :
      (m : Result WebResponse × S) (app : App S) (res : ServerResponse)
      → IsFresh p.number_to_string app.builtins
      → IsKept app (write_result p buffer_json new_ctx headers_sent m app res).1
  write_result-IsKept (throw e, s) app res h = IsKept-refl app h
  write_result-IsKept (ok response, s) app res h =
      write_web-IsKept (headers_sent s) response app res h

  respond_matched-IsKept :
      (a : Action S) (req : NodeRequest) (params : Dict Str) (suppress : Bool) (app : App S)
      (res : ServerResponse)
      → IsFresh p.number_to_string app.builtins
      → IsKept app
          (respond_matched p buffer_json new_ctx headers_sent a req params suppress app res).1
  respond_matched-IsKept (handler k) req params suppress app res h = write_result-IsKept _ app res h
  respond_matched-IsKept (template t) req params suppress app res h = apply_builtins-IsKept app _ h

  respond_to-IsKept :
      (m : Option (RouteMatch (Action S))) (req : NodeRequest) (app : App S) (res : ServerResponse)
      → IsFresh p.number_to_string app.builtins
      → IsKept app (respond_to p buffer_json new_ctx headers_sent m req app res).1
  respond_to-IsKept (some m) req app res h =
      respond_matched-IsKept m.route.action req m.params m.suppress_body app res h
  respond_to-IsKept none req app res h = apply_builtins-IsKept app _ h

  preflight-IsKept :
      (o : Option BuiltinCorsConfig) (app : App S) (res : ServerResponse)
      (otherwise : Result ServerResponse × App S)
      → IsFresh p.number_to_string app.builtins
      → IsKept app otherwise.1
      → IsKept app (preflight p buffer_json new_ctx headers_sent o app res otherwise).1
  preflight-IsKept none app res otherwise h k = k
  preflight-IsKept (some cors) app res otherwise h k = apply_builtins-IsKept app _ h

  if-IsKept :
      (b : Bool) (app : App S) (x y : Result ServerResponse × App S)
      → IsKept app x.1
      → IsKept app y.1
      → IsKept app (if b then x else y).1
  if-IsKept true app x y h k = h
  if-IsKept false app x y h k = k

  -- From a cache of the built-in headers that is empty or holds what the features give, a request
  -- to the Node runtime leaves routes, hooks and features as they are, and the cache empty or with
  -- what the features give.
  pub handle_node_request-IsKept :
      (req : NodeRequest) (app : App S) (res : ServerResponse)
      → IsFresh p.number_to_string app.builtins
      → IsKept app (handle_node_request p buffer_json new_ctx headers_sent req app res).1
  unfolding handle_node_request
  handle_node_request-IsKept req app res h =
      let method = p.to_upper_case (or_default req.method (codes "GET")) in
      let m =
        find_route p.decode_uri_component app.routes method (or_default req.url (codes "/")) in
      let found = respond_to p buffer_json new_ctx headers_sent m req app res in
      let kept : IsKept app found.1 = respond_to-IsKept m req app res h in
      if-IsKept (str_eq method options_name) app
        (preflight p buffer_json new_ctx headers_sent app.builtins.builtin.cors app res found) found
        (preflight-IsKept app.builtins.builtin.cors app res found h kept) kept

  set_each-eq-assign :
      (headers : Dict Str) (r : OutgoingResponse)
      → r.is_ended ≡ false
      → set_each headers r ≡ record r { header_values = assign r.header_values headers }
  unfolding set_each set_header assign
  set_each-eq-assign [] r h = refl
  set_each-eq-assign ((key, v) ∷ headers) r h =
      let set : set_header key v r ≡ record r { header_values = put key v r.header_values } =
        ground arith in
      rw set (set_each-eq-assign headers (record r { header_values = put key v r.header_values }) h)

  -- What `end` with a text and a status writes, behind a number of headers.
  ended_with_headers :
      (headers : Dict Str) (content name : Str) (code : ℕ) (res : ServerResponse)
      → (let r =
            (end_response p.stringify buffer_json
              (text_payload content)
              (status code (set_each headers (new_outgoing res false)))).res in
          (r.status_code ≡ code)
          × (r.ended ≡ some (some content))
          × (get name r.headers
              ≡ or_else (last_named name (assign [] headers)) (get name res.headers)))
  unfolding end_response server_end status
  ended_with_headers headers content name code res =
      let headed = record res { status_code = code } in
      let written = assign [] headers in
      rw (set_each-eq-assign headers (new_outgoing res false) refl) (
        (ended-server_set_headers written headed).1,
        refl,
        get-server_set_headers name written headed,
      )

  -- Where none of the app's routes, all compiled, serves a request whose method is not OPTIONS and
  -- holds no NUL, the response is ended with status 404 and "Not Found", and each of its headers has
  -- the value that the built-in features give it, or else the one that it had before. (The cache of
  -- the built-in headers is empty or holds what the features give.)
  pub handle_node_request_not_found :
      (req : NodeRequest) (app : App S) (res : ServerResponse)
      (rs : List (RouteDefinition (Action S)))
      → IsFresh p.number_to_string app.builtins
      → app.routes ≡ add_routes rs no_routes
      → All IsCompiled rs
      → NoNul (p.to_upper_case (or_default req.method (codes "GET")))
      → p.to_upper_case (or_default req.method (codes "GET")) ≢ options_name
      → All
          (λ q.
            serves
              (p.to_upper_case (or_default req.method (codes "GET")))
              (or_default req.url (codes "/"))
              q
            ≡ false)
          rs
      → (res' : ServerResponse) × (app' : App S) × (handle_node_request p buffer_json new_ctx
            headers_sent req app res
          ≡ (ok res', app'))
        × (res'.status_code ≡ 404)
        × (res'.ended ≡ some (some (codes "Not Found")))
        × ((name : Str)
            → get name res'.headers
              ≡ or_else
                  (last_named name
                    (assign [] (fresh_headers p.number_to_string app.builtins.builtin)))
                  (get name res.headers))
  unfolding handle_node_request apply_builtins
  handle_node_request_not_found req app res rs fresh e compiled nul_free other none_serves =
      let method = p.to_upper_case (or_default req.method (codes "GET")) in
      let url = or_default req.url (codes "/") in
      let missing : find_route p.decode_uri_component app.routes method url ≡ none = rw e (
        (find_route-eq-none_iff p.decode_uri_component rs compiled method url nul_free).1
          none_serves) in
      let headers = fresh_headers p.number_to_string app.builtins.builtin in
      let built : (build_builtin_headers p.number_to_string app.builtins).0 ≡ headers =
        (build_builtin_headers-IsFresh p.number_to_string app.builtins fresh).0 in
      let not_found = codes "Not Found" in
      (
        (end_response p.stringify buffer_json (text_payload not_found)
            (status 404 (set_each headers (new_outgoing res false)))).res,
        record app { builtins = (build_builtin_headers p.number_to_string app.builtins).1 },
        ground (arith, missing, built, str_eq_iff method options_name),
        (ended_with_headers headers not_found [] 404 res).0,
        (ended_with_headers headers not_found [] 404 res).1,
        λ name. (ended_with_headers headers not_found name 404 res).2,
      )

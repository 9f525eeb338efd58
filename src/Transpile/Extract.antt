-- ===== src/Transpile/Extract.antt =====
-- packages/aot-transpiler/src/emit/extract.ts: `extractResponseShape`, and a builder for each method
-- that may end a chain.
use fearless.Base.{ℕ, Option, none, some, Str, codes, str_eq, [], ◌++◌, if◌then◌else◌, get_or}
use mathlib.Core.Option.{map}
use fearless.Syntax.{
  Node, string_literal, plain_template, numeric_literal, template_of, Nodes, first_node,
  second_node,
}
use fearless.Transpile.Shapes.{raw_format, ResponseShape, static_shape, dynamic_shape}
use fearless.Transpile.Json.{
  unless_null, render_json_literal, render_json_value, render_template_chunks,
}
use fearless.Transpile.Chain.{UnwrappedChain, unwrap_ctx_chain, parse_int}

module _ (to_lower_case : Str → Str) where
  unfoldable pub build_json_response : Nodes → ℕ → Option Str → Option ResponseShape
  unfolding render_json_literal render_json_value
  build_json_response args status override =
      let ct = get_or override (codes "application/json") in
      elim (first_node args) [
        | none ↦ some (static_shape status ct (codes "{}"))
        | some arg ↦ elim (render_json_literal arg) [
          | some text ↦ some (static_shape status ct text)
          | none ↦ map (dynamic_shape status ct) (render_json_value to_lower_case arg)
        ]
      ]

  abbrev text_shape : Option Node → ℕ → Str → Option ResponseShape
  text_shape none status ct = some (static_shape status ct [])
  text_shape (some (string_literal s)) status ct = some (static_shape status ct s)
  text_shape (some (plain_template s)) status ct = some (static_shape status ct s)
  text_shape (some (template_of head spans)) status ct =
      map (dynamic_shape status ct) (render_template_chunks to_lower_case head spans raw_format)
  text_shape (some _) status ct = none

  unfoldable pub build_text_response : Nodes → ℕ → Option Str → Option ResponseShape
  unfolding render_template_chunks
  build_text_response args status override =
      text_shape (first_node args) status (get_or override (codes "text/plain; charset=utf-8"))

  unfoldable pub build_html_response : Nodes → ℕ → Option Str → Option ResponseShape
  unfolding build_text_response
  build_html_response args status override =
      build_text_response args status (some (get_or override (codes "text/html; charset=utf-8")))

  unfoldable pub build_not_found_response : Nodes → ℕ → Option ResponseShape
  unfolding build_text_response
  build_not_found_response args status =
      let ct = codes "text/plain; charset=utf-8" in
      elim (first_node args) [
        | none ↦ some (static_shape status ct (codes "Not Found"))
        | some arg ↦ build_text_response args status (some ct)
      ]

  abbrev pub redirect_status : Option Node → ℕ → ℕ
  redirect_status (some (numeric_literal s)) status = parse_int s
  redirect_status _ status = status

  abbrev redirect_shape : Option Node → ℕ → Option ResponseShape
  redirect_shape (some (string_literal s)) status =
      some (static_shape status (codes "redirect:" ++ s) [])
  redirect_shape (some (plain_template s)) status =
      some (static_shape status (codes "redirect:" ++ s) [])
  redirect_shape _ status = none

  unfoldable pub build_redirect_response : Nodes → ℕ → Option ResponseShape
  build_redirect_response args status =
      redirect_shape (first_node args) (redirect_status (second_node args) status)

  -- The switch over the terminal method.
  unfoldable pub shape_of_chain : UnwrappedChain → Option ResponseShape
  unfolding build_json_response build_text_response build_html_response build_not_found_response
      build_redirect_response str_eq
  shape_of_chain chain =
      let status = chain.overrides.status in
      let override = chain.overrides.content_type in
      let args = chain.terminal_args in
      let method = chain.terminal_method in
      if str_eq method (codes "json")
      then build_json_response args (get_or status 200) override
      else if str_eq method (codes "text")
      then build_text_response args (get_or status 200) override
      else if str_eq method (codes "html")
      then build_html_response args (get_or status 200) override
      else if str_eq method (codes "noContent")
      then some (static_shape (get_or status 204) (codes "text/plain") [])
      else if str_eq method (codes "notFound")
      then build_not_found_response args (get_or status 404)
      else if str_eq method (codes "redirect")
      then build_redirect_response args (get_or status 302)
      else none

  unfoldable pub extract_response_shape : Node → Option ResponseShape
  unfolding unwrap_ctx_chain shape_of_chain
  extract_response_shape n = unless_null (unwrap_ctx_chain to_lower_case n) shape_of_chain

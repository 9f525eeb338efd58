-- ===== src/Template/Identity.antt =====
-- Bodies without tokens: the fast path of `renderTemplateString`, and why a response may be made once.
use fearless.Base.{
  ◌≡◌, refl, ap, none, false, Str, [], ◌∷◌, includes, starts_with, arith, Bool-cases, inl, inr,
}
use fearless.Web.Values.{
  Json, null, bool, num, str, arr, obj, Items, no_items, item, Fields, no_fields, field,
}
use fearless.Web.Platform.{Platform}
use fearless.Template.Scan.{open_token, match_token, replace_tokens, trim}
use fearless.Template.Render.{
  RouteResponseSpec, TemplateContext, template_value_contains_token, items_contain_token,
  fields_contain_token, render_template_string, render_template_value, render_items, render_fields,
  render_route_body, resolve_template_token, shown,
}

match_token-eq-none : (s : Str) → starts_with open_token s ≡ false → match_token s ≡ none
unfolding match_token
match_token-eq-none s h = ground arith

-- Without `{{` there is nothing to replace.
replace_tokens-eq :
    (f : Str → Str) (s : Str) → includes open_token s ≡ false → replace_tokens f 0 s ≡ s
unfolding replace_tokens includes
replace_tokens-eq f [] h = refl
replace_tokens-eq f (c ∷ s) h = ground (arith, match_token-eq-none (c ∷ s), replace_tokens-eq f s)

module _ (p : Platform) where
  -- The test for `{{` is an optimisation: `renderTemplateString` gives, for every input, what the
  -- replacement of all its tokens gives.
  pub render_template_string-eq-replace :
      (input : Str) (context : TemplateContext)
      → render_template_string p input context
        ≡ replace_tokens (λ raw. shown p (resolve_template_token p (trim raw) context)) 0 input
  unfolding render_template_string
  render_template_string-eq-replace input context = elim (Bool-cases (includes open_token input)) [
    | inl e ↦ rw e
    | inr e ↦ rw (e, replace_tokens-eq _ input e)
  ]

  render_template_string-eq :
      (input : Str) (context : TemplateContext)
      → includes open_token input ≡ false
      → render_template_string p input context ≡ input
  unfolding render_template_string
  render_template_string-eq input context h = rw h

  mutual
    unfolding render_template_value template_value_contains_token

    value-eq :
        (v : Json) (context : TemplateContext)
        → template_value_contains_token v ≡ false
        → render_template_value p v context ≡ v
    value-eq null context h = refl
    value-eq (bool b) context h = refl
    value-eq (num n) context h = refl
    value-eq (str s) context h = ap str (render_template_string-eq s context h)
    value-eq (arr vs) context h = ap arr (items-eq vs context h)
    value-eq (obj fs) context h = ap obj (fields-eq fs context h)

    items-eq :
        (vs : Items) (context : TemplateContext)
        → items_contain_token vs ≡ false
        → render_items p vs context ≡ vs
    items-eq no_items context h = refl
    items-eq (item v vs) context h = ground (arith, value-eq v context, items-eq vs context)

    fields-eq :
        (fs : Fields) (context : TemplateContext)
        → fields_contain_token fs ≡ false
        → render_fields p fs context ≡ fs
    fields-eq no_fields context h = refl
    fields-eq (field k v fs) context h = ground (arith, value-eq v context, fields-eq fs context)

  -- A body without tokens is rendered alike for every request.
  pub render_route_body_constant :
      (response : RouteResponseSpec) (c d : TemplateContext)
      → template_value_contains_token response.body ≡ false
      → render_route_body p response c ≡ render_route_body p response d
  unfolding render_route_body
  render_route_body_constant response c d h =
      rw (value-eq response.body c h, value-eq response.body d h)

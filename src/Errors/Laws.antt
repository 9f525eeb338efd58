-- ===== src/Errors/Laws.antt =====
-- What a client learns of an error, and which errors have a response.
use fearless.Base.{
  ℕ, ◌≤◌, ◌≡◌, ◌↔◌, refl, Option, none, some, Bool, true, false, not, ◌&&◌, ◌||◌, Str, codes, arith,
  if◌then◌else◌, ◌⊎◌, inl, inr,
}
use fearless.Web.Values.{
  Json, str, obj, Fields, no_fields, field, Details, json_details, left_out, not_json, throwing,
  HttpError, Thrown, ok, throw,
}
use fearless.Web.Response.{WebResponse, new_response, takes_body, wrapped_status, new_headers}
use fearless.Errors.{new_http_error, to_response, details_field, json_headers}

-- Whether `JSON.stringify` throws nothing on the details.
abbrev pub is_serializable : Option Details → Bool
is_serializable (some not_json) = false
is_serializable (some (throwing value)) = false
is_serializable _ = true

-- Whether `toResponse` can show an error: its status allows a body, and details that are exposed can be
-- serialised.
abbrev pub is_showable : HttpError → Bool
is_showable e = takes_body (wrapped_status e.status) && (not e.expose || is_serializable e.details)

details_field-cases :
    (d : Option Details)
    → ((fields : Fields) × (details_field d ≡ ok fields) × (is_serializable d ≡ true))
      ⊎ ((e : Thrown) × (details_field d ≡ throw e) × (is_serializable d ≡ false))
details_field-cases none = inl (_, refl, refl)
details_field-cases (some (json_details v)) = inl (_, refl, refl)
details_field-cases (some left_out) = inl (_, refl, refl)
details_field-cases (some not_json) = inr (_, refl, refl)
details_field-cases (some (throwing value)) = inr (_, refl, refl)

module _ (stringify : Json → Str) where
  -- The response of an error, with what is added to its `error`.
  abbrev shown : HttpError → Fields → WebResponse
  shown e fields = record {
    status = wrapped_status e.status;
    headers = new_headers json_headers;
    body = some (
        stringify (
          if e.expose
          then obj (field (codes "error") (str e.message) fields)
          else obj (field (codes "error") (str (codes "Internal Server Error")) no_fields)));
  }

  -- An error with a status of 500 or more, made without `expose`, has a response that depends on
  -- neither its message nor its details.
  pub to_response_conceals :
      (status : ℕ) (message message' : Str) (details details' : Option Details)
      → 500 ≤ status
      → to_response stringify (new_http_error status message none details)
        ≡ to_response stringify (new_http_error status message' none details')
  unfolding to_response new_http_error
  to_response_conceals status message message' details details' h = ground arith

  pub to_response-status :
      (e : HttpError) (r : WebResponse)
      → to_response stringify e ≡ ok r
      → r.status ≡ wrapped_status e.status
  unfolding to_response new_response
  to_response-status e r h = elim (details_field-cases e.details) [
    | inl (added, made, serializable) ↦ ground arith
    | inr (thrown, made, serializable) ↦ ground arith
  ]

  -- `toResponse` returns, with the error's status modulo 2 ^ 16, exactly for the errors that it can show.
  pub to_response_returns_iff :
      (e : HttpError)
      → ((r : WebResponse) × (to_response stringify e ≡ ok r)
          × (r.status ≡ wrapped_status e.status))
        ↔ (is_showable e ≡ true)
  unfolding to_response new_response
  to_response_returns_iff e = elim (details_field-cases e.details) [
    | inl (added, made, serializable) ↦
        ((λ h. ground (arith, h.1)), (λ h. (shown e added, ground arith, refl)))
    | inr (thrown, made, serializable) ↦
        ((λ h. ground (arith, h.1)), (λ h. (shown e no_fields, ground arith, refl)))
  ]

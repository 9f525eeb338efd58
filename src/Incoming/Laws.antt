-- ===== src/Incoming/Laws.antt =====
-- A body is read and validated once.
use fearless.Base.{◌≤◌, ◌≡◌, ◌↔◌, ◌≢◌, ◌⊎◌, inl, inr, [], ◌∷◌, refl, Option, none, some, Str, arith}
use fearless.Web.Values.{Json, null}
use fearless.Incoming.{RequestBody, new_request_body, parse_body_raw, parse_json_body}

module _ (parse_json : Str → Option Json) where
  -- A text stands for a value as a body: the empty text for null, any other for what `JSON.parse` gives.
  abbrev pub StandsFor : Str → Json → Type 0
  StandsFor raw v = ((raw ≡ []) × (v ≡ null)) ⊎ ((raw ≢ []) × (parse_json raw ≡ some v))

  parse_json_body_iff :
      (raw : Str) (v : Json) → (parse_json_body parse_json raw ≡ some v) ↔ StandsFor raw v
  unfolding parse_json_body
  parse_json_body_iff [] v = ((λ h. inl (refl, cc)), (λ h. ground arith))
  parse_json_body_iff (c ∷ s) v = ((λ h. inr ((cc), h)), (λ h. ground arith))

module _ (parse_json : Str → Option Json) {A : Type 0} where
  -- Whatever a call of `parseBodyRaw` gives, the next call, with any validator, gives it again and
  -- changes nothing.
  pub parse_body_raw_again :
      (stream stream' : Option Str) (schema schema' : Json → Option A) (s : RequestBody A)
      → parse_body_raw parse_json stream' schema' (parse_body_raw parse_json stream schema s).1 ≡ (
        (parse_body_raw parse_json stream schema s).0,
        (parse_body_raw parse_json stream schema s).1,
      )
  unfolding parse_body_raw
  parse_body_raw_again stream stream' schema schema' s = ground arith

  -- The stream is read at most once: the second read would be of a promise that is there.
  pub record ReadsOnce (s : RequestBody A) : Type 0 where
    pub at_most_once : s.reads ≤ 1
    pub unread : s.promise ≡ none → s.reads ≡ 0

  parse_body_raw-ReadsOnce :
      (stream : Option Str) (schema : Json → Option A) (s : RequestBody A)
      → ReadsOnce s
      → ReadsOnce (parse_body_raw parse_json stream schema s).1
  unfolding parse_body_raw
  parse_body_raw-ReadsOnce stream schema s h = ground arith

  -- The first call of `parseBodyRaw` gives a value exactly if the body could be read and it is the value
  -- that the validator makes of null, where the body is empty, or else of what `JSON.parse` gives on it.
  pub parse_body_raw-eq-some_iff :
      (stream : Option Str) (schema : Json → Option A) (a : A)
      → ((parse_body_raw parse_json stream schema new_request_body).0 ≡ some a) ↔ (
          (raw : Str) × (v : Json) × (stream ≡ some raw)
          × StandsFor parse_json raw v
          × (schema v ≡ some a))
  unfolding parse_body_raw
  parse_body_raw-eq-some_iff none schema a = ((λ e. cc), (λ h. cc (h.2)))
  parse_body_raw-eq-some_iff (some raw) schema a = (
    to (parse_json_body parse_json raw) refl,
    λ h. ground (arith, h.2, (parse_json_body_iff parse_json h.0 h.1).1 h.3, h.4),
  )
    where
      to :
          (o : Option Json)
          → parse_json_body parse_json raw ≡ o
          → (parse_body_raw parse_json (some raw) schema new_request_body).0 ≡ some a
          → (raw' : Str) × (v : Json) × (◌≡◌ {A = Option Str} (some raw) (some raw'))
            × StandsFor parse_json raw' v
            × (schema v ≡ some a)
      to none e h = absurd (ground arith)
      to (some v) e h = (raw, v, refl, (parse_json_body_iff parse_json raw v).0 e, ground arith)

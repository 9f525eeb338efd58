-- ===== src/Ctx/BodyLaws.antt =====
-- The body of a request is read once, and what its parsers give.
use fearless.Base.{◌≤◌, ◌≡◌, ◌↔◌, ◌∙◌, refl, Option, none, some, Str, [], ◌∷◌, arith}
use fearless.Web.Values.{Json, Result, ok, throw, continue}
use fearless.Web.Platform.{Platform}
use fearless.Ctx.Body.{
  BodySource, BodyState, text, body, validate, parse_raw, parsed_or_throw, valid_or_throw,
}

-- A second call of `text` gives what the first gave, its exception included, and changes nothing.
pub text_again :
    (source : BodySource) (s : BodyState)
    → text source (text source s).1 ≡ ((text source s).0, (text source s).1)
unfolding text
text_again source s = ground arith

-- The stream has been read at most once, and not at all while there is no promise.
pub record ReadsOnce (s : BodyState) : Type 0 where
  pub at_most_once : s.reads ≤ 1
  pub no_promise : s.promise ≡ none → s.reads ≡ 0

text-ReadsOnce : (source : BodySource) (s : BodyState) → ReadsOnce s → ReadsOnce (text source s).1
unfolding text
text-ReadsOnce source s h = ground arith

continue-lift :
    {A B : Type 0} (r : Result A) (f : A → Result B) (s : BodyState)
    → (continue r (λ a t. (f a, t)) s).1 ≡ s
continue-lift (ok a) f s = refl
continue-lift (throw e) f s = refl

module _ (p : Platform) where
  parse_raw_state : (r : Result Str) (s : BodyState) → (continue r (parse_raw p) s).1 ≡ s
  parse_raw_state (throw e) s = refl
  parse_raw_state (ok []) s = refl
  parse_raw_state (ok (c ∷ t)) s = go (p.parse_json (c ∷ t))
    where
      go : (o : Option Json) → (parsed_or_throw o s).1 ≡ s
      go none = refl
      go (some v) = refl

  -- Only `text` touches the stream.
  body_state : (source : BodySource) (s : BodyState) → (body p source s).1 ≡ (text source s).1
  unfolding body
  body_state source s = parse_raw_state (text source s).0 (text source s).1

  validate_state :
      {A : Type 0} (source : BodySource) (validator : Json → Option A) (s : BodyState)
      → (validate p source validator s).1 ≡ (text source s).1
  unfolding validate
  validate_state source validator s =
      continue-lift (body p source s).0 (λ v. valid_or_throw (validator v)) (body p source s).1
      ∙ body_state source s

  -- `text`, `body` and `validate` keep the state in which the stream has been read at most once, and
  -- not at all where no promise is kept.
  pub body_calls-ReadsOnce :
      {A : Type 0} (source : BodySource) (validator : Json → Option A) (s : BodyState)
      → ReadsOnce s
      → ReadsOnce (text source s).1
        × ReadsOnce (body p source s).1
        × ReadsOnce (validate p source validator s).1
  body_calls-ReadsOnce source validator s h = (
    text-ReadsOnce source s h,
    rw body_state (text-ReadsOnce source s h),
    rw validate_state (text-ReadsOnce source s h),
  )

  -- `validate` returns a value exactly if `body` returns one for which the validator gives that
  -- value.
  pub validate-eq-ok_iff :
      {A : Type 0} (source : BodySource) (validator : Json → Option A) (s : BodyState) (a : A)
      → ((validate p source validator s).0 ≡ ok a)
        ↔ ((v : Json) × ((body p source s).0 ≡ ok v) × (validator v ≡ some a))
  unfolding validate
  validate-eq-ok_iff source validator s a = (to (body p source s).0, λ h. ground (arith, h.1, h.2))
    where
      valid : {A : Type 0} (o : Option A) (a : A) → valid_or_throw o ≡ ok a → o ≡ some a
      valid none a e = cc
      valid (some b) a e = ground arith

      to :
          (r : Result Json)
          → (continue r (λ v t. (valid_or_throw (validator v), t)) (body p source s).1).0 ≡ ok a
          → (v : Json) × (r ≡ ok v) × (validator v ≡ some a)
      to (throw e) h = cc
      to (ok v) h = (v, refl, valid (validator v) a h)

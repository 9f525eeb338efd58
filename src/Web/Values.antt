-- ===== src/Web/Values.antt =====
-- JSON values, and results that may be exceptions.
use fearless.Base.{ℕ, Option, Bool, Str}

-- A number is opaque: the code hands numbers on and reads none. `TemplateValue` of src/types.ts is
-- this type.
mutual
  pub data Json : Type 0 where
    null : Json
    bool : Bool → Json
    num : ℕ → Json
    str : Str → Json
    arr : Items → Json
    obj : Fields → Json

  pub data Items : Type 0 where
    no_items : Items
    item : Json → Items → Items

  pub data Fields : Type 0 where
    no_fields : Fields
    field : Str → Json → Fields → Fields

-- The `details` of an error are unknown: a value of JSON, one that `JSON.stringify` leaves out of an
-- object (a function or a symbol), a cyclic object or a BigInt, on which it throws a `TypeError`, or a
-- value whose own code, `toJSON` or a getter, throws.
pub data Details : Type 0 where
  json_details : Json → Details
  left_out not_json : Details
  throwing : Str → Details

-- `HttpError` of src/errors.ts. Its `cause` is written and never read.
pub record HttpError : Type 0 where
  pub status : ℕ
  pub message : Str
  pub expose : Bool
  pub details : Option Details

-- A thrown value: an `HttpError`, a `RangeError` or `TypeError` of the engine, or any other value.
pub data Thrown : Type 0 where
  http_error : HttpError → Thrown
  range_error type_error : Thrown
  other_value : Str → Thrown

pub data Result {ℓ} (A : Type ℓ) : Type ℓ where
  ok : A → Result A
  throw : Thrown → Result A

-- An awaited call: it may throw, and it may change the state `S` that user code can reach.
abbrev pub Call : Type 0 → Type 0 → Type 0
Call S A = S → Result A × S

module _ {S A B : Type 0} where
  abbrev pub continue : Result A → (A → Call S B) → Call S B
  continue (ok a) f s = f a s
  continue (throw e) f s = (throw e, s)

  infixl 10 ◌>>=◌ ◌>>◌
  abbrev pub ◌>>=◌ : Call S A → (A → Call S B) → Call S B
  ◌>>=◌ m f s = let (r, s') = m s in continue r f s'

  abbrev pub ◌>>◌ : Call S A → Call S B → Call S B
  m >> n = m >>= λ _. n

module _ {S A : Type 0} where
  abbrev pub pure : A → Call S A
  pure a s = (ok a, s)

  abbrev pub lift : Result A → Call S A
  lift r s = (r, s)

  abbrev pub handle_throw : Result A → (Thrown → Call S A) → Call S A
  handle_throw (ok a) handler s = (ok a, s)
  handle_throw (throw e) handler s = handler e s

  -- `try { return await m } catch (e) { return await handler(e) }`
  abbrev pub try_catch : Call S A → (Thrown → Call S A) → Call S A
  try_catch m handler s = let (r, s') = m s in handle_throw r handler s'

-- ===== src/Transpile/FunctionLaws.antt =====
-- The function that is emitted for a handler answers with the response of the return that the handler
-- reaches.
use fearless.Base.{Option, none, some, true, Str, List, [], ◌∷◌, if◌then◌else◌, ◌≡◌, arith, All}
use mathlib.Core.Option
use fearless.Syntax.{Node}
use fearless.Transpile.Shapes.{CtxRead, ResponseShape}
use fearless.Transpile.Formula.{Formula, truth}
use fearless.Transpile.Function.{is_word_unit, sanitize_id}

-- The name of the emitted function is an identifier of ASCII letters, digits and `_`.
pub sanitize_id_lem : (id : Str) → All (λ c. is_word_unit c ≡ true) (sanitize_id id)
unfolding sanitize_id
sanitize_id_lem [] = tt
sanitize_id_lem (c ∷ s) = (ground arith, sanitize_id_lem s)

module _ (reads : CtxRead → Str) where
  -- The response of the first branch that is open. None stands for the fallback with status 500.
  unfoldable pub respond : List (Option Formula × ResponseShape) → Option ResponseShape
  unfolding truth
  respond [] = none
  respond ((none, shape) ∷ branches) = some shape
  respond ((some f, shape) ∷ branches) =
      let rest = respond branches in if truth reads f then some shape else rest

abbrev pub bind_shape : (Node → Option ResponseShape) → Option Node → Option ResponseShape
bind_shape f none = none
bind_shape f (some e) = f e

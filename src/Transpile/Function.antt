-- ===== src/Transpile/Function.antt =====
-- packages/aot-transpiler/src/index.ts: `transpileHandler` of a handler that is not `async`.
use fearless.Base.{
  ℕ, Option, none, some, Bool, true, ◌&&◌, ◌||◌, Str, codes, List, [], ◌∷◌, ◌++◌, ◌==◌, leb,
  starts_with, join, if◌then◌else◌,
}
use fearless.Syntax.{Node, HandlerBody, concise, statements}
use fearless.Emit.Response.{emit_response_body, newline}
use fearless.Transpile.Shapes.{ResponseShape}
use fearless.Transpile.Extract.{extract_response_shape}
use fearless.Transpile.Guards.{ReturnBlock, walk_statements}

pub data TranspileError : Type 0 where
  expected_by_analyzer : TranspileError
  unsupported_construct : Node → TranspileError

pub data Outcome {ℓ} (A : Type ℓ) : Type ℓ where
  success : A → Outcome A
  failure : TranspileError → Outcome A

abbrev pub BranchEmission : Type 0
BranchEmission = Option Str × ResponseShape

abbrev pub fallback_response : Str
fallback_response =
    codes
      "    out.extend_from_slice(b\"HTTP/1.1 500 Internal Server Error\\r\\nContent-Length: 0\\r\\nConnection: close\\r\\n\\r\\n\");"

-- `s.replace(/^( {4})/gm, "        ")`: at the start of a line four spaces become eight.
abbrev ends_line : ℕ → Bool
ends_line c = c == 10 || (c == 13 || (c == 0x2028 || c == 0x2029))

unfoldable pub indent_lines : Bool → Str → Str
unfolding starts_with
indent_lines at_start [] = []
indent_lines at_start (c ∷ s) =
    let rest = c ∷ indent_lines (ends_line c) s in
    if at_start && starts_with (codes "    ") (c ∷ s) then codes "    " ++ rest else rest

-- `sanitizeId`: every unit other than a letter, a digit or `_` becomes `_`.
abbrev pub is_word_unit : ℕ → Bool
is_word_unit c =
    leb b'a' c && leb c b'z'
    || (leb b'A' c && leb c b'Z' || (leb b'0' c && leb c b'9' || c == b'_'))

unfoldable pub sanitize_id : Str → Str
sanitize_id [] = []
sanitize_id (c ∷ s) = (if is_word_unit c then c else b'_') ∷ sanitize_id s

unfoldable pub fn_name : Str → Str
unfolding sanitize_id
fn_name id = codes "handler_" ++ sanitize_id id

module _ (to_lower_case : Str → Str) where
  unfoldable pub extract_return_blocks : HandlerBody → List ReturnBlock
  unfolding walk_statements
  extract_return_blocks (concise e) = (none, e) ∷ []
  extract_return_blocks (statements ns) = walk_statements to_lower_case ns none

  abbrev pub and_branch :
      Option Str → ResponseShape → Outcome (List BranchEmission) → Outcome (List BranchEmission)
  and_branch guard shape (success branches) = success ((guard, shape) ∷ branches)
  and_branch guard shape (failure e) = failure e

  -- The loop over the blocks.
  unfoldable pub extract_branches : List ReturnBlock → Outcome (List BranchEmission)
  unfolding extract_response_shape
  extract_branches [] = success []
  extract_branches ((guard, e) ∷ blocks) =
      let rest = extract_branches blocks in
      elim (extract_response_shape to_lower_case e) [
        | none ↦ failure (unsupported_construct e)
        | some shape ↦ and_branch guard shape rest
      ]

module _ (encode : Str → List ℕ) where
  -- The lines of `emitFunctionBody`.
  unfoldable pub emit_branches : List BranchEmission → List Str
  unfolding emit_response_body indent_lines
  emit_branches [] = fallback_response ∷ []
  emit_branches ((none, shape) ∷ branches) = emit_response_body encode shape ∷ []
  emit_branches ((some guard, shape) ∷ branches) =
      (codes "    if " ++ (guard ++ codes " {"))
      ∷ indent_lines true (emit_response_body encode shape)
      ∷ codes "        return;"
      ∷ codes "    }"
      ∷ emit_branches branches

  unfoldable pub emit_function_body : List BranchEmission → Str
  unfolding emit_branches
  emit_function_body branches = join newline (emit_branches branches)

  abbrev pub rust_source : Str → List BranchEmission → Str
  rust_source name branches =
      codes "pub fn "
      ++ (name
          ++ (codes "(req: &aot_runtime::AotRequest, out: &mut Vec<u8>) {"
              ++ (newline ++ (emit_function_body branches ++ (newline ++ (codes "}" ++ newline))))))

  abbrev pub source_of : Str → Outcome (List BranchEmission) → Outcome Str
  source_of name (success branches) = success (rust_source name branches)
  source_of name (failure e) = failure e

  unfoldable pub transpile_blocks : (Str → Str) → Str → List ReturnBlock → Outcome Str
  unfolding extract_branches emit_function_body
  transpile_blocks to_lower_case name [] = failure expected_by_analyzer
  transpile_blocks to_lower_case name (block ∷ blocks) =
      source_of name (extract_branches to_lower_case (block ∷ blocks))

  unfoldable pub transpile_sync_handler : (Str → Str) → Str → HandlerBody → Outcome Str
  unfolding extract_return_blocks transpile_blocks fn_name
  transpile_sync_handler to_lower_case id body =
      transpile_blocks to_lower_case (fn_name id) (extract_return_blocks to_lower_case body)

-- ===== src/Transpile/Source.antt =====
-- The text of the Rust function that an emission stands for: an `if` that returns for each branch with
-- a guard, in order, and the branch without one, or the fallback, behind them. And how Rust reads the
-- values in the guards. The transpiler uses none of it.
use fearless.Base.{
  false, ℕ, Option, none, some, true, Str, codes, List, [], ◌∷◌, ◌++◌, map, join, ◌≡◌, refl, ap,
  ◌∙◌, ◌==◌, if◌then◌else◌,
}
use mathlib.Core.Option
use fearless.Emit.Response.{emit_response_body, newline, getter}
use fearless.Emit.Wire.{quoted, quoted-escape_quotes, read_of, read_of-getter}
use fearless.Transpile.Shapes.{
  CtxRead, param_read, query_read, header_read, input_read, ResponseShape,
}
use fearless.Transpile.Function.{
  BranchEmission, emit_branches, emit_function_body, indent_lines, rust_source,
}
use fearless.Transpile.Formula.{
  RustValue, text_literal, get_read, print_value, Formula, print_formula,
}

abbrev pub emission : Option Formula × ResponseShape → BranchEmission
emission (guard, shape) = (Option.map print_formula guard, shape)

module _ (encode : Str → List ℕ) where
  unfoldable pub function_lines : List (Option Formula × ResponseShape) → List Str
  function_lines [] =
      codes
        "    out.extend_from_slice(b\"HTTP/1.1 500 Internal Server Error\\r\\nContent-Length: 0\\r\\nConnection: close\\r\\n\\r\\n\");"
      ∷ []
  function_lines ((none, shape) ∷ fs) = emit_response_body encode shape ∷ []
  function_lines ((some f, shape) ∷ fs) =
      (codes "    if " ++ (print_formula f ++ codes " {"))
      ∷ indent_lines true (emit_response_body encode shape)
      ∷ codes "        return;"
      ∷ codes "    }"
      ∷ function_lines fs

  -- The function of a name, from its lines.
  abbrev pub function_text : Str → List (Option Formula × ResponseShape) → Str
  function_text name fs =
      codes "pub fn "
      ++ (name
          ++ (codes "(req: &aot_runtime::AotRequest, out: &mut Vec<u8>) {"
              ++ (newline
                  ++ (join newline (function_lines fs) ++ (newline ++ (codes "}" ++ newline))))))

  emit_branches-emission :
      (fs : List (Option Formula × ResponseShape))
      → emit_branches encode (map emission fs) ≡ function_lines fs
  unfolding emit_branches function_lines
  emit_branches-emission [] = refl
  emit_branches-emission ((none, shape) ∷ fs) = refl
  emit_branches-emission ((some f, shape) ∷ fs) =
      ap
        (λ lines.
          (codes "    if " ++ (print_formula f ++ codes " {"))
          ∷ indent_lines true (emit_response_body encode shape)
          ∷ codes "        return;"
          ∷ codes "    }"
          ∷ lines)
        (emit_branches-emission fs)

  pub rust_source-eq-function_text :
      (name : Str) (fs : List (Option Formula × ResponseShape))
      → rust_source encode name (map emission fs) ≡ function_text name fs
  unfolding emit_function_body
  rust_source-eq-function_text name fs = rw (emit_branches-emission fs) refl

-- The value that a Rust expression in a guard stands for.
unfoldable pub value_in : Str → Option RustValue
unfolding read_of quoted
value_in [] = none
value_in (c ∷ s) =
    if c == b'"'
    then Option.map text_literal (quoted [] false s)
    else Option.map get_read (read_of (c ∷ s))

value_in-getter : (r : CtxRead) → value_in (getter r) ≡ Option.map get_read (read_of (getter r))
unfolding value_in getter
value_in-getter (param_read name) = refl
value_in-getter (query_read name) = refl
value_in-getter (header_read name) = refl
value_in-getter (input_read name) = refl

pub value_in-print_value : (v : RustValue) → value_in (print_value v) ≡ some v
unfolding value_in print_value
value_in-print_value (text_literal s) = rw (quoted-escape_quotes [] s) refl
value_in-print_value (get_read r) = value_in-getter r ∙ ap (Option.map get_read) (read_of-getter r)

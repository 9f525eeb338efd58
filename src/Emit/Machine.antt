-- ===== src/Emit/Machine.antt =====
-- What the statements of an emitted function do, as far as packages/aot-transpiler/src/emit/rust.ts
-- emits them: each with its Rust text, and with its effect on `out` and on `body`. The helpers of
-- `aot_runtime` are taken as packages/aot-transpiler/src/runtime/mod.rs has them.
use fearless.Base.{ℕ, Option, none, some, Str, codes, List, [], ◌∷◌, ◌++◌, length}
use mathlib.Core.Option.{map}
use fearless.Emit.EscapeLaws.{plain, read_bytes}
use fearless.Emit.Response.{decimal, extend_out, getter}
use fearless.Transpile.Shapes.{ChunkFormat, raw_format, json_string_format, url_format, CtxRead}
use fearless.Transpile.Value.{write_read}

-- A literal is kept in its escaped form.
pub data Statement : Type 0 where
  comment : Str → Statement
  new_body : Statement
  push_literal : Str → Statement
  push_read : CtxRead → ChunkFormat → Statement
  out_literal : Str → Statement
  out_length : Statement
  out_body : Statement

abbrev pub print_push : ChunkFormat → Str → Str
print_push raw_format get = codes "    body.extend_from_slice(" ++ (get ++ codes ".as_bytes());")
print_push json_string_format get =
    codes "    aot_runtime::write_json_string(&mut body, " ++ (get ++ codes ");")
print_push url_format get =
    codes "    aot_runtime::write_url_encoded(&mut body, " ++ (get ++ codes ");")

unfoldable pub print_statement : Statement → Str
unfolding getter
print_statement (comment text) = codes "    // " ++ text
print_statement new_body = codes "    let mut body: Vec<u8> = Vec::with_capacity(64);"
print_statement (push_literal escaped) =
    codes "    body.extend_from_slice(b\"" ++ (escaped ++ codes "\");")
print_statement (push_read r format) = print_push format (getter r)
print_statement (out_literal escaped) = extend_out escaped
print_statement out_length = codes "    aot_runtime::write_decimal(out, body.len());"
print_statement out_body = codes "    out.extend_from_slice(&body);"

pub record Buffers : Type 0 where
  pub out : List ℕ
  pub body : List ℕ

module _ (encode : Str → List ℕ) (url_encode : Str → Str) (reads : CtxRead → Str) where
  abbrev push : List ℕ → Buffers → Buffers
  push bytes b = record b { body = b.body ++ bytes }

  abbrev put_out : List ℕ → Buffers → Buffers
  put_out bytes b = record b { out = b.out ++ bytes }

  -- None where a literal is not one of Rust.
  unfoldable pub run_statement : Statement → Buffers → Option Buffers
  unfolding read_bytes decimal
  run_statement (comment text) b = some b
  run_statement new_body b = some (record b { body = [] })
  run_statement (push_literal escaped) b = map (λ bytes. push bytes b) (read_bytes plain escaped)
  run_statement (push_read r format) b =
      some (push (encode (write_read url_encode reads format (reads r))) b)
  run_statement (out_literal escaped) b = map (λ bytes. put_out bytes b) (read_bytes plain escaped)
  run_statement out_length b = some (put_out (decimal (length b.body)) b)
  run_statement out_body b = some (put_out b.body b)

  abbrev and_then : Option Buffers → (Buffers → Option Buffers) → Option Buffers
  and_then none k = none
  and_then (some b) k = k b

  unfoldable pub run_statements : List Statement → Buffers → Option Buffers
  unfolding run_statement
  run_statements [] b = some b
  run_statements (s ∷ ss) b = and_then (run_statement s b) (λ b'. run_statements ss b')

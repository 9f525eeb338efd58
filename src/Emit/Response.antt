-- ===== src/Emit/Response.antt =====
-- packages/aot-transpiler/src/emit/rust.ts: the body of the emitted function. `encode` is
-- `TextEncoder.encode`.
use fearless.Base.{
  ℕ, zero, suc, ◌+◌, ◌/◌, ◌%◌, Str, codes, List, [], ◌∷◌, ◌++◌, ◌==◌, ltb, if◌then◌else◌,
  starts_with, drop, join, length, map, ◌||◌,
}
use fearless.Emit.Escape.{escape_rust_byte_string}
use fearless.Emit.StatusText.{status_text}
use fearless.Transpile.Shapes.{
  raw_format, json_string_format, url_format, InputName, method_input, path_input, url_input,
  ip_input, CtxRead, param_read, query_read, header_read, input_read, BodyChunk, literal,
  read_chunk, ResponseShape, static_shape, dynamic_shape,
}

-- `${n}` of a natural number: its digits, at most as many as the fuel, in front of `acc`.
unfoldable pub digits : ℕ → ℕ → Str → Str
digits zero n acc = acc
digits (suc fuel) n acc =
    let rest = digits fuel (n / 10) ((b'0' + n % 10) ∷ acc) in
    if ltb n 10 then (b'0' + n) ∷ acc else rest

unfoldable pub decimal : ℕ → Str
unfolding digits
decimal n = digits (suc n) n []

abbrev pub newline : Str
newline = 10 ∷ []

abbrev pub crlf : Str
crlf = 13 ∷ 10 ∷ []

abbrev pub extend_out : Str → Str
extend_out escaped = codes "    out.extend_from_slice(b\"" ++ (escaped ++ codes "\");")

-- `s.replace(/\\/g, "\\\\").replace(/"/g, '\\"')`, here and in `escape` of index.ts
abbrev escape_quote : ℕ → Str
escape_quote c = if c == b'\\' || c == b'"' then b'\\' ∷ c ∷ [] else c ∷ []

unfoldable pub escape_quotes : Str → Str
escape_quotes [] = []
escape_quotes (c ∷ s) = escape_quote c ++ escape_quotes s

abbrev pub input_text : InputName → Str
input_text method_input = codes "method"
input_text path_input = codes "path"
input_text url_input = codes "url"
input_text ip_input = codes "ip"

-- The expression that reads the request.
unfoldable pub getter : CtxRead → Str
unfolding escape_quotes
getter (param_read name) = codes "req.param(\"" ++ (escape_quotes name ++ codes "\")")
getter (query_read name) = codes "req.query_get(\"" ++ (escape_quotes name ++ codes "\")")
getter (header_read name) = codes "req.header(\"" ++ (escape_quotes name ++ codes "\")")
getter (input_read name) = codes "req." ++ input_text name

abbrev status_line : ℕ → Str
status_line status = codes "HTTP/1.1 " ++ (decimal status ++ (b' ' ∷ (status_text status ++ crlf)))

abbrev pub head_text : ℕ → Str → ℕ → Str
head_text status ct content_length =
    status_line status
    ++ (codes "Content-Type: "
        ++ (ct
            ++ (crlf
                ++ (codes "Content-Length: "
                    ++ (decimal content_length
                        ++ (crlf ++ (codes "Connection: keep-alive" ++ (crlf ++ crlf))))))))

abbrev pub redirect_text : ℕ → Str → Str
redirect_text status location =
    status_line status
    ++ (codes "Location: "
        ++ (location
            ++ (crlf
                ++ (codes "Content-Length: 0"
                    ++ (crlf ++ (codes "Connection: keep-alive" ++ (crlf ++ crlf)))))))

abbrev pub head_prefix : ℕ → Str → Str
head_prefix status ct =
    status_line status
    ++ (codes "Content-Type: "
        ++ (ct ++ (crlf ++ (codes "Connection: keep-alive" ++ (crlf ++ codes "Content-Length: ")))))

module _ (encode : Str → List ℕ) where
  -- `renderResponseHead`
  unfoldable pub render_response_head : ℕ → Str → ℕ → List ℕ
  unfolding decimal status_text
  render_response_head status ct content_length = encode (head_text status ct content_length)

  -- The response that a static shape stands for, as bytes.
  unfoldable pub static_bytes : ℕ → Str → Str → List ℕ
  unfolding render_response_head starts_with decimal status_text
  static_bytes status ct text =
      if starts_with (codes "redirect:") ct
      then encode (redirect_text status (drop 9 ct))
      else render_response_head status ct (length (encode text)) ++ encode text

  unfoldable pub emit_static : ℕ → Str → Str → Str
  unfolding static_bytes escape_rust_byte_string
  emit_static status ct text = join newline (
      codes "    // static response — bytes computed at compile time"
      ∷ extend_out (escape_rust_byte_string (static_bytes status ct text))
      ∷ [])

  unfoldable pub emit_chunk : BodyChunk → Str
  unfolding escape_rust_byte_string getter
  emit_chunk (literal text) =
      codes "body.extend_from_slice(b\"" ++ (escape_rust_byte_string (encode text) ++ codes "\");")
  emit_chunk (read_chunk r raw_format) =
      codes "body.extend_from_slice(" ++ (getter r ++ codes ".as_bytes());")
  emit_chunk (read_chunk r json_string_format) =
      codes "aot_runtime::write_json_string(&mut body, " ++ (getter r ++ codes ");")
  emit_chunk (read_chunk r url_format) =
      codes "aot_runtime::write_url_encoded(&mut body, " ++ (getter r ++ codes ");")

  unfoldable pub emit_dynamic : ℕ → Str → List BodyChunk → Str
  unfolding emit_chunk escape_rust_byte_string decimal status_text
  emit_dynamic status ct chunks = join newline (
      codes "    // dynamic response — body length computed at runtime"
      ∷ codes "    let mut body: Vec<u8> = Vec::with_capacity(64);"
      ∷ (map (λ chunk. codes "    " ++ emit_chunk chunk) chunks
          ++ (extend_out (escape_rust_byte_string (encode (head_prefix status ct)))
              ∷ codes "    aot_runtime::write_decimal(out, body.len());"
              ∷ extend_out (codes "\\r\\n\\r\\n")
              ∷ codes "    out.extend_from_slice(&body);"
              ∷ [])))

  unfoldable pub emit_response_body : ResponseShape → Str
  unfolding emit_static emit_dynamic
  emit_response_body (static_shape status ct text) = emit_static status ct text
  emit_response_body (dynamic_shape status ct chunks) = emit_dynamic status ct chunks

-- ===== src/Emit/ResponseLaws.antt =====
-- The emitted code writes the response: its literals read back as the bytes that they stand for, and
-- `Content-Length` is the length of the body.
use fearless.Base.{
  ℕ, zero, suc, ◌+◌, ◌-◌, ◌*◌, ◌/◌, ◌%◌, ◌<◌, ◌≤◌, ◌≡◌, refl, ap, ◌∙◌, some, true, false, Str,
  codes, List, [], ◌∷◌, ◌++◌, ◌&&◌, leb, ltb, arith, All, join, length, map, starts_with,
  All-append, ◌⊎◌, inl, inr,
}
use fearless.Emit.Escape.{escape_rust_byte_string}
use fearless.Emit.EscapeLaws.{plain, read_bytes, read_bytes-escape_rust_byte_string}
use fearless.Emit.Response.{
  digits, decimal, newline, head_prefix, render_response_head, static_bytes, emit_static,
}
use fearless.Emit.Wire.{head_lines}
use fearless.Emit.Machine.{
  Statement, comment, new_body, push_literal, push_read, out_literal, out_length, out_body,
  print_statement,
}
use fearless.Transpile.Chain.{parse_int, leading_digits}
use fearless.Transpile.Shapes.{CtxRead, BodyChunk, literal, read_chunk}
use fearless.Transpile.Value.{write_chunk}

leading_digits-digit :
    (m d : ℕ) (acc : Str)
    → d < 10
    → leading_digits m ((b'0' + d) ∷ acc) ≡ leading_digits (10 * m + d) acc
leading_digits-digit m d acc h =
    let taken : leb b'0' (b'0' + d) && leb (b'0' + d) b'9' ≡ true = ground arith in
    let same : b'0' + d - b'0' ≡ d = omega arith in rw (taken, same) refl

pub size : (n : ℕ) → (n < 10 × ltb n 10 ≡ true) ⊎ (10 ≤ n × ltb n 10 ≡ false)
size n = ground arith

pub leading_digits-digits :
    (fuel n : ℕ) (acc : Str)
    → n < fuel
    → leading_digits 0 (digits fuel n acc) ≡ leading_digits n acc
unfolding digits
leading_digits-digits zero n acc h = omega arith
leading_digits-digits (suc fuel) n acc h =
    let step = leading_digits-digit (n / 10) (n % 10) acc (omega arith) in
    let whole : 10 * (n / 10) + n % 10 ≡ n = omega arith in
    let zero_and : 10 * 0 + n ≡ n = omega arith in
    let last = leading_digits-digit 0 n acc in
    elim (size n) [
      | inl (small, e) ↦ rw e (last small ∙ ap (λ m. leading_digits m acc) zero_and)
      | inr (large, e) ↦
          let more = leading_digits-digits fuel (n / 10) ((b'0' + n % 10) ∷ acc) (omega arith) in
          rw e (more ∙ step ∙ ap (λ m. leading_digits m acc) whole)
    ]

-- The digits of a number are read as this number, so the fuel of `decimal` is enough.
pub parse_int-decimal : (n : ℕ) → parse_int (decimal n) ≡ n
unfolding decimal
parse_int-decimal n = leading_digits-digits (suc n) n [] (omega arith)

module _ (encode : Str → List ℕ) (url_encode : Str → Str) (reads : CtxRead → Str) where
  -- The statements for a chunk, and for a dynamic response.
  unfoldable pub chunk_statement : BodyChunk → Statement
  unfolding escape_rust_byte_string
  chunk_statement (literal text) = push_literal (escape_rust_byte_string (encode text))
  chunk_statement (read_chunk r format) = push_read r format

  abbrev pub ending : ℕ → Str → List Statement
  ending status ct =
      out_literal (escape_rust_byte_string (encode (head_prefix status ct)))
      ∷ out_length
      ∷ out_literal (codes "\\r\\n\\r\\n")
      ∷ out_body
      ∷ []

  abbrev pub dynamic_program : ℕ → Str → List BodyChunk → List Statement
  dynamic_program status ct chunks =
      comment (codes "dynamic response — body length computed at runtime")
      ∷ new_body
      ∷ (map chunk_statement chunks ++ ending status ct)

  -- The body, as bytes.
  unfoldable pub body_bytes : List BodyChunk → List ℕ
  body_bytes [] = []
  body_bytes (c ∷ cs) = encode (write_chunk url_encode reads c) ++ body_bytes cs

  -- A response as bytes: its head without the last number, that number, and the body behind an empty
  -- line.
  unfoldable pub dynamic_bytes : ℕ → Str → List ℕ → List ℕ
  unfolding decimal
  dynamic_bytes status ct body =
      encode (
        head_lines status
          ((codes "Content-Type", ct) ∷ (codes "Connection", codes "keep-alive") ∷ [])
          (codes "Content-Length: "))
      ++ (decimal (length body) ++ (13 ∷ 10 ∷ 13 ∷ 10 ∷ body))

  abbrev pub static_head : ℕ → Str → ℕ → Str
  static_head status ct content_length =
      head_lines status
        ((codes "Content-Type", ct)
          ∷ (codes "Content-Length", decimal content_length)
          ∷ (codes "Connection", codes "keep-alive")
          ∷ [])
        (13 ∷ 10 ∷ [])

  -- The code for a static response that is no redirect is one literal. Rust reads it as the status
  -- line, the fields `Content-Type`, `Content-Length` with the number of bytes of the body in decimal
  -- and `Connection`, an empty line, and the body; and that decimal is read as that number. `encode`
  -- makes bytes.
  pub emit_static_lem :
      ((s : Str) → All (λ b. b < 256) (encode s))
      → (status : ℕ) (ct text : Str) → starts_with (codes "redirect:") ct ≡ false
      → (escaped : Str) × (emit_static encode status ct text
          ≡ join newline (
              codes "    // static response — bytes computed at compile time"
              ∷ print_statement (out_literal escaped)
              ∷ []))
        × (read_bytes plain escaped
            ≡ some (encode (static_head status ct (length (encode text))) ++ encode text))
        × (parse_int (decimal (length (encode text))) ≡ length (encode text))
  unfolding emit_static static_bytes print_statement render_response_head
  emit_static_lem bytes status ct text h =
      let head = static_head status ct (length (encode text)) in
      (
        escape_rust_byte_string (encode head ++ encode text),
        rw h refl,
        read_bytes-escape_rust_byte_string (encode head ++ encode text)
            (All-append (λ b. b < 256) (encode head) (encode text) (bytes head) (bytes text)),
        parse_int-decimal (length (encode text)),
      )
